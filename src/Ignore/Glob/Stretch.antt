-- ===== src/Ignore/Glob/Stretch.antt =====
-- What a run of the matcher decides, and the loop of a wildcard.
use amisync.Common.{
  ℕ, ◌-◌, ◌≤◌, ◌<◌, ◌≡◌, ◌⊎◌, inl, inr, refl, sym, ap, ◌∙◌, Bool, true, false, ◌&&◌, not, List, [],
  ◌∷◌, ◌++◌, arith, leb, ◌==◌, Bool-cases,
}
use amisync.Ignore.Glob.{star_loop, try_next, enter}
use amisync.Ignore.Glob.Items.{Item, star, deep_star, Part, Matches}

-- A hit shows P; a miss refutes it where budget is left. The budget does not grow.
abbrev pub Decided : ℕ → Bool × ℕ → Type 0 → Type 0
Decided budget r P = (r.1 ≤ budget) × (r.0 ≡ true → P) × (r.0 ≡ false → 0 < r.1 → ¬ P)

pub Decided-map :
    (P Q : Type 0) (budget : ℕ) (r : Bool × ℕ)
    → (P → Q)
    → (Q → P)
    → Decided budget r P
    → Decided budget r Q
Decided-map P Q budget r f g (le, y, n) = (le, λ e. f (y e), λ e l q. n e l (g q))

pub Decided-no : (P : Type 0) (budget : ℕ) → ¬ P → Decided budget (false, budget) P
Decided-no P budget h = (omega arith, λ e. absurd (cc), λ e l. h)

pub Decided-yes : (P : Type 0) (budget : ℕ) → P → Decided budget (true, budget) P
Decided-yes P budget h = (omega arith, λ e. h, λ e l. absurd (cc))

pub enter-Decided :
    (P : Type 0) (run : ℕ → Bool × ℕ) (budget : ℕ)
    → ((left : ℕ) → Decided left (run left) P)
    → Decided budget (enter run budget) P
enter-Decided P run budget h = elim (Bool-cases (leb budget 1)) [
  | inl e ↦ rw e (omega arith, (λ k. absurd (cc)), (λ k l. absurd (ground arith)))
  | inr e ↦ let (le, y, n) = h (budget - 1) in rw e (omega arith, y, n)
]

pub try_next-Decided :
    (P S T : Type 0) (budget : ℕ) (stop : Bool) (r : Bool × ℕ) (next : ℕ → Bool × ℕ)
    → Decided budget r P
    → (P → S)
    → (stop ≡ true → ¬ P → ¬ S)
    → (stop ≡ false → ¬ P → ¬ T → ¬ S)
    → (stop ≡ false → T → S)
    → ((left : ℕ) → Decided left (next left) T)
    → Decided budget (try_next stop r next) S
try_next-Decided P S T budget stop (true, left) next (le, y, n) ps stopped further ts h =
    (le, (λ e. ps (y refl)), (λ e l. absurd (cc)))
try_next-Decided P S T budget true (false, left) next (le, y, n) ps stopped further ts h =
    (le, (λ e. absurd (cc)), (λ e l. stopped refl (n refl l)))
try_next-Decided P S T budget false (false, left) next (le, y, n) ps stopped further ts h =
    let (le2, y2, n2) = h left in
    (omega arith, (λ e. ts refl (y2 e)), (λ e l. further refl (n refl (omega arith)) (n2 e l)))

abbrev pub stretch : Bool → Item
stretch true = deep_star
stretch false = star

pub stretch_nil : (deep : Bool) → Part (stretch deep) []
stretch_nil true = tt
stretch_nil false = tt

pub stretch_cons :
    (deep : Bool) (c : ℕ) (u : List ℕ)
    → (not deep && (c == b'/')) ≡ false
    → Part (stretch deep) u
    → Part (stretch deep) (c ∷ u)
stretch_cons true c u h k = tt
stretch_cons false c u h k = ((λ e. ground arith), k)

pub stretch_uncons :
    (deep : Bool) (c : ℕ) (u : List ℕ)
    → Part (stretch deep) (c ∷ u)
    → ((not deep && (c == b'/')) ≡ false) × Part (stretch deep) u
stretch_uncons true c u h = (refl, tt)
stretch_uncons false c u (hc, h) = (ground arith, h)

module _ (deep : Bool) (is : List Item) where
  -- A stretch takes nothing of the text, or its first character and more.
  pub stretch_now : (s : List ℕ) → Matches is s → Matches (stretch deep ∷ is) s
  stretch_now s h = ([], s, refl, stretch_nil deep, h)

  pub stretch_later :
      (c : ℕ) (s : List ℕ)
      → (not deep && (c == b'/')) ≡ false
      → Matches (stretch deep ∷ is) s
      → Matches (stretch deep ∷ is) (c ∷ s)
  stretch_later c s e (u, t, p, k, h) = (c ∷ u, t, ap (◌∷◌ c) p, stretch_cons deep c u e k, h)

  pub stretch_none : (s : List ℕ) → s ≡ [] → Matches (stretch deep ∷ is) s → Matches is s
  stretch_none s e ([], t, p, k, h) = rw p h
  stretch_none s e (c ∷ u, t, p, k, h) = let q : [] ≡ c ∷ (u ++ t) = sym e ∙ p in absurd (cc)

  pub stretch_cases :
      (c : ℕ) (s : List ℕ)
      → Matches (stretch deep ∷ is) (c ∷ s)
      → Matches is (c ∷ s) ⊎ (((not deep && (c == b'/')) ≡ false) × Matches (stretch deep ∷ is) s)
  stretch_cases c s ([], t, p, k, h) = inl (rw p h)
  stretch_cases c s (x ∷ u, t, p, k, h) =
      let ex : c ≡ x = cc in
      let es : s ≡ u ++ t = cc in
      let (e, k2) = stretch_uncons deep x u k in inr (rw ex e, (u, t, es, k2, h))

  pub star_loop-Decided :
      (rec : List ℕ → ℕ → Bool × ℕ)
      → ((t : List ℕ) (left : ℕ) → Decided left (rec t left) (Matches is t))
      → (s : List ℕ) (budget : ℕ)
      → Decided budget (star_loop deep rec s budget) (Matches (stretch deep ∷ is) s)
  unfolding star_loop
  star_loop-Decided rec h [] budget =
      Decided-map (Matches is []) (Matches (stretch deep ∷ is) []) budget (rec [] budget)
        (stretch_now []) (stretch_none [] refl) (h [] budget)
  star_loop-Decided rec h (c ∷ s) budget =
      try_next-Decided (Matches is (c ∷ s)) (Matches (stretch deep ∷ is) (c ∷ s))
        (Matches (stretch deep ∷ is) s) budget (not deep && (c == b'/')) (rec (c ∷ s) budget)
        (λ left. star_loop deep rec s left) (h (c ∷ s) budget) (stretch_now (c ∷ s))
        (λ e np m. elim (stretch_cases c s m) [ inl a ↦ np a | inr (f, b) ↦ absurd (cc) ])
        (λ e np nt m. elim (stretch_cases c s m) [ inl a ↦ np a | inr (f, b) ↦ nt b ])
        (λ e t. stretch_later c s e t) (λ left. star_loop-Decided rec h s left)
