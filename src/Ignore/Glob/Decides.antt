-- ===== src/Ignore/Glob/Decides.antt =====
-- What the matcher decides.
use amisync.Common.{
  ℕ, zero, suc, ◌+◌, ◌≤◌, ◌<◌, ◌≡◌, ◌≢◌, inl, inr, refl, sym, Bool, true, false, Option, none, some,
  List, [], ◌∷◌, ◌++◌, length, arith, if◌then◌else◌, ◌==◌, Bool-cases, ==_iff, append_nil,
}
use amisync.Ignore.Glob.{
  lc, is_neg, class_start, match_class, second_star, drop_slash, star_loop, enter, after_class,
  after_star, glob_step, glob_loop, glob_rec, first_lc, same_first, at_stop, rest_of, is_end,
}
use amisync.Ignore.Glob.Items.{
  Member, Item, literal, one, deep_star, members, star_item, class_item, item, then_items, items_of,
  items, InClass, Single, Matches,
}
use amisync.Ignore.Glob.Classes.{match_class-none, match_class-InClass}
use amisync.Ignore.Glob.Fuel.{length-drop_slash, length-match_class}
use amisync.Ignore.Glob.Stretch.{
  Decided, Decided-map, Decided-no, Decided-yes, enter-Decided, star_loop-Decided,
}

module _ (P : ℕ → Type 0) (is : List Item) where
  -- The texts that start with one character of a kind.
  abbrev Front : List ℕ → Type 0
  Front s = (u : List ℕ) × (t : List ℕ) × (s ≡ u ++ t) × Single P u × Matches is t

  Front-nil : ¬ Front []
  Front-nil (u, t, e, (x, k, p), h) = let q : [] ≡ (x ∷ []) ++ t = rw k at e in absurd (cc)

  Front-cons : (x : ℕ) (s : List ℕ) → P x → Matches is s → Front (x ∷ s)
  Front-cons x s p h = (x ∷ [], s, refl, (x, refl, p), h)

  Front-uncons : (x : ℕ) (s : List ℕ) → Front (x ∷ s) → P x × Matches is s
  Front-uncons x s (u, t, e, (y, k, p), h) =
      let q : x ∷ s ≡ y ∷ t = rw k at e in
      let ex : x ≡ y = cc in let es : s ≡ t = cc in (rw ex p, rw es h)

  -- A round that refuses the character, and one that goes on behind it.
  Front-no :
      (x : ℕ) (s : List ℕ) (budget : ℕ) → ¬ P x → Decided budget (false, budget) (Front (x ∷ s))
  Front-no x s budget h = Decided-no (Front (x ∷ s)) budget (λ f. h (Front-uncons x s f).0)

  Front-yes :
      (x : ℕ) (s : List ℕ) (budget : ℕ) (r : Bool × ℕ)
      → P x
      → Decided budget r (Matches is s)
      → Decided budget r (Front (x ∷ s))
  Front-yes x s budget r h d =
      Decided-map (Matches is s) (Front (x ∷ s)) budget r (Front-cons x s h)
        (λ f. (Front-uncons x s f).1) d

either_no :
    (P : Type 0) (budget : ℕ) (b : Bool)
    → ¬ P
    → Decided budget (if b then (false, budget) else (false, budget)) P
either_no P budget true h = Decided-no P budget h
either_no P budget false h = Decided-no P budget h

-- The rest of the loop, with `more` for what it matches.
module _ (go : List ℕ → List ℕ → ℕ → Bool × ℕ) (more : List ℕ → List Item) (bound : ℕ)
    (h : (q t : List ℕ) (left : ℕ)
      → length q ≤ bound
      → Decided left (go q t left) (Matches (more q) t))
    (ended : more [] ≡ []) where
  one_Decided :
      (p s : List ℕ) (budget : ℕ)
      → length p ≤ bound
      → Decided budget
          (if at_stop s then (false, budget) else go p (rest_of s) budget)
          (Matches (one ∷ more p) s)
  one_Decided p [] budget l =
      Decided-no (Front (λ x. x ≢ b'/') (more p) []) budget (Front-nil (λ x. x ≢ b'/') (more p))
  one_Decided p (x ∷ s) budget l = elim (Bool-cases (x == b'/')) [
    | inl e ↦
        let eq : x ≡ b'/' = ground arith in
        rw e (Front-no (λ y. y ≢ b'/') (more p) x s budget (λ n. n eq))
    | inr e ↦
        let ne : x ≢ b'/' = λ k. ground arith in
        rw e (Front-yes (λ y. y ≢ b'/') (more p) x s budget (go p s budget) ne (h p s budget l))
  ]

  literal_Decided :
      (c : ℕ) (p s : List ℕ) (budget : ℕ)
      → length p ≤ bound
      → Decided budget
          (if same_first c s then go p (rest_of s) budget else (false, budget))
          (Matches (literal c ∷ more p) s)
  literal_Decided c p [] budget l =
      Decided-no (Front (λ x. lc c ≡ lc x) (more p) []) budget
        (Front-nil (λ x. lc c ≡ lc x) (more p))
  literal_Decided c p (x ∷ s) budget l = elim (Bool-cases (lc c == lc x)) [
    | inl e ↦
        let eq = (==_iff (lc c) (lc x)).0 e in
        rw e (Front-yes (λ y. lc c ≡ lc y) (more p) x s budget (go p s budget) eq (h p s budget l))
    | inr e ↦
        let ne : lc c ≢ lc x = λ k. let f = (==_iff (lc c) (lc x)).1 k in absurd (cc) in
        rw e (Front-no (λ y. lc c ≡ lc y) (more p) x s budget ne)
  ]

  class_Decided :
      (p : List ℕ) (o : Option (List Member × List ℕ)) (s : List ℕ) (budget : ℕ)
      → length p ≤ bound
      → members (class_start p) ≡ o
      → Decided budget
          (if at_stop s
            then (false, budget)
            else after_class (λ q. go q (rest_of s) budget) (match_class p (first_lc s)) budget)
          (Matches (then_items (class_item (is_neg p) o) more) s)
  class_Decided p none [] budget l e = Decided-no _ budget (λ (u, t, k, n, m). n)
  class_Decided p none (x ∷ s) budget l e =
      let r = match_class-none p (lc x) e in
      rw r (either_no _ budget (x == b'/') (λ (u, t, k, n, m). n))
  class_Decided p (some (ms, q)) [] budget l e =
      let Q = λ (x : ℕ). (x ≢ b'/') × InClass (is_neg p) ms (lc x) in
      Decided-no (Front Q (more q) []) budget (Front-nil Q (more q))
  class_Decided p (some (ms, q)) (x ∷ s) budget l e =
      let Q = λ (y : ℕ). (y ≢ b'/') × InClass (is_neg p) ms (lc y) in
      elim (match_class-InClass p (lc x) ms q e) [
        | inr (r, out) ↦ rw r (
            either_no (Front Q (more q) (x ∷ s)) budget (x == b'/')
              (λ f. out (Front-uncons Q (more q) x s f).0.1))
        | inl (r, inside) ↦ elim (Bool-cases (x == b'/')) [
          | inl slash ↦
              let eq : x ≡ b'/' = ground arith in
              rw slash (Front-no Q (more q) x s budget (λ n. n.0 eq))
          | inr plain ↦
              let ne : x ≢ b'/' = λ k. ground arith in
              let short = length-match_class p (lc x) q r in
              rw (plain, r)
                (Front-yes Q (more q) x s budget (go q s budget) (ne, inside)
                  (h q s budget (omega arith)))
        ]
      ]

  -- A `**` at the end takes the rest of the text at once.
  deep_Decided :
      (q s : List ℕ) (budget : ℕ)
      → length q ≤ bound
      → Decided budget
          (if is_end q
            then (true, budget)
            else star_loop true (λ t left. enter (go q t) left) s budget)
          (Matches (deep_star ∷ more q) s)
  deep_Decided [] s budget l = Decided-yes _ budget (s, [], sym (append_nil s), tt, rw ended refl)
  deep_Decided (c ∷ q) s budget l =
      star_loop-Decided true (more (c ∷ q)) _
        (λ t left.
          enter-Decided (Matches (more (c ∷ q)) t) (go (c ∷ q) t) left (λ k. h (c ∷ q) t k l))
        s budget

  star_Decided :
      (p s : List ℕ) (budget : ℕ)
      → length p ≤ bound
      → Decided budget
          (after_star go p s budget (second_star p))
          (Matches (then_items (star_item p) more) s)
  star_Decided [] s budget l =
      star_loop-Decided false (more []) _
        (λ t left. enter-Decided (Matches (more []) t) (go [] t) left (λ k. h [] t k l)) s budget
  star_Decided (c ∷ p) s budget l = elim (Bool-cases (c == b'*')) [
    | inr e ↦ rw e (
        star_loop-Decided false (more (c ∷ p)) _
          (λ t left.
            enter-Decided (Matches (more (c ∷ p)) t) (go (c ∷ p) t) left (λ k. h (c ∷ p) t k l))
          s budget)
    | inl e ↦ rw e (deep_Decided (drop_slash p) s budget (omega (arith, length-drop_slash p)))
  ]

  glob_step-Decided :
      (c : ℕ) (p s : List ℕ) (budget : ℕ)
      → length p ≤ bound
      → Decided budget (glob_step go c p s budget) (Matches (then_items (item c p) more) s)
  glob_step-Decided c p s budget l = elim (Bool-cases (c == b'*')) [
    | inl e ↦ rw e (star_Decided p s budget l)
    | inr e ↦ elim (Bool-cases (c == b'?')) [
      | inl k ↦ rw (e, k) (one_Decided p s budget l)
      | inr k ↦ elim (Bool-cases (c == b'[')) [
        | inl m ↦ rw (e, k, m) (class_Decided p (members (class_start p)) s budget l refl)
        | inr m ↦ rw (e, k, m) (literal_Decided c p s budget l)
      ]
    ]
  ]

items_of-nil : (fuel : ℕ) → items_of fuel [] ≡ []
unfolding items_of
items_of-nil zero = refl
items_of-nil (suc fuel) = refl

end_Decided : (s : List ℕ) (budget : ℕ) → Decided budget (is_end s, budget) (s ≡ [])
end_Decided [] budget = Decided-yes ([] ≡ []) budget refl
end_Decided (c ∷ s) budget = Decided-no (c ∷ s ≡ []) budget (λ e. cc)

glob_loop-Decided :
    (stuck : Bool × ℕ) (fuel : ℕ) (p s : List ℕ) (budget : ℕ)
    → length p < fuel
    → Decided budget (glob_loop stuck fuel p s budget) (Matches (items_of fuel p) s)
unfolding glob_loop items_of
glob_loop-Decided stuck zero p s budget l = absurd (omega arith)
glob_loop-Decided stuck (suc fuel) [] s budget l = end_Decided s budget
glob_loop-Decided stuck (suc fuel) (c ∷ p) s budget l =
    glob_step-Decided (λ q t left. glob_loop stuck fuel q t left) (λ q. items_of fuel q) (length p)
      (λ q t left k. glob_loop-Decided stuck fuel q t left (omega arith)) (items_of-nil fuel) c p s
      budget (omega arith)

-- A match that glob_rec reports is one, whatever the budget; and where it reports none and has budget
-- left, there is none. The budget never grows.
pub glob_rec-Matches :
    (p s : List ℕ) (budget : ℕ)
    → ((glob_rec p s budget).0 ≡ true → Matches (items p) s)
      × (0 < (glob_rec p s budget).1 → (glob_rec p s budget).0 ≡ false → ¬ Matches (items p) s)
      × ((glob_rec p s budget).1 ≤ budget)
unfolding glob_rec items
glob_rec-Matches p s budget =
    let (le, y, n) =
      enter-Decided (Matches (items_of (length p + 1) p) s)
        (glob_loop (false, 0) (length p + 1) p s) budget
        (λ left. glob_loop-Decided (false, 0) (length p + 1) p s left (omega arith)) in
    (y, (λ l e. n e l), le)
