-- ===== src/Ignore/Glob/Fuel.antt =====
-- The loop of the matcher takes fewer rounds than its fuel: each round and each call gets a shorter
-- pattern.
use amisync.Common.{
  ℕ, zero, suc, ◌-◌, ◌≤◌, ◌<◌, ◌≡◌, refl, sym, ap, ◌∙◌, inl, inr, Bool, true, false, ◌&&◌, ◌||◌,
  not, Option, none, some, List, [], ◌∷◌, length, if◌then◌else◌, leb, ◌==◌, arith, Bool-cases,
}
use amisync.Ignore.Glob.{
  members_loop, match_class, class_start, class_result, is_neg, second_star, drop_slash, star_loop,
  try_next, enter, after_class, after_star, glob_step, glob_loop, lc, first_lc, same_first, at_stop,
  rest_of, is_end, in_range,
}

pub length-drop_slash : (p : List ℕ) → length (drop_slash p) ≤ length p
length-drop_slash [] = omega arith
length-drop_slash (c ∷ p) = ground arith

pub length-second_star : (p q : List ℕ) → second_star p ≡ some q → length q ≤ length p
length-second_star [] q h = cc
length-second_star (c ∷ p) q h =
    let l = length-drop_slash p in
    elim (Bool-cases (c == b'*')) [
      | inl e ↦
          let k : some (drop_slash p) ≡ some q = rw e at h in
          let m : drop_slash p ≡ q = cc in rw (sym m) (omega arith)
      | inr e ↦ let k : none ≡ some q = rw e at h in absurd (cc)
    ]

length-members_loop :
    (sc : ℕ) (m : Bool) (p : List ℕ) (r : Bool) (q : List ℕ)
    → members_loop sc m p ≡ some (r, q)
    → length q ≤ length p
unfolding members_loop
length-members_loop sc m [] r q h = cc
length-members_loop sc m (c ∷ []) r q h = ground arith
length-members_loop sc m (c ∷ d ∷ []) r q h =
    ground (arith, length-members_loop sc (m || (sc == lc c)) (d ∷ []) r q)
length-members_loop sc m (c ∷ d ∷ e ∷ p) r q h = ground (
  arith,
  length-members_loop sc (m || in_range sc c e) p r q,
  length-members_loop sc (m || (sc == lc c)) (d ∷ e ∷ p) r q,
)

length-class_start : (p : List ℕ) → length (class_start p) ≤ length p
length-class_start [] = omega arith
length-class_start (c ∷ p) = ground arith

class_result-some :
    (neg : Bool) (o : Option (Bool × List ℕ)) (q : List ℕ)
    → class_result neg o ≡ some q
    → (r : Bool) × (o ≡ some (r, q)) × (r ≡ not neg)
class_result-some neg none q h = cc
class_result-some true (some (true, p)) q h = cc
class_result-some false (some (true, p)) q h = (true, ground arith, refl)
class_result-some true (some (false, p)) q h = (false, ground arith, refl)
class_result-some false (some (false, p)) q h = cc

pub length-match_class :
    (p : List ℕ) (sc : ℕ) (q : List ℕ) → match_class p sc ≡ some q → length q ≤ length p
unfolding match_class
length-match_class p sc q h =
    let (r, e, _) = class_result-some (is_neg p) (members_loop sc false (class_start p)) q h in
    omega (arith, length-members_loop sc false (class_start p) r q e, length-class_start p)

try_next-ext :
    (stop : Bool) (r : Bool × ℕ) (f g : ℕ → Bool × ℕ)
    → ((left : ℕ) → f left ≡ g left)
    → try_next stop r f ≡ try_next stop r g
try_next-ext stop (true, b) f g h = refl
try_next-ext true (false, b) f g h = refl
try_next-ext false (false, b) f g h = h b

pub if-ext {ℓ} :
    {A : Type ℓ} (b : Bool) (x x' y y' : A)
    → x ≡ x'
    → y ≡ y'
    → (if b then x else y) ≡ (if b then x' else y')
if-ext true x x' y y' h k = h
if-ext false x x' y y' h k = k

-- Two ways to go on that agree on shorter patterns.
module _ (go other : List ℕ → List ℕ → ℕ → Bool × ℕ) where
  abbrev Agree : List ℕ → Type 0
  Agree p = (q t : List ℕ) (left : ℕ) → length q ≤ length p → go q t left ≡ other q t left

  enter-Agree :
      (p t : List ℕ) (left : ℕ)
      → go p t (left - 1) ≡ other p t (left - 1)
      → enter (go p t) left ≡ enter (other p t) left
  enter-Agree p t left h = ap (λ (r : Bool × ℕ). if leb left 1 then (false, left - 1) else r) h

  star_loop-Agree :
      (p : List ℕ) (deep : Bool) (s : List ℕ) (budget : ℕ)
      → ((t : List ℕ) (left : ℕ) → go p t left ≡ other p t left)
      → star_loop deep (λ t left. enter (go p t) left) s budget
        ≡ star_loop deep (λ t left. enter (other p t) left) s budget
  unfolding star_loop
  star_loop-Agree p deep [] budget h = enter-Agree p [] budget (h [] (budget - 1))
  star_loop-Agree p deep (c ∷ s) budget h =
      let e = enter-Agree p (c ∷ s) budget (h (c ∷ s) (budget - 1)) in
      let stop = not deep && (c == b'/') in
      let rec = λ (t : List ℕ) (left : ℕ). enter (other p t) left in
      let old = λ (left : ℕ). star_loop deep (λ t left'. enter (go p t) left') s left in
      ap (λ (r : Bool × ℕ). try_next stop r old) e
      ∙ try_next-ext stop (rec (c ∷ s) budget) old (λ left. star_loop deep rec s left)
          (λ left. star_loop-Agree p deep s left h)

  after_star-Agree :
      (p s : List ℕ) (budget : ℕ) (o : Option (List ℕ))
      → Agree p
      → ((q : List ℕ) → o ≡ some q → length q ≤ length p)
      → after_star go p s budget o ≡ after_star other p s budget o
  after_star-Agree p s budget none h k =
      star_loop-Agree p false s budget (λ t left. h p t left (omega arith))
  after_star-Agree p s budget (some q) h k =
      if-ext (is_end q) (true, budget) (true, budget) _ _ refl
        (star_loop-Agree q true s budget (λ t left. h q t left (k q refl)))

  after_class-Agree :
      (p s : List ℕ) (budget : ℕ) (o : Option (List ℕ))
      → Agree p
      → ((q : List ℕ) → o ≡ some q → length q ≤ length p)
      → after_class (λ q. go q s budget) o budget ≡ after_class (λ q. other q s budget) o budget
  after_class-Agree p s budget none h k = refl
  after_class-Agree p s budget (some q) h k = h q s budget (k q refl)

  glob_step-Agree :
      (c : ℕ) (p s : List ℕ) (budget : ℕ)
      → Agree p
      → glob_step go c p s budget ≡ glob_step other c p s budget
  glob_step-Agree c p s budget h =
      let whole = h p (rest_of s) budget (omega arith) in
      if-ext (c == b'*') _ _ _ _
        (after_star-Agree p s budget (second_star p) h (length-second_star p))
        (if-ext (c == b'?') _ _ _ _
          (if-ext (at_stop s) (false, budget) (false, budget) _ _ refl whole)
          (if-ext (c == b'[') _ _ _ _
            (if-ext (at_stop s) (false, budget) (false, budget) _ _ refl
              (after_class-Agree p (rest_of s) budget (match_class p (first_lc s)) h
                (length-match_class p (first_lc s))))
            (if-ext (same_first c s) _ _ (false, budget) (false, budget) whole refl)))

-- With more fuel than the pattern has bytes, the loop comes to its end: its result depends neither on
-- what running out of fuel would give nor on how much more fuel there is.
pub glob_loop-fuel :
    (stuck stuck' : Bool × ℕ) (fuel more : ℕ) (p s : List ℕ) (budget : ℕ)
    → length p < fuel
    → length p < more
    → glob_loop stuck fuel p s budget ≡ glob_loop stuck' more p s budget
unfolding glob_loop
glob_loop-fuel stuck stuck' zero more p s budget h k = absurd (omega arith)
glob_loop-fuel stuck stuck' (suc fuel) zero p s budget h k = absurd (omega arith)
glob_loop-fuel stuck stuck' (suc fuel) (suc more) [] s budget h k = refl
glob_loop-fuel stuck stuck' (suc fuel) (suc more) (c ∷ p) s budget h k =
    glob_step-Agree (λ q t left. glob_loop stuck fuel q t left)
      (λ q t left. glob_loop stuck' more q t left) c p s budget
      (λ q t left l. glob_loop-fuel stuck stuck' fuel more q t left (omega arith) (omega arith))
