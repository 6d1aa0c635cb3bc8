-- ===== src/Ignore/Glob/Classes.antt =====
-- match_class against the members of a class.
use amisync.Common.{
  ℕ, ◌≡◌, ◌↔◌, ◌⊎◌, inl, inr, refl, sym, ap, ◌∙◌, Bool, true, false, ◌&&◌, ◌||◌, not, Option, none,
  some, List, [], ◌∷◌, arith, if◌then◌else◌, ◌==◌, Bool-cases,
}
use amisync.Ignore.Glob.{lc, is_neg, class_start, in_range, members_loop, class_result, match_class}
use amisync.Ignore.Glob.Items.{
  Member, single, range, members, with_member, Takes, AnyTakes, InClass,
}
use amisync.Ignore.Glob.Fuel.{if-ext}

takes : Member → ℕ → Bool
takes (single c) sc = sc == lc c
takes (range a b) sc = in_range sc a b

any_takes : List Member → ℕ → Bool
any_takes [] sc = false
any_takes (m ∷ ms) sc = takes m sc || any_takes ms sc

or_assoc : (a b c : Bool) → (a || b) || c ≡ a || (b || c)
or_assoc true b c = refl
or_assoc false b c = refl

or_false : (a : Bool) → a || false ≡ a
or_false true = refl
or_false false = refl

abbrev flagged : Bool → ℕ → Option (List Member × List ℕ) → Option (Bool × List ℕ)
flagged m sc none = none
flagged m sc (some (ms, q)) = some (m || any_takes ms sc, q)

flagged-with_member :
    (m : Bool) (sc : ℕ) (x : Member) (o : Option (List Member × List ℕ))
    → flagged (m || takes x sc) sc o ≡ flagged m sc (with_member x o)
unfolding any_takes
flagged-with_member m sc x none = refl
flagged-with_member m sc x (some (ms, q)) =
    ap (λ (b : Bool). some (b, q)) (or_assoc m (takes x sc) (any_takes ms sc))

flagged_end : (m : Bool) (sc : ℕ) (q : List ℕ) → some (m, q) ≡ flagged m sc (some ([], q))
unfolding any_takes
flagged_end m sc q = ap (λ (b : Bool). some (b, q)) (sym (or_false m))

flagged_if :
    (m : Bool) (sc : ℕ) (b : Bool) (x y : Option (List Member × List ℕ))
    → (if b then flagged m sc x else flagged m sc y) ≡ flagged m sc (if b then x else y)
flagged_if m sc true x y = refl
flagged_if m sc false x y = refl

members_loop-members :
    (sc : ℕ) (m : Bool) (q : List ℕ) → members_loop sc m q ≡ flagged m sc (members q)
unfolding members_loop members takes
members_loop-members sc m [] = refl
members_loop-members sc m (c ∷ []) =
    if-ext (c == b']') _ _ none none (flagged_end m sc []) refl
    ∙ flagged_if m sc (c == b']') (some ([], [])) none
members_loop-members sc m (c ∷ d ∷ []) =
    if-ext (c == b']') _ _ _ _ (flagged_end m sc (d ∷ [])) (
      members_loop-members sc (m || (sc == lc c)) (d ∷ [])
      ∙ flagged-with_member m sc (single c) (members (d ∷ [])))
    ∙ flagged_if m sc (c == b']') _ _
members_loop-members sc m (c ∷ d ∷ e ∷ q) =
    if-ext (c == b']') _ _ _ _ (flagged_end m sc (d ∷ e ∷ q)) (
      if-ext ((d == b'-') && not (e == b']')) _ _ _ _
        (members_loop-members sc (m || in_range sc c e) q
          ∙ flagged-with_member m sc (range c e) (members q))
        (members_loop-members sc (m || (sc == lc c)) (d ∷ e ∷ q)
          ∙ flagged-with_member m sc (single c) (members (d ∷ e ∷ q)))
      ∙ flagged_if m sc ((d == b'-') && not (e == b']')) _ _)
    ∙ flagged_if m sc (c == b']') _ _

takes_iff : (x : Member) (sc : ℕ) → (takes x sc ≡ true) ↔ Takes x sc
unfolding takes
takes_iff (single c) sc = ground arith
takes_iff (range a b) sc = ground arith

any_takes→AnyTakes : (ms : List Member) (sc : ℕ) → any_takes ms sc ≡ true → AnyTakes ms sc
unfolding any_takes
any_takes→AnyTakes [] sc h = cc
any_takes→AnyTakes (m ∷ ms) sc h = elim (Bool-cases (takes m sc)) [
  | inl e ↦ inl ((takes_iff m sc).0 e)
  | inr e ↦ inr (any_takes→AnyTakes ms sc (rw e at h))
]

or_true : (a : Bool) → a || true ≡ true
or_true true = refl
or_true false = refl

AnyTakes→any_takes : (ms : List Member) (sc : ℕ) → AnyTakes ms sc → any_takes ms sc ≡ true
unfolding any_takes
AnyTakes→any_takes [] sc h = absurd h
AnyTakes→any_takes (m ∷ ms) sc (inl h) = let e = (takes_iff m sc).1 h in rw e refl
AnyTakes→any_takes (m ∷ ms) sc (inr h) =
    let e = AnyTakes→any_takes ms sc h in rw e (or_true (takes m sc))

match_class-flagged :
    (q : List ℕ) (sc : ℕ)
    → match_class q sc ≡ class_result (is_neg q) (flagged false sc (members (class_start q)))
unfolding match_class
match_class-flagged q sc =
    ap (class_result (is_neg q)) (members_loop-members sc false (class_start q))

pub match_class-none :
    (q : List ℕ) (sc : ℕ) → members (class_start q) ≡ none → match_class q sc ≡ none
match_class-none q sc e =
    match_class-flagged q sc
    ∙ ap (λ (o : Option (List Member × List ℕ)). class_result (is_neg q) (flagged false sc o)) e

taken :
    (neg : Bool) (ms : List Member) (sc : ℕ) (r : List ℕ)
    → AnyTakes ms sc
    → ((class_result neg (some (true, r)) ≡ some r) × InClass neg ms sc)
      ⊎ ((class_result neg (some (true, r)) ≡ none) × ¬ InClass neg ms sc)
taken true ms sc r h = inr (refl, λ k. k h)
taken false ms sc r h = inl (refl, h)

left_out :
    (neg : Bool) (ms : List Member) (sc : ℕ) (r : List ℕ)
    → ¬ AnyTakes ms sc
    → ((class_result neg (some (false, r)) ≡ some r) × InClass neg ms sc)
      ⊎ ((class_result neg (some (false, r)) ≡ none) × ¬ InClass neg ms sc)
left_out true ms sc r h = inl (refl, h)
left_out false ms sc r h = inr (refl, h)

class_result-InClass :
    (neg : Bool) (ms : List Member) (sc : ℕ) (r : List ℕ)
    → ((class_result neg (some (any_takes ms sc, r)) ≡ some r) × InClass neg ms sc)
      ⊎ ((class_result neg (some (any_takes ms sc, r)) ≡ none) × ¬ InClass neg ms sc)
class_result-InClass neg ms sc r = elim (Bool-cases (any_takes ms sc)) [
  | inl e ↦ rw e (taken neg ms sc r (any_takes→AnyTakes ms sc e))
  | inr e ↦ rw e (left_out neg ms sc r (λ h. ground (arith, AnyTakes→any_takes ms sc h)))
]

-- An unclosed class takes nothing; a closed one takes what is among its members, or what is not if it is
-- negated.
pub match_class-InClass :
    (q : List ℕ) (sc : ℕ) (ms : List Member) (r : List ℕ)
    → members (class_start q) ≡ some (ms, r)
    → ((match_class q sc ≡ some r) × InClass (is_neg q) ms sc)
      ⊎ ((match_class q sc ≡ none) × ¬ InClass (is_neg q) ms sc)
match_class-InClass q sc ms r e =
    let p =
      match_class-flagged q sc
      ∙ ap (λ (o : Option (List Member × List ℕ)). class_result (is_neg q) (flagged false sc o))
          e in
    rw p (class_result-InClass (is_neg q) ms sc r)
