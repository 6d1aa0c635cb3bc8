-- ===== src/PathSafe/Local/Joined.antt =====
-- name_to_local and name_from_local as mappings of the components of a name.
use amisync.Common.{
  ℕ, ◌≡◌, ◌≢◌, inl, inr, refl, sym, ◌∙◌, false, Option, List, [], ◌∷◌, ◌++◌, ◌==◌, arith,
  Bool-cases,
}
use amisync.PathSafe.Local.{
  utf8_class, class_loop, put, then_on, copy_loop, put_local, to_local_loop, put_wire,
  from_local_loop,
}
use amisync.PathSafe.Local.Copied.{
  copy_loop_append, then_on_ext, copy_cons, conv_loop_lem, widen_loop_lem, joined, local_form,
  wire_form,
}
use amisync.PathSafe.Components.{split_from}

nonzero : (n : ℕ) → n ≡ 1 → n ≢ 0
nonzero n h k = omega arith

put_local_lem :
    (cap : ℕ) (out seg : List ℕ) → put_local cap out seg ≡ copy_loop cap out (local_form seg)
unfolding put_local
put_local_lem cap out seg = elim (Bool-cases (utf8_class seg == 1)) [
  | inl e ↦
      let one : utf8_class seg ≡ 1 = ground arith in
      let c : class_loop 0 false seg ≢ 0 =
        unfold utf8_class in nonzero (class_loop 0 false seg) one in
      rw e (conv_loop_lem 0 cap false out seg c)
  | inr e ↦ rw e refl
]

put_wire_lem :
    (cap : ℕ) (out seg : List ℕ) → put_wire cap out seg ≡ copy_loop cap out (wire_form seg)
unfolding put_wire
put_wire_lem cap out seg = elim (Bool-cases (utf8_class seg == 2)) [
  | inl e ↦ rw e refl
  | inr e ↦ rw e (widen_loop_lem cap out seg)
]

slash_lem :
    (cap : ℕ) (out xs rest : List ℕ) (g : List ℕ → Option (List ℕ))
    → ((s : List ℕ) → g s ≡ copy_loop cap s rest)
    → then_on (copy_loop cap out xs) (λ next. then_on (put cap next b'/') g)
      ≡ copy_loop cap out (xs ++ b'/' ∷ rest)
slash_lem cap out xs rest g h =
    then_on_ext (copy_loop cap out xs) _ (λ next. copy_loop cap next (b'/' ∷ rest))
      (λ next.
        then_on_ext (put cap next b'/') g (λ s. copy_loop cap s rest) h
        ∙ copy_cons cap next b'/' rest)
    ∙ sym (copy_loop_append cap out xs (b'/' ∷ rest))

pub split_cons : (s p : List ℕ) → (x : List ℕ) × (t : List (List ℕ)) × (split_from s p ≡ x ∷ t)
split_cons s [] = (s, [], refl)
split_cons s (c ∷ p) = elim (Bool-cases (c == b'/')) [
  | inl e ↦ (s, split_from [] p, rw e refl)
  | inr e ↦ let (x, t, h) = split_cons (s ++ c ∷ []) p in (x, t, rw e h)
]

pub joined_cons :
    (f : List ℕ → List ℕ) (seg s p : List ℕ)
    → joined f (seg ∷ split_from s p) ≡ f seg ++ b'/' ∷ joined f (split_from s p)
joined_cons f seg s p = let (x, t, h) = split_cons s p in rw h refl

pub to_local_loop_lem :
    (cap : ℕ) (out seg p : List ℕ)
    → to_local_loop cap out seg p ≡ copy_loop cap out (joined local_form (split_from seg p))
unfolding to_local_loop
to_local_loop_lem cap out seg [] = put_local_lem cap out seg
to_local_loop_lem cap out seg (c ∷ p) = elim (Bool-cases (c == b'/')) [
  | inl e ↦
      let rest = joined local_form (split_from [] p) in
      let first = put_local_lem cap out seg in
      let j = joined_cons local_form seg [] p in
      rw (e, first, j)
        (slash_lem cap out (local_form seg) rest _ (λ s. to_local_loop_lem cap s [] p))
  | inr e ↦ rw e (to_local_loop_lem cap out (seg ++ c ∷ []) p)
]

pub from_local_loop_lem :
    (cap : ℕ) (out seg p : List ℕ)
    → from_local_loop cap out seg p ≡ copy_loop cap out (joined wire_form (split_from seg p))
unfolding from_local_loop
from_local_loop_lem cap out seg [] = put_wire_lem cap out seg
from_local_loop_lem cap out seg (c ∷ p) = elim (Bool-cases (c == b'/')) [
  | inl e ↦
      let rest = joined wire_form (split_from [] p) in
      let first = put_wire_lem cap out seg in
      let j = joined_cons wire_form seg [] p in
      rw (e, first, j)
        (slash_lem cap out (wire_form seg) rest _ (λ s. from_local_loop_lem cap s [] p))
  | inr e ↦ rw e (from_local_loop_lem cap out (seg ++ c ∷ []) p)
]
