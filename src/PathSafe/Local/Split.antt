-- ===== src/PathSafe/Local/Split.antt =====
-- A name taken apart at its slashes and put together again.
use amisync.Common.{
  append_nil, append_assoc, ℕ, ◌≡◌, ◌≢◌, inl, inr, sym, ap, ◌∙◌, false, List, [], ◌∷◌, ◌++◌, All,
  ◌==◌, arith, Bool-cases,
}
use amisync.PathSafe.Local.Copied.{joined}
use amisync.PathSafe.Local.Joined.{split_cons, joined_cons}
use amisync.PathSafe.Components.{split_from, components}

abbrev pub IsInner : ℕ → Type 0
IsInner b = b ≢ b'/'

abbrev pub mapped : (List ℕ → List ℕ) → List (List ℕ) → List (List ℕ)
mapped f [] = []
mapped f (s ∷ cs) = f s ∷ mapped f cs

split_inner : (front xs : List ℕ) → All IsInner xs → split_from front xs ≡ (front ++ xs) ∷ []
split_inner front [] h = ap (λ (s : List ℕ). s ∷ []) (sym (append_nil front))
split_inner front (x ∷ xs) (hx, h) =
    let e : (x == b'/') ≡ false = ground arith in
    rw e (
      split_inner (front ++ x ∷ []) xs h
      ∙ ap (λ (s : List ℕ). s ∷ []) (append_assoc front (x ∷ []) xs))

split_slash :
    (front xs rest : List ℕ)
    → All IsInner xs
    → split_from front (xs ++ b'/' ∷ rest) ≡ (front ++ xs) ∷ split_from [] rest
split_slash front [] rest h = ap (λ (s : List ℕ). s ∷ split_from [] rest) (sym (append_nil front))
split_slash front (x ∷ xs) rest (hx, h) =
    let e : (x == b'/') ≡ false = ground arith in
    rw e (
      split_slash (front ++ x ∷ []) xs rest h
      ∙ ap (λ (s : List ℕ). s ∷ split_from [] rest) (append_assoc front (x ∷ []) xs))

resplit :
    (f : List ℕ → List ℕ) (s : List ℕ) (cs : List (List ℕ))
    → All (λ c. All IsInner (f c)) (s ∷ cs)
    → components (joined f (s ∷ cs)) ≡ mapped f (s ∷ cs)
resplit f s [] (hs, h) = split_inner [] (f s) hs
resplit f s (t ∷ cs) (hs, h) =
    split_slash [] (f s) (joined f (t ∷ cs)) hs ∙ ap (◌∷◌ (f s)) (resplit f t cs h)

-- A mapping that makes no slashes keeps the components apart.
pub split_components :
    (f : List ℕ → List ℕ) (p : List ℕ)
    → All (λ c. All IsInner (f c)) (components p)
    → components (joined f (components p)) ≡ mapped f (components p)
split_components f p h = let (x, t, e) = split_cons [] p in rw e (resplit f x t (rw e at h))

pub joined_split : (front p : List ℕ) → joined (λ s. s) (split_from front p) ≡ front ++ p
joined_split front [] = sym (append_nil front)
joined_split front (c ∷ p) = elim (Bool-cases (c == b'/')) [
  | inl e ↦
      let j = joined_cons (λ s. s) front [] p in
      let same : c ≡ b'/' = ground arith in
      rw (e, j, same) (ap (λ (s : List ℕ). front ++ b'/' ∷ s) (joined_split [] p))
  | inr e ↦ rw e (joined_split (front ++ c ∷ []) p ∙ append_assoc front (c ∷ []) p)
]

module _ (P : ℕ → Type 0) where
  All-snoc : (xs : List ℕ) (c : ℕ) → All P xs → P c → All P (xs ++ c ∷ [])
  All-snoc [] c h k = (k, tt)
  All-snoc (x ∷ xs) c (hx, h) k = (hx, All-snoc xs c h k)

  pub split-All : (front p : List ℕ) → All P front → All P p → All (All P) (split_from front p)
  split-All front [] h k = (h, tt)
  split-All front (c ∷ p) h (hc, k) = elim (Bool-cases (c == b'/')) [
    | inl e ↦ rw e (h, split-All [] p tt k)
    | inr e ↦ rw e (split-All (front ++ c ∷ []) p (All-snoc front c h hc) k)
  ]

pub split-IsInner : (front p : List ℕ) → All IsInner front → All (All IsInner) (split_from front p)
split-IsInner front [] h = (h, tt)
split-IsInner front (c ∷ p) h = elim (Bool-cases (c == b'/')) [
  | inl e ↦ rw e (h, split-IsInner [] p tt)
  | inr e ↦
      let ne : IsInner c = λ k. ground arith in
      rw e (split-IsInner (front ++ c ∷ []) p (All-snoc IsInner front c h ne))
]
