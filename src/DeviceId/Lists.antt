-- ===== src/DeviceId/Lists.antt =====
-- Parts of a list of characters: what is taken, dropped and written.
use amisync.Common.{
  ℕ, zero, suc, ◌-◌, ◌≤◌, ◌<◌, ◌≡◌, refl, ap, List, [], ◌∷◌, ◌++◌, length, All, arith, take, drop,
  get_or, set,
}

pub length-drop : (n : ℕ) (xs : List ℕ) → length (drop n xs) ≡ length xs - n
length-drop zero xs = omega arith
length-drop (suc n) [] = omega arith
length-drop (suc n) (x ∷ xs) = omega (arith, length-drop n xs)

module _ (P : ℕ → Type 0) where
  pub All-take : (n : ℕ) (xs : List ℕ) → All P xs → All P (take n xs)
  All-take zero xs h = _
  All-take (suc n) [] h = _
  All-take (suc n) (x ∷ xs) (hx, h) = (hx, All-take n xs h)

  pub All-drop : (n : ℕ) (xs : List ℕ) → All P xs → All P (drop n xs)
  All-drop zero xs h = h
  All-drop (suc n) [] h = _
  All-drop (suc n) (x ∷ xs) (hx, h) = All-drop n xs h

  pub All-append : (xs ys : List ℕ) → All P xs → All P ys → All P (xs ++ ys)
  All-append [] ys h k = k
  All-append (x ∷ xs) ys (hx, h) k = (hx, All-append xs ys h k)

pub get_or-append : (xs ys : List ℕ) (n y d : ℕ) → length xs ≡ n → get_or (xs ++ y ∷ ys) n d ≡ y
get_or-append [] ys zero y d h = refl
get_or-append [] ys (suc n) y d h = absurd (omega arith)
get_or-append (x ∷ xs) ys zero y d h = absurd (omega arith)
get_or-append (x ∷ xs) ys (suc n) y d h = get_or-append xs ys n y d (omega arith)

pub drop-suc-append : (xs ys : List ℕ) (n y : ℕ) → length xs ≡ n → drop (suc n) (xs ++ y ∷ ys) ≡ ys
drop-suc-append [] ys zero y h = refl
drop-suc-append [] ys (suc n) y h = absurd (omega arith)
drop-suc-append (x ∷ xs) ys zero y h = absurd (omega arith)
drop-suc-append (x ∷ xs) ys (suc n) y h = drop-suc-append xs ys n y (omega arith)

-- A write at place i, seen in the first n characters and in the others.
pub take-set_in : (n : ℕ) (s : List ℕ) (i c : ℕ) → i < n → take n (set s i c) ≡ set (take n s) i c
take-set_in zero s i c h = absurd (omega arith)
take-set_in (suc n) [] i c h = refl
take-set_in (suc n) (x ∷ s) zero c h = refl
take-set_in (suc n) (x ∷ s) (suc i) c h = ap (◌∷◌ x) (take-set_in n s i c (omega arith))

pub take-set_out : (n : ℕ) (s : List ℕ) (i c : ℕ) → n ≤ i → take n (set s i c) ≡ take n s
take-set_out zero s i c h = refl
take-set_out (suc n) [] i c h = refl
take-set_out (suc n) (x ∷ s) zero c h = absurd (omega arith)
take-set_out (suc n) (x ∷ s) (suc i) c h = ap (◌∷◌ x) (take-set_out n s i c (omega arith))

pub drop-set_out :
    (n : ℕ) (s : List ℕ) (i c : ℕ) → n ≤ i → drop n (set s i c) ≡ set (drop n s) (i - n) c
drop-set_out zero s i c h = let e : i - 0 ≡ i = omega arith in rw e refl
drop-set_out (suc n) [] i c h = refl
drop-set_out (suc n) (x ∷ s) zero c h = absurd (omega arith)
drop-set_out (suc n) (x ∷ s) (suc i) c h =
    let e : suc i - suc n ≡ i - n = omega arith in rw e (drop-set_out n s i c (omega arith))

pub get_or-take : (n : ℕ) (s : List ℕ) (i d : ℕ) → i < n → get_or (take n s) i d ≡ get_or s i d
get_or-take zero s i d h = absurd (omega arith)
get_or-take (suc n) [] i d h = refl
get_or-take (suc n) (x ∷ s) zero d h = refl
get_or-take (suc n) (x ∷ s) (suc i) d h = get_or-take n s i d (omega arith)

pub get_or-drop :
    (n : ℕ) (s : List ℕ) (i d : ℕ) → n ≤ i → get_or (drop n s) (i - n) d ≡ get_or s i d
get_or-drop zero s i d h = let e : i - 0 ≡ i = omega arith in rw e refl
get_or-drop (suc n) [] i d h = refl
get_or-drop (suc n) (x ∷ s) zero d h = absurd (omega arith)
get_or-drop (suc n) (x ∷ s) (suc i) d h =
    let e : suc i - suc n ≡ i - n = omega arith in rw e (get_or-drop n s i d (omega arith))
