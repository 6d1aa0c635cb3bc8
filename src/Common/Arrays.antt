-- ===== src/Common/Arrays.antt =====
-- A C array of fixed size, as a function from its index; bounds are the business of the theorems.
use Prim.Native.Nat.{ℕ, zero, suc, ◌+◌, ◌<◌}
use mathlib.Core.Path.{◌≡◌, refl, ap₂, ◌∙◌}
use mathlib.Core.List.{List, [], ◌∷◌}
use native.Mathlib.Omega.{arith}
use amisync.Common.Tests.{◌==◌, if◌then◌else◌}
use amisync.Common.Lists.{length}

module _ {ℓ} {A : Type ℓ} where
  -- a[i] = v
  abbrev pub store : (ℕ → A) → ℕ → A → ℕ → A
  store a i v j = if j == i then v else a j

  -- memcpy(&a[i], xs, length xs)
  unfoldable pub store_all : (ℕ → A) → ℕ → List A → ℕ → A
  store_all a i [] = a
  store_all a i (x ∷ xs) = store_all (store a i x) (suc i) xs

  -- The n elements from index i on.
  unfoldable pub read_all : (ℕ → A) → ℕ → ℕ → List A
  read_all a i zero = []
  read_all a i (suc n) = a i ∷ read_all a (suc i) n

  pub store_all_below : (a : ℕ → A) (i : ℕ) (xs : List A) (j : ℕ) → j < i → store_all a i xs j ≡ a j
  unfolding store_all
  store_all_below a i [] j h = refl
  store_all_below a i (x ∷ xs) j h =
      store_all_below (store a i x) (suc i) xs j (omega arith) ∙ ground arith

  pub read_all-store_all :
      (a : ℕ → A) (i : ℕ) (xs : List A) → read_all (store_all a i xs) i (length xs) ≡ xs
  unfolding read_all store_all
  read_all-store_all a i [] = refl
  read_all-store_all a i (x ∷ xs) =
      ap₂ ◌∷◌ (store_all_below (store a i x) (suc i) xs i (omega arith) ∙ ground arith)
        (read_all-store_all (store a i x) (suc i) xs)

  pub read_all_ext :
      (a b : ℕ → A) (i n : ℕ) → ((j : ℕ) → j < i + n → a j ≡ b j) → read_all a i n ≡ read_all b i n
  unfolding read_all
  read_all_ext a b i zero h = refl
  read_all_ext a b i (suc n) h =
      ap₂ ◌∷◌ (h i (omega arith)) (read_all_ext a b (suc i) n (λ j l. h j (omega arith)))
