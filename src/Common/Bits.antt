-- ===== src/Common/Bits.antt =====
-- `|` of disjoint fields and `&` with a low mask, as arithmetic. The native operations recur on the
-- binary digits of their first argument; the fuel of that recursion is dropped first.
use Prim.Native.Nat.{
  ℕ, zero, suc, ◌+◌, ◌*◌, ◌/◌, ◌%◌, ◌^◌, ◌≤◌, ◌<◌, min, max, digits, bitwise, bit_and, bit_or,
  bit_and-bitwise, bit_or-bitwise,
}
use mathlib.Core.Path.{◌≡◌, refl, ap}
use native.Mathlib.Nat.{le_refl, pow-suc}
use native.Mathlib.Omega.{arith}

enough_digits :
    (z : ℕ → ℕ) (f : ℕ → ℕ → ℕ) (n m a b : ℕ) → a ≤ n → a ≤ m → digits z f n a b ≡ digits z f m a b
enough_digits z f zero zero a b hn hm = refl
enough_digits z f zero (suc m) zero b hn hm = refl
enough_digits z f zero (suc m) (suc a) b hn hm = absurd (omega arith)
enough_digits z f (suc n) zero zero b hn hm = refl
enough_digits z f (suc n) zero (suc a) b hn hm = absurd (omega arith)
enough_digits z f (suc n) (suc m) zero b hn hm = refl
enough_digits z f (suc n) (suc m) (suc a) b hn hm =
    ap (λ d. d * 2 + f (suc a % 2) (b % 2))
      (enough_digits z f n m (suc a / 2) (b / 2) (omega arith) (omega arith))

lowest_digit :
    (z : ℕ → ℕ) (f : ℕ → ℕ → ℕ) (a b : ℕ)
    → bitwise z f (suc a) b ≡ bitwise z f (suc a / 2) (b / 2) * 2 + f (suc a % 2) (b % 2)
lowest_digit z f a b =
    ap (λ d. d * 2 + f (suc a % 2) (b % 2))
      (enough_digits z f a (suc a / 2) (suc a / 2) (b / 2) (omega arith) (le_refl _))

bit_or-halves : (a b : ℕ) → bit_or a b ≡ bit_or (a / 2) (b / 2) * 2 + max (a % 2) (b % 2)
bit_or-halves zero b = simp bit_or-bitwise (omega arith)
bit_or-halves (suc a) b = simp bit_or-bitwise (lowest_digit (λ y. y) max a b)

bit_and-halves : (a b : ℕ) → bit_and a b ≡ bit_and (a / 2) (b / 2) * 2 + min (a % 2) (b % 2)
bit_and-halves zero b = simp bit_and-bitwise (omega arith)
bit_and-halves (suc a) b = simp bit_and-bitwise (lowest_digit (λ y. 0) min a b)

zero-bit_or : (b : ℕ) → bit_or 0 b ≡ b
zero-bit_or b = bit_or-bitwise 0 b

-- A field above bit k, or-ed into a number of k bits, is added to it.
pub bit_or-shifted : (k r q : ℕ) → r < 2 ^ k → bit_or r (q * 2 ^ k) ≡ r + q * 2 ^ k
bit_or-shifted zero zero q h = omega (arith, zero-bit_or (q * 2 ^ 0))
bit_or-shifted zero (suc r) q h = absurd (omega arith)
bit_or-shifted (suc k) r q h = ground (
  arith,
  bit_or-halves r (q * 2 ^ suc k),
  ap (λ (t : ℕ). q * t) (pow-suc 2 k),
  pow-suc 2 k,
  bit_or-shifted k (r / 2) q (omega (arith, pow-suc 2 k)),
)

bit_and-zero_below : (n a : ℕ) → a ≤ n → bit_and a 0 ≡ 0
bit_and-zero_below zero zero h = refl
bit_and-zero_below zero (suc a) h = absurd (omega arith)
bit_and-zero_below (suc n) zero h = refl
bit_and-zero_below (suc n) (suc a) h =
    omega (arith, bit_and-halves (suc a) 0, bit_and-zero_below n (suc a / 2) (omega arith))

bit_and-zero : (a : ℕ) → bit_and a 0 ≡ 0
bit_and-zero a = bit_and-zero_below a a (le_refl a)

bit_and-one : (a : ℕ) → bit_and a 1 ≡ a % 2
bit_and-one a = omega (arith, bit_and-halves a 1, bit_and-zero (a / 2))

-- One digit of a mask at a time.
bit_and-low_two : (a : ℕ) → bit_and a 3 ≡ a % 4
bit_and-low_two a = omega (arith, bit_and-halves a 3, bit_and-one (a / 2))

bit_and-low_three : (a : ℕ) → bit_and a 7 ≡ a % 8
bit_and-low_three a = omega (arith, bit_and-halves a 7, bit_and-low_two (a / 2))

bit_and-low_four : (a : ℕ) → bit_and a 15 ≡ a % 16
bit_and-low_four a = omega (arith, bit_and-halves a 15, bit_and-low_three (a / 2))

bit_and-low_five : (a : ℕ) → bit_and a 31 ≡ a % 32
bit_and-low_five a = omega (arith, bit_and-halves a 31, bit_and-low_four (a / 2))

bit_and-low_six : (a : ℕ) → bit_and a 63 ≡ a % 64
bit_and-low_six a = omega (arith, bit_and-halves a 63, bit_and-low_five (a / 2))

-- `a & 7`, `a & 0x7f` and `a & 0x80`.
pub bit_and-seven : (a : ℕ) → bit_and a 7 ≡ a % 8
bit_and-seven a = bit_and-low_three a

pub bit_and-low_seven : (a : ℕ) → bit_and a 0x7f ≡ a % 128
bit_and-low_seven a = omega (arith, bit_and-halves a 0x7f, bit_and-low_six (a / 2))

bit_and-digit_one : (a : ℕ) → bit_and a 2 ≡ a / 2 % 2 * 2
bit_and-digit_one a = omega (arith, bit_and-halves a 2, bit_and-one (a / 2))

bit_and-digit_two : (a : ℕ) → bit_and a 4 ≡ a / 4 % 2 * 4
bit_and-digit_two a = omega (arith, bit_and-halves a 4, bit_and-digit_one (a / 2))

bit_and-digit_three : (a : ℕ) → bit_and a 8 ≡ a / 8 % 2 * 8
bit_and-digit_three a = omega (arith, bit_and-halves a 8, bit_and-digit_two (a / 2))

bit_and-digit_four : (a : ℕ) → bit_and a 16 ≡ a / 16 % 2 * 16
bit_and-digit_four a = omega (arith, bit_and-halves a 16, bit_and-digit_three (a / 2))

bit_and-digit_five : (a : ℕ) → bit_and a 32 ≡ a / 32 % 2 * 32
bit_and-digit_five a = omega (arith, bit_and-halves a 32, bit_and-digit_four (a / 2))

bit_and-digit_six : (a : ℕ) → bit_and a 64 ≡ a / 64 % 2 * 64
bit_and-digit_six a = omega (arith, bit_and-halves a 64, bit_and-digit_five (a / 2))

pub bit_and-top_bit : (a : ℕ) → bit_and a 0x80 ≡ a / 128 % 2 * 128
bit_and-top_bit a = omega (arith, bit_and-halves a 0x80, bit_and-digit_six (a / 2))

bit_or_comm_below : (n a b : ℕ) → a + b ≤ n → bit_or a b ≡ bit_or b a
bit_or_comm_below zero zero zero h = refl
bit_or_comm_below zero zero (suc b) h = absurd (omega arith)
bit_or_comm_below zero (suc a) b h = absurd (omega arith)
bit_or_comm_below (suc n) a b h =
    omega (
      arith,
      bit_or-halves a b,
      bit_or-halves b a,
      bit_or_comm_below n (a / 2) (b / 2) (omega arith),
    )

pub bit_or_comm : (a b : ℕ) → bit_or a b ≡ bit_or b a
bit_or_comm a b = bit_or_comm_below (a + b) a b (le_refl _)
