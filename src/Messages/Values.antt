-- ===== src/Messages/Values.antt =====
-- The values that the codecs carry, and how long their encodings are.
use native.Mathlib.Nat.{pow-suc}
use amisync.Common.{
  ℕ, zero, suc, ◌+◌, ◌-◌, ◌/◌, ◌^◌, ◌≤◌, ◌<◌, ◌≡◌, refl, sym, ap, ◌∙◌, Bool, true, false, not, inl,
  inr, List, [], ◌∷◌, ◌++◌, arith, length, length-append, ltb, ◌==◌, Bool-cases, take, take-all,
  length-take, All,
}
use amisync.Common.Int.{ℤ, pos, negsuc, eqb_ℤ}
use amisync.Pbuf.{wt_varint, wt_len}
use amisync.Pbuf.Writer.{tag_of}
use amisync.Pbuf.Encoding.{groups, varint, length-groups}
use amisync.Pbuf.Fields.{uint64_field, bytes_field}
use amisync.Pbuf.RoundTrip.{tag_of_lem}
use amisync.Messages.Steps.{when_bytes}
use amisync.Messages.{uint64_of, uint32_of, int64_of, int32_of, nonzero, before_nul, copy_str}

-- The ranges of int32_t (or int) and int64_t.
abbrev pub IsInt32 : ℤ → Type 0
IsInt32 (pos n) = n < 2 ^ 31
IsInt32 (negsuc n) = n < 2 ^ 31

abbrev pub IsInt64 : ℤ → Type 0
IsInt64 (pos n) = n < 2 ^ 63
IsInt64 (negsuc n) = n < 2 ^ 63

-- A string of a buffer with `cap` bytes: a NUL ends it, so it has none inside.
pub record IsText (cap : ℕ) (s : List ℕ) : Type 0 where
  pub fits : length s < cap
  pub no_nul : All (λ b. 0 < b) s

pub int32_of-uint32_of : (v : ℤ) → IsInt32 v → int32_of (uint32_of v) ≡ v
int32_of-uint32_of (pos n) h = ground arith
int32_of-uint32_of (negsuc n) h = ground arith

pub int64_of-uint64_of : (v : ℤ) → IsInt64 v → int64_of (uint64_of v) ≡ v
int64_of-uint64_of (pos n) h = ground arith
int64_of-uint64_of (negsuc n) h = ground arith

pub uint32_of-lt : (v : ℤ) → uint32_of v < 2 ^ 32
uint32_of-lt (pos n) = omega arith
uint32_of-lt (negsuc n) = omega arith

pub uint64_of-lt : (v : ℤ) → uint64_of v < 2 ^ 64
uint64_of-lt (pos n) = omega arith
uint64_of-lt (negsuc n) = omega arith

pub nonzero-false : (v : ℤ) → nonzero v ≡ false → pos 0 ≡ v
nonzero-false (pos n) h = ap pos (ground arith)
nonzero-false (negsuc n) h = absurd (ground arith)

pub eqb_zero : (v : ℤ) → not (eqb_ℤ v (pos 0)) ≡ false → pos 0 ≡ v
eqb_zero (pos n) h = ap pos (ground arith)
eqb_zero (negsuc n) h = absurd (ground arith)

before_nul_lem : (s : List ℕ) → All (λ b. 0 < b) s → before_nul s ≡ s
unfolding before_nul
before_nul_lem [] h = refl
before_nul_lem (b ∷ s) (p, h) =
    let no : (b == 0) ≡ false = ground arith in rw (no, before_nul_lem s h) refl

pub copy_str_lem : (cap : ℕ) (s : List ℕ) → IsText cap s → copy_str cap s ≡ s
unfolding copy_str
copy_str_lem cap s t = rw (take-all (cap - 1) s (omega (arith, t.fits))) (before_nul_lem s t.no_nul)

length-groups_small : (n k v : ℕ) → v < 128 ^ suc k → length (groups n v) ≤ suc k
unfolding groups
length-groups_small zero k v h = omega arith
length-groups_small (suc n) zero v h =
    let one : ltb v 128 ≡ true = ground arith in rw one (omega arith)
length-groups_small (suc n) (suc k) v h = elim (Bool-cases (ltb v 128)) [
  | inl e ↦ rw e (omega arith)
  | inr e ↦
      rw e (omega (arith, length-groups_small n k (v / 128) (omega (arith, pow-suc 128 (suc k)))))
]

-- A value of few groups has a short varint.
pub length-varint : (k v : ℕ) → v < 128 ^ suc k → length (varint v) ≤ suc k
length-varint k v h = length-groups_small 9 k v h

pub length-uint32 : (v : ℕ) → v < 2 ^ 32 → length (varint v) ≤ 5
length-uint32 v h = length-varint 4 v (omega arith)

pub length-uint64 : (v : ℕ) → length (varint v) ≤ 10
length-uint64 v = (length-groups 9 v).1

small_tag : (field wt : ℕ) → field < 16 → wt < 8 → length (varint (tag_of field wt)) ≤ 1
small_tag field wt hf hw =
    length-varint 0 (tag_of field wt) (omega (arith, tag_of_lem field wt (omega arith) hw))

pub length-uint64_field :
    (field v k : ℕ) → field < 16 → length (varint v) ≤ k → length (uint64_field field v) ≤ 1 + k
length-uint64_field field v k hf hv = omega (
  arith,
  small_tag field wt_varint hf (omega arith),
  length-append (varint (tag_of field wt_varint)) (varint v),
)

pub length-bytes_field :
    (field : ℕ) (bs : List ℕ) (k : ℕ)
    → field < 16
    → length (varint (length bs)) ≤ k
    → length (bytes_field field bs) ≤ 1 + k + length bs
length-bytes_field field bs k hf hb = omega (
  arith,
  small_tag field wt_len hf (omega arith),
  length-append (varint (tag_of field wt_len) ++ varint (length bs)) bs,
  length-append (varint (tag_of field wt_len)) (varint (length bs)),
)

-- A string field of a buffer of up to 16384 bytes.
pub string_length :
    (field : ℕ) (s : List ℕ) (cap : ℕ)
    → IsText cap s
    → field < 16
    → cap ≤ 16384
    → length (bytes_field field s) ≤ 2 + cap
string_length field s cap t hf hc = omega (
  arith,
  t.fits,
  length-bytes_field field s 2 hf (length-varint 1 (length s) (omega (arith, t.fits))),
)

pub length-int_field :
    (field : ℕ) (v : ℤ) → field < 16 → length (uint64_field field (uint32_of v)) ≤ 6
length-int_field field v hf = omega (
  arith,
  length-uint64_field field (uint32_of v) 5 hf (length-uint32 (uint32_of v) (uint32_of-lt v)),
)

pub length-when :
    (b : Bool) (chunk : List ℕ) (k : ℕ) → length chunk ≤ k → length (when_bytes b chunk) ≤ k
length-when true chunk k h = h
length-when false chunk k h = omega arith

-- A value that is not written because it is 0 reads back as the 0 that the decoder starts with.
pub unset_enum :
    (v : ℤ) → IsInt32 v → not (eqb_ℤ v (pos 0)) ≡ false → pos 0 ≡ int32_of (uint32_of v)
unset_enum v ok e = eqb_zero v e ∙ sym (int32_of-uint32_of v ok)

pub unset_int : (v : ℤ) → IsInt32 v → nonzero v ≡ false → pos 0 ≡ int32_of (uint32_of v)
unset_int v ok e = nonzero-false v e ∙ sym (int32_of-uint32_of v ok)

-- A byte field with a number above 15, whose tag takes two bytes.
pub length-block_field :
    (bs : List ℕ) (k : ℕ)
    → length (varint (length bs)) ≤ k
    → length (bytes_field 16 bs) ≤ 2 + k + length bs
length-block_field bs k hb = omega (
  arith,
  length-varint 1 (tag_of 16 wt_len) (omega (arith, tag_of_lem 16 wt_len)),
  length-append (varint (tag_of 16 wt_len) ++ varint (length bs)) bs,
  length-append (varint (tag_of 16 wt_len)) (varint (length bs)),
)

before_nul-IsText :
    (s : List ℕ) → (length (before_nul s) ≤ length s) × All (λ b. 0 < b) (before_nul s)
unfolding before_nul
before_nul-IsText [] = (omega arith, tt)
before_nul-IsText (b ∷ s) = elim (Bool-cases (b == 0)) [
  | inl e ↦ rw e (omega arith, tt)
  | inr e ↦ rw e (omega (arith, (before_nul-IsText s).0), (ground arith, (before_nul-IsText s).1))
]

-- Whatever was copied, it fits and has no NUL inside.
pub copy_str-IsText : (cap : ℕ) (s : List ℕ) → 0 < cap → IsText cap (copy_str cap s)
unfolding copy_str
copy_str-IsText cap s h = record {
  fits = omega (arith, (before_nul-IsText (take (cap - 1) s)).0, length-take (cap - 1) s);
  no_nul = (before_nul-IsText (take (cap - 1) s)).1;
}
