-- ===== src/Pbuf/RoundTrip.antt =====
-- The reader gives back what the writer wrote, and leaves what follows it.
use Prim.Native.Nat.{bit_and}
use mathlib.Core.List.{append_assoc}
use native.Mathlib.Nat.{div-add-mod, pow-suc}
use native.Mathlib.Numerals.{towards_suc}
use amisync.Common.{
  ℕ, zero, suc, ◌+◌, ◌*◌, ◌/◌, ◌%◌, ◌^◌, ◌<◌, ◌≡◌, refl, ap, ◌∙◌, inl, inr, false, some, List, ◌∷◌,
  ◌++◌, arith, length, ltb, ◌==◌, Bool-cases, ltb→lt, take-append, drop-append, length-append,
}
use amisync.Common.Bits.{
  bit_or-shifted, bit_or_comm, bit_and-low_seven, bit_and-top_bit, bit_and-seven,
}
use amisync.Pbuf.{reading, add_group, read_loop, pbuf_read_varint, pbuf_read_tag, pbuf_read_bytes}
use amisync.Pbuf.Writer.{tag_of}
use amisync.Pbuf.Encoding.{groups, varint, length-groups}

add_group_lem :
    (value b shift : ℕ)
    → value < 2 ^ shift
    → value + b % 128 * 2 ^ shift < 2 ^ 64
    → add_group value b shift ≡ value + b % 128 * 2 ^ shift
add_group_lem value b shift small fits =
    let same : b % 128 * 2 ^ shift % 2 ^ 64 ≡ b % 128 * 2 ^ shift = omega arith in
    rw (bit_and-low_seven, same) (bit_or-shifted shift value (b % 128) small)

last_byte :
    (v value shift : ℕ) (rest : List ℕ)
    → v < 128
    → shift < 64
    → value < 2 ^ shift
    → value + v * 2 ^ shift < 2 ^ 64
    → read_loop (v ∷ rest) value shift ≡ (reading rest, some (value + v * 2 ^ shift))
unfolding read_loop
last_byte v value shift rest hv hs small fits =
    let same : v % 128 ≡ v = omega arith in
    ground (arith, same, add_group_lem value v shift, bit_and-top_bit v)

inner_byte :
    (g value shift : ℕ) (rest : List ℕ)
    → g < 128
    → shift < 64
    → value < 2 ^ shift
    → value + g * 2 ^ shift < 2 ^ 64
    → read_loop ((g + 128) ∷ rest) value shift ≡ read_loop rest (value + g * 2 ^ shift) (shift + 7)
unfolding read_loop
inner_byte g value shift rest hg hs small fits =
    let same : (g + 128) % 128 ≡ g = omega arith in
    ground (arith, same, add_group_lem value (g + 128) shift, bit_and-top_bit (g + 128))

seven_more : (s : ℕ) → 2 ^ (s + 7) ≡ 128 * 2 ^ s
seven_more s = simp towards_suc (omega arith)

split_group : (v s : ℕ) → v * 2 ^ s ≡ v % 128 * 2 ^ s + v / 128 * 2 ^ (s + 7)
split_group v s = omega (
  arith,
  ap (λ (t : ℕ). t * 2 ^ s) (div-add-mod v 128),
  ap (λ (t : ℕ). v / 128 * t) (seven_more s),
)

-- The bits read so far stay below the next group.
still_small :
    (value g shift : ℕ) → value < 2 ^ shift → g < 128 → value + g * 2 ^ shift < 2 ^ (shift + 7)
still_small value g shift small hg = grind (arith, seven_more shift)

read_loop-groups :
    (k v value shift : ℕ) (rest : List ℕ)
    → v < 128 ^ suc k
    → shift + 7 * k < 64
    → value < 2 ^ shift
    → value + v * 2 ^ shift < 2 ^ 64
    → read_loop (groups k v ++ rest) value shift ≡ (reading rest, some (value + v * 2 ^ shift))
unfolding groups
read_loop-groups zero v value shift rest hv hs small fits =
    last_byte v value shift rest (omega arith) (omega arith) small fits
read_loop-groups (suc k) v value shift rest hv hs small fits = elim (Bool-cases (ltb v 128)) [
  | inl e ↦ rw e (last_byte v value shift rest (ltb→lt v 128 e) (omega arith) small fits)
  | inr e ↦ rw e (
      inner_byte (v % 128) value shift (groups k (v / 128) ++ rest) (omega arith) (omega arith)
        small (omega (arith, split_group v shift))
      ∙ read_loop-groups k (v / 128) (value + v % 128 * 2 ^ shift) (shift + 7) rest
          (omega (arith, pow-suc 128 (suc k))) (omega arith)
          (still_small value (v % 128) shift small (omega arith))
          (omega (arith, split_group v shift))
      ∙ ap (λ n. (reading rest, some n)) (omega (arith, split_group v shift)))
]

pub read_varint-varint :
    (v : ℕ) (rest : List ℕ)
    → v < 2 ^ 64
    → pbuf_read_varint (reading (varint v ++ rest)) ≡ (reading rest, some v)
unfolding pbuf_read_varint
read_varint-varint v rest h =
    read_loop-groups 9 v 0 0 rest (omega arith) (omega arith) (omega arith) (omega arith)
    ∙ ap (λ n. (reading rest, some n)) (omega arith)

-- A uint32 field number and a wire type of three bits, as one number.
pub tag_of_lem :
    (field wiretype : ℕ)
    → field < 2 ^ 32
    → wiretype < 8
    → tag_of field wiretype ≡ wiretype + field * 2 ^ 3
tag_of_lem field wiretype hf hw =
    let same : field * 2 ^ 3 % 2 ^ 64 ≡ field * 2 ^ 3 = omega arith in
    rw (same, bit_or_comm (field * 2 ^ 3) wiretype) (bit_or-shifted 3 wiretype field (omega arith))

some_byte : (k v : ℕ) (rest : List ℕ) → (length (groups k v ++ rest) == 0) ≡ false
some_byte k v rest = ground (arith, length-append (groups k v) rest, length-groups k v)

pub read_tag-tag_of :
    (field wiretype : ℕ) (rest : List ℕ)
    → field < 2 ^ 32
    → wiretype < 8
    → pbuf_read_tag (reading (varint (tag_of field wiretype) ++ rest))
      ≡ (reading rest, some (field, wiretype))
unfolding pbuf_read_tag
read_tag-tag_of field wiretype rest hf hw =
    let tag : tag_of field wiretype ≡ wiretype + field * 2 ^ 3 = tag_of_lem field wiretype hf hw in
    let number : tag_of field wiretype / 2 ^ 3 % 2 ^ 32 ≡ field = omega (arith, tag) in
    let low : bit_and (tag_of field wiretype) 7 ≡ wiretype =
      bit_and-seven (tag_of field wiretype) ∙ omega (arith, tag) in
    rw (
      some_byte 9 (tag_of field wiretype) rest,
      read_varint-varint (tag_of field wiretype) rest (omega (arith, tag)),
      number,
      low,
    )

pub read_bytes-bytes :
    (bytes rest : List ℕ)
    → length bytes < 2 ^ 64
    → pbuf_read_bytes (reading (varint (length bytes) ++ bytes ++ rest))
      ≡ (reading rest, some bytes)
unfolding pbuf_read_bytes
read_bytes-bytes bytes rest h =
    let enough : ltb (length (bytes ++ rest)) (length bytes) ≡ false =
      ground (arith, length-append bytes rest) in
    rw (
      append_assoc,
      read_varint-varint (length bytes) (bytes ++ rest) h,
      enough,
      take-append bytes rest (length bytes) refl,
      drop-append bytes rest (length bytes) refl,
    )
