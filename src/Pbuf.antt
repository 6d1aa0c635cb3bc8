-- ===== src/Pbuf.antt =====
-- src/pbuf.c: the protobuf wire codec. The reader is here, the writer in Pbuf/Writer.
pub mod Writer
pub mod Encoding
pub mod RoundTrip
pub mod Fields
pub mod Safety
pub mod Took
pub mod Skip
mod Tests
use Prim.Native.Nat.{bit_and, bit_or}
use amisync.Common.{
  ℕ, ◌+◌, ◌*◌, ◌/◌, ◌%◌, ◌^◌, Bool, true, false, ◌||◌, not, Option, none, some, List, [], ◌∷◌,
  length, take, drop, get_or, if◌then◌else◌, ltb, ◌==◌,
}

-- PBUF_WT_*
abbrev pub wt_varint : ℕ
wt_varint = 0

abbrev pub wt_i64 : ℕ
wt_i64 = 1

abbrev pub wt_len : ℕ
wt_len = 2

abbrev pub wt_i32 : ℕ
wt_i32 = 5

-- `p` is the bytes from the read pointer up to `end`; each is below 256.
pub record PbufReader : Type 0 where
  pub p : List ℕ
  pub error : Bool

abbrev pub reading : List ℕ → PbufReader
reading bytes = record { p = bytes; error = false }

abbrev pub failed : List ℕ → PbufReader
failed bytes = record { p = bytes; error = true }

-- `bytes` is the buffer that `data` points to.
unfoldable pub pbuf_reader_init : List ℕ → ℕ → PbufReader
pbuf_reader_init bytes len = reading (take len bytes)

unfoldable pub pbuf_eof : PbufReader → Bool
pbuf_eof r = if r.error then false else length r.p == 0

-- value |= (uint64_t)(b & 0x7f) << shift
abbrev pub add_group : ℕ → ℕ → ℕ → ℕ
add_group value b shift = bit_or value (bit_and b 0x7f * 2 ^ shift % 2 ^ 64)

-- The `while (shift < 64)` loop. With no byte left it fails where it stands, by the test of the
-- loop or by that of the pointer. The value is what goes through `out`.
unfoldable pub read_loop : List ℕ → ℕ → ℕ → PbufReader × Option ℕ
read_loop [] value shift = (failed [], none)
read_loop (b ∷ rest) value shift =
    let value' = add_group value b shift in
    let more = read_loop rest value' (shift + 7) in
    if not (ltb shift 64)
    then (failed (b ∷ rest), none)
    else if bit_and b 0x80 == 0
    then (reading rest, some value')
    else more

unfoldable pub pbuf_read_varint : PbufReader → PbufReader × Option ℕ
unfolding read_loop
pbuf_read_varint r = if r.error then (r, none) else read_loop r.p 0 0

abbrev pub split_tag : PbufReader × Option ℕ → PbufReader × Option (ℕ × ℕ)
split_tag (r, none) = (r, none)
split_tag (r, some tag) = (r, some (tag / 2 ^ 3 % 2 ^ 32, bit_and tag 7))

-- The field number is cut to a uint32. A clean end leaves `error` clear.
unfoldable pub pbuf_read_tag : PbufReader → PbufReader × Option (ℕ × ℕ)
unfolding pbuf_read_varint
pbuf_read_tag r = if r.error || (length r.p == 0) then (r, none) else split_tag (pbuf_read_varint r)

abbrev pub take_bytes : PbufReader × Option ℕ → PbufReader × Option (List ℕ)
take_bytes (r, none) = (r, none)
take_bytes (r, some n) =
    if ltb (length r.p) n
    then (record r { error = true }, none)
    else (record r { p = drop n r.p }, some (take n r.p))

-- The bytes that `data` and `len` describe.
unfoldable pub pbuf_read_bytes : PbufReader → PbufReader × Option (List ℕ)
unfolding pbuf_read_varint
pbuf_read_bytes r = take_bytes (pbuf_read_varint r)

-- pbuf_read_fixed32 and pbuf_read_fixed64: little-endian, 4 and 8 bytes.
unfoldable pub little_endian : List ℕ → ℕ
little_endian [] = 0
little_endian (b ∷ bs) = b + little_endian bs * 256

unfoldable pub read_fixed : ℕ → PbufReader → PbufReader × Option ℕ
unfolding little_endian
read_fixed width r =
    if r.error
    then (r, none)
    else if ltb (length r.p) width
    then (record r { error = true }, none)
    else (record r { p = drop width r.p }, some (little_endian (take width r.p)))

abbrev pub done {ℓ} : {A : Type ℓ} → PbufReader × Option A → PbufReader × Bool
done (r, none) = (r, false)
done (r, some a) = (r, true)

unfoldable pub pbuf_skip : PbufReader → ℕ → PbufReader × Bool
unfolding pbuf_read_varint pbuf_read_bytes read_fixed
pbuf_skip r wiretype =
    if wiretype == wt_varint
    then done (pbuf_read_varint r)
    else if wiretype == wt_i64
    then done (read_fixed 8 r)
    else if wiretype == wt_len
    then done (pbuf_read_bytes r)
    else if wiretype == wt_i32
    then done (read_fixed 4 r)
    else (record r { error = true }, false)
