-- ===== src/Messages.antt =====
-- src/bep.c: what the codecs of its messages share. A decoder is a loop over the fields of a buffer
-- that does one of three things with each; an encoder is a run of writes whose answers it does not
-- look at, and one test of the writer's error flag at the end.
pub mod Loop
pub mod Steps
pub mod Keeps
pub mod Values
pub mod Emits
pub mod Runs
pub mod Hello
mod Tests
pub mod Transfer
pub mod FileInfo
pub mod Frames
use amisync.Common.{
  ℕ, zero, suc, ◌-◌, ◌%◌, ◌^◌, Bool, true, false, not, Option, none, some, List, [], ◌∷◌, length,
  take, if◌then◌else◌, ltb, ◌==◌,
}
use amisync.Common.Int.{ℤ, pos, negsuc}
pub use amisync.Common.Int.{int32_of}
use amisync.Pbuf.{
  PbufReader, pbuf_reader_init, pbuf_read_varint, pbuf_read_tag, pbuf_read_bytes, pbuf_skip,
}
use amisync.Pbuf.Writer.{PbufWriter, Wrote, pbuf_write_uint64}

-- (uint64_t)v of an int64_t, and (uint64_t)(uint32_t)v of an int32_t or an int.
abbrev pub uint64_of : ℤ → ℕ
uint64_of (pos n) = n % 2 ^ 64
uint64_of (negsuc n) = 2 ^ 64 - 1 - n % 2 ^ 64

abbrev pub uint32_of : ℤ → ℕ
uint32_of (pos n) = n % 2 ^ 32
uint32_of (negsuc n) = 2 ^ 32 - 1 - n % 2 ^ 32

-- (int64_t)v: the bits as a number in two's complement.
abbrev pub int64_of : ℕ → ℤ
int64_of v = if ltb v (2 ^ 63) then pos v else negsuc (2 ^ 64 - 1 - v)

-- (int)v of from_temporary, which is only tested for being 0.
abbrev pub flag_of : ℕ → Bool
flag_of v = not (v % 2 ^ 32 == 0)

-- Does an int differ from 0?
abbrev pub nonzero : ℤ → Bool
nonzero (pos n) = not (n == 0)
nonzero (negsuc n) = true

-- The bytes before the first NUL.
unfoldable pub before_nul : List ℕ → List ℕ
before_nul [] = []
before_nul (b ∷ bytes) = let rest = before_nul bytes in if b == 0 then [] else b ∷ rest

-- The buffer has `cap` bytes, one of them for the NUL.
unfoldable pub copy_str : ℕ → List ℕ → List ℕ
unfolding before_nul
copy_str cap src = before_nul (take (cap - 1) src)

-- What a decoder does with a field: store its varint, store its bytes (or refuse them), or skip it.
pub data OnField {ℓ} (M : Type ℓ) : Type ℓ where
  number : (ℕ → M) → OnField M
  bytes : (List ℕ → Option M) → OnField M
  unknown : OnField M

module _ {ℓ} {M : Type ℓ} where
  -- if (!pbuf_read_varint(&r, &v)) return 0;
  abbrev pub stored : (ℕ → M) → PbufReader × Option ℕ → PbufReader × Option M
  stored f (r, none) = (r, none)
  stored f (r, some v) = (r, some (f v))

  -- if (!pbuf_read_bytes(&r, &p, &n)) return 0;
  abbrev pub stored_bytes :
      (List ℕ → Option M) → PbufReader × Option (List ℕ) → PbufReader × Option M
  stored_bytes f (r, none) = (r, none)
  stored_bytes f (r, some p) = (r, f p)

  -- else if (!pbuf_skip(&r, wt)) return 0;
  abbrev pub skipped : M → PbufReader × Bool → PbufReader × Option M
  skipped m (r, true) = (r, some m)
  skipped m (r, false) = (r, none)

  -- `none` is a return of 0; callers do not read the message then.
  unfoldable pub do_field : OnField M → ℕ → PbufReader → M → PbufReader × Option M
  unfolding pbuf_read_varint pbuf_read_bytes pbuf_skip
  do_field (number f) wt r m = stored f (pbuf_read_varint r)
  do_field (bytes f) wt r m = stored_bytes f (pbuf_read_bytes r)
  do_field unknown wt r m = skipped m (pbuf_skip r wt)

  -- return !r.error;
  abbrev pub at_end : PbufReader → M → Option M
  at_end r m = if r.error then none else some m

  abbrev pub after_field : (PbufReader → M → Option M) → PbufReader × Option M → Option M
  after_field more (r, none) = none
  after_field more (r, some m) = more r m

  -- The body of the loop: a tag with its field and then the next turn, or the end.
  abbrev pub after_tag :
      (ℕ → ℕ → M → OnField M)
      → (PbufReader → M → Option M)
      → M
      → PbufReader × Option (ℕ × ℕ)
      → Option M
  after_tag on more m (r, none) = at_end r m
  after_tag on more m (r, some (field, wt)) = after_field more (do_field (on field wt m) wt r m)

  -- The `while (pbuf_read_tag(&r, &field, &wt))` loop of every decoder; `on` is the choice that the
  -- decoder's own tests of the field number and the wire type make. `stuck` stands for running out of
  -- fuel, which the code has none of.
  unfoldable pub read_fields : (ℕ → ℕ → M → OnField M) → Option M → ℕ → PbufReader → M → Option M
  unfolding pbuf_read_tag do_field
  read_fields on stuck zero r m = stuck
  read_fields on stuck (suc fuel) r m =
      after_tag on (λ r' m'. read_fields on stuck fuel r' m') m (pbuf_read_tag r)

  -- pbuf_reader_init and the loop, over a buffer of `length buf` bytes.
  unfoldable pub decode : (ℕ → ℕ → M → OnField M) → M → List ℕ → Option M
  unfolding pbuf_reader_init read_fields
  decode on m buf = read_fields on none (suc (length buf)) (pbuf_reader_init buf (length buf)) m

-- A write that is made only under a condition of the message.
abbrev pub when : Bool → (PbufWriter → Wrote) → PbufWriter → Wrote
when true f w = f w
when false f w = (w, true)

-- One write after the other, whatever they answer.
unfoldable pub write_all : List (PbufWriter → Wrote) → PbufWriter → PbufWriter
write_all [] w = w
write_all (f ∷ fs) w = write_all fs (f w).0

-- if (w.error) return 0; the bytes written are those that `buf` and `outlen` describe.
abbrev pub finished : PbufWriter → Option (List ℕ)
finished w = if w.error then none else some w.buf

unfoldable pub pbuf_write_enum : PbufWriter → ℕ → ℤ → Wrote
unfolding pbuf_write_uint64
pbuf_write_enum w field v = pbuf_write_uint64 w field (uint32_of v)
