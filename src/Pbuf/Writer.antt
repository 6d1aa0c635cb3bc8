-- ===== src/Pbuf/Writer.antt =====
-- The writer of src/pbuf.c.
use Prim.Native.Nat.{bit_and, bit_or}
use mathlib.Core.Logic.{dite}
use mathlib.Core.WellFounded.{Acc}
use native.Mathlib.Decide.{dec_lt}
use amisync.Common.{
  ℕ, ◌-◌, ◌*◌, ◌/◌, ◌%◌, ◌^◌, ◌<◌, Bool, true, false, List, [], ◌∷◌, ◌++◌, arith, length,
  if◌then◌else◌, ltb, leb,
}
use amisync.Common.Order.{lt_wf}
use amisync.Pbuf.{wt_varint, wt_len}

-- `buf` is the bytes written so far, so `len` is its length.
pub record PbufWriter : Type 0 where
  pub buf : List ℕ
  pub cap : ℕ
  pub error : Bool

-- A writer with the int that the C function returns.
abbrev pub Wrote : Type 0
Wrote = PbufWriter × Bool

abbrev pub overflowed : PbufWriter → PbufWriter
overflowed w = record w { error = true }

unfoldable pub pbuf_writer_init : ℕ → PbufWriter
pbuf_writer_init cap = record { buf = []; cap = cap; error = false }

-- a && b: the second call is made only after a success.
infixl 5 ◌then_write◌
abbrev pub ◌then_write◌ : Wrote → (PbufWriter → Wrote) → Wrote
(w, true) then_write f = f w
(w, false) then_write f = (w, false)

unfoldable pub put_byte : PbufWriter → ℕ → Wrote
put_byte w b =
    if w.error
    then (w, false)
    else if leb w.cap (length w.buf)
    then (overflowed w, false)
    else (record w { buf = w.buf ++ b ∷ [] }, true)

unfoldable pub put_raw : PbufWriter → List ℕ → Wrote
put_raw w bytes =
    if w.error
    then (w, false)
    else if ltb (w.cap - length w.buf) (length bytes)
    then (overflowed w, false)
    else (record w { buf = w.buf ++ bytes }, true)

pub group_shrinks : (v : ℕ) → 0 < v / 128 → v / 128 < v
group_shrinks v h = omega arith

-- The do-while loop; `v >>= 7` is `v / 128`, and the loop goes on while that is not 0.
unfoldable pub write_loop : PbufWriter → (v : ℕ) → Acc ◌<◌ v → Wrote
unfolding put_byte
write_loop w v (Acc.intro _ smaller) =
    let group = bit_and v 0x7f in
    dite (dec_lt 0 (v / 128))
      (λ more. put_byte w (bit_or group 0x80) then_write λ w'.
        write_loop w' (v / 128) (smaller _ (group_shrinks v more)))
      (λ _. put_byte w group)

unfoldable pub pbuf_write_varint : PbufWriter → ℕ → Wrote
unfolding write_loop lt_wf
pbuf_write_varint w v = write_loop w v (lt_wf.apply v)

-- ((uint64_t)field << 3) | (uint32_t)wiretype
abbrev pub tag_of : ℕ → ℕ → ℕ
tag_of field wiretype = bit_or (field * 2 ^ 3 % 2 ^ 64) wiretype

unfoldable pub pbuf_write_tag : PbufWriter → ℕ → ℕ → Wrote
unfolding pbuf_write_varint
pbuf_write_tag w field wiretype = pbuf_write_varint w (tag_of field wiretype)

-- pbuf_write_int64 hands over the same 64 bits, (uint64_t)v.
unfoldable pub pbuf_write_uint64 : PbufWriter → ℕ → ℕ → Wrote
unfolding pbuf_write_tag
pbuf_write_uint64 w field v =
    pbuf_write_tag w field wt_varint then_write λ w'. pbuf_write_varint w' v

unfoldable pub pbuf_write_bool : PbufWriter → ℕ → Bool → Wrote
unfolding pbuf_write_uint64
pbuf_write_bool w field v = pbuf_write_uint64 w field (if v then 1 else 0)

unfoldable pub pbuf_write_bytes : PbufWriter → ℕ → List ℕ → Wrote
unfolding pbuf_write_tag put_raw
pbuf_write_bytes w field bytes =
    pbuf_write_tag w field wt_len
    then_write (λ w'. pbuf_write_varint w' (length bytes))
    then_write (λ w'. put_raw w' bytes)

-- A nested message, encoded into a buffer of its own; a failed one fails the outer writer.
unfoldable pub pbuf_write_message : PbufWriter → ℕ → PbufWriter → Wrote
unfolding pbuf_write_bytes
pbuf_write_message w field msg =
    if msg.error then (overflowed w, false) else pbuf_write_bytes w field msg.buf

-- A string is the bytes before its NUL, so strlen is the list's length.
unfoldable pub pbuf_write_string : PbufWriter → ℕ → List ℕ → Wrote
unfolding pbuf_write_bytes
pbuf_write_string w field s = pbuf_write_bytes w field s
