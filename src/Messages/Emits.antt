-- ===== src/Messages/Emits.antt =====
-- What one write of an encoder leaves in the buffer.
use mathlib.Core.List.{append-nil}
use mathlib.Core.WellFounded.{Acc}
use mathlib.Core.Logic.{dif_pos, dif_neg}
use native.Mathlib.Decide.{dec_lt}
use Prim.Native.Nat.{bit_and, bit_or}
use native.Mathlib.Bridge.{le_prop}
use amisync.Pbuf.{wt_varint, wt_len}
use amisync.Common.{
  ℕ, ltb, ◌/◌, ◌^◌, ◌<◌, ◌≡◌, refl, ap, ◌∙◌, Bool, true, false, inl, inr, List, arith, length,
  Bool-cases,
}
use amisync.Common.Order.{lt_wf}
use amisync.Pbuf.Writer.{
  PbufWriter, Wrote, tag_of, ◌then_write◌, put_byte, put_raw, write_loop, pbuf_write_varint,
  pbuf_write_tag, pbuf_write_uint64, pbuf_write_bytes, pbuf_write_string, pbuf_write_bool,
  pbuf_write_message,
}
use amisync.Pbuf.Encoding.{IsOpen}
use amisync.Pbuf.Fields.{
  WritesAll, uint64_field, bytes_field, pbuf_write_uint64_lem, pbuf_write_bytes_lem,
}
use amisync.Common.Int.{ℤ}
use amisync.Messages.Values.{uint32_of-lt}
use amisync.Messages.{when, pbuf_write_enum, uint32_of}
use amisync.Messages.Steps.{when_bytes}

-- After an error a write does nothing.
abbrev Stuck : (PbufWriter → Wrote) → Type 0
Stuck f = (w : PbufWriter) → w.error ≡ true → f w ≡ (w, false)

then-Stuck : (f g : PbufWriter → Wrote) → Stuck f → Stuck (λ w. f w then_write g)
then-Stuck f g s w h = ap (λ r. r then_write g) (s w h)

put_byte-Stuck : (b : ℕ) → Stuck (λ w. put_byte w b)
unfolding put_byte
put_byte-Stuck b w h = rw h refl

put_raw-Stuck : (bs : List ℕ) → Stuck (λ w. put_raw w bs)
unfolding put_raw
put_raw-Stuck bs w h = rw h refl

write_loop-Stuck : (v : ℕ) (a : Acc ◌<◌ v) → Stuck (λ w. write_loop w v a)
unfolding write_loop
write_loop-Stuck v (Acc.intro _ smaller) w h = elim (Bool-cases (ltb v 128)) [
  | inl e ↦ dif_neg (dec_lt 0 (v / 128)) (ground arith) _ _ ∙ put_byte-Stuck (bit_and v 0x7f) w h
  | inr e ↦
      dif_pos (dec_lt 0 (v / 128)) le_prop (ground arith) _ _
      ∙ then-Stuck (λ u. put_byte u (bit_or (bit_and v 0x7f) 0x80)) _
          (put_byte-Stuck (bit_or (bit_and v 0x7f) 0x80)) w h
]

varint-Stuck : (v : ℕ) → Stuck (λ w. pbuf_write_varint w v)
unfolding pbuf_write_varint
varint-Stuck v = write_loop-Stuck v (lt_wf.apply v)

tag-Stuck : (field wt : ℕ) → Stuck (λ w. pbuf_write_tag w field wt)
unfolding pbuf_write_tag
tag-Stuck field wt = varint-Stuck (tag_of field wt)

uint64-Stuck : (field v : ℕ) → Stuck (λ w. pbuf_write_uint64 w field v)
unfolding pbuf_write_uint64
uint64-Stuck field v =
    then-Stuck (λ w. pbuf_write_tag w field wt_varint) (λ w. pbuf_write_varint w v)
      (tag-Stuck field wt_varint)

bytes-Stuck : (field : ℕ) (bs : List ℕ) → Stuck (λ w. pbuf_write_bytes w field bs)
unfolding pbuf_write_bytes
bytes-Stuck field bs =
    then-Stuck
      (λ w. pbuf_write_tag w field wt_len then_write λ w'. pbuf_write_varint w' (length bs))
      (λ w. put_raw w bs)
      (then-Stuck (λ w. pbuf_write_tag w field wt_len) (λ w. pbuf_write_varint w (length bs))
        (tag-Stuck field wt_len))

-- A write that appends `chunk`, or sets the error flag when it does not fit.
pub record Emits (f : PbufWriter → Wrote) (chunk : List ℕ) : Type 0 where
  pub all : (w : PbufWriter) → IsOpen w → WritesAll w chunk (f w)
  pub stays : (w : PbufWriter) → w.error ≡ true → (f w).0.error ≡ true

Stuck-stays :
    (f : PbufWriter → Wrote) → Stuck f → (w : PbufWriter) → w.error ≡ true → (f w).0.error ≡ true
Stuck-stays f s w h = ap (λ (r : Wrote). r.0.error) (s w h) ∙ h

pub Emits-uint64 :
    (field v : ℕ)
    → field < 2 ^ 32
    → v < 2 ^ 64
    → Emits (λ w. pbuf_write_uint64 w field v) (uint64_field field v)
Emits-uint64 field v hf hv = record {
  all = λ w o. pbuf_write_uint64_lem w field v o hf hv;
  stays = Stuck-stays (λ w. pbuf_write_uint64 w field v) (uint64-Stuck field v);
}

pub Emits-bytes :
    (field : ℕ) (bs : List ℕ)
    → field < 2 ^ 32
    → length bs < 2 ^ 64
    → Emits (λ w. pbuf_write_bytes w field bs) (bytes_field field bs)
Emits-bytes field bs hf hb = record {
  all = λ w o. pbuf_write_bytes_lem w field bs o hf hb;
  stays = Stuck-stays (λ w. pbuf_write_bytes w field bs) (bytes-Stuck field bs);
}

pub Emits-string :
    (field : ℕ) (s : List ℕ)
    → field < 2 ^ 32
    → length s < 2 ^ 64
    → Emits (λ w. pbuf_write_string w field s) (bytes_field field s)
unfolding pbuf_write_string
Emits-string field s hf hb = Emits-bytes field s hf hb

pub Emits-bool :
    (field : ℕ) → field < 2 ^ 32 → Emits (λ w. pbuf_write_bool w field true) (uint64_field field 1)
unfolding pbuf_write_bool
Emits-bool field hf = Emits-uint64 field 1 hf (omega arith)

pub Emits-when :
    (b : Bool) (f : PbufWriter → Wrote) (chunk : List ℕ)
    → (b ≡ true → Emits f chunk)
    → Emits (when b f) (when_bytes b chunk)
Emits-when true f chunk h = h refl
Emits-when false f chunk h = record {
  all = λ w o. ((λ fits. rw append-nil refl), (λ full. absurd (omega (arith, o.fits))));
  stays = λ w e. e;
}

-- The writer of a nested message that holds all of it.
module _ (field : ℕ) (msg : PbufWriter) (chunk : List ℕ) (e : msg.error ≡ false)
    (b : msg.buf ≡ chunk) where
  message_same : (w : PbufWriter) → pbuf_write_message w field msg ≡ pbuf_write_bytes w field chunk
  unfolding pbuf_write_message
  message_same w = rw e (ap (pbuf_write_bytes w field) b)

  pub Emits-message :
      field < 2 ^ 32
      → length chunk < 2 ^ 64
      → Emits (λ w. pbuf_write_message w field msg) (bytes_field field chunk)
  Emits-message hf hb =
      let bytes : Emits (λ w. pbuf_write_bytes w field chunk) (bytes_field field chunk) =
        Emits-bytes field chunk hf hb in
      record {
        all = λ w o. rw (message_same w) (bytes.all w o);
        stays = λ w h. rw (message_same w) (bytes.stays w h);
      }

pub Emits-enum :
    (field : ℕ) (v : ℤ)
    → field < 2 ^ 32
    → Emits (λ w. pbuf_write_enum w field v) (uint64_field field (uint32_of v))
unfolding pbuf_write_enum
Emits-enum field v hf = Emits-uint64 field (uint32_of v) hf (omega (arith, uint32_of-lt v))
