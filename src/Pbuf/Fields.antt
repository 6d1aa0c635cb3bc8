-- ===== src/Pbuf/Fields.antt =====
-- Whole fields: what the writer appends for one, and the reader on it.
use mathlib.Core.List.{append_assoc}
use amisync.Common.{
  ℕ, ◌+◌, ◌^◌, ◌≤◌, ◌<◌, ◌≡◌, refl, ap, ◌∙◌, inl, inr, true, false, some, List, ◌++◌, arith, length,
  leb, length-append, Bool-cases, leb→le,
}
use amisync.Pbuf.{
  PbufReader, reading, pbuf_read_varint, pbuf_read_tag, pbuf_read_bytes, pbuf_skip, wt_varint,
  wt_len,
}
use amisync.Pbuf.Writer.{
  PbufWriter, Wrote, pbuf_writer_init, ◌then_write◌, put_raw, tag_of, pbuf_write_varint,
  pbuf_write_tag, pbuf_write_uint64, pbuf_write_bytes,
}
use amisync.Pbuf.Encoding.{varint, IsOpen, emit_fits, emit_full, pbuf_write_varint-emit}
use amisync.Pbuf.RoundTrip.{tag_of_lem, read_varint-varint, read_tag-tag_of, read_bytes-bytes}

-- The bytes of a field.
abbrev pub uint64_field : ℕ → ℕ → List ℕ
uint64_field field v = varint (tag_of field wt_varint) ++ varint v

abbrev pub bytes_field : ℕ → List ℕ → List ℕ
bytes_field field bytes = varint (tag_of field wt_len) ++ varint (length bytes) ++ bytes

-- The writer with more bytes in its buffer.
abbrev pub extended : PbufWriter → List ℕ → PbufWriter
extended w bytes = record w { buf = w.buf ++ bytes }

-- The writer's answer for a chunk: all of it when it fits, else a failure with the flag set.
abbrev pub WritesAll : PbufWriter → List ℕ → Wrote → Type 0
WritesAll w chunk r =
    (length w.buf + length chunk ≤ w.cap → r ≡ (extended w chunk, true))
    × (w.cap < length w.buf + length chunk → (r.0.error ≡ true) × (r.1 ≡ false))

varint_writes :
    (w : PbufWriter) (v : ℕ)
    → IsOpen w
    → v < 2 ^ 64
    → WritesAll w (varint v) (pbuf_write_varint w v)
varint_writes w v o h = (
  (λ fits. pbuf_write_varint-emit w v h ∙ emit_fits w (varint v) o.no_error fits),
  (λ full. rw (pbuf_write_varint-emit w v h, emit_full w (varint v) o full) (refl, refl)),
)

raw_writes : (w : PbufWriter) (bytes : List ℕ) → IsOpen w → WritesAll w bytes (put_raw w bytes)
unfolding put_raw
raw_writes w bytes o = ((λ fits. ground arith), (λ full. ground arith))

then_failed : (r : Wrote) (f : PbufWriter → Wrote) → r.1 ≡ false → (r then_write f) ≡ (r.0, false)
then_failed (w, true) f h = cc
then_failed (w, false) f h = refl

pub extended_assoc :
    (w : PbufWriter) (a b : List ℕ) → extended (extended w a) b ≡ extended w (a ++ b)
extended_assoc w a b = rw append_assoc

-- One chunk after the other, each with the rule above.
module _ (w : PbufWriter) (a b : List ℕ) (r : Wrote) (f : PbufWriter → Wrote) (o : IsOpen w)
    (first : WritesAll w a r)
    (second : IsOpen (extended w a) → WritesAll (extended w a) b (f (extended w a))) where
  first_fits : length w.buf + length a ≤ w.cap → WritesAll w (a ++ b) (r then_write f)
  first_fits h =
      let more : WritesAll (extended w a) b (f (extended w a)) =
        second (record { no_error = o.no_error; fits = omega (arith, length-append w.buf a) }) in
      rw (first.0 h) (
        (λ fits.
            more.0 (omega (arith, length-append w.buf a, length-append a b))
            ∙ ap (λ u. (u, true)) (extended_assoc w a b)),
        (λ full. more.1 (omega (arith, length-append w.buf a, length-append a b))),
      )

  first_full : w.cap < length w.buf + length a → WritesAll w (a ++ b) (r then_write f)
  first_full h =
      rw (then_failed r f (first.1 h).1)
        ((λ fits. absurd (omega (arith, length-append a b))), (λ full. ((first.1 h).0, refl)))

  chunks : WritesAll w (a ++ b) (r then_write f)
  chunks = elim (Bool-cases (leb (length w.buf + length a) w.cap)) [
    | inl e ↦ first_fits (leb→le _ _ e)
    | inr e ↦ first_full (ground arith)
  ]

tag_small : (field wiretype : ℕ) → field < 2 ^ 32 → wiretype < 8 → tag_of field wiretype < 2 ^ 64
tag_small field wiretype hf hw = omega (arith, tag_of_lem field wiretype hf hw)

tag_writes :
    (w : PbufWriter) (field wiretype : ℕ)
    → IsOpen w
    → field < 2 ^ 32
    → wiretype < 8
    → WritesAll w (varint (tag_of field wiretype)) (pbuf_write_tag w field wiretype)
unfolding pbuf_write_tag
tag_writes w field wiretype o hf hw =
    varint_writes w (tag_of field wiretype) o (tag_small field wiretype hf hw)

-- For a field number that is a uint32 and a uint64 value, an open writer appends exactly the tag
-- and the value when they fit its capacity; when they do not, it fails and its error flag is set.
pub pbuf_write_uint64_lem :
    (w : PbufWriter) (field v : ℕ)
    → IsOpen w
    → field < 2 ^ 32
    → v < 2 ^ 64
    → WritesAll w (uint64_field field v) (pbuf_write_uint64 w field v)
unfolding pbuf_write_uint64
pbuf_write_uint64_lem w field v o hf hv =
    chunks w (varint (tag_of field wt_varint)) (varint v) (pbuf_write_tag w field wt_varint)
      (λ w'. pbuf_write_varint w' v) o (tag_writes w field wt_varint o hf (omega arith))
      (λ o'. varint_writes _ v o' hv)

-- The same of a length-delimited field: tag, length and bytes, all of them or a failure.
pub pbuf_write_bytes_lem :
    (w : PbufWriter) (field : ℕ) (bytes : List ℕ)
    → IsOpen w
    → field < 2 ^ 32
    → length bytes < 2 ^ 64
    → WritesAll w (bytes_field field bytes) (pbuf_write_bytes w field bytes)
unfolding pbuf_write_bytes
pbuf_write_bytes_lem w field bytes o hf hb =
    chunks w (varint (tag_of field wt_len) ++ varint (length bytes)) bytes
      (pbuf_write_tag w field wt_len then_write λ w'. pbuf_write_varint w' (length bytes))
      (λ w'. put_raw w' bytes) o
      (chunks w (varint (tag_of field wt_len)) (varint (length bytes))
        (pbuf_write_tag w field wt_len) (λ w'. pbuf_write_varint w' (length bytes)) o
        (tag_writes w field wt_len o hf (omega arith)) (λ o'. varint_writes _ (length bytes) o' hb))
      (λ o'. raw_writes _ bytes o')

-- What a successful write has put into a fresh buffer.
abbrev pub written : Wrote → List ℕ
written r = r.0.buf

fresh_written :
    (cap : ℕ) (chunk : List ℕ) (r : Wrote)
    → WritesAll (pbuf_writer_init cap) chunk r
    → r.1 ≡ true
    → written r ≡ chunk
unfolding pbuf_writer_init
fresh_written cap chunk r h ok = elim (Bool-cases (leb (length chunk) cap)) [
  | inl e ↦ ap written (h.0 (omega (arith, leb→le _ _ e)))
  | inr e ↦ cc (ok, (h.1 (ground arith)).1)
]

pub IsOpen-init : (cap : ℕ) → IsOpen (pbuf_writer_init cap)
unfolding pbuf_writer_init
IsOpen-init cap = record { no_error = refl; fits = omega arith }

-- When a uint64 field is written into a fresh buffer with success, the reader gets back the field
-- number and the wire type, then the value, and stands at the bytes that follow; skipping the value
-- instead of reading it leads to the same place.
pub read-pbuf_write_uint64 :
    (cap field v : ℕ) (rest : List ℕ)
    → field < 2 ^ 32
    → v < 2 ^ 64
    → (pbuf_write_uint64 (pbuf_writer_init cap) field v).1 ≡ true
    → (mid : PbufReader) × (pbuf_read_tag
          (reading (written (pbuf_write_uint64 (pbuf_writer_init cap) field v) ++ rest))
        ≡ (mid, some (field, wt_varint)))
      × (pbuf_read_varint mid ≡ (reading rest, some v))
      × (pbuf_skip mid wt_varint ≡ (reading rest, true))
unfolding pbuf_skip
read-pbuf_write_uint64 cap field v rest hf hv ok =
    let back : pbuf_read_varint (reading (varint v ++ rest)) ≡ (reading rest, some v) =
      read_varint-varint v rest hv in
    (
      reading (varint v ++ rest),
      rw
          (
            fresh_written cap (uint64_field field v) _
                (pbuf_write_uint64_lem (pbuf_writer_init cap) field v (IsOpen-init cap) hf hv) ok,
            append_assoc,
          )
          (read_tag-tag_of field wt_varint (varint v ++ rest) hf (omega arith)),
      back,
      rw back,
    )

-- The same of a length-delimited field: the reader gets back the field number, the wire type and
-- the bytes, whatever they are, and a skip of the bytes leads to what follows them.
pub read-pbuf_write_bytes :
    (cap field : ℕ) (bytes rest : List ℕ)
    → field < 2 ^ 32
    → length bytes < 2 ^ 64
    → (pbuf_write_bytes (pbuf_writer_init cap) field bytes).1 ≡ true
    → (mid : PbufReader) × (pbuf_read_tag
          (reading (written (pbuf_write_bytes (pbuf_writer_init cap) field bytes) ++ rest))
        ≡ (mid, some (field, wt_len)))
      × (pbuf_read_bytes mid ≡ (reading rest, some bytes))
      × (pbuf_skip mid wt_len ≡ (reading rest, true))
unfolding pbuf_skip
read-pbuf_write_bytes cap field bytes rest hf hb ok =
    let back : pbuf_read_bytes (reading (varint (length bytes) ++ bytes ++ rest))
        ≡ (reading rest, some bytes) =
      read_bytes-bytes bytes rest hb in
    (
      reading (varint (length bytes) ++ bytes ++ rest),
      rw
          (fresh_written cap (bytes_field field bytes) _
            (pbuf_write_bytes_lem (pbuf_writer_init cap) field bytes (IsOpen-init cap) hf hb) ok)
          (rw (append_assoc, append_assoc, append_assoc)
            (read_tag-tag_of field wt_len _ hf (omega arith))),
      back,
      rw back,
    )
