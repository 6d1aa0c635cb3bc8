-- ===== src/Pbuf/Tests.antt =====
-- Concrete runs of the wire codec, and the theorems at concrete inputs.
use native.Mathlib.Decide.{dec_lt}
use amisync.Common.{ℕ, ◌≡◌, ◌↔◌, List, refl, true, false, some, none, [], ◌∷◌, ◌++◌, arith}
use amisync.Pbuf.{
  PbufReader, reading, failed, pbuf_read_varint, pbuf_read_tag, pbuf_read_bytes, pbuf_skip, wt_len,
}
use amisync.Pbuf.Writer.{pbuf_writer_init, pbuf_write_varint, pbuf_write_uint64, pbuf_write_bytes}
use amisync.Pbuf.Encoding.{IsOpen}
use amisync.Pbuf.Fields.{written, read-pbuf_write_bytes}
use amisync.Pbuf.Safety.{Skipped}
use amisync.Pbuf.Took.{IsField}
use amisync.Pbuf.Skip.{pbuf_skip_iff}

write_300 : (pbuf_write_varint (pbuf_writer_init 4) 300).0.buf ≡ 0xac ∷ 0x02 ∷ []
unfolding pbuf_write_varint dec_lt pbuf_writer_init
write_300 = refl

read_300 : pbuf_read_varint (reading (0xac ∷ 0x02 ∷ 9 ∷ [])) ≡ (reading (9 ∷ []), some 300)
unfolding pbuf_read_varint
read_300 = refl

read_cut : pbuf_read_varint (reading (0xac ∷ [])) ≡ (failed [], none)
unfolding pbuf_read_varint
read_cut = refl

read_empty : pbuf_read_tag (reading []) ≡ (reading [], none)
unfolding pbuf_read_tag
read_empty = refl

IsOpen-four : IsOpen (pbuf_writer_init 4)
unfolding pbuf_writer_init
IsOpen-four = record { no_error = refl; fits = omega arith }

wrote_300 : (pbuf_write_uint64 (pbuf_writer_init 4) 2 300).1 ≡ true
unfolding pbuf_write_uint64 dec_lt pbuf_writer_init
wrote_300 = refl

wrote_seven : (pbuf_write_bytes (pbuf_writer_init 4) 2 (7 ∷ [])).1 ≡ true
unfolding pbuf_write_bytes dec_lt pbuf_writer_init
wrote_seven = refl

read-pbuf_write_bytes_example :
    (mid : PbufReader) × (pbuf_read_tag
        (reading (written (pbuf_write_bytes (pbuf_writer_init 4) 2 (7 ∷ [])) ++ 9 ∷ []))
      ≡ (mid, some (2, wt_len)))
    × (pbuf_read_bytes mid ≡ (reading (9 ∷ []), some (7 ∷ [])))
    × (pbuf_skip mid wt_len ≡ (reading (9 ∷ []), true))
read-pbuf_write_bytes_example =
    read-pbuf_write_bytes 4 2 (7 ∷ []) (9 ∷ []) (omega arith) (omega arith) wrote_seven

-- A length of three bytes where two are left is refused, and so are seven bytes for eight.
skips_short :
    (pbuf_skip (reading (3 ∷ 1 ∷ 2 ∷ [])) wt_len ≡ (failed (1 ∷ 2 ∷ []), false))
    × ((pbuf_skip (reading (1 ∷ 2 ∷ 3 ∷ 4 ∷ 5 ∷ 6 ∷ 7 ∷ [])) 1).1 ≡ false)
unfolding pbuf_skip
skips_short = (refl, refl)

pbuf_skip_iff_example :
    ((rest : List ℕ)
      → (pbuf_skip (reading (2 ∷ 1 ∷ 2 ∷ 9 ∷ [])) 2 ≡ (reading rest, true))
        ↔ ((front : List ℕ) × (2 ∷ 1 ∷ 2 ∷ 9 ∷ [] ≡ front ++ rest) × IsField 2 front))
    × Skipped (reading (2 ∷ 1 ∷ 2 ∷ 9 ∷ [])) (pbuf_skip (reading (2 ∷ 1 ∷ 2 ∷ 9 ∷ [])) 2)
pbuf_skip_iff_example = pbuf_skip_iff (2 ∷ 1 ∷ 2 ∷ 9 ∷ []) 2
