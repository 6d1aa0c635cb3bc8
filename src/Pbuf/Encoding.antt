-- ===== src/Pbuf/Encoding.antt =====
-- What pbuf_write_varint writes, in plain arithmetic, and where it stops.
use Prim.Native.Nat.{bit_and, bit_or}
use mathlib.Core.List.{append-nil, append_assoc}
use mathlib.Core.WellFounded.{Acc}
use mathlib.Core.Logic.{dif_pos, dif_neg}
use mathlib.Core.Path.{fun_ext}
use native.Mathlib.Decide.{dec_lt}
use native.Mathlib.Nat.{pow-suc}
use native.Mathlib.Bridge.{le_prop}
use amisync.Common.{
  ℕ, zero, suc, ◌+◌, ◌-◌, ◌/◌, ◌%◌, ◌^◌, ◌≤◌, ◌<◌, ◌≡◌, refl, ap, ◌∙◌, true, false, List, [], ◌∷◌,
  ◌++◌, arith, length, if◌then◌else◌, ltb, leb, take, length-append, inl, inr, Bool-cases, leb→le,
  ltb→lt, All,
}
use amisync.Common.Order.{lt_wf}
use amisync.Common.Bits.{bit_or-shifted, bit_and-low_seven}
use amisync.Pbuf.Writer.{
  PbufWriter, Wrote, overflowed, ◌then_write◌, put_byte, group_shrinks, write_loop,
  pbuf_write_varint,
}

-- The groups of seven bits of `v`, lowest first, for `v` below 128 ^ (k + 1).
unfoldable pub groups : ℕ → ℕ → List ℕ
groups zero v = v ∷ []
groups (suc k) v =
    let rest = groups k (v / 128) in if ltb v 128 then v ∷ [] else (v % 128 + 128) ∷ rest

-- A uint64 takes ten groups at most.
abbrev pub varint : ℕ → List ℕ
varint v = groups 9 v

-- Bytes put one by one, up to the first that does not fit.
unfoldable pub emit : PbufWriter → List ℕ → Wrote
emit w [] = (w, true)
emit w (b ∷ bytes) = put_byte w b then_write λ w'. emit w' bytes

-- A writer that can be written to.
pub record IsOpen (w : PbufWriter) : Type 0 where
  pub no_error : w.error ≡ false
  pub fits : length w.buf ≤ w.cap

inner_byte : (v : ℕ) → bit_or (bit_and v 0x7f) 0x80 ≡ v % 128 + 128
inner_byte v = rw bit_and-low_seven (bit_or-shifted 7 (v % 128) 1 (omega arith))

put_byte_room :
    (w : PbufWriter) (b : ℕ)
    → w.error ≡ false
    → length w.buf < w.cap
    → put_byte w b ≡ (record w { buf = w.buf ++ b ∷ [] }, true)
unfolding put_byte
put_byte_room w b e h = ground arith

put_byte_full :
    (w : PbufWriter) (b : ℕ)
    → w.error ≡ false
    → w.cap ≤ length w.buf
    → put_byte w b ≡ (overflowed w, false)
unfolding put_byte
put_byte_full w b e h = ground arith

no_room : (w : PbufWriter) → w.cap ≤ length w.buf → w.cap - length w.buf ≡ 0
no_room w h = omega arith

less_one : (c n : ℕ) → c - (n + 1) ≡ c - n - 1
less_one c n = omega arith

below_power : (k v : ℕ) → v < 128 ^ suc (suc k) → v / 128 < 128 ^ suc k
below_power k v h = omega (arith, pow-suc 128 (suc k))

take-one : (n : ℕ) (b : ℕ) (bytes : List ℕ) → 0 < n → take n (b ∷ bytes) ≡ b ∷ take (n - 1) bytes
take-one zero b bytes h = absurd (omega arith)
take-one (suc n) b bytes h = ap (λ k. b ∷ take k bytes) (omega arith)

-- Where they fit, all bytes are behind what the buffer held.
pub emit_fits :
    (w : PbufWriter) (bytes : List ℕ)
    → w.error ≡ false
    → length w.buf + length bytes ≤ w.cap
    → emit w bytes ≡ (record w { buf = w.buf ++ bytes }, true)
unfolding emit
emit_fits w [] e h = rw append-nil
emit_fits w (b ∷ bytes) e h = rw (put_byte_room w b e (omega arith)) (
    emit_fits (record w { buf = w.buf ++ b ∷ [] }) bytes e
      (omega (arith, length-append w.buf (b ∷ [])))
    ∙ rw append_assoc)

-- Where they do not, as many as there is room for are, and the error flag is set.
pub emit_full :
    (w : PbufWriter) (bytes : List ℕ)
    → IsOpen w
    → w.cap < length w.buf + length bytes
    → emit w bytes
      ≡ (record w { buf = w.buf ++ take (w.cap - length w.buf) bytes; error = true }, false)
unfolding emit
emit_full w [] o h = absurd (omega arith)
emit_full w (b ∷ bytes) o h = elim (Bool-cases (leb w.cap (length w.buf))) [
  | inl full ↦
      rw (put_byte_full w b o.no_error (leb→le _ _ full), no_room w (leb→le _ _ full), append-nil)
  | inr room ↦
      rw
        (
          put_byte_room w b o.no_error (ground arith),
          take-one (w.cap - length w.buf) b bytes (ground arith),
        )
        (emit_full (record w { buf = w.buf ++ b ∷ [] }) bytes
            (record { no_error = o.no_error; fits = ground (arith, length-append w.buf (b ∷ [])) })
            (omega (arith, length-append w.buf (b ∷ [])))
          ∙ rw (append_assoc, length-append w.buf (b ∷ []), less_one w.cap (length w.buf)))
]

then_done : (r : Wrote) → (r then_write λ w'. (w', true)) ≡ r
then_done (w, true) = refl
then_done (w, false) = refl

last_group : (v : ℕ) → v < 128 → bit_and v 0x7f ≡ v
last_group v h = rw bit_and-low_seven (omega arith)

no_more : (v : ℕ) → v < 128 → ¬ (0 < v / 128)
no_more v h = omega arith

some_more : (v : ℕ) → ltb v 128 ≡ false → 0 < v / 128
some_more v h = ground arith

write_loop_last :
    (v : ℕ) (w : PbufWriter) (a : Acc ◌<◌ v) → v < 128 → write_loop w v a ≡ emit w (v ∷ [])
unfolding write_loop emit
write_loop_last v w (Acc.intro _ smaller) h =
    dif_neg (dec_lt 0 (v / 128)) (no_more v h) _ _ ∙ rw (last_group v h, then_done (put_byte w v))

write_loop_more :
    (v : ℕ) (w : PbufWriter) (smaller : (u : ℕ) → u < v → Acc ◌<◌ u)
    → ltb v 128 ≡ false
    → (bytes : List ℕ)
    → ((w' : PbufWriter) (a : Acc ◌<◌ (v / 128)) → write_loop w' (v / 128) a ≡ emit w' bytes)
    → write_loop w v (Acc.intro v smaller) ≡ emit w ((v % 128 + 128) ∷ bytes)
unfolding write_loop emit
write_loop_more v w smaller e bytes ih =
    dif_pos (dec_lt 0 (v / 128)) le_prop (some_more v e) _ _
    ∙ rw (inner_byte v) (
        ap (λ f. put_byte w (v % 128 + 128) then_write f)
          (fun_ext λ w'. ih w' (smaller (v / 128) (group_shrinks v (some_more v e)))))

write_loop-groups :
    (k v : ℕ) (w : PbufWriter) (a : Acc ◌<◌ v)
    → v < 128 ^ suc k
    → write_loop w v a ≡ emit w (groups k v)
unfolding groups
write_loop-groups zero v w a h = write_loop_last v w a (omega arith)
write_loop-groups (suc k) v w (Acc.intro _ smaller) h = elim (Bool-cases (ltb v 128)) [
  | inl e ↦ rw e (write_loop_last v w (Acc.intro v smaller) (ltb→lt v 128 e))
  | inr e ↦ rw e (
      write_loop_more v w smaller e (groups k (v / 128))
        (λ w' a. write_loop-groups k (v / 128) w' a (below_power k v h)))
]

-- On a uint64 the writer gets the bytes of `varint v`, one by one.
pub pbuf_write_varint-emit :
    (w : PbufWriter) (v : ℕ) → v < 2 ^ 64 → pbuf_write_varint w v ≡ emit w (varint v)
unfolding pbuf_write_varint
pbuf_write_varint-emit w v h = write_loop-groups 9 v w (lt_wf.apply v) (omega arith)

-- A uint64 is written by an open writer as its groups of seven bits, behind what the buffer held,
-- when they fit the capacity; when they do not, the call fails, sets the error flag, and has filled
-- the buffer exactly to its capacity.
pub pbuf_write_varint_lem :
    (w : PbufWriter) (v : ℕ)
    → IsOpen w
    → v < 2 ^ 64
    → (length w.buf + length (varint v) ≤ w.cap
        → pbuf_write_varint w v ≡ (record w { buf = w.buf ++ varint v }, true))
      × (w.cap < length w.buf + length (varint v)
          → pbuf_write_varint w v ≡ (
            record w { buf = w.buf ++ take (w.cap - length w.buf) (varint v); error = true },
            false,
          ))
pbuf_write_varint_lem w v o h =
    rw (pbuf_write_varint-emit w v h) (emit_fits w (varint v) o.no_error, emit_full w (varint v) o)

groups-IsByte : (k v : ℕ) → v < 128 ^ suc k → All (λ b. b < 256) (groups k v)
unfolding groups
groups-IsByte zero v h = omega arith
groups-IsByte (suc k) v h = elim (Bool-cases (ltb v 128)) [
  | inl e ↦ rw e (ground arith)
  | inr e ↦ rw e (omega arith, groups-IsByte k (v / 128) (below_power k v h))
]

pub length-groups : (k v : ℕ) → (1 ≤ length (groups k v)) × (length (groups k v) ≤ suc k)
unfolding groups
length-groups zero v = omega arith
length-groups (suc k) v = ground (arith, length-groups k (v / 128))

-- The encoding of a uint64 is 1 to 10 elements, and each is a byte.
pub varint_shape :
    (v : ℕ)
    → v < 2 ^ 64
    → All (λ b. b < 256) (varint v) × (1 ≤ length (varint v)) × (length (varint v) ≤ 10)
varint_shape v h = let (lo, hi) = length-groups 9 v in (groups-IsByte 9 v (omega arith), lo, hi)
