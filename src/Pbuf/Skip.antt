-- ===== src/Pbuf/Skip.antt =====
-- What pbuf_skip passes over, against the bytes of a field.
use amisync.Common.{
  ℕ, ◌≡◌, ◌≢◌, ◌↔◌, inl, inr, refl, sym, ap, ◌∙◌, Bool, true, false, Option, List, ◌++◌, arith,
}
use native.Mathlib.Decide.{ℕ_discrete}
use amisync.Pbuf.{
  PbufReader, reading, pbuf_read_varint, pbuf_read_bytes, read_fixed, done, pbuf_skip, wt_varint,
  wt_i64, wt_len, wt_i32,
}
use amisync.Pbuf.Safety.{Skipped, pbuf_skip-safe}
use amisync.Pbuf.Took.{
  IsField, IsVarint, Took, pbuf_read_varint-Took, pbuf_read_varint-front, bytes-Took, fixed-Took,
  fixed_skip, delimited_skip, done-Took,
}

module _ (r : PbufReader) where
  skip_varint :
      (wiretype : ℕ) → wiretype ≡ wt_varint → pbuf_skip r wiretype ≡ done (pbuf_read_varint r)
  unfolding pbuf_skip
  skip_varint wiretype e = rw e refl

  skip_i64 : (wiretype : ℕ) → wiretype ≡ wt_i64 → pbuf_skip r wiretype ≡ done (read_fixed 8 r)
  unfolding pbuf_skip
  skip_i64 wiretype e = rw e refl

  skip_len : (wiretype : ℕ) → wiretype ≡ wt_len → pbuf_skip r wiretype ≡ done (pbuf_read_bytes r)
  unfolding pbuf_skip
  skip_len wiretype e = rw e refl

  skip_i32 : (wiretype : ℕ) → wiretype ≡ wt_i32 → pbuf_skip r wiretype ≡ done (read_fixed 4 r)
  unfolding pbuf_skip
  skip_i32 wiretype e = rw e refl

  skip_other :
      (wiretype : ℕ)
      → wiretype ≢ wt_varint
      → wiretype ≢ wt_i64
      → wiretype ≢ wt_len
      → wiretype ≢ wt_i32
      → (pbuf_skip r wiretype).1 ≡ false
  unfolding pbuf_skip
  skip_other wiretype a b c d = ground arith

module _ (bytes rest : List ℕ) (wiretype : ℕ) where
  abbrev Passed : Type 0
  Passed = (front : List ℕ) × (bytes ≡ front ++ rest) × IsField wiretype front

  -- From what a call of the matching read took to the bytes of a field.
  passed {ℓ} :
      {A : Type ℓ} (F : List ℕ → A → Type 0) (o : PbufReader × Option A)
      → ((front : List ℕ) → (a : A) → F front a → IsField wiretype front)
      → Took bytes F o
      → pbuf_skip (reading bytes) wiretype ≡ done o
      → pbuf_skip (reading bytes) wiretype ≡ (reading rest, true)
      → Passed
  passed F o field t e h =
      let (front, k, (a, f)) = done-Took bytes rest F o t (sym e ∙ h) in (front, k, field front a f)

  skip-Passed : pbuf_skip (reading bytes) wiretype ≡ (reading rest, true) → Passed
  skip-Passed h = elim (ℕ_discrete wiretype wt_varint) [
    | yes e ↦
        passed IsVarint _ (λ front n f. inl (e, (n, f))) (pbuf_read_varint-Took bytes)
          (skip_varint (reading bytes) wiretype e) h
    | no a ↦ elim (ℕ_discrete wiretype wt_i64) [
      | yes e ↦
          passed _ _ (λ front n f. inr (inl (e, f))) (fixed-Took 8 bytes)
            (skip_i64 (reading bytes) wiretype e) h
      | no b ↦ elim (ℕ_discrete wiretype wt_len) [
        | yes e ↦
            passed _ _ (λ front n f. inr (inr (inl (e, f)))) (bytes-Took bytes)
              (skip_len (reading bytes) wiretype e) h
        | no c ↦ elim (ℕ_discrete wiretype wt_i32) [
          | yes e ↦
              passed _ _ (λ front n f. inr (inr (inr (e, f)))) (fixed-Took 4 bytes)
                (skip_i32 (reading bytes) wiretype e) h
          | no d ↦
              let refused = skip_other (reading bytes) wiretype a b c d in
              let answer = ap (λ (p : PbufReader × Bool). p.1) h in absurd (cc)
        ]
      ]
    ]
  ]

  Passed-skip : Passed → pbuf_skip (reading bytes) wiretype ≡ (reading rest, true)
  Passed-skip (front, e, inl (w, (n, f))) =
      skip_varint (reading bytes) wiretype w
      ∙ ap (λ b. done (pbuf_read_varint (reading b))) e
      ∙ ap done (pbuf_read_varint-front front rest n f)
  Passed-skip (front, e, inr (inl (w, l))) =
      skip_i64 (reading bytes) wiretype w
      ∙ ap (λ b. done (read_fixed 8 (reading b))) e
      ∙ fixed_skip front rest 8 l
  Passed-skip (front, e, inr (inr (inl (w, f)))) =
      skip_len (reading bytes) wiretype w
      ∙ ap (λ b. done (pbuf_read_bytes (reading b))) e
      ∙ delimited_skip front rest f
  Passed-skip (front, e, inr (inr (inr (w, l)))) =
      skip_i32 (reading bytes) wiretype w
      ∙ ap (λ b. done (read_fixed 4 (reading b))) e
      ∙ fixed_skip front rest 4 l

-- pbuf_skip returns 1 and leads to `rest` exactly when the bytes before `rest` are one value of the wire
-- type that the tag named: groups of seven bits of which only the last ends them, at most ten; eight
-- bytes; a length and that many bytes; or four bytes. So it never takes more bytes than there are, and
-- otherwise, as for any other wire type, it returns 0. The error flag is set exactly when it does, and
-- the reader stands within its buffer then too.
pub pbuf_skip_iff :
    (bytes : List ℕ) (wiretype : ℕ)
    → ((rest : List ℕ)
        → (pbuf_skip (reading bytes) wiretype ≡ (reading rest, true))
          ↔ ((front : List ℕ) × (bytes ≡ front ++ rest) × IsField wiretype front))
      × Skipped (reading bytes) (pbuf_skip (reading bytes) wiretype)
pbuf_skip_iff bytes wiretype = (
  λ rest. (skip-Passed bytes rest wiretype, Passed-skip bytes rest wiretype),
  pbuf_skip-safe (reading bytes) wiretype,
)
