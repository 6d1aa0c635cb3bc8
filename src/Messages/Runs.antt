-- ===== src/Messages/Runs.antt =====
-- Runs of writes: a whole message in a buffer, and one inside another.
use mathlib.Core.List.{append-nil, append_assoc}
use amisync.Common.{
  ℕ, ◌+◌, ◌^◌, ◌≤◌, ◌<◌, ◌≡◌, refl, sym, ap, ◌∙◌, true, false, inl, inr, none, some, List, [], ◌∷◌,
  ◌++◌, arith, length, length-append, if◌then◌else◌, leb, leb→le, le→leb, Bool-cases,
}
use amisync.Pbuf.Writer.{PbufWriter, Wrote, pbuf_writer_init, pbuf_write_message}
use amisync.Pbuf.Encoding.{IsOpen}
use amisync.Pbuf.Fields.{extended, extended_assoc, IsOpen-init, bytes_field}
use amisync.Messages.{write_all, finished}
use amisync.Messages.Emits.{Emits, Emits-message}

abbrev pub concat : List (List ℕ) → List ℕ
concat [] = []
concat (c ∷ cs) = c ++ concat cs

-- Each write emits the chunk that stands at its place.
infixr 5 ◌also◌
pub data EmitsAll : List (PbufWriter → Wrote) → List (List ℕ) → Type 0 where
  no_more : EmitsAll [] []
  ◌also◌ :
      {f : PbufWriter → Wrote} {c : List ℕ} {fs : List (PbufWriter → Wrote)} {cs : List (List ℕ)}
      → Emits f c
      → EmitsAll fs cs
      → EmitsAll (f ∷ fs) (c ∷ cs)

write_all_stays :
    (fs : List (PbufWriter → Wrote)) (cs : List (List ℕ)) (w : PbufWriter)
    → EmitsAll fs cs
    → w.error ≡ true
    → (write_all fs w).error ≡ true
unfolding write_all
write_all_stays _ _ w no_more e = e
write_all_stays _ _ w (◌also◌ {f} {c} {fs} {cs} h hs) e =
    write_all_stays fs cs (f w).0 hs (h.stays w e)

write_all_fits :
    (fs : List (PbufWriter → Wrote)) (cs : List (List ℕ)) (w : PbufWriter)
    → EmitsAll fs cs
    → IsOpen w
    → length w.buf + length (concat cs) ≤ w.cap
    → write_all fs w ≡ extended w (concat cs)
unfolding write_all
write_all_fits _ _ w no_more o fits = rw append-nil refl
write_all_fits _ _ w (◌also◌ {f} {c} {fs} {cs} h hs) o fits =
    rw ((h.all w o).0 (omega (arith, length-append c (concat cs)))) (
      write_all_fits fs cs (extended w c) hs
        (record {
          no_error = o.no_error;
          fits = omega (arith, length-append w.buf c, length-append c (concat cs));
        })
        (omega (arith, length-append w.buf c, length-append c (concat cs)))
      ∙ extended_assoc w c (concat cs))

write_all_full :
    (fs : List (PbufWriter → Wrote)) (cs : List (List ℕ)) (w : PbufWriter)
    → EmitsAll fs cs
    → IsOpen w
    → w.cap < length w.buf + length (concat cs)
    → (write_all fs w).error ≡ true
unfolding write_all
write_all_full _ _ w no_more o full = absurd (omega (arith, o.fits))
write_all_full _ _ w (◌also◌ {f} {c} {fs} {cs} h hs) o full =
    elim (Bool-cases (leb (length w.buf + length c) w.cap)) [
      | inl e ↦
          ap (λ (r : Wrote). (write_all fs r.0).error) ((h.all w o).0 (leb→le _ _ e))
          ∙ write_all_full fs cs (extended w c) hs
              (record {
                no_error = o.no_error;
                fits = omega (arith, length-append w.buf c, leb→le _ _ e);
              })
              (omega (arith, length-append w.buf c, length-append c (concat cs)))
      | inr e ↦ write_all_stays fs cs (f w).0 hs ((h.all w o).1 (ground arith)).0
    ]

-- A whole encoder: the bytes of its fields when the buffer holds them, else a failure.
pub finish-write_all :
    (fs : List (PbufWriter → Wrote)) (cs : List (List ℕ)) (cap : ℕ)
    → EmitsAll fs cs
    → finished (write_all fs (pbuf_writer_init cap))
      ≡ (if leb (length (concat cs)) cap then some (concat cs) else none)
unfolding pbuf_writer_init
finish-write_all fs cs cap h = elim (Bool-cases (leb (length (concat cs)) cap)) [
  | inl e ↦
      rw
        (
          e,
          write_all_fits fs cs (pbuf_writer_init cap) h (IsOpen-init cap)
              (omega (arith, leb→le _ _ e)),
        )
        refl
  | inr e ↦
      rw (e, write_all_full fs cs (pbuf_writer_init cap) h (IsOpen-init cap) (ground arith)) refl
]

-- A nested writer whose scratch buffer is large enough holds the whole message.
pub scratch-write_all :
    (fs : List (PbufWriter → Wrote)) (cs : List (List ℕ)) (cap : ℕ)
    → EmitsAll fs cs
    → length (concat cs) ≤ cap
    → write_all fs (pbuf_writer_init cap) ≡ extended (pbuf_writer_init cap) (concat cs)
unfolding pbuf_writer_init
scratch-write_all fs cs cap h fits =
    write_all_fits fs cs (pbuf_writer_init cap) h (IsOpen-init cap) (omega arith)

pub EmitsAll-append :
    (fs gs : List (PbufWriter → Wrote)) (cs ds : List (List ℕ))
    → EmitsAll fs cs
    → EmitsAll gs ds
    → EmitsAll (fs ++ gs) (cs ++ ds)
EmitsAll-append _ gs _ ds no_more k = k
EmitsAll-append _ gs _ ds (◌also◌ {f} {c} {fs} {cs} h hs) k =
    h also EmitsAll-append fs gs cs ds hs k

pub concat-append : (cs ds : List (List ℕ)) → concat (cs ++ ds) ≡ concat cs ++ concat ds
concat-append [] ds = refl
concat-append (c ∷ cs) ds =
    ap (◌++◌ c) (concat-append cs ds) ∙ sym (append_assoc c (concat cs) (concat ds))

-- What an encoder returns when its buffer holds the message.
pub finish_fits :
    (fs : List (PbufWriter → Wrote)) (cs : List (List ℕ)) (cap : ℕ)
    → EmitsAll fs cs
    → length (concat cs) ≤ cap
    → finished (write_all fs (pbuf_writer_init cap)) ≡ some (concat cs)
finish_fits fs cs cap h fits =
    finish-write_all fs cs cap h ∙ rw (le→leb (length (concat cs)) cap fits) refl

-- Chunk by chunk, no longer than the numbers say.
infixr 5 ◌then_within◌
pub data Within : List (List ℕ) → List ℕ → Type 0 where
  no_chunks : Within [] []
  ◌then_within◌ :
      {c : List ℕ} {k : ℕ} {cs : List (List ℕ)} {ks : List ℕ}
      → length c ≤ k
      → Within cs ks
      → Within (c ∷ cs) (k ∷ ks)

abbrev pub total : List ℕ → ℕ
total [] = 0
total (k ∷ ks) = k + total ks

pub length-concat :
    (cs : List (List ℕ)) (ks : List ℕ) → Within cs ks → length (concat cs) ≤ total ks
length-concat _ _ no_chunks = omega arith
length-concat _ _ (◌then_within◌ {c} {k} {cs} {ks} h hs) =
    omega (arith, length-append c (concat cs), length-concat cs ks hs)

-- A nested message whose scratch buffer holds all of it.
module _ (field : ℕ) (fs : List (PbufWriter → Wrote)) (cs : List (List ℕ)) (cap : ℕ)
    (h : EmitsAll fs cs) (fits : length (concat cs) ≤ cap) where
  nested_error : (write_all fs (pbuf_writer_init cap)).error ≡ false
  unfolding pbuf_writer_init
  nested_error = ap (λ (w : PbufWriter). w.error) (scratch-write_all fs cs cap h fits)

  nested_buf : (write_all fs (pbuf_writer_init cap)).buf ≡ concat cs
  unfolding pbuf_writer_init
  nested_buf = ap (λ (w : PbufWriter). w.buf) (scratch-write_all fs cs cap h fits)

  pub Emits-nested :
      field < 2 ^ 32
      → cap < 2 ^ 64
      → Emits
          (λ w. pbuf_write_message w field (write_all fs (pbuf_writer_init cap)))
          (bytes_field field (concat cs))
  Emits-nested hf hc =
      Emits-message field (write_all fs (pbuf_writer_init cap)) (concat cs) nested_error nested_buf
        hf (omega arith)
