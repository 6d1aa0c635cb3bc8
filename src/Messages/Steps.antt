-- ===== src/Messages/Steps.antt =====
-- What a decoder does with each field that an encoder can write.
use mathlib.Core.List.{append_assoc}
use amisync.Common.{
  ℕ, suc, ◌^◌, ◌≤◌, ◌<◌, ◌≡◌, refl, sym, ap, ◌∙◌, Bool, true, false, Option, none, some, List, [],
  ◌++◌, arith, length, length-append, if◌then◌else◌, take-all,
}
use amisync.Pbuf.{
  reading, pbuf_reader_init, pbuf_read_tag, pbuf_read_bytes, pbuf_skip, wt_varint, wt_len,
}
use amisync.Pbuf.Writer.{tag_of}
use amisync.Pbuf.Encoding.{varint, length-groups}
use amisync.Pbuf.Fields.{uint64_field, bytes_field}
use amisync.Pbuf.RoundTrip.{read_varint-varint, read_tag-tag_of, read_bytes-bytes}
use amisync.Messages.{OnField, number, bytes, unknown, do_field, after_field, read_fields, decode}
use amisync.Messages.Loop.{read_fields-fuel}

abbrev pub when_bytes : Bool → List ℕ → List ℕ
when_bytes b chunk = if b then chunk else []

module _ {ℓ} {M : Type ℓ} (on : ℕ → ℕ → M → OnField M) where
  -- The loop on a buffer, with any fuel that is enough.
  decode_any :
      (f : ℕ) (m : M) (buf : List ℕ)
      → length buf < f
      → read_fields on none f (reading buf) m ≡ decode on m buf
  unfolding decode pbuf_reader_init
  decode_any f m buf h =
      rw (take-all (length buf) buf (omega arith))
        (read_fields-fuel on none none f (suc (length buf)) (reading buf) m h (omega arith))

  pub decode_end : (m : M) → decode on m [] ≡ some m
  unfolding decode pbuf_reader_init read_fields pbuf_read_tag
  decode_end m = refl

  module _ (m : M) (field wt : ℕ) (body rest : List ℕ) (hf : field < 2 ^ 32) (hw : wt < 8) where
    decode_tag :
        decode on m (varint (tag_of field wt) ++ body)
        ≡ after_field
            (λ r m'. read_fields on none (length (varint (tag_of field wt) ++ body)) r m')
            (do_field (on field wt m) wt (reading body) m)
    unfolding read_fields
    decode_tag =
        sym (
          decode_any (suc (length (varint (tag_of field wt) ++ body))) m
            (varint (tag_of field wt) ++ body) (omega arith))
        ∙ rw (read_tag-tag_of field wt body hf hw) refl

    decode_next :
        (m' : M)
        → length rest ≤ length body
        → do_field (on field wt m) wt (reading body) m ≡ (reading rest, some m')
        → decode on m (varint (tag_of field wt) ++ body) ≡ decode on m' rest
    decode_next m' h e =
        decode_tag
        ∙ rw e (
            decode_any (length (varint (tag_of field wt) ++ body)) m' rest (
              omega (
                arith,
                h,
                length-append (varint (tag_of field wt)) body,
                length-groups 9 (tag_of field wt),
              )))

  module _ (m : M) (field v : ℕ) (rest : List ℕ) (hf : field < 2 ^ 32) (hv : v < 2 ^ 64) where
    pub decode_number :
        (f : ℕ → M)
        → on field wt_varint m ≡ number f
        → decode on m (uint64_field field v ++ rest) ≡ decode on (f v) rest
    unfolding do_field
    decode_number f h = rw append_assoc (
        decode_next m field wt_varint (varint v ++ rest) rest hf (omega arith) (f v)
          (omega (arith, length-append (varint v) rest))
          (rw (h, read_varint-varint v rest hv) refl))

    -- The same with a name for the message that it leads to.
    pub decode_number_to :
        (f : ℕ → M) (m' : M)
        → on field wt_varint m ≡ number f
        → f v ≡ m'
        → decode on m (uint64_field field v ++ rest) ≡ decode on m' rest
    decode_number_to f m' h e = decode_number f h ∙ ap (λ x. decode on x rest) e

    pub decode_unknown_number :
        on field wt_varint m ≡ unknown
        → decode on m (uint64_field field v ++ rest) ≡ decode on m rest
    unfolding do_field pbuf_skip
    decode_unknown_number h = rw append_assoc (
        decode_next m field wt_varint (varint v ++ rest) rest hf (omega arith) m
          (omega (arith, length-append (varint v) rest))
          (rw (h, read_varint-varint v rest hv) refl))

  module _ (m : M) (field : ℕ) (bs rest : List ℕ) (hf : field < 2 ^ 32)
      (hb : length bs < 2 ^ 64) where
    shorter : length rest ≤ length (varint (length bs) ++ (bs ++ rest))
    shorter = omega (arith, length-append (varint (length bs)) (bs ++ rest), length-append bs rest)

    back : pbuf_read_bytes (reading (varint (length bs) ++ (bs ++ rest))) ≡ (reading rest, some bs)
    back =
        ap (λ b. pbuf_read_bytes (reading b)) (sym (append_assoc (varint (length bs)) bs rest))
        ∙ read_bytes-bytes bs rest hb

    pub decode_bytes :
        (f : List ℕ → Option M) (m' : M)
        → on field wt_len m ≡ bytes f
        → f bs ≡ some m'
        → decode on m (bytes_field field bs ++ rest) ≡ decode on m' rest
    unfolding do_field
    decode_bytes f m' h e =
        rw (append_assoc, append_assoc)
          (decode_next m field wt_len (varint (length bs) ++ (bs ++ rest)) rest hf (omega arith) m'
            shorter (rw (h, back, e) refl))

    pub decode_unknown_bytes :
        on field wt_len m ≡ unknown → decode on m (bytes_field field bs ++ rest) ≡ decode on m rest
    unfolding do_field pbuf_skip
    decode_unknown_bytes h =
        rw (append_assoc, append_assoc)
          (decode_next m field wt_len (varint (length bs) ++ (bs ++ rest)) rest hf (omega arith) m
            shorter (rw (h, back) refl))

  -- A field that is written only under a condition.
  pub decode_when :
      (m m' : M) (b : Bool) (chunk rest : List ℕ)
      → (b ≡ true → decode on m (chunk ++ rest) ≡ decode on m' rest)
      → (b ≡ false → m ≡ m')
      → decode on m (when_bytes b chunk ++ rest) ≡ decode on m' rest
  decode_when m m' true chunk rest h k = h refl
  decode_when m m' false chunk rest h k = ap (λ x. decode on x rest) (k refl)
