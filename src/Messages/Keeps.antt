-- ===== src/Messages/Keeps.antt =====
-- What holds of every message that a decoder returns, whatever the bytes were.
use amisync.Common.{
  ℕ, zero, suc, Bool, true, false, Option, none, some, List, length, if◌then◌else◌,
}
use amisync.Pbuf.{
  PbufReader, pbuf_reader_init, pbuf_read_varint, pbuf_read_tag, pbuf_read_bytes, pbuf_skip,
}
use amisync.Messages.{
  OnField, number, bytes, unknown, stored, stored_bytes, skipped, do_field, after_field, after_tag,
  read_fields, decode,
}

module _ {M : Type 0} (P : M → Type 0) where
  abbrev pub OfResult : Option M → Type 0
  OfResult none = Unit
  OfResult (some m) = P m

  -- Storing the field keeps `P`.
  abbrev pub OfField : OnField M → Type 0
  OfField (number f) = (v : ℕ) → P (f v)
  OfField (bytes f) = (bs : List ℕ) → OfResult (f bs)
  OfField unknown = Unit

  abbrev OfStep : PbufReader × Option M → Type 0
  OfStep (r, o) = OfResult o

  pub OfField-if :
      (b : Bool) (x y : OnField M) → OfField x → OfField y → OfField (if b then x else y)
  OfField-if true x y h k = h
  OfField-if false x y h k = k

  stored-OfStep :
      (f : ℕ → M) (o : PbufReader × Option ℕ) → ((v : ℕ) → P (f v)) → OfStep (stored f o)
  stored-OfStep f (r, none) h = tt
  stored-OfStep f (r, some v) h = h v

  stored_bytes-OfStep :
      (f : List ℕ → Option M) (o : PbufReader × Option (List ℕ))
      → ((bs : List ℕ) → OfResult (f bs))
      → OfStep (stored_bytes f o)
  stored_bytes-OfStep f (r, none) h = tt
  stored_bytes-OfStep f (r, some bs) h = h bs

  skipped-OfStep : (m : M) (o : PbufReader × Bool) → P m → OfStep (skipped m o)
  skipped-OfStep m (r, true) h = h
  skipped-OfStep m (r, false) h = tt

  do_field-OfStep :
      (a : OnField M) (wt : ℕ) (r : PbufReader) (m : M)
      → OfField a
      → P m
      → OfStep (do_field a wt r m)
  unfolding do_field
  do_field-OfStep (number f) wt r m h p = stored-OfStep f (pbuf_read_varint r) h
  do_field-OfStep (bytes f) wt r m h p = stored_bytes-OfStep f (pbuf_read_bytes r) h
  do_field-OfStep unknown wt r m h p = skipped-OfStep m (pbuf_skip r wt) p

  at_end-OfResult : (b : Bool) (m : M) → P m → OfResult (if b then none else some m)
  at_end-OfResult true m p = tt
  at_end-OfResult false m p = p

  module _ (on : ℕ → ℕ → M → OnField M)
      (each : (field wt : ℕ) (m : M) → P m → OfField (on field wt m)) where
    after_field-OfResult :
        (more : PbufReader → M → Option M) (o : PbufReader × Option M)
        → ((r : PbufReader) (m : M) → P m → OfResult (more r m))
        → OfStep o
        → OfResult (after_field more o)
    after_field-OfResult more (r, none) h p = tt
    after_field-OfResult more (r, some m) h p = h r m p

    after_tag-OfResult :
        (more : PbufReader → M → Option M) (m : M) (t : PbufReader × Option (ℕ × ℕ))
        → ((r : PbufReader) (m : M) → P m → OfResult (more r m))
        → P m
        → OfResult (after_tag on more m t)
    after_tag-OfResult more m (r, none) h p = at_end-OfResult r.error m p
    after_tag-OfResult more m (r, some (field, wt)) h p =
        after_field-OfResult more (do_field (on field wt m) wt r m) h
          (do_field-OfStep (on field wt m) wt r m (each field wt m p) p)

    read_fields-OfResult :
        (fuel : ℕ) (r : PbufReader) (m : M) → P m → OfResult (read_fields on none fuel r m)
    unfolding read_fields
    read_fields-OfResult zero r m p = tt
    read_fields-OfResult (suc fuel) r m p =
        after_tag-OfResult (read_fields on none fuel) m (pbuf_read_tag r)
          (read_fields-OfResult fuel) p

    pub decode-OfResult : (m : M) (buf : List ℕ) → P m → OfResult (decode on m buf)
    unfolding decode
    decode-OfResult m buf p =
        read_fields-OfResult (suc (length buf)) (pbuf_reader_init buf (length buf)) m p
