-- ===== src/Messages/Loop.antt =====
-- The loop of the decoders, and its fuel.

use amisync.Common.{
  ℕ, zero, suc, ◌+◌, ◌≤◌, ◌<◌, ◌≡◌, refl, Bool, true, false, not, Option, none, some, List, [], ◌∷◌,
  ◌||◌, arith, length, length-append, if◌then◌else◌, ltb, ◌==◌,
}
use Prim.Native.Nat.{bit_and}
use amisync.Pbuf.{
  PbufReader, reading, failed, add_group, read_loop, pbuf_read_varint, split_tag, pbuf_read_tag,
  pbuf_read_bytes, pbuf_skip,
}
use amisync.Pbuf.Safety.{IsEnd, Outcome, Skipped, pbuf_skip-safe, pbuf_read-safe}
use amisync.Messages.{
  OnField, number, bytes, unknown, stored, stored_bytes, skipped, do_field, after_field, after_tag,
  read_fields,
}

IsEnd-length : (s t : List ℕ) → IsEnd s t → length s ≤ length t
IsEnd-length s t (front, e) = rw e (omega (arith, length-append front s))

-- A value was read, and fewer bytes are left.
abbrev Shrinks {ℓ} : {A : Type ℓ} → ℕ → PbufReader × Option A → Type 0
Shrinks n (r, none) = Unit
Shrinks n (r, some a) = length r.p < n

-- No more bytes are left than there were.
abbrev Stays {ℓ} : {A : Type ℓ} → ℕ → PbufReader × Option A → Type 0
Stays n (r, none) = Unit
Stays n (r, some a) = length r.p ≤ n

Shrinks-suc {ℓ} : {A : Type ℓ} (n : ℕ) (o : PbufReader × Option A) → Shrinks n o → Shrinks (suc n) o
Shrinks-suc n (r, none) h = h
Shrinks-suc n (r, some a) h = omega arith

either {ℓ} :
    {A : Type ℓ} (n : ℕ) (x : Bool) (a b : PbufReader × Option A)
    → Shrinks n a
    → Shrinks n b
    → Shrinks n (if x then a else b)
either n true a b h k = h
either n false a b h k = k

read_loop-Shrinks :
    (bytes : List ℕ) (value shift : ℕ) → Shrinks (length bytes) (read_loop bytes value shift)
unfolding read_loop
read_loop-Shrinks [] value shift = tt
read_loop-Shrinks (b ∷ rest) value shift =
    let more = read_loop rest (add_group value b shift) (shift + 7) in
    either _ (not (ltb shift 64)) (failed (b ∷ rest), none) _ tt
      (either _ (bit_and b 0x80 == 0) (reading rest, some (add_group value b shift)) more
        (omega arith)
        (Shrinks-suc (length rest) more
          (read_loop-Shrinks rest (add_group value b shift) (shift + 7))))

varint-Shrinks : (r : PbufReader) → Shrinks (length r.p) (pbuf_read_varint r)
unfolding pbuf_read_varint
varint-Shrinks r = either _ r.error (r, none) _ tt (read_loop-Shrinks r.p 0 0)

split_tag-Shrinks : (n : ℕ) (o : PbufReader × Option ℕ) → Shrinks n o → Shrinks n (split_tag o)
split_tag-Shrinks n (r, none) h = h
split_tag-Shrinks n (r, some tag) h = h

tag-Shrinks : (r : PbufReader) → Shrinks (length r.p) (pbuf_read_tag r)
unfolding pbuf_read_tag
tag-Shrinks r =
    either _ (r.error || (length r.p == 0)) (r, none) (split_tag (pbuf_read_varint r)) tt
      (split_tag-Shrinks (length r.p) (pbuf_read_varint r) (varint-Shrinks r))

module _ {ℓ} {M : Type ℓ} where
  stored-Stays :
      (f : ℕ → M) (r : PbufReader) (o : PbufReader × Option ℕ)
      → Outcome r o
      → Stays (length r.p) (stored f o)
  stored-Stays f r (r', none) h = tt
  stored-Stays f r (r', some v) (e, _) = IsEnd-length r'.p r.p e

  Stays-any : (n : ℕ) (r : PbufReader) (o : Option M) → length r.p ≤ n → Stays n (r, o)
  Stays-any n r none h = tt
  Stays-any n r (some m) h = h

  stored_bytes-Stays :
      (f : List ℕ → Option M) (r : PbufReader) (o : PbufReader × Option (List ℕ))
      → Outcome r o
      → Stays (length r.p) (stored_bytes f o)
  stored_bytes-Stays f r (r', none) h = tt
  stored_bytes-Stays f r (r', some p) (e, _) = Stays-any _ r' (f p) (IsEnd-length r'.p r.p e)

  skipped-Stays :
      (m : M) (r : PbufReader) (o : PbufReader × Bool)
      → Skipped r o
      → Stays (length r.p) (skipped m o)
  skipped-Stays m r (r', true) (e, _) = IsEnd-length r'.p r.p e
  skipped-Stays m r (r', false) h = tt

  do_field-Stays :
      (a : OnField M) (wt : ℕ) (r : PbufReader) (m : M) → Stays (length r.p) (do_field a wt r m)
  unfolding do_field
  do_field-Stays (number f) wt r m = stored-Stays f r (pbuf_read_varint r) (pbuf_read-safe r).0
  do_field-Stays (bytes f) wt r m = stored_bytes-Stays f r (pbuf_read_bytes r) (pbuf_read-safe r).1
  do_field-Stays unknown wt r m = skipped-Stays m r (pbuf_skip r wt) (pbuf_skip-safe r wt)

  -- Two loops that agree on shorter inputs agree.
  module _ (on : ℕ → ℕ → M → OnField M) (n : ℕ) (more more' : PbufReader → M → Option M)
      (agree : (r : PbufReader) (m : M) → length r.p < n → more r m ≡ more' r m) where
    same_after_field :
        (k : ℕ) (o : PbufReader × Option M)
        → k < n
        → Stays k o
        → after_field more o ≡ after_field more' o
    same_after_field k (r, none) h s = refl
    same_after_field k (r, some m) h s = agree r m (omega arith)

    same_after_tag :
        (m : M) (t : PbufReader × Option (ℕ × ℕ))
        → Shrinks n t
        → after_tag on more m t ≡ after_tag on more' m t
    same_after_tag m (r, none) h = refl
    same_after_tag m (r, some (field, wt)) h =
        same_after_field (length r.p) (do_field (on field wt m) wt r m) h
          (do_field-Stays (on field wt m) wt r m)

  -- With more fuel than bytes are left, a decoder's loop comes to its end, for every choice it makes
  -- of the fields: its result depends neither on what running out of fuel would give nor on how much
  -- more fuel there is.
  pub read_fields-fuel :
      (on : ℕ → ℕ → M → OnField M) (stuck stuck' : Option M) (f g : ℕ) (r : PbufReader) (m : M)
      → length r.p < f
      → length r.p < g
      → read_fields on stuck f r m ≡ read_fields on stuck' g r m
  unfolding read_fields
  read_fields-fuel on stuck stuck' zero g r m h k = absurd (omega arith)
  read_fields-fuel on stuck stuck' (suc f) zero r m h k = absurd (omega arith)
  read_fields-fuel on stuck stuck' (suc f) (suc g) r m h k =
      same_after_tag on (length r.p) (read_fields on stuck f) (read_fields on stuck' g)
        (λ r' m' s. read_fields-fuel on stuck stuck' f g r' m' (omega arith) (omega arith)) m
        (pbuf_read_tag r) (tag-Shrinks r)
