-- ===== src/Pbuf/Safety.antt =====
-- The reader on any input, well formed or not: where it stands afterwards, and its error flag.
use Prim.Native.Nat.{bit_and}
use mathlib.Core.List.{append_assoc}
use amisync.Common.{
  ℕ, zero, suc, ◌+◌, ◌≡◌, refl, sym, ap, ◌∙◌, Bool, true, false, not, Option, some, none, List, [],
  ◌∷◌, ◌++◌, length, if◌then◌else◌, ltb, ◌==◌, take, drop,
}
use amisync.Pbuf.{
  PbufReader, reading, failed, add_group, read_loop, pbuf_read_varint, take_bytes, pbuf_read_bytes,
  little_endian, read_fixed, done, pbuf_skip, wt_varint, wt_i64, wt_len, wt_i32,
}

-- `s` is the end of `t`.
abbrev pub IsEnd : List ℕ → List ℕ → Type 0
IsEnd s t = (front : List ℕ) × (t ≡ front ++ s)

IsEnd-refl : (s : List ℕ) → IsEnd s s
IsEnd-refl s = ([], refl)

IsEnd-cons : (b : ℕ) (s t : List ℕ) → IsEnd s t → IsEnd s (b ∷ t)
IsEnd-cons b s t (front, e) = (b ∷ front, ap (◌∷◌ b) e)

IsEnd-trans : (s t u : List ℕ) → IsEnd s t → IsEnd t u → IsEnd s u
IsEnd-trans s t u (f, e) (g, k) = (g ++ f, k ∙ ap (◌++◌ g) e ∙ sym (append_assoc g f s))

IsEnd-drop : (n : ℕ) (s : List ℕ) → IsEnd (drop n s) s
IsEnd-drop zero s = ([], refl)
IsEnd-drop (suc n) [] = ([], refl)
IsEnd-drop (suc n) (b ∷ s) = IsEnd-cons b (drop n s) s (IsEnd-drop n s)

-- The reader has only moved forward inside its buffer, and the flag says whether the read failed.
abbrev pub Outcome {ℓ} : {A : Type ℓ} → PbufReader → PbufReader × Option A → Type 0
Outcome r (r', none) = IsEnd r'.p r.p × (r'.error ≡ true)
Outcome r (r', some a) = IsEnd r'.p r.p × (r'.error ≡ false)

abbrev on_more :
    Bool
    → Bool
    → PbufReader × Option ℕ
    → PbufReader × Option ℕ
    → PbufReader × Option ℕ
    → PbufReader × Option ℕ
on_more a b x y z = if a then x else if b then y else z

module _ (b : ℕ) (rest : List ℕ) where
  later : (o : PbufReader × Option ℕ) → Outcome (reading rest) o → Outcome (reading (b ∷ rest)) o
  later (r', none) (e, f) = (IsEnd-cons b r'.p rest e, f)
  later (r', some a) (e, f) = (IsEnd-cons b r'.p rest e, f)

  on_more-Outcome :
      (x y : Bool) (v : ℕ) (z : PbufReader × Option ℕ)
      → Outcome (reading rest) z
      → Outcome
          (reading (b ∷ rest))
          (on_more x y (failed (b ∷ rest), none) (reading rest, some v) z)
  on_more-Outcome true y v z h = (IsEnd-refl _, refl)
  on_more-Outcome false true v z h = (IsEnd-cons b rest rest (IsEnd-refl rest), refl)
  on_more-Outcome false false v z h = later z h

read_loop-Outcome :
    (bytes : List ℕ) (value shift : ℕ) → Outcome (reading bytes) (read_loop bytes value shift)
unfolding read_loop
read_loop-Outcome [] value shift = (IsEnd-refl [], refl)
read_loop-Outcome (b ∷ rest) value shift =
    on_more-Outcome b rest (not (ltb shift 64)) (bit_and b 0x80 == 0) (add_group value b shift) _
      (read_loop-Outcome rest (add_group value b shift) (shift + 7))

either {ℓ} :
    {A : Type ℓ} (r : PbufReader) (x : Bool) (a b : PbufReader × Option A)
    → Outcome r a
    → Outcome r b
    → Outcome r (if x then a else b)
either r true a b h k = h
either r false a b h k = k

module _ (r : PbufReader) where
  varint-Outcome : Outcome r (pbuf_read_varint r)
  unfolding pbuf_read_varint
  varint-Outcome = by_flag r.error refl
    where
      by_flag : (e : Bool) → r.error ≡ e → Outcome r (if e then (r, none) else read_loop r.p 0 0)
      by_flag true h = (IsEnd-refl r.p, h)
      by_flag false h = read_loop-Outcome r.p 0 0

  take_bytes-Outcome : (o : PbufReader × Option ℕ) → Outcome r o → Outcome r (take_bytes o)
  take_bytes-Outcome (r', none) h = h
  take_bytes-Outcome (r', some n) (e, f) =
      either r (ltb (length r'.p) n) _ _ (e, refl) (IsEnd-trans _ _ _ (IsEnd-drop n r'.p) e, f)

  bytes-Outcome : Outcome r (pbuf_read_bytes r)
  unfolding pbuf_read_bytes
  bytes-Outcome = take_bytes-Outcome (pbuf_read_varint r) varint-Outcome

  fixed-Outcome : (width : ℕ) → Outcome r (read_fixed width r)
  unfolding read_fixed
  fixed-Outcome width = by_flag r.error refl
    where
      by_flag :
          (e : Bool)
          → r.error ≡ e
          → Outcome {A = ℕ} r (
              if e
              then (r, none)
              else if ltb (length r.p) width
              then (record r { error = true }, none)
              else (record r { p = drop width r.p }, some (little_endian (take width r.p))))
      by_flag true h = (IsEnd-refl r.p, h)
      by_flag false h =
          either r (ltb (length r.p) width) _ _ (IsEnd-refl r.p, refl) (IsEnd-drop width r.p, h)

-- The same of a call that returns only its int.
abbrev pub Skipped : PbufReader → PbufReader × Bool → Type 0
Skipped r (r', ok) = IsEnd r'.p r.p × (r'.error ≡ not ok)

done-Outcome {ℓ} :
    {A : Type ℓ} (r : PbufReader) (o : PbufReader × Option A) → Outcome r o → Skipped r (done o)
done-Outcome r (r', none) h = h
done-Outcome r (r', some a) h = h

either_skip :
    (r : PbufReader) (x : Bool) (a b : PbufReader × Bool)
    → Skipped r a
    → Skipped r b
    → Skipped r (if x then a else b)
either_skip r true a b h k = h
either_skip r false a b h k = k

-- Whatever bytes a peer sends and whatever wire type the tag named, pbuf_skip moves the reader only
-- forward and never past the end of its buffer, and returns 0 exactly when it leaves the error flag
-- set.
pub pbuf_skip-safe : (r : PbufReader) (wiretype : ℕ) → Skipped r (pbuf_skip r wiretype)
unfolding pbuf_skip
pbuf_skip-safe r wiretype =
    either_skip r (wiretype == wt_varint) _ _ (done-Outcome r _ (varint-Outcome r)) (
      either_skip r (wiretype == wt_i64) _
        (if wiretype == wt_len
          then done (pbuf_read_bytes r)
          else if wiretype == wt_i32
          then done (read_fixed 4 r)
          else (record r { error = true }, false))
        (done-Outcome r _ (fixed-Outcome r 8))
        (either_skip r (wiretype == wt_len) _ _ (done-Outcome r _ (bytes-Outcome r)) (
          either_skip r (wiretype == wt_i32) _ (record r { error = true }, false)
            (done-Outcome r _ (fixed-Outcome r 4)) (IsEnd-refl r.p, refl))))

-- Reading a varint or a byte field keeps the reader inside its buffer too, on any input, and gives
-- a value exactly when the error flag stays clear.
pub pbuf_read-safe :
    (r : PbufReader) → Outcome r (pbuf_read_varint r) × Outcome r (pbuf_read_bytes r)
pbuf_read-safe r = (varint-Outcome r, bytes-Outcome r)
