-- ===== src/Pbuf/Took.antt =====
-- What the reads of the reader take off the front of a buffer.
use Prim.Native.Nat.{bit_and}
use amisync.Common.{
  ℕ, ◌+◌, ◌*◌, ◌≤◌, ◌≡◌, ◌≢◌, ◌⊎◌, inl, inr, refl, sym, ap, ◌∙◌, true, false, not, Option, some,
  none, List, [], ◌∷◌, ◌++◌, length, ltb, ◌==◌, take, drop, arith, Bool-cases, take_append_drop,
  length-take, length-append, take-append, drop-append,
}
use mathlib.Core.List.{append_assoc}
use amisync.Pbuf.{
  PbufReader, reading, add_group, read_loop, pbuf_read_varint, take_bytes, pbuf_read_bytes,
  little_endian, read_fixed, done, wt_varint, wt_i64, wt_len, wt_i32,
}

-- Bytes of which all but the last have their top bit set.
abbrev pub IsGroups : List ℕ → Type 0
IsGroups [] = ⊥
IsGroups (b ∷ []) = bit_and b 0x80 ≡ 0
IsGroups (b ∷ c ∷ s) = (bit_and b 0x80 ≢ 0) × IsGroups (c ∷ s)

-- The number that groups of seven bits add up to, the lowest first.
unfoldable pub groups_value : ℕ → ℕ → List ℕ → ℕ
groups_value value shift [] = value
groups_value value shift (b ∷ s) = groups_value (add_group value b shift) (shift + 7) s

abbrev pub IsVarint : List ℕ → ℕ → Type 0
IsVarint front n = IsGroups front × (length front ≤ 10) × (groups_value 0 0 front ≡ n)

-- A length and so many bytes.
abbrev pub IsDelimited : List ℕ → Type 0
IsDelimited front =
    (head : List ℕ) × (body : List ℕ) × (front ≡ head ++ body) × IsVarint head (length body)

-- The bytes of one value of a wire type.
abbrev pub IsField : ℕ → List ℕ → Type 0
IsField wiretype front =
    ((wiretype ≡ wt_varint) × ((n : ℕ) × IsVarint front n))
    ⊎ (((wiretype ≡ wt_i64) × (length front ≡ 8))
        ⊎ (((wiretype ≡ wt_len) × IsDelimited front) ⊎ ((wiretype ≡ wt_i32) × (length front ≡ 4))))

-- A read took bytes with a property off the front.
abbrev pub Took {ℓ} : {A : Type ℓ} → List ℕ → (List ℕ → A → Type 0) → PbufReader × Option A → Type 0
Took bytes F (r, none) = Unit {0}
Took bytes F (r, some a) = (front : List ℕ) × (bytes ≡ front ++ r.p) × F front a

abbrev LoopTook : List ℕ → ℕ → ℕ → PbufReader × Option ℕ → Type 0
LoopTook bytes value shift o =
    Took bytes
      (λ front n.
        IsGroups front × (shift + 7 * length front ≤ 70) × (groups_value value shift front ≡ n))
      o

longer :
    (b : ℕ) (rest : List ℕ) (value shift : ℕ) (o : PbufReader × Option ℕ)
    → bit_and b 0x80 ≢ 0
    → LoopTook rest (add_group value b shift) (shift + 7) o
    → LoopTook (b ∷ rest) value shift o
unfolding groups_value
longer b rest value shift (r, none) h t = tt
longer b rest value shift (r, some n) h ([], e, (g, l, v)) = absurd g
longer b rest value shift (r, some n) h (c ∷ front, e, (g, l, v)) =
    (b ∷ c ∷ front, ap (◌∷◌ b) e, ((h, g), omega arith, v))

read_loop-Took :
    (bytes : List ℕ) (value shift : ℕ) → LoopTook bytes value shift (read_loop bytes value shift)
unfolding read_loop groups_value
read_loop-Took [] value shift = tt
read_loop-Took (b ∷ rest) value shift = elim (Bool-cases (not (ltb shift 64))) [
  | inl e ↦ rw e tt
  | inr e ↦ elim (Bool-cases (bit_and b 0x80 == 0)) [
    | inl k ↦
        let top : bit_and b 0x80 ≡ 0 = ground arith in
        let room : shift + 7 ≤ 70 = ground arith in
        rw (e, k) (b ∷ [], refl, (top, omega arith, refl))
    | inr k ↦
        let top : bit_and b 0x80 ≢ 0 = λ z. ground arith in
        rw (e, k)
          (longer b rest value shift (read_loop rest (add_group value b shift) (shift + 7)) top
            (read_loop-Took rest (add_group value b shift) (shift + 7)))
  ]
]

read_loop-front :
    (front rest : List ℕ) (value shift : ℕ)
    → IsGroups front
    → shift + 7 * length front ≤ 70
    → read_loop (front ++ rest) value shift ≡ (reading rest, some (groups_value value shift front))
unfolding read_loop groups_value
read_loop-front [] rest value shift g l = absurd g
read_loop-front (b ∷ []) rest value shift g l =
    let e : not (ltb shift 64) ≡ false = ground arith in
    let k : (bit_and b 0x80 == 0) ≡ true = ground arith in rw (e, k) refl
read_loop-front (b ∷ c ∷ front) rest value shift (h, g) l =
    let e : not (ltb shift 64) ≡ false = ground arith in
    let k : (bit_and b 0x80 == 0) ≡ false = ground arith in
    rw (e, k)
      (read_loop-front (c ∷ front) rest (add_group value b shift) (shift + 7) g (omega arith))

-- Reading at the start of a buffer.
pub pbuf_read_varint-Took :
    (bytes : List ℕ) → Took bytes IsVarint (pbuf_read_varint (reading bytes))
unfolding pbuf_read_varint
pbuf_read_varint-Took bytes = from_loop (read_loop bytes 0 0) (read_loop-Took bytes 0 0)
  where
    from_loop : (o : PbufReader × Option ℕ) → LoopTook bytes 0 0 o → Took bytes IsVarint o
    from_loop (r, none) t = tt
    from_loop (r, some n) (front, e, (g, l, v)) = (front, e, (g, omega arith, v))

pub pbuf_read_varint-front :
    (front rest : List ℕ) (n : ℕ)
    → IsVarint front n
    → pbuf_read_varint (reading (front ++ rest)) ≡ (reading rest, some n)
unfolding pbuf_read_varint
pbuf_read_varint-front front rest n (g, l, v) =
    read_loop-front front rest 0 0 g (omega arith) ∙ ap (λ (k : ℕ). (reading rest, some k)) v

take_bytes-Took :
    (bytes : List ℕ) (o : PbufReader × Option ℕ)
    → Took bytes IsVarint o
    → Took bytes (λ front body. IsDelimited front) (take_bytes o)
take_bytes-Took bytes (r, none) t = tt
take_bytes-Took bytes (r, some n) (head, e, (g, l, v)) = elim (Bool-cases (ltb (length r.p) n)) [
  | inl k ↦ rw k tt
  | inr k ↦
      let whole = take_append_drop n r.p in
      let len : n ≡ length (take n r.p) =
        let enough : n ≤ length r.p = ground arith in omega (arith, length-take n r.p) in
      rw k (
        head ++ take n r.p,
        e ∙ ap (◌++◌ head) (sym whole) ∙ sym (append_assoc head (take n r.p) (drop n r.p)),
        (head, take n r.p, refl, (g, l, v ∙ len)),
      )
]

take_bytes-front :
    (body rest : List ℕ)
    → take_bytes (reading (body ++ rest), some (length body)) ≡ (reading rest, some body)
take_bytes-front body rest =
    let enough : ltb (length (body ++ rest)) (length body) ≡ false =
      ground (arith, length-append body rest) in
    rw (enough, take-append body rest (length body) refl, drop-append body rest (length body) refl)
      refl

pub fixed-Took :
    (width : ℕ) (bytes : List ℕ)
    → Took bytes (λ front n. length front ≡ width) (read_fixed width (reading bytes))
unfolding read_fixed
fixed-Took width bytes = elim (Bool-cases (ltb (length bytes) width)) [
  | inl k ↦ rw k tt
  | inr k ↦
      let enough : width ≤ length bytes = ground arith in
      rw k (
        take width bytes,
        sym (take_append_drop width bytes),
        omega (arith, length-take width bytes),
      )
]

fixed-front :
    (front rest : List ℕ)
    → read_fixed (length front) (reading (front ++ rest))
      ≡ (reading rest, some (little_endian front))
unfolding read_fixed
fixed-front front rest =
    let enough : ltb (length (front ++ rest)) (length front) ≡ false =
      ground (arith, length-append front rest) in
    rw
      (
        enough,
        take-append front rest (length front) refl,
        drop-append front rest (length front) refl,
      )
      refl

-- What a successful call took.
pub done-Took {ℓ} :
    {A : Type ℓ} (bytes rest : List ℕ) (F : List ℕ → A → Type 0) (o : PbufReader × Option A)
    → Took bytes F o
    → done o ≡ (reading rest, true)
    → (front : List ℕ) × (bytes ≡ front ++ rest) × ((a : A) × F front a)
done-Took bytes rest F (r, none) t h = absurd (cc)
done-Took bytes rest F (r, some a) (front, e, f) h =
    let same : r ≡ reading rest = cc in
    (front, e ∙ ap (λ (x : PbufReader). front ++ x.p) same, (a, f))

pub bytes-Took :
    (bytes : List ℕ)
    → Took bytes (λ front body. IsDelimited front) (pbuf_read_bytes (reading bytes))
unfolding pbuf_read_bytes
bytes-Took bytes =
    take_bytes-Took bytes (pbuf_read_varint (reading bytes)) (pbuf_read_varint-Took bytes)

pub fixed_skip :
    (front rest : List ℕ) (width : ℕ)
    → length front ≡ width
    → done (read_fixed width (reading (front ++ rest))) ≡ (reading rest, true)
fixed_skip front rest width l =
    ap (λ w. done (read_fixed w (reading (front ++ rest)))) (sym l)
    ∙ ap done (fixed-front front rest)

pub delimited_skip :
    (front rest : List ℕ)
    → IsDelimited front
    → done (pbuf_read_bytes (reading (front ++ rest))) ≡ (reading rest, true)
unfolding pbuf_read_bytes
delimited_skip front rest (head, body, e, f) =
    ap (λ s. done (take_bytes (pbuf_read_varint (reading s))))
      (ap (λ s. s ++ rest) e ∙ append_assoc head body rest)
    ∙ ap (λ o. done (take_bytes o)) (pbuf_read_varint-front head (body ++ rest) (length body) f)
    ∙ ap done (take_bytes-front body rest)
