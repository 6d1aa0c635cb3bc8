-- ===== src/PathSafe/Local/Encoder.antt =====
-- The shortest form of a code point in UTF-8, and the bytes that make it up.
use amisync.Common.{
  ℕ, ◌+◌, ◌*◌, ◌%◌, ◌/◌, ◌≤◌, ◌<◌, ◌≡◌, ◌⊎◌, inl, inr, refl, ap₂, List, [], ◌∷◌, ◌++◌, length,
  if◌then◌else◌, ltb, ◌==◌, arith,
}
use native.Mathlib.Decide.{dec_lt}

-- A code point that is no surrogate.
abbrev pub IsScalar : ℕ → Type 0
IsScalar cp = cp < 0xD800 ⊎ (0xE000 ≤ cp × cp < 0x110000)

-- The shortest form.
unfoldable pub utf8_encode : ℕ → List ℕ
utf8_encode cp =
    if ltb cp 0x80
    then cp ∷ []
    else if ltb cp 0x800
    then (0xC0 + cp / 64) ∷ (0x80 + cp % 64) ∷ []
    else if ltb cp 0x10000
    then (0xE0 + cp / 4096) ∷ (0x80 + cp / 64 % 64) ∷ (0x80 + cp % 64) ∷ []
    else (0xF0 + cp / 262144)
      ∷ (0x80 + cp / 4096 % 64)
      ∷ (0x80 + cp / 64 % 64)
      ∷ (0x80 + cp % 64)
      ∷ []

-- What a sequence shows: its code point, its length, and what follows it.
abbrev pub Encodes : List ℕ → ℕ → ℕ → Type 0
Encodes p n cp =
    IsScalar cp × (n ≡ length (utf8_encode cp)) × ((rest : List ℕ) × (p ≡ utf8_encode cp ++ rest))

pub encode_1 : (cp : ℕ) → cp < 0x80 → utf8_encode cp ≡ cp ∷ []
unfolding utf8_encode
encode_1 cp h = ground arith

pub encode_2 :
    (cp : ℕ) → 0x80 ≤ cp → cp < 0x800 → utf8_encode cp ≡ (0xC0 + cp / 64) ∷ (0x80 + cp % 64) ∷ []
unfolding utf8_encode
encode_2 cp h k = ground arith

pub encode_3 :
    (cp : ℕ)
    → 0x800 ≤ cp
    → cp < 0x10000
    → utf8_encode cp ≡ (0xE0 + cp / 4096) ∷ (0x80 + cp / 64 % 64) ∷ (0x80 + cp % 64) ∷ []
unfolding utf8_encode
encode_3 cp h k = ground arith

pub encode_4 :
    (cp : ℕ)
    → 0x10000 ≤ cp
    → utf8_encode cp
      ≡ (0xF0 + cp / 262144)
        ∷ (0x80 + cp / 4096 % 64)
        ∷ (0x80 + cp / 64 % 64)
        ∷ (0x80 + cp % 64)
        ∷ []
unfolding utf8_encode
encode_4 cp h = ground arith

pub one : (b : ℕ) (rest : List ℕ) → b < 0x80 → Encodes (b ∷ rest) 1 b
one b rest h = let e = encode_1 b h in rw e (inl (omega arith), refl, (rest, refl))

pub two :
    (b c cp : ℕ) (rest : List ℕ)
    → 0xC2 ≤ b
    → b < 0xE0
    → 0x80 ≤ c
    → c ≤ 0xBF
    → cp ≡ b % 32 * 64 + c % 64
    → Encodes (b ∷ c ∷ rest) 2 cp
two b c cp rest h k l m q =
    let e = encode_2 cp (omega arith) (omega arith) in
    rw e (inl (omega arith), refl, (rest, ap₂ ◌∷◌ (omega arith) (ap₂ ◌∷◌ (omega arith) refl)))

pub three-IsScalar :
    (b c d cp : ℕ)
    → 0xE0 ≤ b
    → b < 0xF0
    → c ≤ (if b == 0xED then 0x9F else 0xBF)
    → 0x80 ≤ c
    → cp ≡ (b % 16 * 64 + c % 64) * 64 + d % 64
    → IsScalar cp
three-IsScalar b c d cp h k l m q = elim (dec_lt b 0xED) [
  | yes lt ↦ inl (ground arith)
  | no ge ↦ elim (dec_lt 0xED b) [
    | yes gt ↦ inr (omega arith, omega arith)
    | no le ↦ inl (ground arith)
  ]
]

pub three_low :
    (b c d cp : ℕ)
    → 0xE0 ≤ b
    → b < 0xF0
    → (if b == 0xE0 then 0xA0 else 0x80) ≤ c
    → c ≤ 0xBF
    → cp ≡ (b % 16 * 64 + c % 64) * 64 + d % 64
    → 0x800 ≤ cp
three_low b c d cp h k l m q = ground arith

pub three :
    (b c d cp : ℕ) (rest : List ℕ)
    → 0xE0 ≤ b
    → b < 0xF0
    → (if b == 0xE0 then 0xA0 else 0x80) ≤ c
    → c ≤ (if b == 0xED then 0x9F else 0xBF)
    → 0x80 ≤ d
    → d ≤ 0xBF
    → cp ≡ (b % 16 * 64 + c % 64) * 64 + d % 64
    → Encodes (b ∷ c ∷ d ∷ rest) 3 cp
three b c d cp rest h k l m hd kd q =
    let l2 : 0x80 ≤ c = ground arith in
    let m2 : c ≤ 0xBF = ground arith in
    let low = three_low b c d cp h k l m2 q in
    let e = encode_3 cp low (omega arith) in
    let sc = three-IsScalar b c d cp h k m l2 q in
    rw e
      (sc, refl, (rest, ap₂ ◌∷◌ (omega arith) (ap₂ ◌∷◌ (omega arith) (ap₂ ◌∷◌ (omega arith) refl))))

pub four_bounds :
    (b c d f cp : ℕ)
    → 0xF0 ≤ b
    → b < 0xF5
    → (if b == 0xF0 then 0x90 else 0x80) ≤ c
    → c ≤ (if b == 0xF4 then 0x8F else 0xBF)
    → cp ≡ ((b % 8 * 64 + c % 64) * 64 + d % 64) * 64 + f % 64
    → (0x10000 ≤ cp) × (cp < 0x110000) × (0x80 ≤ c) × (c ≤ 0xBF)
four_bounds b c d f cp h k l m q = (ground arith, ground arith, ground arith, ground arith)

pub four :
    (b c d f cp : ℕ) (rest : List ℕ)
    → 0xF0 ≤ b
    → b < 0xF5
    → (if b == 0xF0 then 0x90 else 0x80) ≤ c
    → c ≤ (if b == 0xF4 then 0x8F else 0xBF)
    → 0x80 ≤ d
    → d ≤ 0xBF
    → 0x80 ≤ f
    → f ≤ 0xBF
    → cp ≡ ((b % 8 * 64 + c % 64) * 64 + d % 64) * 64 + f % 64
    → Encodes (b ∷ c ∷ d ∷ f ∷ rest) 4 cp
four b c d f cp rest h k l m hd kd hf kf q =
    let (low, high, l2, m2) = four_bounds b c d f cp h k l m q in
    let e = encode_4 cp low in
    rw e (
      inr (omega arith, high),
      refl,
      (
        rest,
        ap₂ ◌∷◌ (omega arith)
            (ap₂ ◌∷◌ (omega arith) (ap₂ ◌∷◌ (omega arith) (ap₂ ◌∷◌ (omega arith) refl))),
      ),
    )
