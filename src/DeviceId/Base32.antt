-- ===== src/DeviceId/Base32.antt =====
-- base32 back and forth: the encoder's characters decode to the bytes they came from.
use amisync.Common.{
  ℕ, ◌+◌, ◌*◌, ◌/◌, ◌%◌, ◌^◌, ◌<◌, ◌≡◌, refl, ap₂, ◌∙◌, List, [], ◌∷◌, ◌++◌, All, arith, some,
}
use amisync.DeviceId.{b32_alpha, b32_index, b32_value, emit, encode_loop, decode_loop}

pub b32_index-b32_alpha : (v : ℕ) → v < 32 → b32_index (b32_alpha v) ≡ some v
b32_index-b32_alpha v h = ground arith

pub b32_value-b32_alpha : (v : ℕ) → v < 32 → b32_value (b32_alpha v) ≡ v
b32_value-b32_alpha v h = ground arith

-- The eight characters of five bytes.
abbrev pub group_values : ℕ → ℕ → ℕ → ℕ → ℕ → List ℕ
group_values a b c d e =
    a / 8
    ∷ (a % 8 * 4 + b / 64)
    ∷ (b % 64 / 2)
    ∷ (b % 2 * 16 + c / 16)
    ∷ (c % 16 * 2 + d / 128)
    ∷ (d % 128 / 4)
    ∷ (d % 4 * 8 + e / 32)
    ∷ e % 32
    ∷ []

abbrev pub alphas : List ℕ → List ℕ
alphas [] = []
alphas (v ∷ vs) = b32_alpha v ∷ alphas vs

pub emit_group :
    (a b c d e : ℕ) (rest : List ℕ)
    → a < 256
    → b < 256
    → c < 256
    → d < 256
    → e < 256
    → encode_loop (a ∷ b ∷ c ∷ d ∷ e ∷ rest) 0 0
      ≡ alphas (group_values a b c d e) ++ encode_loop rest 0 0
unfolding encode_loop emit
emit_group a b c d e rest ha hb hc hd he =
    let z : 0 + a ≡ a = omega arith in
    let w1 : a % 8 * 256 % 4294967296 ≡ a % 8 * 256 = omega arith in
    let m1 : (a % 8 * 256 + b) % 2 ≡ b % 2 = omega arith in
    let w2 : b % 2 * 256 % 4294967296 ≡ b % 2 * 256 = omega arith in
    let m2 : (b % 2 * 256 + c) % 16 ≡ c % 16 = omega arith in
    let w3 : c % 16 * 256 % 4294967296 ≡ c % 16 * 256 = omega arith in
    let m3 : (c % 16 * 256 + d) % 4 ≡ d % 4 = omega arith in
    let w4 : d % 4 * 256 % 4294967296 ≡ d % 4 * 256 = omega arith in
    let m4 : (d % 4 * 256 + e) % 1 ≡ 0 = omega arith in
    let v0 : a / 8 % 32 ≡ a / 8 = omega arith in
    let v1 : (a % 8 * 256 + b) / 64 % 32 ≡ a % 8 * 4 + b / 64 = omega arith in
    let v2 : (a % 8 * 256 + b) / 2 % 32 ≡ b % 64 / 2 = omega arith in
    let v3 : (b % 2 * 256 + c) / 16 % 32 ≡ b % 2 * 16 + c / 16 = omega arith in
    let v4 : (c % 16 * 256 + d) / 128 % 32 ≡ c % 16 * 2 + d / 128 = omega arith in
    let v5 : (c % 16 * 256 + d) / 4 % 32 ≡ d % 128 / 4 = omega arith in
    let v6 : (d % 4 * 256 + e) / 32 % 32 ≡ d % 4 * 8 + e / 32 = omega arith in
    let v7 : (d % 4 * 256 + e) / 1 % 32 ≡ e % 32 = omega arith in
    rw (z, w1, m1, w2, m2, w3, m3, w4, m4, v0, v1, v2, v3, v4, v5, v6, v7) refl

-- The bytes that the decoder takes from its buffer, whatever stands above in it.
byte_0 :
    (t v w : ℕ)
    → v < 32
    → w < 32
    → ((t * 32 % 4294967296 + v) * 32 % 4294967296 + w) / 4 % 256 ≡ v * 8 + w / 4
byte_0 t v w h k = omega arith

byte_1 :
    (t v w x : ℕ)
    → v < 32
    → w < 32
    → x < 32
    → (((t * 32 % 4294967296 + v) * 32 % 4294967296 + w) * 32 % 4294967296 + x) / 16 % 256
      ≡ v % 4 * 64 + w * 2 + x / 16
byte_1 t v w x h k l = omega arith

byte_2 :
    (t v w : ℕ)
    → v < 32
    → w < 32
    → ((t * 32 % 4294967296 + v) * 32 % 4294967296 + w) / 2 % 256 ≡ v % 16 * 16 + w / 2
byte_2 t v w h k = omega arith

byte_3 :
    (t v w x : ℕ)
    → v < 32
    → w < 32
    → x < 32
    → (((t * 32 % 4294967296 + v) * 32 % 4294967296 + w) * 32 % 4294967296 + x) / 8 % 256
      ≡ v % 2 * 128 + w * 4 + x / 8
byte_3 t v w x h k l = omega arith

byte_4 :
    (t v w : ℕ)
    → v < 32
    → w < 32
    → ((t * 32 % 4294967296 + v) * 32 % 4294967296 + w) / 1 % 256 ≡ v % 8 * 32 + w
byte_4 t v w h k = omega arith

-- The buffer after one more character.
abbrev shifted : ℕ → ℕ → ℕ
shifted t v = t * 32 % 2 ^ 32 + v

-- Eight characters decode to five bytes, whatever stands above them in the buffer.
decode_group :
    (t v0 v1 v2 v3 v4 v5 v6 v7 : ℕ) (rest : List ℕ)
    → All (λ v. v < 32) (v0 ∷ v1 ∷ v2 ∷ v3 ∷ v4 ∷ v5 ∷ v6 ∷ v7 ∷ [])
    → decode_loop (alphas (v0 ∷ v1 ∷ v2 ∷ v3 ∷ v4 ∷ v5 ∷ v6 ∷ v7 ∷ []) ++ rest) t 0
      ≡ (v0 * 8 + v1 / 4)
        ∷ (v1 % 4 * 64 + v2 * 2 + v3 / 16)
        ∷ (v3 % 16 * 16 + v4 / 2)
        ∷ (v4 % 2 * 128 + v5 * 4 + v6 / 8)
        ∷ (v6 % 8 * 32 + v7)
        ∷ decode_loop rest
            (shifted
              (shifted
                (shifted (shifted (shifted (shifted (shifted (shifted t v0) v1) v2) v3) v4) v5)
                v6)
              v7)
            0
unfolding decode_loop
decode_group t v0 v1 v2 v3 v4 v5 v6 v7 rest (h0, (h1, (h2, (h3, (h4, (h5, (h6, (h7, _)))))))) =
    rw
      (
        b32_value-b32_alpha v0 h0,
        b32_value-b32_alpha v1 h1,
        b32_value-b32_alpha v2 h2,
        b32_value-b32_alpha v3 h3,
        b32_value-b32_alpha v4 h4,
        b32_value-b32_alpha v5 h5,
        b32_value-b32_alpha v6 h6,
        b32_value-b32_alpha v7 h7,
      )
      (let t1 = shifted t v0 in
        let t3 = shifted (shifted t1 v1) v2 in
        let t4 = shifted t3 v3 in
        let t6 = shifted (shifted t4 v4) v5 in
        ap₂ ◌∷◌ (byte_0 t v0 v1 h0 h1) (
          ap₂ ◌∷◌ (byte_1 t1 v1 v2 v3 h1 h2 h3) (
            ap₂ ◌∷◌ (byte_2 t3 v3 v4 h3 h4)
              (ap₂ ◌∷◌ (byte_3 t4 v4 v5 v6 h4 h5 h6) (ap₂ ◌∷◌ (byte_4 t6 v6 v7 h6 h7) refl)))))

pub group_back :
    (t a b c d e : ℕ) (rest : List ℕ)
    → a < 256
    → b < 256
    → c < 256
    → d < 256
    → e < 256
    → ((u : ℕ) → decode_loop (encode_loop rest 0 0) u 0 ≡ rest)
    → decode_loop (encode_loop (a ∷ b ∷ c ∷ d ∷ e ∷ rest) 0 0) t 0 ≡ a ∷ b ∷ c ∷ d ∷ e ∷ rest
group_back t a b c d e rest ha hb hc hd he ih =
    let e0 : a / 8 * 8 + (a % 8 * 4 + b / 64) / 4 ≡ a = omega arith in
    let e1 : (a % 8 * 4 + b / 64) % 4 * 64 + (b % 64 / 2) * 2 + (b % 2 * 16 + c / 16) / 16 ≡ b =
      omega arith in
    let e2 : (b % 2 * 16 + c / 16) % 16 * 16 + (c % 16 * 2 + d / 128) / 2 ≡ c = omega arith in
    let e3 : (c % 16 * 2 + d / 128) % 2 * 128 + (d % 128 / 4) * 4 + (d % 4 * 8 + e / 32) / 8 ≡ d =
      omega arith in
    let e4 : (d % 4 * 8 + e / 32) % 8 * 32 + e % 32 ≡ e = omega arith in
    let tail = λ (u : ℕ). ap₂ ◌∷◌ e0 (ap₂ ◌∷◌ e1 (ap₂ ◌∷◌ e2 (ap₂ ◌∷◌ e3 (ap₂ ◌∷◌ e4 (ih u))))) in
    rw (emit_group a b c d e rest ha hb hc hd he) (
      decode_group t (a / 8) (a % 8 * 4 + b / 64) (b % 64 / 2) (b % 2 * 16 + c / 16)
        (c % 16 * 2 + d / 128) (d % 128 / 4) (d % 4 * 8 + e / 32) (e % 32) (encode_loop rest 0 0)
        (
          omega arith,
          (
            omega arith,
            (
              omega arith,
              (omega arith, (omega arith, (omega arith, (omega arith, (omega arith, _))))),
            ),
          ),
        )
      ∙ tail _)

-- Four characters decode to two bytes, and leave four bits.
pub decode_last :
    (t v0 v1 v2 v3 : ℕ)
    → v0 < 32
    → v1 < 32
    → v2 < 32
    → v3 < 32
    → decode_loop (alphas (v0 ∷ v1 ∷ v2 ∷ v3 ∷ [])) t 0
      ≡ (v0 * 8 + v1 / 4) ∷ (v1 % 4 * 64 + v2 * 2 + v3 / 16) ∷ []
unfolding decode_loop
decode_last t v0 v1 v2 v3 h0 h1 h2 h3 =
    rw
      (
        b32_value-b32_alpha v0 h0,
        b32_value-b32_alpha v1 h1,
        b32_value-b32_alpha v2 h2,
        b32_value-b32_alpha v3 h3,
      )
      (ap₂ ◌∷◌ (byte_0 t v0 v1 h0 h1) (ap₂ ◌∷◌ (byte_1 (shifted t v0) v1 v2 v3 h1 h2 h3) refl))
