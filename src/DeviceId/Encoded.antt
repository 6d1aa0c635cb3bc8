-- ===== src/DeviceId/Encoded.antt =====
-- What b32_encode_256 writes: characters of the alphabet, as many as the bytes need, and the decoder
-- takes them back.
use amisync.Common.{
  ℕ, ◌+◌, ◌*◌, ◌/◌, ◌%◌, ◌≤◌, ◌<◌, ◌≡◌, ◌⊎◌, refl, ap₂, ◌∙◌, List, [], ◌∷◌, ◌++◌, length, All,
  arith,
}
use amisync.DeviceId.{b32_alpha, emit, encode_loop, decode_loop}
use amisync.DeviceId.Base32.{emit_group, group_back, decode_last, group_values, alphas}

abbrev pub InAlphabet : ℕ → Type 0
InAlphabet c = (b'A' ≤ c × c ≤ b'Z') ⊎ (b'2' ≤ c × c ≤ b'7')

pub b32_alpha-InAlphabet : (v : ℕ) → v < 32 → InAlphabet (b32_alpha v)
b32_alpha-InAlphabet v h = ground arith

alphas_append-InAlphabet :
    (vs rest : List ℕ)
    → All (λ v. v < 32) vs
    → All InAlphabet rest
    → All InAlphabet (alphas vs ++ rest)
alphas_append-InAlphabet [] rest h k = k
alphas_append-InAlphabet (v ∷ vs) rest (hv, h) k =
    (b32_alpha-InAlphabet v hv, alphas_append-InAlphabet vs rest h k)

-- The last two bytes make four characters, and one spare bit more than fills the last.
emit_last :
    (a b : ℕ)
    → a < 256
    → b < 256
    → encode_loop (a ∷ b ∷ []) 0 0
      ≡ alphas (a / 8 ∷ (a % 8 * 4 + b / 64) ∷ (b % 64 / 2) ∷ b % 2 * 16 ∷ [])
unfolding encode_loop emit
emit_last a b ha hb =
    let z : 0 + a ≡ a = omega arith in
    let w1 : a % 8 * 256 % 4294967296 ≡ a % 8 * 256 = omega arith in
    let m1 : (a % 8 * 256 + b) % 2 ≡ b % 2 = omega arith in
    let v0 : a / 8 % 32 ≡ a / 8 = omega arith in
    let v1 : (a % 8 * 256 + b) / 64 % 32 ≡ a % 8 * 4 + b / 64 = omega arith in
    let v2 : (a % 8 * 256 + b) / 2 % 32 ≡ b % 64 / 2 = omega arith in
    let v3 : b % 2 * 16 % 4294967296 % 32 ≡ b % 2 * 16 = omega arith in
    rw (z, w1, m1, v0, v1, v2, v3) refl

last_back :
    (t a b : ℕ) → a < 256 → b < 256 → decode_loop (encode_loop (a ∷ b ∷ []) 0 0) t 0 ≡ a ∷ b ∷ []
last_back t a b ha hb =
    let e0 : a / 8 * 8 + (a % 8 * 4 + b / 64) / 4 ≡ a = omega arith in
    let e1 : (a % 8 * 4 + b / 64) % 4 * 64 + (b % 64 / 2) * 2 + b % 2 * 16 / 16 ≡ b = omega arith in
    rw (emit_last a b ha hb) (
      decode_last t (a / 8) (a % 8 * 4 + b / 64) (b % 64 / 2) (b % 2 * 16) (omega arith)
        (omega arith) (omega arith) (omega arith)
      ∙ ap₂ ◌∷◌ e0 (ap₂ ◌∷◌ e1 refl))

-- What is shown of the characters of a whole number of groups and two bytes.
abbrev pub Encoded : List ℕ → Type 0
Encoded h =
    ((t : ℕ) → decode_loop (encode_loop h 0 0) t 0 ≡ h)
    × (length (encode_loop h 0 0) ≡ length h / 5 * 8 + 4)
    × All InAlphabet (encode_loop h 0 0)

group_Encoded :
    (a b c d e : ℕ) (rest : List ℕ)
    → a < 256
    → b < 256
    → c < 256
    → d < 256
    → e < 256
    → Encoded rest
    → Encoded (a ∷ b ∷ c ∷ d ∷ e ∷ rest)
group_Encoded a b c d e rest ha hb hc hd he (back, len, al) = (
  λ t. group_back t a b c d e rest ha hb hc hd he back,
  rw (emit_group a b c d e rest ha hb hc hd he) (omega (arith, len)),
  rw (emit_group a b c d e rest ha hb hc hd he) (
      alphas_append-InAlphabet (group_values a b c d e) (encode_loop rest 0 0)
        (
          omega arith,
          (
            omega arith,
            (
              omega arith,
              (omega arith, (omega arith, (omega arith, (omega arith, (omega arith, _))))),
            ),
          ),
        )
        al),
)

last_Encoded : (a b : ℕ) → a < 256 → b < 256 → Encoded (a ∷ b ∷ [])
last_Encoded a b ha hb = (
  λ t. last_back t a b ha hb,
  rw (emit_last a b ha hb) refl,
  rw (emit_last a b ha hb) (
      alphas_append-InAlphabet (a / 8 ∷ (a % 8 * 4 + b / 64) ∷ (b % 64 / 2) ∷ b % 2 * 16 ∷ []) []
        (omega arith, (omega arith, (omega arith, (omega arith, _)))) _),
)

pub encode_loop-Encoded : (h : List ℕ) → length h % 5 ≡ 2 → All (λ b. b < 256) h → Encoded h
encode_loop-Encoded [] p h = absurd (omega arith)
encode_loop-Encoded (a ∷ []) p h = absurd (omega arith)
encode_loop-Encoded (a ∷ b ∷ []) p (ha, (hb, _)) = last_Encoded a b ha hb
encode_loop-Encoded (a ∷ b ∷ c ∷ []) p h = absurd (omega arith)
encode_loop-Encoded (a ∷ b ∷ c ∷ d ∷ []) p h = absurd (omega arith)
encode_loop-Encoded (a ∷ b ∷ c ∷ d ∷ e ∷ rest) p (ha, (hb, (hc, (hd, (he, h))))) =
    group_Encoded a b c d e rest ha hb hc hd he (encode_loop-Encoded rest (omega arith) h)
