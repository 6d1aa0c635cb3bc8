-- ===== src/PathSafe/Local/Utf8.antt =====
-- utf8_seq against an encoder: it takes the shortest form of a scalar value, and nothing else.
use amisync.Common.{
  ℕ, ◌+◌, ◌*◌, ◌%◌, ◌/◌, ◌≤◌, ◌<◌, ◌≡◌, ◌↔◌, ◌⊎◌, inl, inr, refl, sym, ◌∙◌, none, some, List, [],
  ◌∷◌, ◌++◌, length, if◌then◌else◌, ◌==◌, arith,
}
use native.Mathlib.Decide.{dec_lt}
use amisync.PathSafe.Local.{continue_seq, utf8_seq, with_length}
use amisync.PathSafe.Local.Encoder.{
  IsScalar, utf8_encode, Encodes, encode_1, encode_2, encode_3, encode_4, one, two, three, four,
}
use amisync.PathSafe.Local.Sequence.{
  continue-some, continue-done, with_length-some, seq_nil, seq_1, seq_2, seq_3, seq_4,
}

two_of :
    (b n cp : ℕ) (p : List ℕ)
    → 0xC2 ≤ b
    → b < 0xE0
    → with_length 2 (continue_seq 1 0x80 0xBF (b % 32) p) ≡ some (n, cp)
    → Encodes (b ∷ p) n cp
two_of b n cp p h k e =
    let (en, ec) = with_length-some 2 n cp (continue_seq 1 0x80 0xBF (b % 32) p) e in
    let (c, r, ep, lc, hc, ec2) = continue-some 0 0x80 0xBF (b % 32) cp p ec in
    let q = continue-done 0x80 0xBF _ cp r ec2 in rw (ep, sym en) (two b c cp r h k lc hc q)

three_of :
    (b lo hi n cp : ℕ) (p : List ℕ)
    → 0xE0 ≤ b
    → b < 0xF0
    → lo ≡ (if b == 0xE0 then 0xA0 else 0x80)
    → hi ≡ (if b == 0xED then 0x9F else 0xBF)
    → with_length 3 (continue_seq 2 lo hi (b % 16) p) ≡ some (n, cp)
    → Encodes (b ∷ p) n cp
three_of b lo hi n cp p h k el eh e =
    let (en, ec) = with_length-some 3 n cp (continue_seq 2 lo hi (b % 16) p) e in
    let (c, r, ep, lc, hc, ec2) = continue-some 1 lo hi (b % 16) cp p ec in
    let (d, r2, ep2, ld, hd, ec3) = continue-some 0 0x80 0xBF (b % 16 * 64 + c % 64) cp r ec2 in
    let q = continue-done 0x80 0xBF _ cp r2 ec3 in
    rw (ep, ep2, sym en) (three b c d cp r2 h k (rw el at lc) (rw eh at hc) ld hd q)

four_of :
    (b lo hi n cp : ℕ) (p : List ℕ)
    → 0xF0 ≤ b
    → b < 0xF5
    → lo ≡ (if b == 0xF0 then 0x90 else 0x80)
    → hi ≡ (if b == 0xF4 then 0x8F else 0xBF)
    → with_length 4 (continue_seq 3 lo hi (b % 8) p) ≡ some (n, cp)
    → Encodes (b ∷ p) n cp
four_of b lo hi n cp p h k el eh e =
    let (en, ec) = with_length-some 4 n cp (continue_seq 3 lo hi (b % 8) p) e in
    let (c, r, ep, lc, hc, ec2) = continue-some 2 lo hi (b % 8) cp p ec in
    let (d, r2, ep2, ld, hd, ec3) = continue-some 1 0x80 0xBF (b % 8 * 64 + c % 64) cp r ec2 in
    let (f, r3, ep3, lf, hf, ec4) =
      continue-some 0 0x80 0xBF ((b % 8 * 64 + c % 64) * 64 + d % 64) cp r2 ec3 in
    let q = continue-done 0x80 0xBF _ cp r3 ec4 in
    rw (ep, ep2, ep3, sym en) (four b c d f cp r3 h k (rw el at lc) (rw eh at hc) ld hd lf hf q)

-- The five cases of the first byte.
abbrev First : ℕ → List ℕ → Type 0
First b p =
    (b < 0x80 × (utf8_seq (b ∷ p) ≡ some (1, b)))
    ⊎ ((0xC2 ≤ b
          × b < 0xE0
          × (utf8_seq (b ∷ p) ≡ with_length 2 (continue_seq 1 0x80 0xBF (b % 32) p)))
        ⊎ ((0xE0 ≤ b
              × b < 0xF0
              × (utf8_seq (b ∷ p)
                  ≡ with_length 3 (
                      continue_seq 2 (if b == 0xE0 then 0xA0 else 0x80)
                        (if b == 0xED then 0x9F else 0xBF) (b % 16) p)))
            ⊎ ((0xF0 ≤ b
                  × b < 0xF5
                  × (utf8_seq (b ∷ p)
                      ≡ with_length 4 (
                          continue_seq 3 (if b == 0xF0 then 0x90 else 0x80)
                            (if b == 0xF4 then 0x8F else 0xBF) (b % 8) p)))
                ⊎ (utf8_seq (b ∷ p) ≡ none))))

First-cases : (b : ℕ) (p : List ℕ) → First b p
unfolding utf8_seq
First-cases b p = elim (dec_lt b 0x80) [
  | yes h ↦ inl (h, ground arith)
  | no h ↦ elim (dec_lt b 0xC2) [
    | yes k ↦ inr (inr (inr (inr (ground arith))))
    | no k ↦ elim (dec_lt b 0xE0) [
      | yes l ↦ inr (inl (omega arith, l, ground arith))
      | no l ↦ elim (dec_lt b 0xF0) [
        | yes m ↦ inr (inr (inl (omega arith, m, ground arith)))
        | no m ↦ elim (dec_lt b 0xF5) [
          | yes o ↦ inr (inr (inr (inl (omega arith, o, ground arith))))
          | no o ↦ inr (inr (inr (inr (ground arith))))
        ]
      ]
    ]
  ]
]

pub utf8_seq-Encodes : (p : List ℕ) (n cp : ℕ) → utf8_seq p ≡ some (n, cp) → Encodes p n cp
utf8_seq-Encodes [] n cp h = let e = seq_nil in absurd (cc)
utf8_seq-Encodes (b ∷ p) n cp h = elim (First-cases b p) [
  | inl (lt, e) ↦
      let (en, ec) = with_length-some 1 n cp (some b) (sym e ∙ h) in
      let same : cp ≡ b = cc in rw (sym en, same) (one b p lt)
  | inr (inl (k, l, e)) ↦ two_of b n cp p k l (sym e ∙ h)
  | inr (inr (inl (k, l, e))) ↦ three_of b _ _ n cp p k l refl refl (sym e ∙ h)
  | inr (inr (inr (inl (k, l, e)))) ↦ four_of b _ _ n cp p k l refl refl (sym e ∙ h)
  | inr (inr (inr (inr e))) ↦ absurd (cc)
]

bounds_3 :
    (cp : ℕ)
    → 0x800 ≤ cp
    → cp < 0x10000
    → IsScalar cp
    → ((if 0xE0 + cp / 4096 == 0xE0 then 0xA0 else 0x80) ≤ 0x80 + cp / 64 % 64)
      × (0x80 + cp / 64 % 64 ≤ (if 0xE0 + cp / 4096 == 0xED then 0x9F else 0xBF))
bounds_3 cp h k sc = (ground arith, ground arith)

bounds_4 :
    (cp : ℕ)
    → 0x10000 ≤ cp
    → IsScalar cp
    → (cp < 0x110000)
      × ((if 0xF0 + cp / 262144 == 0xF0 then 0x90 else 0x80) ≤ 0x80 + cp / 4096 % 64)
      × (0x80 + cp / 4096 % 64 ≤ (if 0xF0 + cp / 262144 == 0xF4 then 0x8F else 0xBF))
bounds_4 cp h sc = (ground arith, ground arith, ground arith)

encode_seq :
    (cp : ℕ) (rest : List ℕ)
    → IsScalar cp
    → utf8_seq (utf8_encode cp ++ rest) ≡ some (length (utf8_encode cp), cp)
encode_seq cp rest sc = elim (dec_lt cp 0x80) [
  | yes h ↦ let e = encode_1 cp h in rw e (seq_1 cp rest h)
  | no h ↦ elim (dec_lt cp 0x800) [
    | yes k ↦
        let e = encode_2 cp (omega arith) k in
        rw e (
          seq_2 (0xC0 + cp / 64) (0x80 + cp % 64) cp rest (omega arith) (omega arith) (omega arith)
            (omega arith) (omega arith))
    | no k ↦ elim (dec_lt cp 0x10000) [
      | yes l ↦
          let e = encode_3 cp (omega arith) l in
          let (lo, hi) = bounds_3 cp (omega arith) l sc in
          rw e (
            seq_3 (0xE0 + cp / 4096) (0x80 + cp / 64 % 64) (0x80 + cp % 64) cp rest (omega arith)
              (omega arith) lo hi (omega arith) (omega arith) (omega arith))
      | no l ↦
          let e = encode_4 cp (omega arith) in
          let (lt, lo, hi) = bounds_4 cp (omega arith) sc in
          rw e (
            seq_4 (0xF0 + cp / 262144) (0x80 + cp / 4096 % 64) (0x80 + cp / 64 % 64)
              (0x80 + cp % 64) cp rest (omega arith) (omega arith) lo hi (omega arith) (omega arith)
              (omega arith) (omega arith) (omega arith))
    ]
  ]
]

-- A sequence is accepted, with its length and its code point, exactly when the string starts with the
-- shortest form of that code point, which is no surrogate and at most 0x10FFFF.
pub utf8_seq_iff : (p : List ℕ) (n cp : ℕ) → (utf8_seq p ≡ some (n, cp)) ↔ Encodes p n cp
utf8_seq_iff p n cp =
    (utf8_seq-Encodes p n cp, λ (sc, en, (rest, ep)). rw (ep, en) (encode_seq cp rest sc))
