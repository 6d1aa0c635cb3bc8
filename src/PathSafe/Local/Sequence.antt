-- ===== src/PathSafe/Local/Sequence.antt =====
-- utf8_seq, by the length of the sequence.
use amisync.Common.{
  ℕ, suc, ◌+◌, ◌*◌, ◌%◌, ◌≤◌, ◌<◌, ◌≡◌, refl, sym, ap, ◌∙◌, Option, none, some, List, [], ◌∷◌,
  if◌then◌else◌, ◌==◌, arith,
}
use amisync.PathSafe.Local.{continue_seq, utf8_seq, with_length}

pub continue-some :
    (n lo hi cp r : ℕ) (p : List ℕ)
    → continue_seq (suc n) lo hi cp p ≡ some r
    → (b : ℕ) × (rest : List ℕ) × (p ≡ b ∷ rest)
      × (lo ≤ b)
      × (b ≤ hi)
      × (continue_seq n 0x80 0xBF (cp * 64 + b % 64) rest ≡ some r)
unfolding continue_seq
continue-some n lo hi cp r [] h = cc
continue-some n lo hi cp r (b ∷ p) h = (b, p, refl, ground arith, ground arith, ground arith)

pub continue-done : (lo hi cp r : ℕ) (p : List ℕ) → continue_seq 0 lo hi cp p ≡ some r → r ≡ cp
unfolding continue_seq
continue-done lo hi cp r p h = sym (cc)

pub continue-more :
    (n lo hi cp b : ℕ) (p : List ℕ)
    → lo ≤ b
    → b ≤ hi
    → continue_seq (suc n) lo hi cp (b ∷ p) ≡ continue_seq n 0x80 0xBF (cp * 64 + b % 64) p
unfolding continue_seq
continue-more n lo hi cp b p h k = ground arith

pub with_length-some :
    (n m cp : ℕ) (o : Option ℕ) → with_length n o ≡ some (m, cp) → (n ≡ m) × (o ≡ some cp)
with_length-some n m cp none h = cc
with_length-some n m cp (some d) h = (cc, cc)

pub seq_nil : utf8_seq [] ≡ none
unfolding utf8_seq
seq_nil = refl

pub seq_1 : (b : ℕ) (p : List ℕ) → b < 0x80 → utf8_seq (b ∷ p) ≡ some (1, b)
unfolding utf8_seq
seq_1 b p h = ground arith

pub seq_2 :
    (b c r : ℕ) (p : List ℕ)
    → 0xC2 ≤ b
    → b < 0xE0
    → 0x80 ≤ c
    → c ≤ 0xBF
    → b % 32 * 64 + c % 64 ≡ r
    → utf8_seq (b ∷ c ∷ p) ≡ some (2, r)
unfolding utf8_seq continue_seq
seq_2 b c r p h k lc hc e = ground arith

pub continue_2 :
    (lo hi cp c d r : ℕ) (p : List ℕ)
    → lo ≤ c
    → c ≤ hi
    → 0x80 ≤ d
    → d ≤ 0xBF
    → (cp * 64 + c % 64) * 64 + d % 64 ≡ r
    → continue_seq 2 lo hi cp (c ∷ d ∷ p) ≡ some r
continue_2 lo hi cp c d r p lc hc ld hd e =
    continue-more 1 lo hi cp c (d ∷ p) lc hc
    ∙ continue-more 0 0x80 0xBF (cp * 64 + c % 64) d p ld hd
    ∙ (unfold continue_seq in ap some e)

pub lead :
    (b : ℕ) (p : List ℕ)
    → 0xE0 ≤ b
    → b < 0xF0
    → utf8_seq (b ∷ p)
      ≡ with_length 3 (
          continue_seq 2
            (if b == 0xE0 then 0xA0 else 0x80)
            (if b == 0xED then 0x9F else 0xBF)
            (b % 16)
            p)
unfolding utf8_seq
lead b p h k = ground arith

pub lead_4 :
    (b : ℕ) (p : List ℕ)
    → 0xF0 ≤ b
    → b < 0xF5
    → utf8_seq (b ∷ p)
      ≡ with_length 4 (
          continue_seq 3
            (if b == 0xF0 then 0x90 else 0x80)
            (if b == 0xF4 then 0x8F else 0xBF)
            (b % 8)
            p)
unfolding utf8_seq
lead_4 b p h k = ground arith

pub seq_3 :
    (b c d r : ℕ) (p : List ℕ)
    → 0xE0 ≤ b
    → b < 0xF0
    → (if b == 0xE0 then 0xA0 else 0x80) ≤ c
    → c ≤ (if b == 0xED then 0x9F else 0xBF)
    → 0x80 ≤ d
    → d ≤ 0xBF
    → (b % 16 * 64 + c % 64) * 64 + d % 64 ≡ r
    → utf8_seq (b ∷ c ∷ d ∷ p) ≡ some (3, r)
seq_3 b c d r p h k lc hc ld hd e =
    lead b (c ∷ d ∷ p) h k ∙ ap (with_length 3) (continue_2 _ _ (b % 16) c d r p lc hc ld hd e)

pub seq_4 :
    (b c d f r : ℕ) (p : List ℕ)
    → 0xF0 ≤ b
    → b < 0xF5
    → (if b == 0xF0 then 0x90 else 0x80) ≤ c
    → c ≤ (if b == 0xF4 then 0x8F else 0xBF)
    → 0x80 ≤ d
    → d ≤ 0xBF
    → 0x80 ≤ f
    → f ≤ 0xBF
    → ((b % 8 * 64 + c % 64) * 64 + d % 64) * 64 + f % 64 ≡ r
    → utf8_seq (b ∷ c ∷ d ∷ f ∷ p) ≡ some (4, r)
seq_4 b c d f r p h k lc hc ld hd lf hf e =
    lead_4 b (c ∷ d ∷ f ∷ p) h k
    ∙ ap (with_length 4) (
        continue-more 2 _ _ (b % 8) c (d ∷ f ∷ p) lc hc
        ∙ continue_2 0x80 0xBF (b % 8 * 64 + c % 64) d f r p ld hd lf hf e)
