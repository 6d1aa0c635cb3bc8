-- ===== src/DeviceId/Luhn.antt =====
-- The check characters: an id with one character changed is refused.
use amisync.Common.{
  ℕ, zero, suc, ◌+◌, ◌*◌, ◌-◌, ◌%◌, ◌<◌, ◌≡◌, ◌≢◌, ◌⊎◌, inl, inr, refl, sym, ap, ◌∙◌, true, List,
  [], ◌∷◌, length, All, arith, if◌then◌else◌, ◌==◌, Option, none, some, take, drop, get_or, set,
  length-take, get_or-set_ne, get_or-set_self,
}
use amisync.DeviceId.{b32_value, fold_addend, luhn_sum, luhn32, checks_ok, device_id_normalize}
use amisync.DeviceId.Base32.{b32_value-b32_alpha}
use amisync.DeviceId.Encoded.{InAlphabet}
use native.Mathlib.Decide.{dec_lt}
use amisync.DeviceId.Lists.{
  length-drop, All-take, All-drop, take-set_in, take-set_out, drop-set_out, get_or-take,
  get_or-drop,
}
use amisync.DeviceId.Canon.{letters-All, device_id_normalize-letters}

value_lt : (c : ℕ) → InAlphabet c → b32_value c < 32
value_lt c h = ground arith

value_back : (c d : ℕ) → InAlphabet c → InAlphabet d → b32_value c ≡ b32_value d → c ≡ d
value_back c d h k e = ground arith

fold_back :
    (f v w t : ℕ)
    → (f ≡ 1) ⊎ (f ≡ 2)
    → v < 32
    → w < 32
    → (fold_addend (f * v) + t) % 32 ≡ (fold_addend (f * w) + t) % 32
    → v ≡ w
fold_back f v w t (inl e) h k p =
    let q : (fold_addend (1 * v) + t) % 32 ≡ (fold_addend (1 * w) + t) % 32 = rw e at p in
    omega arith
fold_back f v w t (inr e) h k p =
    let q : (fold_addend (2 * v) + t) % 32 ≡ (fold_addend (2 * w) + t) % 32 = rw e at p in
    omega arith

luhn_sum-set :
    (f : ℕ) (s : List ℕ) (i c : ℕ)
    → (f ≡ 1) ⊎ (f ≡ 2)
    → i < length s
    → All InAlphabet s
    → InAlphabet c
    → luhn_sum f (set s i c) % 32 ≡ luhn_sum f s % 32
    → get_or s i 0 ≡ c
unfolding luhn_sum
luhn_sum-set f [] i c m h al hc e = absurd (omega arith)
luhn_sum-set f (x ∷ s) zero c m h (hx, al) hc e =
    let v = value_lt x hx in
    let w = value_lt c hc in
    value_back x c hx hc (fold_back f (b32_value x) (b32_value c) _ m v w (sym e))
luhn_sum-set f (x ∷ s) (suc i) c m h (hx, al) hc e =
    luhn_sum-set (if f == 2 then 1 else 2) s i c (ground arith) (omega arith) al hc (omega arith)

luhn32-set :
    (s : List ℕ) (i c : ℕ)
    → i < length s
    → All InAlphabet s
    → InAlphabet c
    → luhn32 (set s i c) ≡ luhn32 s
    → get_or s i 0 ≡ c
unfolding luhn32
luhn32-set s i c h al hc e =
    let x = luhn_sum 1 (set s i c) in
    let y = luhn_sum 1 s in
    let a = b32_value-b32_alpha ((32 - x % 32) % 32) (omega arith) in
    let b = b32_value-b32_alpha ((32 - y % 32) % 32) (omega arith) in
    let k : (32 - x % 32) % 32 ≡ (32 - y % 32) % 32 = sym a ∙ ap b32_value e ∙ b in
    luhn_sum-set 1 s i c (inl refl) h al hc (omega arith)

checks_ok-split :
    (n : ℕ) (s : List ℕ)
    → checks_ok (suc n) s ≡ true
    → (luhn32 (take 13 s) ≡ get_or s 13 0) × (checks_ok n (drop 14 s) ≡ true)
unfolding checks_ok
checks_ok-split n s h = (ground arith, ground arith)

checks_ok-set :
    (n : ℕ) (s : List ℕ) (i c : ℕ)
    → length s ≡ 14 * n
    → i < length s
    → All InAlphabet s
    → InAlphabet c
    → checks_ok n s ≡ true
    → checks_ok n (set s i c) ≡ true
    → get_or s i 0 ≡ c
checks_ok-set zero s i c k h al hc ok ok2 = absurd (omega arith)
checks_ok-set (suc n) s i c k h al hc ok ok2 =
    let (p, q) = checks_ok-split n s ok in
    let (p2, q2) = checks_ok-split n (set s i c) ok2 in
    elim (dec_lt i 13) [
      | yes lt ↦
          let same : luhn32 (set (take 13 s) i c) ≡ luhn32 (take 13 s) =
            ap luhn32 (sym (take-set_in 13 s i c lt))
            ∙ p2
            ∙ get_or-set_ne s i 13 c 0 (λ e. omega arith)
            ∙ sym p in
          sym (get_or-take 13 s i 0 lt)
          ∙ luhn32-set (take 13 s) i c (omega (arith, length-take 13 s))
              (All-take InAlphabet 13 s al) hc same
      | no ge ↦ elim (dec_lt i 14) [
        | yes eq13 ↦
            let e : i ≡ 13 = omega arith in
            let len : 13 < length s = omega arith in
            ap (λ (j : ℕ). get_or s j 0) e
            ∙ sym p
            ∙ ap luhn32 (sym (take-set_out 13 s i c (omega arith)))
            ∙ p2
            ∙ ap (λ (j : ℕ). get_or (set s j c) 13 0) e
            ∙ get_or-set_self s 13 c 0 len
        | no more ↦
            let d = drop-set_out 14 s i c (omega arith) in
            sym (get_or-drop 14 s i 0 (omega arith))
            ∙ checks_ok-set n (drop 14 s) (i - 14) c (omega (arith, length-drop 14 s))
                (omega (arith, length-drop 14 s)) (All-drop InAlphabet 14 s al) hc q (rw d at q2)
      ]
    ]

set-All : (s : List ℕ) (i c : ℕ) → All InAlphabet s → InAlphabet c → All InAlphabet (set s i c)
set-All [] i c al hc = _
set-All (x ∷ s) zero c (hx, al) hc = (hc, al)
set-All (x ∷ s) (suc i) c (hx, al) hc = (hx, set-All s i c al hc)

none-or-some : (o : Option (List ℕ)) → (o ≡ none) ⊎ ((r : List ℕ) × (o ≡ some r))
none-or-some none = inl refl
none-or-some (some r) = inr (r, refl)

-- When an id is accepted, and one character of its canonical form is changed into another character of
-- the alphabet, the result is refused.
pub device_id_normalize-set :
    (id canon : List ℕ) (i c : ℕ)
    → device_id_normalize (some id) ≡ some canon
    → i < 56
    → InAlphabet c
    → get_or canon i 0 ≢ c
    → device_id_normalize (some (set canon i c)) ≡ none
device_id_normalize-set id canon i c h lt hc ne =
    let (l, al, len, ok) = (device_id_normalize-letters id canon).0 h in
    elim (none-or-some (device_id_normalize (some (set canon i c)))) [
      | inl e ↦ e
      | inr (r, e) ↦
          let (l2, al2, len2, ok2) = (device_id_normalize-letters (set canon i c) r).0 e in
          let same = l2 ∙ letters-All (set canon i c) (set-All canon i c al hc) in
          absurd (ne (checks_ok-set 4 canon i c len (omega arith) al hc ok (rw same at ok2)))
    ]
