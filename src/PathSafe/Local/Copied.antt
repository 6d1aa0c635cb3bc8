-- ===== src/PathSafe/Local/Copied.antt =====
-- The two mappings without their bounds: what name_to_local and name_from_local write when there is
-- room for it.
use amisync.Common.{
  append_nil, append_assoc, ℕ, zero, suc, ◌+◌, ◌-◌, ◌%◌, ◌/◌, ◌≤◌, ◌<◌, ◌≡◌, ◌≢◌, ◌⊎◌, inl, inr,
  refl, sym, ap, ◌∙◌, Bool, true, Option, none, some, List, [], ◌∷◌, ◌++◌, length, if◌then◌else◌,
  ltb, ◌==◌, arith, Bool-cases, length-append,
}
use native.Mathlib.Decide.{dec_lt}
use amisync.PathSafe.Local.{
  utf8_seq, class_loop, utf8_class, put, put_two, then_on, copy_loop, conv_loop, widen_loop,
}

-- The code points of a component.
unfoldable pub decode : ℕ → List ℕ → List ℕ
unfolding utf8_seq
decode skip [] = []
decode (suc skip) (b ∷ p) = decode skip p
decode zero (b ∷ p) = elim (utf8_seq (b ∷ p)) [ none ↦ [] | some (n, cp) ↦ cp ∷ decode (n - 1) p ]

unfoldable pub widen : List ℕ → List ℕ
widen [] = []
widen (b ∷ p) =
    let rest = widen p in if ltb b 0x80 then b ∷ rest else (0xC0 + b / 64) ∷ (0x80 + b % 64) ∷ rest

abbrev pub local_form : List ℕ → List ℕ
local_form seg = if utf8_class seg == 1 then decode 0 seg else seg

abbrev pub wire_form : List ℕ → List ℕ
wire_form seg = if utf8_class seg == 2 then seg else widen seg

-- The components after a mapping, with slashes between them.
abbrev pub joined : (List ℕ → List ℕ) → List (List ℕ) → List ℕ
joined f [] = []
joined f (s ∷ []) = f s
joined f (s ∷ t ∷ rest) = f s ++ b'/' ∷ joined f (t ∷ rest)

pub then_on_ext :
    (o : Option (List ℕ)) (f g : List ℕ → Option (List ℕ))
    → ((s : List ℕ) → f s ≡ g s)
    → then_on o f ≡ then_on o g
then_on_ext none f g h = refl
then_on_ext (some s) f g h = h s

then_on_assoc :
    (o : Option (List ℕ)) (f g h : List ℕ → Option (List ℕ))
    → ((s : List ℕ) → f s ≡ then_on (g s) h)
    → then_on o f ≡ then_on (then_on o g) h
then_on_assoc none f g h e = refl
then_on_assoc (some s) f g h e = e s

pub copy_loop_append :
    (cap : ℕ) (out xs ys : List ℕ)
    → copy_loop cap out (xs ++ ys) ≡ then_on (copy_loop cap out xs) (λ next. copy_loop cap next ys)
unfolding copy_loop
copy_loop_append cap out [] ys = refl
copy_loop_append cap out (x ∷ xs) ys =
    then_on_assoc (put cap out x) _ (λ next. copy_loop cap next xs) (λ next. copy_loop cap next ys)
      (λ next. copy_loop_append cap next xs ys)

put_room :
    (cap : ℕ) (out : List ℕ) (x : ℕ) → length out + 1 < cap → put cap out x ≡ some (out ++ x ∷ [])
put_room cap out x h = ground arith

put_full : (cap : ℕ) (out : List ℕ) (x : ℕ) → cap ≤ length out + 1 → put cap out x ≡ none
put_full cap out x h = ground arith

-- Where it all fits, it is copied; and nothing is cut off.
pub copy_loop_room :
    (cap : ℕ) (out xs : List ℕ)
    → length out + length xs < cap
    → copy_loop cap out xs ≡ some (out ++ xs)
unfolding copy_loop
copy_loop_room cap out [] h = ap some (sym (append_nil out))
copy_loop_room cap out (x ∷ xs) h =
    let e = put_room cap out x (omega arith) in
    let l = length-append out (x ∷ []) in
    rw e
      (copy_loop_room cap (out ++ x ∷ []) xs (omega arith) ∙ ap some (append_assoc out (x ∷ []) xs))

pub copy_loop_whole : (cap : ℕ) (out xs r : List ℕ) → copy_loop cap out xs ≡ some r → r ≡ out ++ xs
unfolding copy_loop
copy_loop_whole cap out [] r h = let e : r ≡ out = cc in e ∙ sym (append_nil out)
copy_loop_whole cap out (x ∷ xs) r h = elim (dec_lt (length out + 1) cap) [
  | yes k ↦
      let e = put_room cap out x k in
      copy_loop_whole cap (out ++ x ∷ []) xs r (rw e at h) ∙ append_assoc out (x ∷ []) xs
  | no k ↦
      let e = put_full cap out x (omega arith) in let n : none ≡ some r = rw e at h in absurd (cc)
]

copy_two : (cap : ℕ) (out : List ℕ) (a b : ℕ) → copy_loop cap out (a ∷ b ∷ []) ≡ put_two cap out a b
unfolding copy_loop
copy_two cap out a b = elim (dec_lt (length out + 2) cap) [
  | yes k ↦
      let e : put_two cap out a b ≡ some (out ++ a ∷ b ∷ []) = ground arith in
      copy_loop_room cap out (a ∷ b ∷ []) (omega arith) ∙ sym e
  | no k ↦
      let e : put_two cap out a b ≡ none = ground arith in
      elim (dec_lt (length out + 1) cap) [
        | yes l ↦
            let e1 = put_room cap out a l in
            let m = length-append out (a ∷ []) in
            let e2 = put_full cap (out ++ a ∷ []) b (omega arith) in rw (e, e1, e2) refl
        | no l ↦ let e1 = put_full cap out a (omega arith) in rw (e, e1) refl
      ]
]

put_two_lem :
    (cap : ℕ) (out : List ℕ) (a b : ℕ) (rest : List ℕ)
    → then_on (put_two cap out a b) (λ next. copy_loop cap next rest)
      ≡ copy_loop cap out (a ∷ b ∷ rest)
put_two_lem cap out a b rest =
    ap (λ (o : Option (List ℕ)). then_on o (λ next. copy_loop cap next rest))
      (sym (copy_two cap out a b))
    ∙ sym (copy_loop_append cap out (a ∷ b ∷ []) rest)

pub copy_cons :
    (cap : ℕ) (out : List ℕ) (a : ℕ) (rest : List ℕ)
    → then_on (put cap out a) (λ next. copy_loop cap next rest) ≡ copy_loop cap out (a ∷ rest)
unfolding copy_loop
copy_cons cap out a rest = refl

pub widen_loop_lem : (cap : ℕ) (out p : List ℕ) → widen_loop cap out p ≡ copy_loop cap out (widen p)
unfolding widen_loop widen
widen_loop_lem cap out [] = unfold copy_loop in refl
widen_loop_lem cap out (b ∷ p) = elim (Bool-cases (ltb b 0x80)) [
  | inl e ↦ rw e (
      then_on_ext (put cap out b) _ (λ next. copy_loop cap next (widen p))
        (λ next. widen_loop_lem cap next p)
      ∙ copy_cons cap out b (widen p))
  | inr e ↦ rw e (
      then_on_ext (put_two cap out (0xC0 + b / 64) (0x80 + b % 64)) _
        (λ next. copy_loop cap next (widen p)) (λ next. widen_loop_lem cap next p)
      ∙ put_two_lem cap out (0xC0 + b / 64) (0x80 + b % 64) (widen p))
]

-- In a component of class 1 every sequence is valid, so every byte is converted.
pub class_step :
    (wide : Bool) (b n cp : ℕ) (p : List ℕ)
    → utf8_seq (b ∷ p) ≡ some (n, cp)
    → class_loop 0 wide (b ∷ p) ≡ class_loop (n - 1) (if ltb 0xFF cp then true else wide) p
unfolding class_loop
class_step wide b n cp p e = rw (class_loop, e) refl

pub class_none :
    (wide : Bool) (b : ℕ) (p : List ℕ) → utf8_seq (b ∷ p) ≡ none → class_loop 0 wide (b ∷ p) ≡ 0
unfolding class_loop
class_none wide b p e = rw (class_loop, e) refl

pub class_skip :
    (k : ℕ) (wide : Bool) (b : ℕ) (p : List ℕ)
    → class_loop (suc k) wide (b ∷ p) ≡ class_loop k wide p
unfolding class_loop
class_skip k wide b p = refl

go_seq : (o q : Option (ℕ × ℕ)) → o ≡ q → (o ≡ none) ⊎ ((n : ℕ) × (cp : ℕ) × (o ≡ some (n, cp)))
go_seq o none e = inl e
go_seq o (some (n, cp)) e = inr (n, cp, e)

pub seq-or-none :
    (p : List ℕ) → (utf8_seq p ≡ none) ⊎ ((n : ℕ) × (cp : ℕ) × (utf8_seq p ≡ some (n, cp)))
seq-or-none p = go_seq (utf8_seq p) (utf8_seq p) refl

pub decode_step :
    (b n cp : ℕ) (p : List ℕ)
    → utf8_seq (b ∷ p) ≡ some (n, cp)
    → decode 0 (b ∷ p) ≡ cp ∷ decode (n - 1) p
unfolding decode
decode_step b n cp p e = rw (decode, e) refl

pub decode-none : (b : ℕ) (p : List ℕ) → utf8_seq (b ∷ p) ≡ none → decode 0 (b ∷ p) ≡ []
unfolding decode
decode-none b p e = rw (decode, e) refl

conv_step :
    (cap : ℕ) (out : List ℕ) (b n cp : ℕ) (p : List ℕ)
    → utf8_seq (b ∷ p) ≡ some (n, cp)
    → conv_loop 0 cap out (b ∷ p) ≡ then_on (put cap out cp) (λ next. conv_loop (n - 1) cap next p)
unfolding conv_loop
conv_step cap out b n cp p e = rw (conv_loop, e) refl

conv_skip :
    (k cap : ℕ) (out : List ℕ) (b : ℕ) (p : List ℕ)
    → conv_loop (suc k) cap out (b ∷ p) ≡ conv_loop k cap out p
unfolding conv_loop
conv_skip k cap out b p = refl

pub decode_skip : (k b : ℕ) (p : List ℕ) → decode (suc k) (b ∷ p) ≡ decode k p
unfolding decode
decode_skip k b p = refl

pub conv_loop_lem :
    (skip cap : ℕ) (wide : Bool) (out p : List ℕ)
    → class_loop skip wide p ≢ 0
    → conv_loop skip cap out p ≡ copy_loop cap out (decode skip p)
conv_loop_lem skip cap wide out [] h = unfold conv_loop decode copy_loop in refl
conv_loop_lem (suc skip) cap wide out (b ∷ p) h =
    let m = class_skip skip wide b p in
    conv_skip skip cap out b p
    ∙ conv_loop_lem skip cap wide out p (rw m at h)
    ∙ ap (copy_loop cap out) (sym (decode_skip skip b p))
conv_loop_lem zero cap wide out (b ∷ p) h = elim (seq-or-none (b ∷ p)) [
  | inl e ↦ absurd (h (class_none wide b p e))
  | inr (n, cp, e) ↦
      let m = class_step wide b n cp p e in
      let wider = if ltb 0xFF cp then true else wide in
      conv_step cap out b n cp p e
      ∙ then_on_ext (put cap out cp) _ (λ next. copy_loop cap next (decode (n - 1) p))
          (λ next. conv_loop_lem (n - 1) cap wider next p (rw m at h))
      ∙ copy_cons cap out cp (decode (n - 1) p)
      ∙ ap (copy_loop cap out) (sym (decode_step b n cp p e))
]
