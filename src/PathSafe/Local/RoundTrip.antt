-- ===== src/PathSafe/Local/RoundTrip.antt =====
-- A name read from disk, announced, and mapped back.
use amisync.Common.{
  ℕ, ◌+◌, ◌*◌, ◌%◌, ◌/◌, ◌≤◌, ◌<◌, ◌≡◌, inl, inr, refl, ap, ap₂, ◌∙◌, Bool, true, false, some, List,
  [], ◌∷◌, ◌++◌, length, All, if◌then◌else◌, ltb, ◌==◌, arith, Bool-cases, length-append,
}
use native.Mathlib.Decide.{dec_lt}
use amisync.PathSafe.Local.{
  utf8_seq, utf8_class, class_loop, copy_loop, name_to_local, name_from_local,
}
use amisync.PathSafe.Local.Sequence.{seq_1, seq_2}
use amisync.PathSafe.Local.Copied.{
  copy_loop_room, joined, local_form, wire_form, decode, widen, decode_step, decode_skip,
  class_step, class_skip,
}
use amisync.PathSafe.Local.Joined.{to_local_loop_lem, from_local_loop_lem}
use amisync.PathSafe.Local.Split.{
  IsInner, mapped, split_components, joined_split, split-All, split-IsInner,
}
use amisync.PathSafe.Components.{components}

abbrev IsByte : ℕ → Type 0
IsByte b = b < 256

widen_low : (b : ℕ) (p : List ℕ) → b < 0x80 → widen (b ∷ p) ≡ b ∷ widen p
unfolding widen
widen_low b p h = ground arith

widen_high :
    (b : ℕ) (p : List ℕ) → 0x80 ≤ b → widen (b ∷ p) ≡ (0xC0 + b / 64) ∷ (0x80 + b % 64) ∷ widen p
unfolding widen
widen_high b p h = ground arith

narrow : (b : ℕ) → IsByte b → (if ltb 0xFF b then true else false) ≡ false
narrow b h = ground arith

high_seq :
    (b : ℕ) (p : List ℕ)
    → 0x80 ≤ b
    → IsByte b
    → utf8_seq ((0xC0 + b / 64) ∷ (0x80 + b % 64) ∷ p) ≡ some (2, b)
high_seq b p h k =
    seq_2 (0xC0 + b / 64) (0x80 + b % 64) b p (omega arith) (omega arith) (omega arith)
      (omega arith) (omega arith)

-- A text read as Latin-1 is within Latin-1, and its code points are its bytes.
widen_class : (s : List ℕ) → All IsByte s → class_loop 0 false (widen s) ≡ 1
widen_class [] h = unfold class_loop widen in refl
widen_class (b ∷ s) (hb, h) = elim (dec_lt b 0x80) [
  | yes l ↦
      let w = widen_low b s l in
      let c = class_step false b 1 b (widen s) (seq_1 b (widen s) l) in
      let n = narrow b hb in
      rw w (c ∙ ap (λ (wide : Bool). class_loop 0 wide (widen s)) n ∙ widen_class s h)
  | no l ↦
      let w = widen_high b s (omega arith) in
      let c =
        class_step false (0xC0 + b / 64) 2 b ((0x80 + b % 64) ∷ widen s)
          (high_seq b (widen s) (omega arith) hb) in
      let n = narrow b hb in
      rw w (
        c
        ∙ class_skip 0 (if ltb 0xFF b then true else false) (0x80 + b % 64) (widen s)
        ∙ ap (λ (wide : Bool). class_loop 0 wide (widen s)) n
        ∙ widen_class s h)
]

decode-widen : (s : List ℕ) → All IsByte s → decode 0 (widen s) ≡ s
decode-widen [] h = unfold decode widen in refl
decode-widen (b ∷ s) (hb, h) = elim (dec_lt b 0x80) [
  | yes l ↦
      let w = widen_low b s l in
      rw w (decode_step b 1 b (widen s) (seq_1 b (widen s) l) ∙ ap (◌∷◌ b) (decode-widen s h))
  | no l ↦
      let w = widen_high b s (omega arith) in
      rw w (
        decode_step (0xC0 + b / 64) 2 b ((0x80 + b % 64) ∷ widen s)
          (high_seq b (widen s) (omega arith) hb)
        ∙ ap (◌∷◌ b) (decode_skip 0 (0x80 + b % 64) (widen s) ∙ decode-widen s h))
]

widen_class_lem : (s : List ℕ) → All IsByte s → utf8_class (widen s) ≡ 1
unfolding utf8_class
widen_class_lem s h = widen_class s h

local_form-wire_form : (s : List ℕ) → All IsByte s → local_form (wire_form s) ≡ s
local_form-wire_form s h = elim (Bool-cases (utf8_class s == 2)) [
  | inl e ↦ let two : (utf8_class s == 1) ≡ false = ground arith in rw (e, two) refl
  | inr e ↦ let c = widen_class_lem s h in rw (e, c) (decode-widen s h)
]

widen-IsInner : (s : List ℕ) → All IsInner s → All IsInner (widen s)
widen-IsInner [] h = unfold widen in tt
widen-IsInner (b ∷ s) (hb, h) = elim (dec_lt b 0x80) [
  | yes l ↦ let w = widen_low b s l in rw w (hb, widen-IsInner s h)
  | no l ↦
      let w = widen_high b s (omega arith) in
      rw w ((λ e. omega arith), ((λ e. omega arith), widen-IsInner s h))
]

wire_form-IsInner : (s : List ℕ) → All IsInner s → All IsInner (wire_form s)
wire_form-IsInner s h = elim (Bool-cases (utf8_class s == 2)) [
  | inl e ↦ rw e h
  | inr e ↦ rw e (widen-IsInner s h)
]

joined_same :
    (cs : List (List ℕ))
    → All (All IsByte) cs
    → joined local_form (mapped wire_form cs) ≡ joined (λ s. s) cs
joined_same [] h = refl
joined_same (s ∷ []) (hs, h) = local_form-wire_form s hs
joined_same (s ∷ t ∷ rest) (hs, h) =
    ap₂ (λ (a b : List ℕ). a ++ b'/' ∷ b) (local_form-wire_form s hs) (joined_same (t ∷ rest) h)

wired-IsInner :
    (cs : List (List ℕ)) → All (All IsInner) cs → All (λ s. All IsInner (wire_form s)) cs
wired-IsInner [] h = tt
wired-IsInner (s ∷ cs) (hs, h) = (wire_form-IsInner s hs, wired-IsInner cs h)

-- Without bounds, the mapping back undoes the mapping.
there_and_back :
    (local : List ℕ)
    → All IsByte local
    → joined local_form (components (joined wire_form (components local))) ≡ local
there_and_back local h =
    ap (joined local_form) (
      split_components wire_form local
        (wired-IsInner (components local) (split-IsInner [] local tt)))
    ∙ joined_same (components local) (split-All IsByte [] local tt h)
    ∙ joined_split [] local

length-widen : (s : List ℕ) → length (widen s) ≤ 2 * length s
length-widen [] = unfold widen in omega arith
length-widen (b ∷ s) = elim (dec_lt b 0x80) [
  | yes l ↦ let w = widen_low b s l in rw w (omega (arith, length-widen s))
  | no l ↦ let w = widen_high b s (omega arith) in rw w (omega (arith, length-widen s))
]

length-wire_form : (s : List ℕ) → length (wire_form s) ≤ 2 * length s
length-wire_form s = elim (Bool-cases (utf8_class s == 2)) [
  | inl e ↦ rw e (omega arith)
  | inr e ↦ rw e (length-widen s)
]

length-joined :
    (cs : List (List ℕ)) → length (joined wire_form cs) ≤ 2 * length (joined (λ s. s) cs)
length-joined [] = omega arith
length-joined (s ∷ []) = length-wire_form s
length-joined (s ∷ t ∷ rest) = omega (
  arith,
  length-wire_form s,
  length-joined (t ∷ rest),
  length-append (wire_form s) (b'/' ∷ joined wire_form (t ∷ rest)),
  length-append s (b'/' ∷ joined (λ u. u) (t ∷ rest)),
)

-- A name read from disk fits a buffer of more than twice its length, and what it is announced as is
-- mapped back to the name on disk, in any buffer that is longer than that name.
pub name_to_local-name_from_local :
    (local : List ℕ) (wire_size local_size : ℕ)
    → All IsByte local
    → 2 * length local < wire_size
    → length local < local_size
    → (name : List ℕ) × (name_from_local wire_size local ≡ some name)
      × (name_to_local local_size name ≡ some local)
unfolding name_from_local name_to_local
name_to_local-name_from_local local wire_size local_size h k l =
    let name = joined wire_form (components local) in
    let back = there_and_back local h in
    let len = length-joined (components local) in
    let whole = joined_split [] local in
    let short : length name ≤ 2 * length local = rw whole at len in
    let fits : length local < local_size = l in
    (
      name,
      from_local_loop_lem wire_size [] [] local ∙ copy_loop_room wire_size [] name (omega arith),
      to_local_loop_lem local_size [] [] name
          ∙ ap (copy_loop local_size []) back
          ∙ copy_loop_room local_size [] local (omega arith),
    )
