-- ===== src/DeviceId/Canon.antt =====
-- device_id_normalize: what it accepts, and what it makes of it.
use amisync.Common.{
  append_nil, ℕ, suc, ◌+◌, ◌≤◌, ◌<◌, ◌≡◌, ◌≢◌, ◌↔◌, ◌⊎◌, inl, inr, refl, sym, ap, ◌∙◌, true, false,
  ◌||◌, List, [], ◌∷◌, ◌++◌, length, All, arith, if◌then◌else◌, ◌==◌, Option, none, some,
  Bool-cases,
}
use native.Mathlib.Decide.{dec_lt}
use amisync.DeviceId.{
  b32_index, isspace, toupper, cons_to, scan_id, checks_ok, check_canon, device_id_normalize,
}
use amisync.DeviceId.Encoded.{InAlphabet}

-- The characters that are neither dashes nor spaces, in upper case.
unfoldable pub letters : List ℕ → List ℕ
letters [] = []
letters (c ∷ s) = let rest = letters s in if c == b'-' || isspace c then rest else toupper c ∷ rest

index_some : (c : ℕ) → InAlphabet c → b32_index c ≢ none
index_some c h = ground arith

index_alphabet : (c v : ℕ) → b32_index c ≡ some v → InAlphabet c
index_alphabet c v h = ground arith

scan_separator :
    (c n : ℕ) (s : List ℕ) → (c == b'-' || isspace c) ≡ true → scan_id (c ∷ s) n ≡ scan_id s n
unfolding scan_id
scan_separator c n s h = ground arith

scan_letter :
    (c n : ℕ) (s : List ℕ)
    → (c == b'-' || isspace c) ≡ false
    → InAlphabet (toupper c)
    → n < 56
    → scan_id (c ∷ s) n ≡ cons_to (toupper c) (scan_id s (suc n))
unfolding scan_id
scan_letter c n s h k l = ground arith

scan_no_letter :
    (c n : ℕ) (s : List ℕ)
    → (c == b'-' || isspace c) ≡ false
    → b32_index (toupper c) ≡ none
    → scan_id (c ∷ s) n ≡ none
unfolding scan_id
scan_no_letter c n s h k = ground arith

scan_full :
    (c n : ℕ) (s : List ℕ) → (c == b'-' || isspace c) ≡ false → 56 ≤ n → scan_id (c ∷ s) n ≡ none
unfolding scan_id
scan_full c n s h k = ground arith

index-cases : (d : ℕ) → (b32_index d ≡ none) ⊎ InAlphabet d
index-cases d = elim (dec_lt d b'2') [
  | yes h ↦ inl (ground arith)
  | no h ↦ elim (dec_lt b'Z' d) [
    | yes k ↦ inl (ground arith)
    | no k ↦ elim (dec_lt b'7' d) [
      | no l ↦ inr (ground arith)
      | yes l ↦ elim (dec_lt d b'A') [ yes m ↦ inl (ground arith) | no m ↦ inr (ground arith) ]
    ]
  ]
]

letter-cases :
    (c : ℕ)
    → ((c == b'-' || isspace c) ≡ true)
      ⊎ ((((c == b'-' || isspace c) ≡ false) × (b32_index (toupper c) ≡ none))
          ⊎ (((c == b'-' || isspace c) ≡ false) × InAlphabet (toupper c)))
letter-cases c = elim (Bool-cases (c == b'-' || isspace c)) [
  | inl e ↦ inl e
  | inr e ↦ elim (index-cases (toupper c)) [ inl k ↦ inr (inl (e, k)) | inr k ↦ inr (inr (e, k)) ]
]

letters_separator :
    (c : ℕ) (s : List ℕ) → (c == b'-' || isspace c) ≡ true → letters (c ∷ s) ≡ letters s
unfolding letters
letters_separator c s h = rw h refl

letters_letter :
    (c : ℕ) (s : List ℕ)
    → (c == b'-' || isspace c) ≡ false
    → letters (c ∷ s) ≡ toupper c ∷ letters s
unfolding letters
letters_letter c s h = rw h refl

scan-back :
    (s : List ℕ) (n : ℕ)
    → All InAlphabet (letters s)
    → n + length (letters s) ≤ 56
    → scan_id s n ≡ some (letters s)
scan-back [] n h k = unfold scan_id letters in refl
scan-back (c ∷ s) n h k = elim (letter-cases c) [
  | inl e ↦
      let l = letters_separator c s e in
      scan_separator c n s e ∙ scan-back s n (rw l at h) (rw l at k) ∙ ap some (sym l)
  | inr (inl (e, out)) ↦
      let l = letters_letter c s e in
      let both : All InAlphabet (toupper c ∷ letters s) = rw l at h in
      absurd (index_some (toupper c) both.0 out)
  | inr (inr (e, up)) ↦
      let l = letters_letter c s e in
      let both : All InAlphabet (toupper c ∷ letters s) = rw l at h in
      let le : n + suc (length (letters s)) ≤ 56 = rw l at k in
      scan_letter c n s e up (omega arith)
      ∙ ap (cons_to (toupper c)) (scan-back s (suc n) both.1 (omega arith))
      ∙ ap some (sym l)
]

abbrev Scanned : List ℕ → ℕ → List ℕ → Type 0
Scanned s n l = (l ≡ letters s) × All InAlphabet l × (n + length l ≤ 56)

cons_to-some :
    (c : ℕ) (o : Option (List ℕ)) (l : List ℕ)
    → cons_to c o ≡ some l
    → (r : List ℕ) × (o ≡ some r) × (l ≡ c ∷ r)
cons_to-some c none l h = cc
cons_to-some c (some s) l h = (s, refl, sym (cc))

scan-Scanned : (s : List ℕ) (n : ℕ) (l : List ℕ) → n ≤ 56 → scan_id s n ≡ some l → Scanned s n l
scan-Scanned [] n l b h =
    let e : some [] ≡ some l = unfold scan_id in h in
    let k : l ≡ [] = cc in rw k (unfold letters in refl, _, omega arith)
scan-Scanned (c ∷ s) n l b h = elim (letter-cases c) [
  | inl e ↦
      let (k, al, le) = scan-Scanned s n l b (sym (scan_separator c n s e) ∙ h) in
      (k ∙ sym (letters_separator c s e), al, le)
  | inr (inl (e, out)) ↦ let d = scan_no_letter c n s e out in absurd (cc)
  | inr (inr (e, up)) ↦ elim (dec_lt n 56) [
    | no m ↦ let d = scan_full c n s e (omega arith) in absurd (cc)
    | yes m ↦
        let (r, p, q) =
          cons_to-some (toupper c) (scan_id s (suc n)) l (sym (scan_letter c n s e up m) ∙ h) in
        let (k, al, le) = scan-Scanned s (suc n) r m p in
        rw q (ap (◌∷◌ (toupper c)) k ∙ sym (letters_letter c s e), (up, al), omega arith)
  ]
]

check_canon-some :
    (o : Option (List ℕ)) (canon : List ℕ)
    → check_canon o ≡ some canon
    → (o ≡ some canon) × (length canon ≡ 56) × (checks_ok 4 canon ≡ true)
check_canon-some none canon h = cc
check_canon-some (some l) canon h =
    let k : (length l ≡ 56) × (checks_ok 4 l ≡ true) × (l ≡ canon) =
      (ground arith, ground arith, ground arith) in
    (ap some k.2, rw k.2 at k.0, rw k.2 at k.1)

accept :
    (canon : List ℕ)
    → length canon ≡ 56
    → checks_ok 4 canon ≡ true
    → check_canon (some canon) ≡ some canon
accept canon k c = ground arith

-- An id is accepted exactly when its letters are 56 characters of the alphabet with the right check
-- characters, and then they are its canonical form.
pub device_id_normalize-letters :
    (id canon : List ℕ)
    → (device_id_normalize (some id) ≡ some canon) ↔ (
        (canon ≡ letters id)
        × All InAlphabet canon
        × (length canon ≡ 56)
        × (checks_ok 4 canon ≡ true))
unfolding device_id_normalize
device_id_normalize-letters id canon = (
  λ h.
      let (e, k, c) = check_canon-some (scan_id id 0) canon h in
      let (l, al, le) = scan-Scanned id 0 canon (omega arith) e in (l, al, k, c),
  λ (l, al, k, c).
      let m : length (letters id) ≡ 56 = rw l at k in
      let scanned = scan-back id 0 (rw l at al) (omega (arith, m)) in
      let s : scan_id id 0 ≡ some canon = scanned ∙ ap some (sym l) in rw s (accept canon k c),
)

pub letters_append :
    (xs rest : List ℕ) → All InAlphabet xs → letters (xs ++ rest) ≡ xs ++ letters rest
unfolding letters
letters_append [] rest h = refl
letters_append (c ∷ xs) rest (hc, h) =
    let sep : (c == b'-' || isspace c) ≡ false = ground arith in
    let up : toupper c ≡ c = ground arith in rw (sep, up, letters_append xs rest h) refl

pub letters_nil : letters [] ≡ []
unfolding letters
letters_nil = refl

pub letters_dash : (s : List ℕ) → letters (b'-' ∷ s) ≡ letters s
unfolding letters
letters_dash s = refl

pub letters-All : (xs : List ℕ) → All InAlphabet xs → letters xs ≡ xs
letters-All xs h =
    ap letters (sym (append_nil xs))
    ∙ letters_append xs [] h
    ∙ ap (◌++◌ xs) letters_nil
    ∙ append_nil xs
