-- ===== src/DeviceId/RoundTrip.antt =====
-- device_id_from_raw and device_id_to_raw: the printed id of a key is read back as the key.
use amisync.Common.{
  append_nil, take_append_drop, ℕ, zero, suc, ◌+◌, ◌*◌, ◌-◌, ◌%◌, ◌≤◌, ◌<◌, ◌≡◌, refl, sym, ap, ◌∙◌,
  Bool, true, false, ◌&&◌, List, [], ◌∷◌, ◌++◌, length, All, arith, ◌==◌, some, length-append, take,
  drop, get_or, take-append, length-take, take-all,
}
use amisync.DeviceId.{
  luhn32, luhn_sum, b32_encode_256, add_checks, dash_groups, device_id_from_raw, checks_ok,
  drop_checks, decode_loop, device_id_normalize, device_id_to_raw,
}
use amisync.DeviceId.Encoded.{InAlphabet, b32_alpha-InAlphabet, encode_loop-Encoded}
use amisync.DeviceId.Lists.{
  length-drop, All-take, All-drop, All-append, get_or-append, drop-suc-append,
}
use amisync.DeviceId.Canon.{
  letters, letters_append, letters_nil, letters_dash, device_id_normalize-letters,
}

-- Dashes are no letters.
letters-dash_groups :
    (n : ℕ) (l : List ℕ) → length l ≡ 7 * n → All InAlphabet l → letters (dash_groups n l) ≡ l
unfolding dash_groups
letters-dash_groups zero [] k h = unfold letters in refl
letters-dash_groups zero (c ∷ l) k h = absurd (omega arith)
letters-dash_groups (suc zero) l k h =
    letters_append (take 7 l) [] (All-take InAlphabet 7 l h)
    ∙ ap (◌++◌ (take 7 l)) letters_nil
    ∙ append_nil (take 7 l)
    ∙ take-all 7 l (omega arith)
letters-dash_groups (suc (suc n)) l k h =
    let d = length-drop 7 l in
    let ih = letters-dash_groups (suc n) (drop 7 l) (omega arith) (All-drop InAlphabet 7 l h) in
    let ne : (suc n == 0) ≡ false = ground arith in
    rw ne (
      letters_append (take 7 l) (b'-' ∷ dash_groups (suc n) (drop 7 l)) (All-take InAlphabet 7 l h))
    ∙ ap (◌++◌ (take 7 l)) (letters_dash (dash_groups (suc n) (drop 7 l)) ∙ ih)
    ∙ take_append_drop 7 l

luhn32-InAlphabet : (s : List ℕ) → InAlphabet (luhn32 s)
unfolding luhn32
luhn32-InAlphabet s = b32_alpha-InAlphabet ((32 - luhn_sum 1 s % 32) % 32) (omega arith)

check_step : (a b : ℕ) (c : Bool) → a ≡ b → c ≡ true → (a == b) && c ≡ true
check_step a b c e h = ground arith

-- What the check characters are for each chunk, and that they can be told from the characters of the chunk.
abbrev Checked : ℕ → List ℕ → Type 0
Checked n b32 =
    (length (add_checks n b32) ≡ 14 * n)
    × All InAlphabet (add_checks n b32)
    × (checks_ok n (add_checks n b32) ≡ true)

add_checks-Checked :
    (n : ℕ) (b32 : List ℕ) → length b32 ≡ 13 * n → All InAlphabet b32 → Checked n b32
unfolding add_checks checks_ok
add_checks-Checked zero b32 k h = (refl, _, refl)
add_checks-Checked (suc n) b32 k h =
    let d = length-drop 13 b32 in
    let t : length (take 13 b32) ≡ 13 = omega (arith, length-take 13 b32) in
    let (len, al, ok) =
      add_checks-Checked n (drop 13 b32) (omega arith) (All-drop InAlphabet 13 b32 h) in
    let check = luhn32 (take 13 b32) in
    let rest = add_checks n (drop 13 b32) in
    let ta = take-append (take 13 b32) (check ∷ rest) 13 t in
    let go = get_or-append (take 13 b32) rest 13 check 0 t in
    let da = drop-suc-append (take 13 b32) rest 13 check t in
    (
      omega (arith, length-append (take 13 b32) (check ∷ rest)),
      All-append InAlphabet (take 13 b32) (check ∷ rest) (All-take InAlphabet 13 b32 h)
          (luhn32-InAlphabet (take 13 b32), al),
      check_step (luhn32 (take 13 (take 13 b32 ++ check ∷ rest)))
          (get_or (take 13 b32 ++ check ∷ rest) 13 0)
          (checks_ok n (drop 14 (take 13 b32 ++ check ∷ rest))) (ap luhn32 ta ∙ sym go)
          (ap (checks_ok n) da ∙ ok),
    )

-- Within a chunk, the characters before the last are kept.
drop_checks-chunk :
    (xs rest : List ℕ) (i k : ℕ)
    → i + length xs ≤ 13
    → drop_checks (14 * k + i) (xs ++ rest) ≡ xs ++ drop_checks (14 * k + i + length xs) rest
unfolding drop_checks
drop_checks-chunk [] rest i k h = let e : 14 * k + i + 0 ≡ 14 * k + i = omega arith in rw e refl
drop_checks-chunk (c ∷ xs) rest i k h =
    let ne : ((14 * k + i) % 14 == 13) ≡ false = ground arith in
    let e : 14 * k + suc i + length xs ≡ 14 * k + i + suc (length xs) = omega arith in
    let e2 : suc (14 * k + i) ≡ 14 * k + suc i = omega arith in
    let ih = drop_checks-chunk xs rest (suc i) k (omega arith) in
    rw (ne) (
      ap (◌∷◌ c) (
        ap (λ (j : ℕ). drop_checks j (xs ++ rest)) e2
        ∙ ih
        ∙ ap (λ (j : ℕ). xs ++ drop_checks j rest) e))

drop_checks-check :
    (c k : ℕ) (rest : List ℕ) → drop_checks (14 * k + 13) (c ∷ rest) ≡ drop_checks (14 * suc k) rest
unfolding drop_checks
drop_checks-check c k rest =
    let yes_check : ((14 * k + 13) % 14 == 13) ≡ true = ground arith in
    let e : suc (14 * k + 13) ≡ 14 * suc k = omega arith in rw (yes_check, e) refl

drop_checks-add_checks :
    (n k : ℕ) (b32 : List ℕ) → length b32 ≡ 13 * n → drop_checks (14 * k) (add_checks n b32) ≡ b32
unfolding add_checks
drop_checks-add_checks zero k [] h = unfold drop_checks in refl
drop_checks-add_checks zero k (c ∷ b32) h = absurd (omega arith)
drop_checks-add_checks (suc n) k b32 h =
    let d = length-drop 13 b32 in
    let t : length (take 13 b32) ≡ 13 = omega (arith, length-take 13 b32) in
    let ih = drop_checks-add_checks n (suc k) (drop 13 b32) (omega arith) in
    let rest = luhn32 (take 13 b32) ∷ add_checks n (drop 13 b32) in
    let chunk = drop_checks-chunk (take 13 b32) rest 0 k (omega arith) in
    let e0 : 14 * k ≡ 14 * k + 0 = omega arith in
    let e1 : 14 * k + 0 + length (take 13 b32) ≡ 14 * k + 13 = omega arith in
    ap (λ (j : ℕ). drop_checks j (take 13 b32 ++ rest)) e0
    ∙ chunk
    ∙ ap (λ (j : ℕ). take 13 b32 ++ drop_checks j rest) e1
    ∙ ap (◌++◌ (take 13 b32))
        (drop_checks-check (luhn32 (take 13 b32)) k (add_checks n (drop 13 b32)) ∙ ih)
    ∙ take_append_drop 13 b32

read_back :
    (id canon raw : List ℕ)
    → device_id_normalize (some id) ≡ some canon
    → decode_loop (drop_checks 0 canon) 0 0 ≡ raw
    → length raw ≡ 32
    → device_id_to_raw (some id) ≡ some raw
unfolding device_id_to_raw
read_back id canon raw e d k =
    let key : (length raw == 32) ≡ true = ground arith in rw (e, d, key) refl

-- The printed id of a key of 32 bytes is accepted, and gives the key back.
pub device_id_to_raw-device_id_from_raw :
    (hash : List ℕ)
    → length hash ≡ 32
    → All (λ b. b < 256) hash
    → device_id_to_raw (some (device_id_from_raw hash)) ≡ some hash
unfolding device_id_from_raw
device_id_to_raw-device_id_from_raw hash k h =
    let (back, len, al) = encode_loop-Encoded hash (omega (arith, k)) h in
    let b32 = b32_encode_256 hash in
    let (len14, al14, ok) = add_checks-Checked 4 b32 (omega (arith, len, k)) al in
    let l = letters-dash_groups 8 (add_checks 4 b32) (omega arith) al14 in
    let norm =
      (device_id_normalize-letters (dash_groups 8 (add_checks 4 b32)) (add_checks 4 b32)).1
        (sym l, al14, len14, ok) in
    let data_chars = drop_checks-add_checks 4 0 b32 (omega (arith, len, k)) in
    read_back (dash_groups 8 (add_checks 4 b32)) (add_checks 4 b32) hash norm
      (ap (λ (cs : List ℕ). decode_loop cs 0 0) data_chars ∙ (unfold b32_encode_256 in back 0)) k
