-- ===== src/DeviceId.antt =====
-- src/device_id.c without the reading of certificates: base32, the Luhn check characters, and the
-- printed form of a device id. `unsigned long` has 32 bits, as on the target; a shift of the buffer
-- leaves low zeros, so the `|` that fills them is a sum. isspace and toupper are those of the C
-- locale.
pub mod Lists
pub mod Base32
pub mod Encoded
pub mod Canon
pub mod RoundTrip
pub mod Luhn
mod Tests
use amisync.Common.{
  ℕ, text_of, zero, suc, ◌+◌, ◌*◌, ◌-◌, ◌/◌, ◌%◌, ◌^◌, Bool, true, false, ◌&&◌, ◌||◌, not, Option,
  none, some, List, [], ◌∷◌, ◌++◌, take, drop, length, get_or, if◌then◌else◌, ltb, leb, ◌==◌,
  bytes_eq,
}

abbrev pub device_id_bufsz : ℕ
device_id_bufsz = 64

-- B32_ALPHA[v]
abbrev pub b32_alpha : ℕ → ℕ
b32_alpha v = if ltb v 26 then b'A' + v else b'2' + (v - 26)

-- -1 is `none`.
abbrev pub b32_index : ℕ → Option ℕ
b32_index c =
    if leb b'A' c && leb c b'Z'
    then some (c - b'A')
    else if leb b'2' c && leb c b'7'
    then some (26 + (c - b'2'))
    else none

-- Where the code has made sure that the character is in the alphabet.
abbrev pub b32_value : ℕ → ℕ
b32_value c = elim (b32_index c) [ none ↦ 0 | some v ↦ v ]

abbrev pub fold_addend : ℕ → ℕ
fold_addend addend = addend / 32 + addend % 32

unfoldable pub luhn_sum : ℕ → List ℕ → ℕ
luhn_sum factor [] = 0
luhn_sum factor (c ∷ s) =
    fold_addend (factor * b32_value c) + luhn_sum (if factor == 2 then 1 else 2) s

-- The check character of the characters given.
unfoldable pub luhn32 : List ℕ → ℕ
unfolding luhn_sum
luhn32 s = b32_alpha ((32 - luhn_sum 1 s % 32) % 32)

-- The inner loop: the characters that it writes, and the bits that are left. `bits` rounds are more
-- than enough.
unfoldable pub emit : ℕ → ℕ → ℕ → List ℕ × ℕ
emit zero buffer bits = ([], bits)
emit (suc fuel) buffer bits =
    let more = emit fuel buffer (bits - 5) in
    if leb 5 bits then (b32_alpha (buffer / 2 ^ (bits - 5) % 32) ∷ more.0, more.1) else ([], bits)

unfoldable pub encode_loop : List ℕ → ℕ → ℕ → List ℕ
unfolding emit
encode_loop [] buffer bits =
    if ltb 0 bits then b32_alpha (buffer * 2 ^ (5 - bits) % 2 ^ 32 % 32) ∷ [] else []
encode_loop (b ∷ input) buffer bits =
    let filled = buffer * 256 % 2 ^ 32 + b in
    let (chars, left) = emit (bits + 8) filled (bits + 8) in
    chars ++ encode_loop input (filled % 2 ^ left) left

unfoldable pub b32_encode_256 : List ℕ → List ℕ
unfolding encode_loop
b32_encode_256 hash = encode_loop hash 0 0

-- n chunks of 13 characters, each with its check character.
unfoldable pub add_checks : ℕ → List ℕ → List ℕ
add_checks zero b32 = []
add_checks (suc n) b32 = take 13 b32 ++ luhn32 (take 13 b32) ∷ add_checks n (drop 13 b32)

-- n groups of 7 characters, with dashes between them.
unfoldable pub dash_groups : ℕ → List ℕ → List ℕ
dash_groups zero luhned = []
dash_groups (suc n) luhned =
    let rest = dash_groups n (drop 7 luhned) in
    take 7 luhned ++ (if n == 0 then [] else b'-' ∷ rest)

unfoldable pub device_id_from_raw : List ℕ → List ℕ
unfolding b32_encode_256 add_checks dash_groups
device_id_from_raw hash = dash_groups 8 (add_checks 4 (b32_encode_256 hash))

abbrev pub isspace : ℕ → Bool
isspace c = c == 0x20 || (leb 9 c && leb c 13)

abbrev pub toupper : ℕ → ℕ
toupper c = if leb b'a' c && leb c b'z' then c - 32 else c

abbrev pub cons_to : ℕ → Option (List ℕ) → Option (List ℕ)
cons_to c none = none
cons_to c (some s) = some (c ∷ s)

-- The loop over the input, with n characters found so far.
unfoldable pub scan_id : List ℕ → ℕ → Option (List ℕ)
scan_id [] n = some []
scan_id (c ∷ s) n =
    let skipped = scan_id s n in
    let taken = cons_to (toupper c) (scan_id s (suc n)) in
    if c == b'-' || isspace c
    then skipped
    else elim (b32_index (toupper c)) [ none ↦ none | some v ↦ if leb 56 n then none else taken ]

-- n chunks of 14 characters, each with the right check character.
unfoldable pub checks_ok : ℕ → List ℕ → Bool
unfolding luhn32
checks_ok zero canon = true
checks_ok (suc n) canon =
    (luhn32 (take 13 canon) == get_or canon 13 0) && checks_ok n (drop 14 canon)

abbrev pub check_canon : Option (List ℕ) → Option (List ℕ)
check_canon none = none
check_canon (some canon) =
    if not (length canon == 56) then none else if checks_ok 4 canon then some canon else none

unfoldable pub device_id_normalize : Option (List ℕ) → Option (List ℕ)
unfolding scan_id checks_ok
device_id_normalize none = none
device_id_normalize (some id) = check_canon (scan_id id 0)

abbrev pub same_canon : Option (List ℕ) → Option (List ℕ) → Bool
same_canon (some a) (some b) = bytes_eq a b
same_canon a b = false

unfoldable pub device_id_equal : Option (List ℕ) → Option (List ℕ) → Bool
unfolding device_id_normalize bytes_eq
device_id_equal a b = same_canon (device_id_normalize a) (device_id_normalize b)

-- The characters of index i on, without the check characters.
unfoldable pub drop_checks : ℕ → List ℕ → List ℕ
drop_checks i [] = []
drop_checks i (c ∷ canon) =
    let rest = drop_checks (suc i) canon in if i % 14 == 13 then rest else c ∷ rest

unfoldable pub decode_loop : List ℕ → ℕ → ℕ → List ℕ
decode_loop [] buffer bits = []
decode_loop (c ∷ b32) buffer bits =
    let filled = buffer * 32 % 2 ^ 32 + b32_value c in
    let full = (filled / 2 ^ (bits + 5 - 8) % 256) ∷ decode_loop b32 filled (bits + 5 - 8) in
    let short = decode_loop b32 filled (bits + 5) in if leb 8 (bits + 5) then full else short

abbrev pub whole_key : List ℕ → Option (List ℕ)
whole_key raw = if length raw == 32 then some raw else none

abbrev pub raw_of_canon : Option (List ℕ) → Option (List ℕ)
raw_of_canon none = none
raw_of_canon (some canon) = whole_key (decode_loop (drop_checks 0 canon) 0 0)

unfoldable pub device_id_to_raw : Option (List ℕ) → Option (List ℕ)
unfolding device_id_normalize drop_checks decode_loop
device_id_to_raw id = raw_of_canon (device_id_normalize id)
