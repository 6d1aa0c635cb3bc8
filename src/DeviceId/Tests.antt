-- ===== src/DeviceId/Tests.antt =====
-- The reference vector of the tests, and the theorems at it.
use amisync.Common.{
  ℕ, ◌≡◌, ◌↔◌, refl, inl, List, [], ◌∷◌, length, All, arith, none, some, true, set,
}
use amisync.DeviceId.{
  luhn_sum, luhn32, encode_loop, emit, b32_encode_256, add_checks, dash_groups, device_id_from_raw,
  scan_id, checks_ok, device_id_normalize, device_id_to_raw,
}
use amisync.DeviceId.Encoded.{InAlphabet}
use amisync.DeviceId.Canon.{letters, device_id_normalize-letters}
use amisync.DeviceId.RoundTrip.{device_id_to_raw-device_id_from_raw}
use amisync.DeviceId.Luhn.{device_id_normalize-set}

abbrev hash : List ℕ
hash =
    127 ∷ 124 ∷ 135 ∷ 35 ∷ 236 ∷ 202 ∷ 91 ∷ 77 ∷ 34 ∷ 6 ∷ 28 ∷ 73 ∷ 129 ∷ 179 ∷ 76 ∷ 52 ∷ 216 ∷ 101
    ∷ 236 ∷ 55 ∷ 107 ∷ 225 ∷ 235 ∷ 116 ∷ 51 ∷ 8 ∷ 115 ∷ 201 ∷ 166 ∷ 249 ∷ 178 ∷ 5 ∷ []

abbrev expect : List ℕ
expect =
    b'P' ∷ b'5' ∷ b'6' ∷ b'I' ∷ b'O' ∷ b'I' ∷ b'7' ∷ b'-' ∷ b'M' ∷ b'Z' ∷ b'J' ∷ b'N' ∷ b'U' ∷ b'2'
    ∷ b'Y' ∷ b'-' ∷ b'I' ∷ b'Q' ∷ b'G' ∷ b'D' ∷ b'R' ∷ b'E' ∷ b'Y' ∷ b'-' ∷ b'D' ∷ b'M' ∷ b'2'
    ∷ b'M' ∷ b'G' ∷ b'T' ∷ b'I' ∷ b'-' ∷ b'M' ∷ b'G' ∷ b'L' ∷ b'3' ∷ b'B' ∷ b'X' ∷ b'N' ∷ b'-'
    ∷ b'P' ∷ b'Q' ∷ b'6' ∷ b'W' ∷ b'5' ∷ b'B' ∷ b'M' ∷ b'-' ∷ b'T' ∷ b'B' ∷ b'B' ∷ b'Z' ∷ b'4'
    ∷ b'T' ∷ b'J' ∷ b'-' ∷ b'X' ∷ b'Z' ∷ b'W' ∷ b'I' ∷ b'C' ∷ b'Q' ∷ b'2' ∷ []

abbrev canonical : List ℕ
canonical =
    b'P' ∷ b'5' ∷ b'6' ∷ b'I' ∷ b'O' ∷ b'I' ∷ b'7' ∷ b'M' ∷ b'Z' ∷ b'J' ∷ b'N' ∷ b'U' ∷ b'2' ∷ b'Y'
    ∷ b'I' ∷ b'Q' ∷ b'G' ∷ b'D' ∷ b'R' ∷ b'E' ∷ b'Y' ∷ b'D' ∷ b'M' ∷ b'2' ∷ b'M' ∷ b'G' ∷ b'T'
    ∷ b'I' ∷ b'M' ∷ b'G' ∷ b'L' ∷ b'3' ∷ b'B' ∷ b'X' ∷ b'N' ∷ b'P' ∷ b'Q' ∷ b'6' ∷ b'W' ∷ b'5'
    ∷ b'B' ∷ b'M' ∷ b'T' ∷ b'B' ∷ b'B' ∷ b'Z' ∷ b'4' ∷ b'T' ∷ b'J' ∷ b'X' ∷ b'Z' ∷ b'W' ∷ b'I'
    ∷ b'C' ∷ b'Q' ∷ b'2' ∷ []

from_raw_expect : device_id_from_raw hash ≡ expect
unfolding device_id_from_raw b32_encode_256 encode_loop emit add_checks luhn32 luhn_sum dash_groups
from_raw_expect = refl

normalize_expect : device_id_normalize (some expect) ≡ some canonical
unfolding device_id_normalize scan_id checks_ok luhn32 luhn_sum
normalize_expect = refl

device_id_to_raw-device_id_from_raw_example :
    device_id_to_raw (some (device_id_from_raw hash)) ≡ some hash
device_id_to_raw-device_id_from_raw_example =
    device_id_to_raw-device_id_from_raw hash refl (ground arith)

device_id_normalize-letters_example : (device_id_normalize (some expect) ≡ some canonical) ↔ (
    (canonical ≡ letters expect)
    × All InAlphabet canonical
    × (length canonical ≡ 56)
    × (checks_ok 4 canonical ≡ true))
device_id_normalize-letters_example = device_id_normalize-letters expect canonical

device_id_normalize-set_example : device_id_normalize (some (set canonical 20 b'X')) ≡ none
device_id_normalize-set_example =
    device_id_normalize-set expect canonical 20 b'X' normalize_expect (omega arith)
      (inl (omega arith, omega arith)) (λ e. omega arith)
