-- ===== src/PathSafe/Local.antt =====
-- The mapping of names between UTF-8 and Latin-1: utf8_seq, utf8_class, utf8_valid, name_to_local and
-- name_from_local. A component is the list of its bytes; behind it stand a slash or the NUL, and
-- neither of them continues a sequence, so a read there is a refusal.
pub mod Encoder
pub mod Sequence
pub mod Utf8
pub mod Copied
pub mod Joined
pub mod Split
pub mod RoundTrip
pub mod Contained
mod Tests
use amisync.Common.{
  ℕ, zero, suc, ◌+◌, ◌*◌, ◌-◌, ◌%◌, ◌/◌, Bool, true, false, ◌&&◌, ◌||◌, not, Option, none, some,
  List, [], ◌∷◌, ◌++◌, length, if◌then◌else◌, ltb, leb, ◌==◌,
}

-- The loop over the bytes after the first, of which n are left; lo and hi bound the next one.
unfoldable pub continue_seq : ℕ → ℕ → ℕ → ℕ → List ℕ → Option ℕ
continue_seq zero lo hi cp p = some cp
continue_seq (suc n) lo hi cp [] = none
continue_seq (suc n) lo hi cp (b ∷ p) =
    let more = continue_seq n 0x80 0xBF (cp * 64 + b % 64) p in
    if ltb b lo || ltb hi b then none else more

abbrev pub with_length : ℕ → Option ℕ → Option (ℕ × ℕ)
with_length n none = none
with_length n (some cp) = some (n, cp)

-- The length of the sequence and its code point; 0 is `none`.
unfoldable pub utf8_seq : List ℕ → Option (ℕ × ℕ)
unfolding continue_seq
utf8_seq [] = none
utf8_seq (b ∷ p) =
    if ltb b 0x80
    then some (1, b)
    else if ltb b 0xC2
    then none
    else if ltb b 0xE0
    then with_length 2 (continue_seq 1 0x80 0xBF (b % 32) p)
    else if ltb b 0xF0
    then with_length 3 (
        continue_seq 2 (if b == 0xE0 then 0xA0 else 0x80) (if b == 0xED then 0x9F else 0xBF)
          (b % 16) p)
    else if ltb b 0xF5
    then with_length 4 (
        continue_seq 3 (if b == 0xF0 then 0x90 else 0x80) (if b == 0xF4 then 0x8F else 0xBF) (b % 8)
          p)
    else none

-- The loop over a component; `skip` bytes of the last sequence are still to be passed.
unfoldable pub class_loop : ℕ → Bool → List ℕ → ℕ
unfolding utf8_seq
class_loop skip wide [] = if wide then 2 else 1
class_loop (suc skip) wide (b ∷ p) = class_loop skip wide p
class_loop zero wide (b ∷ p) = elim (utf8_seq (b ∷ p)) [
  | none ↦ 0
  | some (n, cp) ↦ class_loop (n - 1) (if ltb 0xFF cp then true else wide) p
]

-- 0 for a component that is not UTF-8, 1 for one within Latin-1, 2 for one beyond it.
unfoldable pub utf8_class : List ℕ → ℕ
unfolding class_loop
utf8_class seg = class_loop 0 false seg

unfoldable pub utf8_valid : List ℕ → Bool
unfolding utf8_class
utf8_valid s = not (utf8_class s == 0)

-- A byte written to `out`, which has room for `cap` bytes and keeps one for the NUL.
abbrev pub put : ℕ → List ℕ → ℕ → Option (List ℕ)
put cap out c = if leb cap (length out + 1) then none else some (out ++ c ∷ [])

-- What follows a copy that may not have fitted.
abbrev pub then_on : Option (List ℕ) → (List ℕ → Option (List ℕ)) → Option (List ℕ)
then_on none next = none
then_on (some out) next = next out

-- A component copied as it is.
unfoldable pub copy_loop : ℕ → List ℕ → List ℕ → Option (List ℕ)
copy_loop cap out [] = some out
copy_loop cap out (b ∷ p) = then_on (put cap out b) (λ next. copy_loop cap next p)

-- A component of class 1 copied by its code points; in that class every sequence is valid.
unfoldable pub conv_loop : ℕ → ℕ → List ℕ → List ℕ → Option (List ℕ)
unfolding utf8_seq
conv_loop skip cap out [] = some out
conv_loop (suc skip) cap out (b ∷ p) = conv_loop skip cap out p
conv_loop zero cap out (b ∷ p) = elim (utf8_seq (b ∷ p)) [
  | none ↦ none
  | some (n, cp) ↦ then_on (put cap out cp) (λ next. conv_loop (n - 1) cap next p)
]

unfoldable pub put_local : ℕ → List ℕ → List ℕ → Option (List ℕ)
unfolding utf8_class conv_loop copy_loop
put_local cap out seg =
    if utf8_class seg == 1 then conv_loop 0 cap out seg else copy_loop cap out seg

-- The loop over the name, with the component that was read so far.
unfoldable pub to_local_loop : ℕ → List ℕ → List ℕ → List ℕ → Option (List ℕ)
unfolding put_local
to_local_loop cap out seg [] = put_local cap out seg
to_local_loop cap out seg (c ∷ p) =
    let longer = to_local_loop cap out (seg ++ c ∷ []) p in
    let ended =
      then_on (put_local cap out seg)
        (λ next. then_on (put cap next b'/') (λ slashed. to_local_loop cap slashed [] p)) in
    if c == b'/' then ended else longer

unfoldable pub name_to_local : ℕ → List ℕ → Option (List ℕ)
unfolding to_local_loop
name_to_local cap name = to_local_loop cap [] [] name

abbrev pub put_two : ℕ → List ℕ → ℕ → ℕ → Option (List ℕ)
put_two cap out a b = if leb cap (length out + 2) then none else some (out ++ a ∷ b ∷ [])

-- A component read as Latin-1.
unfoldable pub widen_loop : ℕ → List ℕ → List ℕ → Option (List ℕ)
widen_loop cap out [] = some out
widen_loop cap out (b ∷ p) =
    then_on (if ltb b 0x80 then put cap out b else put_two cap out (0xC0 + b / 64) (0x80 + b % 64))
      (λ next. widen_loop cap next p)

unfoldable pub put_wire : ℕ → List ℕ → List ℕ → Option (List ℕ)
unfolding utf8_class copy_loop widen_loop
put_wire cap out seg = if utf8_class seg == 2 then copy_loop cap out seg else widen_loop cap out seg

unfoldable pub from_local_loop : ℕ → List ℕ → List ℕ → List ℕ → Option (List ℕ)
unfolding put_wire
from_local_loop cap out seg [] = put_wire cap out seg
from_local_loop cap out seg (c ∷ p) =
    let longer = from_local_loop cap out (seg ++ c ∷ []) p in
    let ended =
      then_on (put_wire cap out seg)
        (λ next. then_on (put cap next b'/') (λ slashed. from_local_loop cap slashed [] p)) in
    if c == b'/' then ended else longer

unfoldable pub name_from_local : ℕ → List ℕ → Option (List ℕ)
unfolding from_local_loop
name_from_local cap local = from_local_loop cap [] [] local
