-- ===== src/SyncModel/Conflict.antt =====
-- The name of a conflict copy: civil_from_unix and sync_make_conflict_name.
pub mod Contained
pub mod Extension
pub mod Gregorian
pub mod Calendar
mod Tests
use amisync.Common.Int.{ℤ, pos, negsuc, pos_part, neg_part, sub_ℕ, int32_of}
use amisync.Common.{
  ℕ, zero, suc, ◌+◌, ◌*◌, ◌-◌, ◌%◌, ◌/◌, ◌^◌, Bool, true, false, Option, none, some, List, [], ◌∷◌,
  ◌++◌, length, take, drop, replicate, if◌then◌else◌, ltb, leb, ◌==◌,
}

-- The year is cast to an int; the other five fit one.
pub record Civil : Type 0 where
  pub y : ℤ
  pub mo : ℕ
  pub d : ℕ
  pub h : ℕ
  pub mi : ℕ
  pub s : ℕ

-- The quotient and the remainder of C go towards 0.
abbrev pub negated : ℕ → ℤ
negated zero = pos 0
negated (suc n) = negsuc n

abbrev pub days_of : ℤ → ℤ
days_of (pos t) = pos (t / 86400)
days_of (negsuc n) = negated (suc n / 86400)

abbrev pub rem_of : ℤ → ℤ
rem_of (pos t) = pos (t % 86400)
rem_of (negsuc n) = negated (suc n % 86400)

abbrev pub less_one : ℤ → ℤ
less_one (pos zero) = negsuc 0
less_one (pos (suc n)) = pos n
less_one (negsuc n) = negsuc (suc n)

-- if (rem < 0) { rem += 86400; days--; }
abbrev pub settled : ℤ → ℤ → ℤ × ℕ
settled days (pos rem) = (days, rem)
settled days (negsuc n) = (less_one days, 86400 - suc n)

abbrev pub plus : ℤ → ℕ → ℤ
plus (pos n) k = pos (n + k)
plus (negsuc n) k = sub_ℕ k (suc n)

-- (days >= 0 ? days : days - 146096) / 146097
abbrev pub era_of : ℤ → ℤ
era_of (pos days) = pos (days / 146097)
era_of (negsuc n) = negated ((suc n + 146096) / 146097)

-- days - era * 146097, which lies between 0 and 146096.
abbrev pub doe_of : ℤ → ℤ → ℕ
doe_of days era = pos_part days + neg_part era * 146097 - (neg_part days + pos_part era * 146097)

-- k + era * 400
abbrev pub year_of : ℤ → ℕ → ℤ
year_of (pos era) k = pos (k + era * 400)
year_of (negsuc n) k = sub_ℕ k (suc n * 400)

-- (int)v of an int64_t.
abbrev pub int_of : ℤ → ℤ
int_of (pos n) = int32_of n
int_of (negsuc n) = int32_of (2 ^ 32 - 1 - n % 2 ^ 32)

-- The fields of a day since 0000-03-01 and a second of the day.
abbrev pub civil_of : ℤ → ℕ → Civil
civil_of days rem =
    let era = era_of days in
    let doe = doe_of days era in
    let yoe = (doe - doe / 1460 + doe / 36524 - doe / 146096) / 365 in
    let doy = doe - (365 * yoe + yoe / 4 - yoe / 100) in
    let mp = (5 * doy + 2) / 153 in
    let mo = if ltb mp 10 then mp + 3 else mp - 9 in
    record {
      y = int_of (year_of era (yoe + (if leb mo 2 then 1 else 0)));
      mo = mo;
      d = doy - (153 * mp + 2) / 5 + 1;
      h = rem / 3600;
      mi = rem % 3600 / 60;
      s = rem % 60;
    }

unfoldable pub civil_from_unix : ℤ → Civil
civil_from_unix t =
    let (days, rem) = settled (days_of t) (rem_of t) in civil_of (plus days 719468) rem

-- The decimal digits of a number; an int has at most ten.
unfoldable pub digits : ℕ → ℕ → List ℕ
digits zero n = []
digits (suc fuel) n =
    let more = digits fuel (n / 10) ++ (b'0' + n % 10) ∷ [] in
    if ltb n 10 then (b'0' + n) ∷ [] else more

-- %0wd
abbrev pub padded : ℕ → ℕ → List ℕ
padded w n = let s = digits 10 n in replicate (w - length s) b'0' ++ s

-- %0wd of an int: the sign counts as one of the places.
abbrev pub padded_int : ℕ → ℤ → List ℕ
padded_int w (pos n) = padded w n
padded_int w (negsuc n) = b'-' ∷ padded (w - 1) (suc n)

-- ".cnfl-"
abbrev pub cnfl : List ℕ
cnfl = b'.' ∷ b'c' ∷ b'n' ∷ b'f' ∷ b'l' ∷ b'-' ∷ []

-- ".sync-conflict-"
abbrev pub sync_conflict : List ℕ
sync_conflict =
    b'.' ∷ b's' ∷ b'y' ∷ b'n' ∷ b'c' ∷ b'-' ∷ b'c' ∷ b'o' ∷ b'n' ∷ b'f' ∷ b'l' ∷ b'i' ∷ b'c' ∷ b't'
    ∷ b'-' ∷ []

abbrev pub suffix_of : Civil → List ℕ → Bool → List ℕ
suffix_of c tag true = cnfl ++ (padded 2 c.h ++ (padded 2 c.mi ++ padded 2 c.s))
suffix_of c tag false =
    sync_conflict
    ++ (padded_int 4 c.y
        ++ (padded 2 c.mo
            ++ (padded 2 c.d
                ++ (b'-'
                    ∷ (padded 2 c.h ++ (padded 2 c.mi ++ (padded 2 c.s ++ b'-' ∷ take 7 tag)))))))

-- strrchr, as an index.
unfoldable pub last_index : ℕ → List ℕ → Option ℕ
last_index c [] = none
last_index c (x ∷ s) = elim (last_index c s) [
  | some i ↦ some (suc i)
  | none ↦ if x == c then some 0 else none
]

abbrev pub after : Option ℕ → ℕ
after none = 0
after (some i) = i + 1

-- Where the final component starts.
abbrev pub base_of : List ℕ → ℕ
base_of name = after (last_index b'/' name)

abbrev pub stem_at : ℕ → ℕ → Option ℕ → ℕ
stem_at base nlen none = nlen
stem_at base nlen (some i) = base + i

-- Where its extension starts.
abbrev pub stem_of : List ℕ → ℕ
stem_of name =
    let base = base_of name in stem_at base (length name) (last_index b'.' (drop base name))

unfoldable pub sync_make_conflict_name : ℕ → List ℕ → ℤ → List ℕ → Bool → Option (List ℕ)
unfolding civil_from_unix digits last_index
sync_make_conflict_name cap name now_s tag compact =
    let suffix = suffix_of (civil_from_unix now_s) tag compact in
    if leb cap (length name + length suffix)
    then none
    else some (take (stem_of name) name ++ (suffix ++ drop (stem_of name) name))
