-- ===== src/SyncModel/Conflict/Calendar.antt =====
-- civil_from_unix against the Gregorian calendar.
use amisync.Common.{
  ℕ, ◌+◌, ◌*◌, ◌-◌, ◌%◌, ◌/◌, ◌≤◌, ◌<◌, ◌≡◌, refl, ap, ◌∙◌, if◌then◌else◌, ltb, leb, arith,
}
use native.Mathlib.Decide.{dec_lt}
use amisync.Common.Int.{pos, int32_of}
use amisync.SyncModel.Conflict.{Civil, civil_from_unix}
use amisync.SyncModel.Conflict.Gregorian.{
  day_count, IsDate, yoe_bounds, month_bounds, leaps, leaps-era, leap_day, late-IsDate,
  early-IsDate,
}

-- The date of a day of a March year of an era.
abbrev Counted : ℕ → ℕ → ℕ → ℕ → Type 0
Counted y mo d n = IsDate y mo d × (day_count y mo d + 305 ≡ n)

leap_day-era :
    (era yoe : ℕ)
    → yoe < 400
    → leap_day (yoe + era * 400 + 1) + (yoe / 4 - yoe / 100)
      ≡ (yoe + 1) / 4 - (yoe + 1) / 100 + (yoe + 1) / 400
leap_day-era era yoe h = ground arith

counted :
    (era yoe doy mp mo y d : ℕ)
    → 1 ≤ era
    → yoe < 400
    → doy < 365 + leap_day (yoe + era * 400 + 1)
    → mp < 12
    → (153 * mp + 2) / 5 ≤ doy
    → doy < (153 * (mp + 1) + 2) / 5
    → mo ≡ (if ltb mp 10 then mp + 3 else mp - 9)
    → y ≡ yoe + era * 400 + (if leb mo 2 then 1 else 0)
    → d ≡ doy - (153 * mp + 2) / 5 + 1
    → Counted y mo d (era * 146097 + (365 * yoe + yoe / 4 - yoe / 100) + doy)
counted era yoe doy mp mo y d he hy hd hm lo hi em ey ed = elim (dec_lt mp 10) [
  | yes h ↦
      let m : mo ≡ mp + 3 = ground arith in
      let z = yoe + era * 400 - 1 in
      let e : y ≡ z + 1 = ground arith in
      let (ok, n) = late-IsDate z doy mp h lo hi in
      let le = leaps-era era yoe hy in
      let w : z + 1 ≡ yoe + era * 400 = omega arith in
      let le2 : leaps (z + 1) ≡ 97 * era + yoe / 4 - yoe / 100 = ap (λ (x : ℕ). leaps x) w ∙ le in
      rw (m, e, ed) (ok, omega (arith, n, le2))
  | no h ↦
      let m : mo ≡ mp - 9 = ground arith in
      let z = yoe + era * 400 in
      let e : y ≡ z + 1 = ground arith in
      let (ok, n) = early-IsDate z doy mp (omega arith) hm lo hi hd in
      let le = leaps-era era yoe hy in rw (m, e, ed) (ok, omega (arith, n, le))
]

leap_day_le : (y : ℕ) → leap_day y ≤ 1
leap_day_le y = ground arith

time_of_day :
    (rem : ℕ)
    → rem < 86400
    → (rem / 3600 < 24)
      × (rem % 3600 / 60 < 60)
      × (rem % 60 < 60)
      × (rem / 3600 * 3600 + rem % 3600 / 60 * 60 + rem % 60 ≡ rem)
time_of_day rem h = (omega arith, omega arith, omega arith, omega arith)

shifted_back : (n q : ℕ) → n + 305 ≡ q + 719468 → n ≡ q + 719163
shifted_back n q h = omega arith

doy_bound :
    (doe yoe doy l : ℕ)
    → doy ≡ doe - (365 * yoe + yoe / 4 - yoe / 100)
    → l + (yoe / 4 - yoe / 100) ≡ (yoe + 1) / 4 - (yoe + 1) / 100 + (yoe + 1) / 400
    → 365 * yoe + yoe / 4 - yoe / 100 ≤ doe
    → doe < 365 * (yoe + 1) + (yoe + 1) / 4 - (yoe + 1) / 100 + (yoe + 1) / 400
    → doy < 365 + l
doy_bound doe yoe doy l e k lo hi = omega arith

total :
    (n days era doe before doy : ℕ)
    → n + 305 ≡ era * 146097 + before + doy
    → doy ≡ doe - before
    → before ≤ doe
    → doe ≡ days - era * 146097
    → era ≡ days / 146097
    → n + 305 ≡ days
total n days era doe before doy h e k l m = omega arith

-- A day number is made into the date of that number.
dated :
    (days era doe yoe doy mp mo y d : ℕ)
    → 719468 ≤ days
    → era ≡ days / 146097
    → doe ≡ days - era * 146097
    → yoe ≡ (doe - doe / 1460 + doe / 36524 - doe / 146096) / 365
    → doy ≡ doe - (365 * yoe + yoe / 4 - yoe / 100)
    → mp ≡ (5 * doy + 2) / 153
    → mo ≡ (if ltb mp 10 then mp + 3 else mp - 9)
    → y ≡ yoe + era * 400 + (if leb mo 2 then 1 else 0)
    → d ≡ doy - (153 * mp + 2) / 5 + 1
    → Counted y mo d days
dated days era doe yoe doy mp mo y d h e1 e2 e3 e4 e5 e6 e7 e8 =
    let (below, y400, above) = yoe_bounds doe yoe (omega arith) e3 in
    let hd =
      doy_bound doe yoe doy (leap_day (yoe + era * 400 + 1)) e4 (leap_day-era era yoe y400) below
        above in
    let one : leap_day (yoe + era * 400 + 1) ≤ 1 = leap_day_le (yoe + era * 400 + 1) in
    let (m12, lo, hi) = month_bounds doy mp (omega (arith, hd, one)) e5 in
    let (ok, n) = counted era yoe doy mp mo y d (omega arith) y400 hd m12 lo hi e6 e7 e8 in
    (
      ok,
      total (day_count y mo d) days era doe (365 * yoe + yoe / 4 - yoe / 100) doy n e4 below e2 e1,
    )

-- The last day of the largest year of an int is the 784,351,576,776th after 1970-01-01.
year_fits :
    (y mo d q : ℕ)
    → IsDate y mo d
    → day_count y mo d ≡ q + 719163
    → q < 784351576777
    → y < 2147483648
year_fits y mo d q ok n h =
    let before : ℕ = y - 1 in
    let least : 365 * before + before / 4 - before / 100 + before / 400 + 1 ≤ day_count y mo d =
      omega arith in
    omega (arith, least)

int32_of-small : (y : ℕ) → y < 2147483648 → int32_of y ≡ pos y
int32_of-small y h = ground arith

-- A date and a time of day for a number of seconds since 1970-01-01.
abbrev pub IsCivil : ℕ → Civil → Type 0
IsCivil t c =
    (y : ℕ) × (c.y ≡ pos y)
    × IsDate y c.mo c.d
    × (day_count y c.mo c.d ≡ t / 86400 + day_count 1970 1 1)
    × (c.h < 24)
    × (c.mi < 60)
    × (c.s < 60)
    × (c.h * 3600 + c.mi * 60 + c.s ≡ t % 86400)

-- For a time from 1970 to the end of the year 2147483647, the largest of an int, the six fields are a
-- date of the Gregorian calendar and a time of day, and they are those of the time: the day is as many
-- days after 1970-01-01 as the time holds whole days, and the rest is the time of day.
pub civil_from_unix-IsCivil : (t : ℕ) → t < 67767976233532800 → IsCivil t (civil_from_unix (pos t))
unfolding civil_from_unix
civil_from_unix-IsCivil t small =
    let (ok, n) =
      dated (t / 86400 + 719468) _ _ _ _ _ _ _ _ (omega arith) refl (omega arith) refl refl refl
        refl (omega arith) refl in
    let (h, mi, s, all) = time_of_day (t % 86400) (omega arith) in
    let count = shifted_back _ (t / 86400) n in
    let fits = year_fits _ _ _ (t / 86400) ok count (omega arith) in
    (_, int32_of-small _ fits, ok, count, h, mi, s, all)
