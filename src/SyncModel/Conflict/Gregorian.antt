-- ===== src/SyncModel/Conflict/Gregorian.antt =====
-- The Gregorian calendar, and the dates of the days of a year that starts in March.
use amisync.Common.{
  ℕ, ◌+◌, ◌*◌, ◌-◌, ◌%◌, ◌/◌, ◌≤◌, ◌<◌, ◌≡◌, refl, Bool, true, ◌&&◌, ◌||◌, not, if◌then◌else◌, ltb,
  ◌==◌, arith,
}

abbrev pub is_leap : ℕ → Bool
is_leap y = (y % 4 == 0) && (not (y % 100 == 0) || (y % 400 == 0))

abbrev pub month_length : ℕ → ℕ → ℕ
month_length y mo =
    if mo == 2
    then (if is_leap y then 29 else 28)
    else if (mo == 4) || ((mo == 6) || ((mo == 9) || (mo == 11)))
    then 30
    else 31

-- The days of a common year before a month.
abbrev pub common_before : ℕ → ℕ
common_before mo =
    if mo == 1
    then 0
    else if mo == 2
    then 31
    else if mo == 3
    then 59
    else if mo == 4
    then 90
    else if mo == 5
    then 120
    else if mo == 6
    then 151
    else if mo == 7
    then 181
    else if mo == 8
    then 212
    else if mo == 9
    then 243
    else if mo == 10
    then 273
    else if mo == 11
    then 304
    else 334

abbrev pub days_before : ℕ → ℕ → ℕ
days_before y mo = common_before mo + (if ltb 2 mo && is_leap y then 1 else 0)

-- 1 for the first of January of the year 1.
abbrev pub day_count : ℕ → ℕ → ℕ → ℕ
day_count y mo d =
    let before = y - 1 in
    365 * before + before / 4 - before / 100 + before / 400 + days_before y mo + d

abbrev pub IsDate : ℕ → ℕ → ℕ → Type 0
IsDate y mo d = (1 ≤ y) × (1 ≤ mo) × (mo ≤ 12) × (1 ≤ d) × (d ≤ month_length y mo)

pub yoe_bounds :
    (doe yoe : ℕ)
    → doe < 146097
    → yoe ≡ (doe - doe / 1460 + doe / 36524 - doe / 146096) / 365
    → (365 * yoe + yoe / 4 - yoe / 100 ≤ doe)
      × (yoe < 400)
      × (doe < 365 * (yoe + 1) + (yoe + 1) / 4 - (yoe + 1) / 100 + (yoe + 1) / 400)
yoe_bounds doe yoe h e = (omega arith, omega arith, omega arith)

pub month_bounds :
    (doy mp : ℕ)
    → doy < 366
    → mp ≡ (5 * doy + 2) / 153
    → (mp < 12) × ((153 * mp + 2) / 5 ≤ doy) × (doy < (153 * (mp + 1) + 2) / 5)
month_bounds doy mp h e = (omega arith, omega arith, omega arith)

-- The leap days up to a year.
abbrev pub leaps : ℕ → ℕ
leaps y = y / 4 - y / 100 + y / 400

pub leaps-step : (y : ℕ) → leaps (y + 1) ≡ leaps y + (if is_leap (y + 1) then 1 else 0)
leaps-step y = ground arith

pub leaps-era : (era yoe : ℕ) → yoe < 400 → leaps (yoe + era * 400) ≡ 97 * era + yoe / 4 - yoe / 100
leaps-era era yoe h = omega arith

-- The months from March to December.
pub late_offset : (mp : ℕ) → mp < 10 → common_before (mp + 3) ≡ 59 + (153 * mp + 2) / 5
late_offset mp h = ground arith

pub late_length :
    (y mp : ℕ) → mp < 10 → (153 * (mp + 1) + 2) / 5 - (153 * mp + 2) / 5 ≤ month_length y (mp + 3)
late_length y mp h = ground arith

abbrev pub leap_day : ℕ → ℕ
leap_day y = if is_leap y then 1 else 0

pub late_before :
    (y mp : ℕ) → mp < 10 → days_before y (mp + 3) ≡ 59 + (153 * mp + 2) / 5 + leap_day y
late_before y mp h =
    let e : ltb 2 (mp + 3) ≡ true = ground arith in let o = late_offset mp h in rw (e, o) refl

pub late-IsDate :
    (z doy mp : ℕ)
    → mp < 10
    → (153 * mp + 2) / 5 ≤ doy
    → doy < (153 * (mp + 1) + 2) / 5
    → IsDate (z + 1) (mp + 3) (doy - (153 * mp + 2) / 5 + 1)
      × (day_count (z + 1) (mp + 3) (doy - (153 * mp + 2) / 5 + 1) + 305
          ≡ 365 * (z + 1) + leaps (z + 1) + doy)
late-IsDate z doy mp h lo hi =
    let b = late_before (z + 1) mp h in
    let l = late_length (z + 1) mp h in
    let s = leaps-step z in
    let p : z + 1 - 1 ≡ z = omega arith in
    let q : z / 100 ≤ z / 4 = omega arith in
    (
      (omega arith, omega arith, omega arith, omega arith, omega arith),
      rw (b, p) (omega (arith, s)),
    )

pub early_before :
    (y mp : ℕ) → 10 ≤ mp → mp < 12 → days_before y (mp - 9) + 306 ≡ (153 * mp + 2) / 5
early_before y mp h k = ground arith

pub early_length :
    (y mp doy : ℕ)
    → 10 ≤ mp
    → mp < 12
    → (153 * mp + 2) / 5 ≤ doy
    → doy < (153 * (mp + 1) + 2) / 5
    → doy < 365 + leap_day y
    → doy - (153 * mp + 2) / 5 + 1 ≤ month_length y (mp - 9)
early_length y mp doy h k lo hi m = ground arith

pub early-IsDate :
    (z doy mp : ℕ)
    → 10 ≤ mp
    → mp < 12
    → (153 * mp + 2) / 5 ≤ doy
    → doy < (153 * (mp + 1) + 2) / 5
    → doy < 365 + leap_day (z + 1)
    → IsDate (z + 1) (mp - 9) (doy - (153 * mp + 2) / 5 + 1)
      × (day_count (z + 1) (mp - 9) (doy - (153 * mp + 2) / 5 + 1) + 305 ≡ 365 * z + leaps z + doy)
early-IsDate z doy mp h k lo hi m =
    let b = early_before (z + 1) mp h k in
    let l = early_length (z + 1) mp doy h k lo hi m in
    let p : z + 1 - 1 ≡ z = omega arith in
    let q : z / 100 ≤ z / 4 = omega arith in
    ((omega arith, omega arith, omega arith, omega arith, l), rw p (omega (arith, b)))
