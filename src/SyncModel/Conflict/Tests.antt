-- ===== src/SyncModel/Conflict/Tests.antt =====
-- Names and times of the host tests, and the theorems at them.
use amisync.Common.{
  ℕ, ◌+◌, ◌≡◌, refl, List, [], ◌∷◌, ◌++◌, true, false, none, some, arith, length, if◌then◌else◌,
  leb, bytes_eq,
}
use amisync.Common.Int.{pos, negsuc}
use amisync.PathSafe.{path_name_safe, scan_name, component_ok}
use amisync.SyncModel.Conflict.{
  civil_from_unix, digits, last_index, suffix_of, sync_make_conflict_name,
}
use amisync.SyncModel.Conflict.Contained.{sync_make_conflict_name-path_name_safe}
use amisync.SyncModel.Conflict.Extension.{sync_make_conflict_name_lem}
use amisync.SyncModel.Conflict.Calendar.{IsCivil, civil_from_unix-IsCivil}

abbrev report : List ℕ
report =
    b'd' ∷ b'i' ∷ b'r' ∷ b'/' ∷ b'r' ∷ b'e' ∷ b'p' ∷ b'o' ∷ b'r' ∷ b't' ∷ b'.' ∷ b't' ∷ b'x' ∷ b't'
    ∷ []

abbrev short_tag : List ℕ
short_tag = b'P' ∷ b'5' ∷ b'6' ∷ b'I' ∷ b'O' ∷ b'I' ∷ b'7' ∷ []

-- dir/report.cnfl-123456.txt
abbrev compact_name : List ℕ
compact_name =
    b'd' ∷ b'i' ∷ b'r' ∷ b'/' ∷ b'r' ∷ b'e' ∷ b'p' ∷ b'o' ∷ b'r' ∷ b't' ∷ b'.' ∷ b'c' ∷ b'n' ∷ b'f'
    ∷ b'l' ∷ b'-' ∷ b'1' ∷ b'2' ∷ b'3' ∷ b'4' ∷ b'5' ∷ b'6' ∷ b'.' ∷ b't' ∷ b'x' ∷ b't' ∷ []

-- v1.0/notes: the dot of a directory is no extension; a long name is refused.
names :
    (sync_make_conflict_name 256 report (pos 1784291696) short_tag true ≡ some compact_name)
    × (sync_make_conflict_name 256 report (pos 1784291696) short_tag false
        ≡ some (
            b'd' ∷ b'i' ∷ b'r' ∷ b'/' ∷ b'r' ∷ b'e' ∷ b'p' ∷ b'o' ∷ b'r' ∷ b't' ∷ b'.' ∷ b's' ∷ b'y'
            ∷ b'n' ∷ b'c' ∷ b'-' ∷ b'c' ∷ b'o' ∷ b'n' ∷ b'f' ∷ b'l' ∷ b'i' ∷ b'c' ∷ b't' ∷ b'-'
            ∷ b'2' ∷ b'0' ∷ b'2' ∷ b'6' ∷ b'0' ∷ b'7' ∷ b'1' ∷ b'7' ∷ b'-' ∷ b'1' ∷ b'2' ∷ b'3'
            ∷ b'4' ∷ b'5' ∷ b'6' ∷ b'-' ∷ b'P' ∷ b'5' ∷ b'6' ∷ b'I' ∷ b'O' ∷ b'I' ∷ b'7' ∷ b'.'
            ∷ b't' ∷ b'x' ∷ b't' ∷ []))
    × (sync_make_conflict_name 256
          (b'v' ∷ b'1' ∷ b'.' ∷ b'0' ∷ b'/' ∷ b'n' ∷ b'o' ∷ b't' ∷ b'e' ∷ b's' ∷ [])
          (pos 1784291696)
          short_tag
          true
        ≡ some (
            b'v' ∷ b'1' ∷ b'.' ∷ b'0' ∷ b'/' ∷ b'n' ∷ b'o' ∷ b't' ∷ b'e' ∷ b's' ∷ b'.' ∷ b'c' ∷ b'n'
            ∷ b'f' ∷ b'l' ∷ b'-' ∷ b'1' ∷ b'2' ∷ b'3' ∷ b'4' ∷ b'5' ∷ b'6' ∷ []))
    × (sync_make_conflict_name 24 report (pos 1784291696) short_tag false ≡ none)
unfolding sync_make_conflict_name civil_from_unix digits last_index
names = (refl, refl, refl, refl)

-- The last second of 1969; the first of the year before the year 0; a year that an int does not hold.
early_times :
    (civil_from_unix (negsuc 0) ≡ record { y = pos 1969; mo = 12; d = 31; h = 23; mi = 59; s = 59 })
    × (civil_from_unix (negsuc 62198755199)
        ≡ record { y = negsuc 0; mo = 1; d = 1; h = 0; mi = 0; s = 0 })
    × (civil_from_unix (pos 67767976233532800)
        ≡ record { y = negsuc 2147483647; mo = 1; d = 1; h = 0; mi = 0; s = 0 })
unfolding civil_from_unix
early_times = (refl, refl, refl)

report_safe : path_name_safe (some report) ≡ true
unfolding path_name_safe scan_name component_ok bytes_eq
report_safe = refl

sync_make_conflict_name-path_name_safe_example : path_name_safe (some compact_name) ≡ true
sync_make_conflict_name-path_name_safe_example =
    sync_make_conflict_name-path_name_safe 256 report (pos 1784291696) short_tag true compact_name
      report_safe (ground arith) names.0

sync_make_conflict_name_lem_example :
    sync_make_conflict_name 256 report (pos 1784291696) short_tag true ≡ (
      if leb 256
        (length report + length (suffix_of (civil_from_unix (pos 1784291696)) short_tag true))
      then none
      else some (
          (b'd' ∷ b'i' ∷ b'r' ∷ b'/' ∷ b'r' ∷ b'e' ∷ b'p' ∷ b'o' ∷ b'r' ∷ b't' ∷ [])
          ++ (suffix_of (civil_from_unix (pos 1784291696)) short_tag true
              ++ b'.' ∷ b't' ∷ b'x' ∷ b't' ∷ [])))
sync_make_conflict_name_lem_example =
    sync_make_conflict_name_lem 256 (some (b'd' ∷ b'i' ∷ b'r' ∷ []))
      (b'r' ∷ b'e' ∷ b'p' ∷ b'o' ∷ b'r' ∷ b't' ∷ []) (some (b't' ∷ b'x' ∷ b't' ∷ []))
      (pos 1784291696) short_tag true (ground arith)

civil_from_unix-IsCivil_example : IsCivil 951854402 (civil_from_unix (pos 951854402))
civil_from_unix-IsCivil_example = civil_from_unix-IsCivil 951854402 (omega arith)
