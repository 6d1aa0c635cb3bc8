-- ===== src/Ignore/Include.antt =====
-- src/folder.c: the loader of `#include` lines, and folder_load_ignores that starts it. dos.library is a
-- parameter; the warnings in the log are left out, and the texts have no NUL.
use amisync.Common.{
  ℕ, zero, suc, ◌+◌, ◌||◌, Bool, true, Option, none, some, List, [], ◌∷◌, length, if◌then◌else◌,
  ltb, leb, not, ◌==◌,
}
use amisync.Common.Int.{ℤ, pos, negsuc}
use amisync.Bep.{bep_path_max}
use amisync.PathSafe.Local.{name_to_local}
use amisync.Ignore.{IgnoreSet, ignore_clear, ignore_parse}

-- What the file calls of dos.library: AddPart on a buffer of a size, `none` where the parts do not fit;
-- Open, a Read of at most so many bytes, and Close, `none` where the first or the second fails; Lock
-- with UnLock; and IoErr after a Lock that failed.
pub record Dos : Type 0 where
  pub add_part : List ℕ → List ℕ → ℕ → Option (List ℕ)
  pub read : List ℕ → ℕ → Option (List ℕ)
  pub lock : List ℕ → Bool
  pub io_err : List ℕ → ℕ

abbrev pub full_max : ℕ
full_max = 512

abbrev pub amiga_path_max : ℕ
amiga_path_max = 254

abbrev pub ignore_file_max : ℕ
ignore_file_max = 8192

abbrev pub include_depth : ℕ
include_depth = 4

abbrev pub capped : ℕ → ℕ
capped size = if ltb (amiga_path_max + 1) size then amiga_path_max + 1 else size

unfoldable pub join_full : Dos → ℕ → List ℕ → List ℕ → Option (List ℕ)
join_full dos size root name =
    if leb (capped size) (length root) then none else dos.add_part root name (capped size)

-- The bytes that went into the buffer; `none` is -1.
abbrev pub read_ignore_file : Dos → List ℕ → Option (List ℕ)
read_ignore_file dos full = dos.read full ignore_file_max

-- if (len > 0) ignore_parse(set, buf, len, folder_include, &ctx);
abbrev pub parse_read : (List ℕ → IgnoreSet → IgnoreSet) → IgnoreSet → Option (List ℕ) → IgnoreSet
parse_read inc set none = set
parse_read inc set (some text) =
    if ltb 0 (length text) then ignore_parse (some inc) set text else set

abbrev pub include_at :
    Dos → (List ℕ → IgnoreSet → IgnoreSet) → IgnoreSet → Option (List ℕ) → IgnoreSet
include_at dos inc set none = set
include_at dos inc set (some full) = parse_read inc set (read_ignore_file dos full)

-- `levels` is 4 less the depth, so a depth of 4 or more is 0.
unfoldable pub folder_include : Dos → List ℕ → ℕ → List ℕ → IgnoreSet → IgnoreSet
unfolding join_full
folder_include dos root zero name set = set
folder_include dos root (suc levels) name set =
    include_at dos (λ name' set'. folder_include dos root levels name' set') set
      (join_full dos full_max root name)

abbrev pub error_object_not_found : ℕ
error_object_not_found = 205

-- ".stignore"
abbrev pub stignore : List ℕ
stignore = b'.' ∷ b's' ∷ b't' ∷ b'i' ∷ b'g' ∷ b'n' ∷ b'o' ∷ b'r' ∷ b'e' ∷ []

-- What to do when folder_exists cannot ask is to assume that the file is there.
abbrev pub exists_at : Dos → Option (List ℕ) → Bool
exists_at dos none = true
exists_at dos (some full) = dos.lock full || not (dos.io_err full == error_object_not_found)

abbrev pub full_of_local : Dos → List ℕ → Option (List ℕ) → Option (List ℕ)
full_of_local dos path none = none
full_of_local dos path (some lname) = join_full dos full_max path lname

unfoldable pub folder_exists : Dos → List ℕ → List ℕ → Bool
unfolding join_full name_to_local
folder_exists dos path name =
    exists_at dos (full_of_local dos path (name_to_local bep_path_max name))

abbrev pub loaded :
    Dos → List ℕ → (List ℕ → IgnoreSet → IgnoreSet) → Option (List ℕ) → IgnoreSet × ℤ
loaded dos path inc none =
    (ignore_clear, if folder_exists dos path stignore then negsuc 0 else pos 0)
loaded dos path inc (some text) = (parse_read inc ignore_clear (some text), pos 1)

abbrev pub load_at :
    Dos → List ℕ → (List ℕ → IgnoreSet → IgnoreSet) → Option (List ℕ) → IgnoreSet × ℤ
load_at dos path inc none = (ignore_clear, pos 0)
load_at dos path inc (some full) = loaded dos path inc (read_ignore_file dos full)

-- The set that the caller gets, and the answer: 1, 0 for a folder without rules, -1 for rules that
-- could not be read.
unfoldable pub folder_load_ignores : Dos → List ℕ → IgnoreSet × ℤ
unfolding folder_include folder_exists join_full
folder_load_ignores dos path =
    load_at dos path (folder_include dos path include_depth) (join_full dos full_max path stignore)
