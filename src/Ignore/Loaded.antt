-- ===== src/Ignore/Loaded.antt =====
-- What loading the rules of a folder gives, whatever is in its files.
use amisync.Common.{
  ℕ, zero, suc, ◌≡◌, inl, inr, refl, ◌≢◌, Bool-cases, Option, none, some, List, length, arith, ltb,
}
use amisync.Common.Int.{ℤ, pos}
use amisync.Ignore.{IgnoreSet, ignore_clear, ignore_parse}
use amisync.Ignore.Parsed.{Extends, HoldsPatterns, Extends-refl, ignore_parse-Loads}
use amisync.Ignore.Include.{
  Dos, full_max, stignore, include_depth, join_full, read_ignore_file, parse_read, include_at,
  folder_include, loaded, load_at, folder_load_ignores,
}

parse_read-Extends :
    (inc : List ℕ → IgnoreSet → IgnoreSet) (set : IgnoreSet) (o : Option (List ℕ))
    → ((name : List ℕ) (s : IgnoreSet) → Extends s (inc name s))
    → Extends set (parse_read inc set o)
parse_read-Extends inc set none h = Extends-refl set
parse_read-Extends inc set (some text) h = elim (Bool-cases (ltb 0 (length text))) [
  | inl e ↦ rw e (ignore_parse-Loads (some inc) set text h)
  | inr e ↦ rw e (Extends-refl set)
]

include_at-Extends :
    (dos : Dos) (inc : List ℕ → IgnoreSet → IgnoreSet) (set : IgnoreSet) (o : Option (List ℕ))
    → ((name : List ℕ) (s : IgnoreSet) → Extends s (inc name s))
    → Extends set (include_at dos inc set o)
include_at-Extends dos inc set none h = Extends-refl set
include_at-Extends dos inc set (some full) h =
    parse_read-Extends inc set (read_ignore_file dos full) h

pub folder_include-Extends :
    (dos : Dos) (root : List ℕ) (levels : ℕ) (name : List ℕ) (set : IgnoreSet)
    → Extends set (folder_include dos root levels name set)
unfolding folder_include
folder_include-Extends dos root zero name set = Extends-refl set
folder_include-Extends dos root (suc levels) name set =
    include_at-Extends dos (folder_include dos root levels) set (join_full dos full_max root name)
      (folder_include-Extends dos root levels)

clear-HoldsPatterns : HoldsPatterns ignore_clear
clear-HoldsPatterns = (omega arith, tt)

-- The set of a folder is well formed, and it is the empty one unless rules were read.
abbrev pub IsLoaded : IgnoreSet × ℤ → Type 0
IsLoaded r = HoldsPatterns r.0 × (r.1 ≢ pos 1 → r.0 ≡ ignore_clear)

loaded-IsLoaded :
    (dos : Dos) (path : List ℕ) (inc : List ℕ → IgnoreSet → IgnoreSet) (o : Option (List ℕ))
    → ((name : List ℕ) (s : IgnoreSet) → Extends s (inc name s))
    → IsLoaded (loaded dos path inc o)
loaded-IsLoaded dos path inc none h = (clear-HoldsPatterns, λ e. refl)
loaded-IsLoaded dos path inc (some text) h = (
  (parse_read-Extends inc ignore_clear (some text) h).0 clear-HoldsPatterns,
  λ e. absurd (e refl),
)

load_at-IsLoaded :
    (dos : Dos) (path : List ℕ) (inc : List ℕ → IgnoreSet → IgnoreSet) (o : Option (List ℕ))
    → ((name : List ℕ) (s : IgnoreSet) → Extends s (inc name s))
    → IsLoaded (load_at dos path inc o)
load_at-IsLoaded dos path inc none h = (clear-HoldsPatterns, λ e. refl)
load_at-IsLoaded dos path inc (some full) h =
    loaded-IsLoaded dos path inc (read_ignore_file dos full) h

-- Reading a text with the loader of src/folder.c, at any depth of inclusion and whatever the included
-- files hold, keeps a well-formed set well formed: at most 48 patterns, each non-empty and shorter than
-- its buffer, and without a slash where it is matched by components. The patterns that the set had stay
-- the first ones, in their order, and the count of dropped lines does not shrink. What
-- folder_load_ignores makes of a folder is well formed, and empty unless it returns 1.
pub ignore_parse-folder_include :
    (dos : Dos) (root : List ℕ) (levels : ℕ) (set : IgnoreSet) (text : List ℕ)
    → Extends set (ignore_parse (some (folder_include dos root levels)) set text)
      × IsLoaded (folder_load_ignores dos root)
unfolding folder_load_ignores
ignore_parse-folder_include dos root levels set text = (
  ignore_parse-Loads (some (folder_include dos root levels)) set text
      (folder_include-Extends dos root levels),
  load_at-IsLoaded dos root (folder_include dos root include_depth)
      (join_full dos full_max root stignore) (folder_include-Extends dos root include_depth),
)
