-- ===== src/Ignore.antt =====
-- src/ignore.c: the patterns of a .stignore file, how they are read, and which names they ignore. The
-- text has no NUL. The loader of an `#include` is a parameter; NULL is `none`.
pub mod Glob
pub mod First
pub mod Parsed
pub mod Include
pub mod Loaded
mod Tests
use amisync.Common.{
  ℕ, zero, suc, ◌+◌, ◌-◌, Bool, true, false, ◌&&◌, ◌||◌, not, Option, none, some, List, [], ◌∷◌,
  ◌++◌, length, take, drop, if◌then◌else◌, ltb, leb, ◌==◌, bytes_eq,
}
use amisync.Ignore.Glob.{glob_match}

abbrev pub ignore_max_patterns : ℕ
ignore_max_patterns = 48

abbrev pub ignore_pattern_max : ℕ
ignore_pattern_max = 128

abbrev pub ignore_path_max : ℕ
ignore_path_max = 384

pub record IgnorePattern : Type 0 where
  pub glob : List ℕ
  pub negate : Bool
  pub has_slash : Bool

-- pats holds the first n patterns.
pub record IgnoreSet : Type 0 where
  pub pats : List IgnorePattern
  pub dropped : ℕ

-- s is the prefix of the path.
unfoldable pub glob_match_prefix : List ℕ → List ℕ → Bool
glob_match_prefix glob s = if ltb (ignore_path_max - 1) (length s) then false else glob_match glob s

-- The loop over the path, with the part before p.
unfoldable pub ancestor_loop : List ℕ → List ℕ → List ℕ → Bool
unfolding glob_match_prefix
ancestor_loop glob front [] = false
ancestor_loop glob front (c ∷ p) =
    ((c == b'/') && glob_match_prefix glob front) || ancestor_loop glob (front ++ c ∷ []) p

unfoldable pub match_path : List ℕ → List ℕ → Bool
unfolding ancestor_loop
match_path glob path = glob_match glob path || ancestor_loop glob [] path

-- The loop over the path, with the segment up to p.
unfoldable pub segment_loop : List ℕ → List ℕ → List ℕ → Bool
unfolding glob_match_prefix
segment_loop glob seg [] = glob_match_prefix glob seg
segment_loop glob seg (c ∷ p) =
    let next = segment_loop glob [] p in
    let longer = segment_loop glob (seg ++ c ∷ []) p in
    if c == b'/' then (if glob_match_prefix glob seg then true else next) else longer

unfoldable pub match_segment : List ℕ → List ℕ → Bool
unfolding segment_loop
match_segment glob path = segment_loop glob [] path

unfoldable pub hits : IgnorePattern → List ℕ → Bool
unfolding match_path match_segment
hits pat relpath =
    if pat.has_slash then match_path pat.glob relpath else match_segment pat.glob relpath

unfoldable pub match_loop : List IgnorePattern → List ℕ → Bool
unfolding hits
match_loop [] relpath = false
match_loop (pat ∷ pats) relpath =
    let rest = match_loop pats relpath in
    if hits pat relpath then (if pat.negate then false else true) else rest

unfoldable pub ignore_match : IgnoreSet → List ℕ → Bool
unfolding match_loop
ignore_match set relpath = match_loop set.pats relpath

abbrev pub ignore_clear : IgnoreSet
ignore_clear = record { pats = []; dropped = 0 }

-- A '\r' at the end of a line.
unfoldable pub trim_cr : List ℕ → List ℕ
trim_cr [] = []
trim_cr (c ∷ []) = if c == 13 then [] else c ∷ []
trim_cr (c ∷ d ∷ s) = c ∷ trim_cr (d ∷ s)

-- "#include"
abbrev pub inc_kw : List ℕ
inc_kw = b'#' ∷ b'i' ∷ b'n' ∷ b'c' ∷ b'l' ∷ b'u' ∷ b'd' ∷ b'e' ∷ []

abbrev pub is_blank : ℕ → Bool
is_blank c = (c == b' ') || (c == 9)

unfoldable pub skip_blanks : List ℕ → List ℕ
skip_blanks [] = []
skip_blanks (c ∷ s) = let rest = skip_blanks s in if is_blank c then rest else c ∷ s

abbrev pub starts_blank : List ℕ → Bool
starts_blank [] = false
starts_blank (c ∷ s) = is_blank c

abbrev pub run_include : (List ℕ → IgnoreSet → IgnoreSet) → IgnoreSet → List ℕ → IgnoreSet
run_include inc set name =
    if ltb 0 (length name) && ltb (length name) ignore_pattern_max then inc name set else set

-- A line that starts with '#'.
unfoldable pub directive : Option (List ℕ → IgnoreSet → IgnoreSet) → IgnoreSet → List ℕ → IgnoreSet
unfolding bytes_eq skip_blanks
directive none set line = set
directive (some inc) set line =
    if ltb 9 (length line) && (bytes_eq (take 8 line) inc_kw && starts_blank (drop 8 line))
    then run_include inc set (skip_blanks (drop 8 line))
    else set

-- The (?x) groups.
unfoldable pub skip_flags : List ℕ → List ℕ
skip_flags (a ∷ b ∷ c ∷ d ∷ s) =
    let rest = skip_flags s in
    if (a == b'(') && ((b == b'?') && (d == b')')) then rest else a ∷ b ∷ c ∷ d ∷ s
skip_flags s = s

abbrev pub leads : ℕ → List ℕ → Bool
leads c [] = false
leads c (x ∷ s) = x == c

abbrev pub less_first : Bool → List ℕ → List ℕ
less_first b [] = []
less_first b (x ∷ s) = if b then s else x ∷ s

unfoldable pub has_byte : ℕ → List ℕ → Bool
has_byte c [] = false
has_byte c (x ∷ s) = (x == c) || has_byte c s

unfoldable pub add_pattern : IgnoreSet → List ℕ → Bool → Bool → IgnoreSet
unfolding has_byte
add_pattern set glob negate rooted =
    if length glob == 0
    then set
    else if leb ignore_pattern_max (length glob) || leb ignore_max_patterns (length set.pats)
    then record set { dropped = set.dropped + 1 }
    else record set {
      pats =
          set.pats
          ++ record { glob = glob; negate = negate; has_slash = rooted || has_byte b'/' glob } ∷ [];
    }

-- Behind '!' and the flags.
unfoldable pub pattern_line : IgnoreSet → List ℕ → IgnoreSet
unfolding skip_flags add_pattern
pattern_line set line =
    let negate = leads b'!' line in
    let body = skip_flags (less_first negate line) in
    let rooted = leads b'/' body in add_pattern set (less_first rooted body) negate rooted

abbrev pub is_comment : List ℕ → Bool
is_comment (a ∷ b ∷ s) = (a == b'/') && (b == b'/')
is_comment s = false

-- The rest of parse_line, for a line without its end.
unfoldable pub read_line : Option (List ℕ → IgnoreSet → IgnoreSet) → IgnoreSet → List ℕ → IgnoreSet
unfolding directive pattern_line
read_line inc set line =
    if length line == 0
    then set
    else if is_comment line
    then set
    else if leads b'#' line
    then directive inc set line
    else pattern_line set line

unfoldable pub parse_line : Option (List ℕ → IgnoreSet → IgnoreSet) → IgnoreSet → List ℕ → IgnoreSet
unfolding trim_cr read_line
parse_line inc set line = read_line inc set (trim_cr line)

-- The loop over the text, with the line so far. A text that ends with a newline has an empty line here
-- that the code does not look at; it is blank and changes nothing.
unfoldable pub parse_loop :
    Option (List ℕ → IgnoreSet → IgnoreSet) → IgnoreSet → List ℕ → List ℕ → IgnoreSet
unfolding parse_line
parse_loop inc set line [] = parse_line inc set line
parse_loop inc set line (c ∷ text) =
    let set' = if c == 10 then parse_line inc set line else set in
    parse_loop inc set' (if c == 10 then [] else line ++ c ∷ []) text

unfoldable pub ignore_parse :
    Option (List ℕ → IgnoreSet → IgnoreSet) → IgnoreSet → List ℕ → IgnoreSet
unfolding parse_loop
ignore_parse inc set text = parse_loop inc set [] text
