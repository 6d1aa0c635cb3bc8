-- ===== src/Ignore/Tests.antt =====
-- Texts of the host tests, and the theorems at concrete patterns and names.
use amisync.Common.{
  ℕ, ◌≤◌, ◌<◌, ◌≡◌, ◌↔◌, refl, Bool, true, false, none, some, List, [], ◌∷◌, ◌++◌, arith, take,
}
use amisync.Ignore.Glob.{members_loop, match_class, star_loop, glob_loop, glob_rec, glob_match}
use amisync.Ignore.Glob.Items.{items, Matches}
use amisync.Ignore.Glob.Fuel.{glob_loop-fuel}
use amisync.Ignore.Glob.Decides.{glob_rec-Matches}
use amisync.Ignore.{
  IgnorePattern, IgnoreSet, glob_match_prefix, ancestor_loop, match_path, segment_loop,
  match_segment, hits, match_loop, ignore_match, ignore_clear, trim_cr, directive, skip_flags,
  has_byte, add_pattern, pattern_line, read_line, parse_line, parse_loop, ignore_parse,
}
use amisync.Ignore.First.{Ignores, ignore_match_iff}
use amisync.Ignore.Parsed.{Extends}
use amisync.Ignore.Include.{Dos, folder_include, folder_load_ignores}
use amisync.Ignore.Loaded.{IsLoaded, ignore_parse-folder_include}
use amisync.Common.Int.{pos}

ignores : List ℕ → List ℕ → Bool
ignores text path = ignore_match (ignore_parse none ignore_clear text) path

-- A name anywhere; a rooted directory; a double star; a negation; a flag group and the case; a class.
texts :
    (ignores
        (b'*' ∷ b'.' ∷ b't' ∷ b'm' ∷ b'p' ∷ [])
        (b'x' ∷ b'/' ∷ b'z' ∷ b'.' ∷ b't' ∷ b'm' ∷ b'p' ∷ [])
      ≡ true)
    × (ignores
          (b'/' ∷ b's' ∷ b'e' ∷ b'c' ∷ b'r' ∷ b'e' ∷ b't' ∷ [])
          (b's' ∷ b'e' ∷ b'c' ∷ b'r' ∷ b'e' ∷ b't' ∷ b'/' ∷ b'a' ∷ [])
        ≡ true)
    × (ignores
          (b'/' ∷ b's' ∷ b'e' ∷ b'c' ∷ b'r' ∷ b'e' ∷ b't' ∷ [])
          (b'a' ∷ b'/' ∷ b's' ∷ b'e' ∷ b'c' ∷ b'r' ∷ b'e' ∷ b't' ∷ [])
        ≡ false)
    × (ignores
          (b'l' ∷ b'o' ∷ b'g' ∷ b's' ∷ b'/' ∷ b'*' ∷ b'*' ∷ [])
          (b'l' ∷ b'o' ∷ b'g' ∷ b's' ∷ b'/' ∷ b'6' ∷ b'/' ∷ b'x' ∷ [])
        ≡ true)
    × (ignores
          (b'!' ∷ b'k' ∷ b'.' ∷ b't' ∷ b'm' ∷ b'p' ∷ 10 ∷ b'*' ∷ b'.' ∷ b't' ∷ b'm' ∷ b'p' ∷ [])
          (b'k' ∷ b'.' ∷ b't' ∷ b'm' ∷ b'p' ∷ [])
        ≡ false)
    × (ignores
          (b'(' ∷ b'?' ∷ b'i' ∷ b')' ∷ b'*' ∷ b'.' ∷ b'T' ∷ b'M' ∷ b'P' ∷ [])
          (b'P' ∷ b'.' ∷ b't' ∷ b'm' ∷ b'p' ∷ [])
        ≡ true)
    × (ignores
          (b'f' ∷ b'[' ∷ b'0' ∷ b'-' ∷ b'9' ∷ b']' ∷ b'.' ∷ b't' ∷ [])
          (b'f' ∷ b'7' ∷ b'.' ∷ b't' ∷ [])
        ≡ true)
    × (ignores (b'[' ∷ b'!' ∷ b'a' ∷ b'b' ∷ b']' ∷ b'x' ∷ []) (b'a' ∷ b'x' ∷ []) ≡ false)
    × (ignores (b'/' ∷ b'/' ∷ b' ' ∷ b'x' ∷ 10 ∷ 13 ∷ 10 ∷ b'y' ∷ []) (b'y' ∷ []) ≡ true)
unfolding ignores ignore_match match_loop hits match_path match_segment segment_loop ancestor_loop
    glob_match_prefix glob_match glob_rec glob_loop star_loop match_class members_loop ignore_parse
    parse_loop parse_line read_line pattern_line add_pattern skip_flags has_byte trim_cr directive
texts = (refl, refl, refl, refl, refl, refl, refl, refl, refl)

-- The budget runs out on a pattern of many stars, and the text is not taken.
exhausted :
    glob_rec
      (b'*' ∷ b'a' ∷ b'*' ∷ b'a' ∷ b'*' ∷ b'b' ∷ [])
      (b'a' ∷ b'a' ∷ b'a' ∷ b'a' ∷ b'a' ∷ b'a' ∷ [])
      20
    ≡ (false, 0)
unfolding glob_rec glob_loop star_loop
exhausted = refl

glob_rec-Matches_example :
    ((glob_rec (b'*' ∷ b'.' ∷ b'o' ∷ []) (b'm' ∷ b'.' ∷ b'o' ∷ []) 100).0 ≡ true
      → Matches (items (b'*' ∷ b'.' ∷ b'o' ∷ [])) (b'm' ∷ b'.' ∷ b'o' ∷ []))
    × (0 < (glob_rec (b'*' ∷ b'.' ∷ b'o' ∷ []) (b'm' ∷ b'.' ∷ b'o' ∷ []) 100).1
        → (glob_rec (b'*' ∷ b'.' ∷ b'o' ∷ []) (b'm' ∷ b'.' ∷ b'o' ∷ []) 100).0 ≡ false
        → ¬ Matches (items (b'*' ∷ b'.' ∷ b'o' ∷ [])) (b'm' ∷ b'.' ∷ b'o' ∷ []))
    × ((glob_rec (b'*' ∷ b'.' ∷ b'o' ∷ []) (b'm' ∷ b'.' ∷ b'o' ∷ []) 100).1 ≤ 100)
glob_rec-Matches_example = glob_rec-Matches (b'*' ∷ b'.' ∷ b'o' ∷ []) (b'm' ∷ b'.' ∷ b'o' ∷ []) 100

glob_loop-fuel_example :
    glob_loop (false, 0) 5 (b'*' ∷ b'.' ∷ b'o' ∷ []) (b'm' ∷ b'.' ∷ b'o' ∷ []) 100
    ≡ glob_loop (true, 7) 4 (b'*' ∷ b'.' ∷ b'o' ∷ []) (b'm' ∷ b'.' ∷ b'o' ∷ []) 100
glob_loop-fuel_example =
    glob_loop-fuel (false, 0) (true, 7) 5 4 (b'*' ∷ b'.' ∷ b'o' ∷ []) (b'm' ∷ b'.' ∷ b'o' ∷ []) 100
      (omega arith) (omega arith)

abbrev two_lines : IgnoreSet
two_lines = record {
  pats =
      record { glob = b'k' ∷ b'.' ∷ b't' ∷ b'm' ∷ b'p' ∷ []; negate = true; has_slash = false }
      ∷ record { glob = b'*' ∷ b'.' ∷ b't' ∷ b'm' ∷ b'p' ∷ []; negate = false; has_slash = false }
      ∷ [];
  dropped = 0;
}

ignore_match_iff_example :
    (ignore_match two_lines (b'a' ∷ b'/' ∷ b'd' ∷ b'.' ∷ b't' ∷ b'm' ∷ b'p' ∷ []) ≡ true)
    ↔ Ignores two_lines (b'a' ∷ b'/' ∷ b'd' ∷ b'.' ∷ b't' ∷ b'm' ∷ b'p' ∷ [])
ignore_match_iff_example =
    ignore_match_iff two_lines (b'a' ∷ b'/' ∷ b'd' ∷ b'.' ∷ b't' ∷ b'm' ∷ b'p' ∷ [])

-- A disk with one text: it wants z ignored, and includes itself as y.
abbrev own_text : List ℕ
own_text = b'z' ∷ 10 ∷ b'#' ∷ b'i' ∷ b'n' ∷ b'c' ∷ b'l' ∷ b'u' ∷ b'd' ∷ b'e' ∷ b' ' ∷ b'y' ∷ []

abbrev one_text : Dos
one_text = record {
  add_part = λ root name size. some (root ++ b'/' ∷ name);
  read = λ full size. some (take size own_text);
  lock = λ full. true;
  io_err = λ full. 0;
}

abbrev z_rule : IgnorePattern
z_rule = record { glob = b'z' ∷ []; negate = false; has_slash = false }

-- The text itself and four includes of it.
loads_five :
    folder_load_ignores one_text (b'W' ∷ b':' ∷ [])
    ≡ (record { pats = z_rule ∷ z_rule ∷ z_rule ∷ z_rule ∷ z_rule ∷ []; dropped = 0 }, pos 1)
unfolding folder_load_ignores ignore_parse parse_loop parse_line read_line pattern_line add_pattern
    skip_flags has_byte trim_cr directive
loads_five = refl

ignore_parse-folder_include_example :
    Extends two_lines
      (ignore_parse (some (folder_include one_text (b'W' ∷ b':' ∷ []) 4)) two_lines own_text)
    × IsLoaded (folder_load_ignores one_text (b'W' ∷ b':' ∷ []))
ignore_parse-folder_include_example =
    ignore_parse-folder_include one_text (b'W' ∷ b':' ∷ []) 4 two_lines own_text
