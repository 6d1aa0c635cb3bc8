-- ===== src/PathSafe.antt =====
-- src/pathsafe.c: validation of names and texts that arrive from a peer. A NUL-terminated string is
-- the list of its bytes, none of them 0; a NULL pointer is `none`.
pub mod Components
pub mod Local
mod Tests
use amisync.Common.{
  ℕ, Bool, true, false, ◌&&◌, ◌||◌, not, Option, none, some, List, [], ◌∷◌, ◌++◌, length,
  if◌then◌else◌, ltb, ◌==◌, bytes_eq,
}

-- The tests on a component once its end is found: not empty, not "." and not "..".
unfoldable pub component_ok : List ℕ → Bool
component_ok seg =
    if length seg == 0
    then false
    else if bytes_eq seg (b'.' ∷ [])
    then false
    else if bytes_eq seg (b'.' ∷ b'.' ∷ [])
    then false
    else true

-- The loop over the bytes; `seg` is the component from `seg` up to `p`. A `/` ends a component and
-- starts the next one.
unfoldable pub scan_name : List ℕ → List ℕ → Bool
scan_name seg [] = component_ok seg
scan_name seg (c ∷ p) =
    let next = scan_name [] p in
    let more = scan_name (seg ++ c ∷ []) p in
    if c == b'/'
    then (if component_ok seg then next else false)
    else if (c == b':') || (c == b'\\')
    then false
    else more

starts_with_slash : List ℕ → Bool
starts_with_slash [] = false
starts_with_slash (c ∷ p) = c == b'/'

unfoldable pub path_name_safe : Option (List ℕ) → Bool
unfolding scan_name component_ok starts_with_slash
path_name_safe none = false
path_name_safe (some name) =
    if (length name == 0) || starts_with_slash name then false else scan_name [] name

-- The loop of text_field_safe over the bytes.
unfoldable pub scan_text : List ℕ → Bool
scan_text [] = true
scan_text (c ∷ p) =
    let more = scan_text p in
    if ltb c 0x20 || (c == 0x7f) then false else if c == 0x22 then false else more

unfoldable pub text_field_safe : Option (List ℕ) → Bool
unfolding scan_text
text_field_safe none = false
text_field_safe (some s) = scan_text s
