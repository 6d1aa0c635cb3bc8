-- ===== src/PathSafe/Tests.antt =====
-- Concrete names and texts, and the theorems at concrete inputs.
use amisync.Common.{◌≡◌, refl, ◌↔◌, true, false, some, none, [], ◌∷◌, All}
use amisync.PathSafe.{path_name_safe}
use amisync.PathSafe.Components.{components, IsSafe, path_name_safe_iff}
use amisync.Common.{bytes_eq}

-- "a/b", "a/..", "S:x", "/a", "a/"
names :
    (path_name_safe (some (b'a' ∷ b'/' ∷ b'b' ∷ [])) ≡ true)
    × (path_name_safe (some (b'a' ∷ b'/' ∷ b'.' ∷ b'.' ∷ [])) ≡ false)
    × (path_name_safe (some (b'S' ∷ b':' ∷ b'x' ∷ [])) ≡ false)
    × (path_name_safe (some (b'/' ∷ b'a' ∷ [])) ≡ false)
    × (path_name_safe (some (b'a' ∷ b'/' ∷ [])) ≡ false)
unfolding path_name_safe bytes_eq
names = (refl, refl, refl, refl, refl)

path_name_safe_iff_example :
    ((path_name_safe (some (b'a' ∷ b'/' ∷ b'b' ∷ [])) ≡ true)
      ↔ All IsSafe (components (b'a' ∷ b'/' ∷ b'b' ∷ [])))
    × (path_name_safe none ≡ false)
path_name_safe_iff_example = path_name_safe_iff (b'a' ∷ b'/' ∷ b'b' ∷ [])
