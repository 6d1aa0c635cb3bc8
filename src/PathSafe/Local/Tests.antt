-- ===== src/PathSafe/Local/Tests.antt =====
-- Names in both forms, and the theorems at concrete names.
use amisync.Common.{ℕ, ◌≡◌, ◌↔◌, refl, List, [], ◌∷◌, arith, none, some, true, false}
use amisync.PathSafe.{path_name_safe, scan_name, component_ok}
use amisync.Common.{bytes_eq}
use amisync.PathSafe.Local.{
  utf8_seq, continue_seq, utf8_class, class_loop, utf8_valid, copy_loop, conv_loop, put_local,
  to_local_loop, name_to_local, widen_loop, put_wire, from_local_loop, name_from_local,
}
use amisync.PathSafe.Local.Encoder.{Encodes}
use amisync.PathSafe.Local.Utf8.{utf8_seq_iff}
use amisync.PathSafe.Local.RoundTrip.{name_to_local-name_from_local}
use amisync.PathSafe.Local.Contained.{name_to_local-path_name_safe}

-- caf, e with an acute accent, a slash and b: on disk, and on the wire
abbrev on_disk : List ℕ
on_disk = b'c' ∷ b'a' ∷ b'f' ∷ 0xe9 ∷ b'/' ∷ b'b' ∷ []

abbrev on_wire : List ℕ
on_wire = b'c' ∷ b'a' ∷ b'f' ∷ 0xc3 ∷ 0xa9 ∷ b'/' ∷ b'b' ∷ []

mappings :
    (name_to_local 8 on_wire ≡ some on_disk)
    × (name_to_local 6 on_wire ≡ none)
    × (name_from_local 16 on_disk ≡ some on_wire)
unfolding name_to_local to_local_loop put_local conv_loop copy_loop utf8_class class_loop utf8_seq
    continue_seq name_from_local from_local_loop put_wire widen_loop
mappings = (refl, refl, refl)

-- An overlong slash, a surrogate, and the euro sign.
classes :
    (utf8_valid (0xC0 ∷ 0xAF ∷ []) ≡ false)
    × (utf8_valid (0xED ∷ 0xA0 ∷ 0x80 ∷ []) ≡ false)
    × (utf8_class (0xE2 ∷ 0x82 ∷ 0xAC ∷ []) ≡ 2)
unfolding utf8_valid utf8_class class_loop utf8_seq continue_seq
classes = (refl, refl, refl)

-- Two names of valid UTF-8 that have one name on disk.
two_names :
    (name_to_local 8 (0xC3 ∷ 0xA2 ∷ 0xC2 ∷ 0x82 ∷ 0xC2 ∷ 0xAC ∷ [])
      ≡ some (0xE2 ∷ 0x82 ∷ 0xAC ∷ []))
    × (name_to_local 8 (0xE2 ∷ 0x82 ∷ 0xAC ∷ []) ≡ some (0xE2 ∷ 0x82 ∷ 0xAC ∷ []))
unfolding name_to_local to_local_loop put_local conv_loop copy_loop utf8_class class_loop utf8_seq
    continue_seq
two_names = (refl, refl)

utf8_seq_iff_example :
    (utf8_seq (0xC3 ∷ 0xA9 ∷ b'x' ∷ []) ≡ some (2, 0xE9)) ↔ Encodes (0xC3 ∷ 0xA9 ∷ b'x' ∷ []) 2 0xE9
utf8_seq_iff_example = utf8_seq_iff (0xC3 ∷ 0xA9 ∷ b'x' ∷ []) 2 0xE9

name_to_local-name_from_local_example :
    (name : List ℕ) × (name_from_local 16 on_disk ≡ some name)
    × (name_to_local 8 name ≡ some on_disk)
name_to_local-name_from_local_example =
    name_to_local-name_from_local on_disk 16 8 (ground arith) (omega arith) (omega arith)

safe_on_wire : path_name_safe (some on_wire) ≡ true
unfolding path_name_safe scan_name component_ok bytes_eq
safe_on_wire = refl

name_to_local-path_name_safe_example : path_name_safe (some on_disk) ≡ true
name_to_local-path_name_safe_example =
    name_to_local-path_name_safe on_wire on_disk 8 safe_on_wire mappings.0
