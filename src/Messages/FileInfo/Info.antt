-- ===== src/Messages/FileInfo/Info.antt =====
-- The fields of a FileInfo before its blocks: their ranges, and what is written for them.
use amisync.Common.{ℕ, ◌%◌, ◌^◌, ◌≤◌, ◌<◌, ◌≡◌, false, not, List, [], ◌∷◌, arith, length, ◌==◌}
use amisync.Common.Int.{ℤ}
use amisync.Bep.{BepFileInfo, is_set}
use amisync.Pbuf.Fields.{uint64_field, bytes_field}
use amisync.Messages.{uint64_of, uint32_of, nonzero}
use amisync.Messages.Steps.{when_bytes}
use amisync.Messages.Values.{
  IsText, IsInt32, IsInt64, uint32_of-lt, uint64_of-lt, length-varint, length-uint32, length-uint64,
  length-uint64_field, length-bytes_field, string_length, length-int_field, length-when,
}
use amisync.Messages.Emits.{Emits-uint64, Emits-bool, Emits-string, Emits-when}
use amisync.Messages.Runs.{
  concat, EmitsAll, ◌also◌, no_more, ◌then_within◌, no_chunks, length-concat,
}
use amisync.Messages.FileInfo.{info_writes}
use amisync.Messages.FileInfo.Vector.{IsVector, vector_chunks, length-vector_bytes, Emits-vector}

-- The wire fields but the blocks, in their C ranges. `type` is the bits of an int.
pub record IsInfo (fi : BepFileInfo) : Type 0 where
  pub name : IsText 256 fi.name
  pub type : fi.type < 2 ^ 32
  pub size : IsInt64 fi.size
  pub permissions : fi.permissions < 2 ^ 32
  pub modified_s : IsInt64 fi.modified_s
  pub modified_ns : IsInt32 fi.modified_ns
  pub modified_by : fi.modified_by < 2 ^ 64
  pub sequence : IsInt64 fi.sequence
  pub block_size : IsInt32 fi.block_size
  pub version : IsVector fi.version

abbrev pub info_chunks : BepFileInfo → List (List ℕ)
info_chunks fi =
    bytes_field 1 fi.name
    ∷ when_bytes (not (fi.type == 0)) (uint64_field 2 (fi.type % 2 ^ 32))
    ∷ uint64_field 3 (uint64_of fi.size)
    ∷ when_bytes (not (fi.permissions == 0)) (uint64_field 4 fi.permissions)
    ∷ uint64_field 5 (uint64_of fi.modified_s)
    ∷ when_bytes (nonzero fi.modified_ns) (uint64_field 11 (uint32_of fi.modified_ns))
    ∷ when_bytes (not (fi.modified_by == 0)) (uint64_field 12 fi.modified_by)
    ∷ when_bytes (is_set fi.deleted) (uint64_field 6 1)
    ∷ when_bytes (is_set fi.invalid) (uint64_field 7 1)
    ∷ bytes_field 9 (concat (vector_chunks fi.version.counters))
    ∷ uint64_field 10 (uint64_of fi.sequence)
    ∷ when_bytes (nonzero fi.block_size) (uint64_field 13 (uint32_of fi.block_size))
    ∷ []

pub is_zero : (n : ℕ) → not (n == 0) ≡ false → 0 ≡ n
is_zero n h = ground arith

pub same_bits : (n : ℕ) → n < 2 ^ 32 → n % 2 ^ 32 ≡ n
same_bits n h = omega arith

pub twice : (n : ℕ) → n < 2 ^ 32 → n % 2 ^ 32 % 2 ^ 32 ≡ n
twice n h = omega arith

pub uint32_fits : (v : ℤ) → uint32_of v < 2 ^ 64
uint32_fits v = omega (arith, uint32_of-lt v)

module _ (fi : BepFileInfo) (ok : IsInfo fi) where
  pub EmitsAll-info : EmitsAll (info_writes fi) (info_chunks fi)
  EmitsAll-info =
      Emits-string 1 fi.name (omega arith) (omega (arith, ok.name.fits))
      also Emits-when _ _ _ (λ _. Emits-uint64 2 (fi.type % 2 ^ 32) (omega arith) (omega arith))
      also Emits-uint64 3 (uint64_of fi.size) (omega arith) (uint64_of-lt fi.size)
      also Emits-when _ _ _
          (λ _. Emits-uint64 4 fi.permissions (omega arith) (omega (arith, ok.permissions)))
      also Emits-uint64 5 (uint64_of fi.modified_s) (omega arith) (uint64_of-lt fi.modified_s)
      also Emits-when _ _ _ (λ _.
        Emits-uint64 11 (uint32_of fi.modified_ns) (omega arith) (uint32_fits fi.modified_ns))
      also Emits-when _ _ _ (λ _. Emits-uint64 12 fi.modified_by (omega arith) ok.modified_by)
      also Emits-when _ _ _ (λ _. Emits-bool 6 (omega arith))
      also Emits-when _ _ _ (λ _. Emits-bool 7 (omega arith))
      also Emits-vector fi.version ok.version
      also Emits-uint64 10 (uint64_of fi.sequence) (omega arith) (uint64_of-lt fi.sequence)
      also Emits-when _ _ _
          (λ _. Emits-uint64 13 (uint32_of fi.block_size) (omega arith) (uint32_fits fi.block_size))
      also no_more

  pub length-info : length (concat (info_chunks fi)) ≤ 732
  length-info =
      length-concat (info_chunks fi) (258 ∷ 6 ∷ 11 ∷ 6 ∷ 11 ∷ 6 ∷ 11 ∷ 2 ∷ 2 ∷ 402 ∷ 11 ∷ 6 ∷ []) (
        string_length 1 fi.name 256 ok.name (omega arith) (omega arith)
        then_within length-when _ _ 6 (
            length-uint64_field 2 (fi.type % 2 ^ 32) 5 (omega arith)
              (length-uint32 (fi.type % 2 ^ 32) (omega arith)))
        then_within length-uint64_field 3 (uint64_of fi.size) 10 (omega arith)
            (length-uint64 (uint64_of fi.size))
        then_within length-when _ _ 6 (
            length-uint64_field 4 fi.permissions 5 (omega arith)
              (length-uint32 fi.permissions ok.permissions))
        then_within length-uint64_field 5 (uint64_of fi.modified_s) 10 (omega arith)
            (length-uint64 (uint64_of fi.modified_s))
        then_within length-when _ _ 6 (length-int_field 11 fi.modified_ns (omega arith))
        then_within length-when _ _ 11
            (length-uint64_field 12 fi.modified_by 10 (omega arith) (length-uint64 fi.modified_by))
        then_within length-when _ _ 2
            (length-uint64_field 6 1 1 (omega arith) (length-varint 0 1 (omega arith)))
        then_within length-when _ _ 2
            (length-uint64_field 7 1 1 (omega arith) (length-varint 0 1 (omega arith)))
        then_within version_length
        then_within length-uint64_field 10 (uint64_of fi.sequence) 10 (omega arith)
            (length-uint64 (uint64_of fi.sequence))
        then_within length-when _ _ 6 (length-int_field 13 fi.block_size (omega arith))
        then_within no_chunks)
    where
      version_length : length (bytes_field 9 (concat (vector_chunks fi.version.counters))) ≤ 402
      version_length = omega (
        arith,
        length-vector_bytes fi.version ok.version,
        length-bytes_field 9 (concat (vector_chunks fi.version.counters)) 2 (omega arith) (
            length-varint 1 (length (concat (vector_chunks fi.version.counters)))
              (omega (arith, length-vector_bytes fi.version ok.version))),
      )
