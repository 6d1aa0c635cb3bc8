-- ===== src/Messages/FileInfo/Block.antt =====
-- On encode_block and decode_block.
use amisync.Common.{
  ℕ, ◌≤◌, ◌≡◌, refl, sym, ap, ap₂, ◌∙◌, Bool, true, false, some, List, [], ◌∷◌, arith, length,
  replicate,
}
use amisync.Bep.{BepBlockInfo}
use amisync.Pbuf.Fields.{uint64_field, bytes_field}
use amisync.Messages.{uint64_of, uint32_of}
use amisync.Messages.Steps.{when_bytes, decode_end, decode_number_to, decode_bytes, decode_when}
use amisync.Messages.Values.{
  IsInt32, IsInt64, int32_of-uint32_of, int64_of-uint64_of, uint32_of-lt, uint64_of-lt,
  length-varint, length-uint64, length-uint64_field, length-bytes_field, length-int_field,
  length-when,
}
use amisync.Messages.Emits.{Emits, Emits-uint64, Emits-bytes, Emits-when}
use amisync.Messages.Runs.{
  concat, EmitsAll, ◌also◌, no_more, Emits-nested, ◌then_within◌, no_chunks, length-concat,
}
use amisync.Messages.FileInfo.{
  block_writes, encode_block, block_scratch, no_block, with_block_hash, block_field, decode_block,
}

pub record IsBlock (b : BepBlockInfo) : Type 0 where
  pub offset : IsInt64 b.offset
  pub size : IsInt32 b.size
  pub hash : length b.hash ≡ 32
  pub no_hash : b.has_hash ≡ false → b.hash ≡ replicate 32 0

abbrev pub block_chunks : BepBlockInfo → List (List ℕ)
block_chunks b =
    uint64_field 1 (uint64_of b.offset)
    ∷ uint64_field 2 (uint32_of b.size)
    ∷ when_bytes b.has_hash (bytes_field 3 b.hash)
    ∷ []

module _ (b : BepBlockInfo) (ok : IsBlock b) where
  pub length-block : length (concat (block_chunks b)) ≤ 52
  length-block = length-concat (block_chunks b) (11 ∷ 6 ∷ 35 ∷ []) (
      length-uint64_field 1 (uint64_of b.offset) 10 (omega arith)
        (length-uint64 (uint64_of b.offset))
      then_within length-int_field 2 b.size (omega arith)
      then_within length-when b.has_hash (bytes_field 3 b.hash) 35 (
          omega (
            arith,
            ok.hash,
            length-bytes_field 3 b.hash 2 (omega arith)
                (length-varint 1 (length b.hash) (omega (arith, ok.hash))),
          ))
      then_within no_chunks)

  EmitsAll-block : EmitsAll (block_writes b) (block_chunks b)
  EmitsAll-block =
      Emits-uint64 1 (uint64_of b.offset) (omega arith) (uint64_of-lt b.offset)
      also Emits-uint64 2 (uint32_of b.size) (omega arith) (omega (arith, uint32_of-lt b.size))
      also Emits-when _ _ _ (λ _. Emits-bytes 3 b.hash (omega arith) (omega (arith, ok.hash)))
      also no_more

  pub Emits-block : Emits (λ w. encode_block w b) (bytes_field 16 (concat (block_chunks b)))
  unfolding encode_block
  Emits-block =
      Emits-nested 16 (block_writes b) (block_chunks b) block_scratch EmitsAll-block
        (omega (arith, length-block)) (omega arith) (omega arith)

  partly : List ℕ → Bool → BepBlockInfo
  partly hash has_hash = record {
    offset = b.offset;
    size = b.size;
    hash = hash;
    has_hash = has_hash;
  }

  hashed : b.has_hash ≡ true → with_block_hash (partly (replicate 32 0) false) b.hash ≡ b
  unfolding partly
  hashed e = rw (ok.hash, e) refl

  unhashed : b.has_hash ≡ false → partly (replicate 32 0) false ≡ b
  unfolding partly
  unhashed e = ap₂ (λ h x. partly h x) (sym (ok.no_hash e)) (sym e)

  pub decode-block : decode_block (concat (block_chunks b)) ≡ some b
  unfolding decode_block block_field partly
  decode-block =
      decode_number_to block_field no_block 1 (uint64_of b.offset) _ (omega arith)
        (uint64_of-lt b.offset) _ (record no_block { offset = b.offset }) refl
        (ap (λ o. record no_block { offset = o }) (int64_of-uint64_of b.offset ok.offset))
      ∙ decode_number_to block_field _ 2 (uint32_of b.size) _ (omega arith)
          (omega (arith, uint32_of-lt b.size)) _ (partly (replicate 32 0) false) refl
          (ap (λ s. record no_block { offset = b.offset; size = s })
            (int32_of-uint32_of b.size ok.size))
      ∙ decode_when block_field _ b b.has_hash (bytes_field 3 b.hash) []
          (λ e.
            decode_bytes block_field _ 3 b.hash _ (omega arith) (omega (arith, ok.hash)) _ _ refl
              (ap some (hashed e)))
          unhashed
      ∙ decode_end block_field b
