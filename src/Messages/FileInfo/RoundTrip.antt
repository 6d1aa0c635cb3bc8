-- ===== src/Messages/FileInfo/RoundTrip.antt =====
-- On bep_encode_file_info and bep_decode_file_info.
use mathlib.Core.List.{map, append_assoc, append-nil}
use amisync.Common.{
  ℕ, ◌+◌, ◌*◌, ◌≤◌, ◌<◌, ◌≡◌, refl, ap, ◌∙◌, false, none, some, List, [], ◌∷◌, ◌++◌, arith, length,
  length-append, replicate, All, lt→ltb, take-all,
}
use amisync.Common.Int.{pos, ltb_ℤ}
use amisync.Bep.{BepBlockInfo, BepFileInfo}
use amisync.Pbuf.Fields.{bytes_field}
use amisync.Pbuf.Writer.{PbufWriter, Wrote, pbuf_writer_init}
use amisync.Messages.{decode, bytes, write_all, finished}
use amisync.Messages.Steps.{decode_end, decode_bytes}
use amisync.Messages.Values.{length-varint, length-block_field}
use amisync.Messages.Runs.{
  concat, concat-append, EmitsAll, EmitsAll-append, ◌also◌, no_more, finish_fits,
}
use amisync.Messages.FileInfo.{
  info_writes, encode_block, decode_block, blocks_of, bep_encode_file_info,
}
use amisync.Messages.FileInfo.Block.{IsBlock, block_chunks, length-block, Emits-block, decode-block}
use amisync.Messages.FileInfo.Info.{IsInfo, info_chunks, EmitsAll-info, length-info}
use amisync.Messages.FileInfo.Stages.{wire_flag, stage, at, decode-info}
use amisync.Messages.FileInfo.Reading.{
  Partial, call_back, with_count, with_blocks, file_info_field, array_block_cb,
  bep_decode_file_info,
}

abbrev blocks_chunks : List BepBlockInfo → List (List ℕ)
blocks_chunks bs = map (λ b. bytes_field 16 (concat (block_chunks b))) bs

abbrev block_encoders : List BepBlockInfo → List (PbufWriter → Wrote)
block_encoders bs = map (λ b u. encode_block u b) bs

EmitsAll-blocks :
    (bs : List BepBlockInfo) → All IsBlock bs → EmitsAll (block_encoders bs) (blocks_chunks bs)
EmitsAll-blocks [] oks = no_more
EmitsAll-blocks (b ∷ bs) (ok, oks) = Emits-block b ok also EmitsAll-blocks bs oks

abbrev holding : BepFileInfo → List BepBlockInfo → Partial (List BepBlockInfo)
holding fi xs = record { info = fi; count = length xs; ctx = xs }

block_choice :
    (s : Partial (List BepBlockInfo))
    → file_info_field array_block_cb 16 2 s
      ≡ bytes (λ p. call_back array_block_cb s (decode_block p))
unfolding file_info_field
block_choice s = refl

one_block :
    (fi : BepFileInfo) (xs : List BepBlockInfo) (b : BepBlockInfo)
    → IsBlock b
    → length xs < 16
    → call_back array_block_cb (holding fi xs) (decode_block (concat (block_chunks b)))
      ≡ some (holding fi (xs ++ b ∷ []))
unfolding array_block_cb
one_block fi xs b ok room =
    rw (decode-block b ok, lt→ltb (length xs) 16 room, length-append xs (b ∷ []))
      (ap (λ n. some (record { info = fi; count = n; ctx = xs ++ b ∷ [] })) (omega arith))

decode-blocks :
    (fi : BepFileInfo) (bs xs : List BepBlockInfo)
    → All IsBlock bs
    → length xs + length bs ≤ 16
    → decode (file_info_field array_block_cb) (holding fi xs) (concat (blocks_chunks bs))
      ≡ some (holding fi (xs ++ bs))
decode-blocks fi [] xs oks room = decode_end _ _ ∙ rw append-nil refl
decode-blocks fi (b ∷ bs) xs (ok, oks) room =
    decode_bytes (file_info_field array_block_cb) (holding fi xs) 16 (concat (block_chunks b))
      (concat (blocks_chunks bs)) (omega arith) (omega (arith, length-block b ok)) _
      (holding fi (xs ++ b ∷ [])) (block_choice (holding fi xs))
      (one_block fi xs b ok (omega arith))
    ∙ decode-blocks fi bs (xs ++ b ∷ []) oks (omega (arith, length-append xs (b ∷ [])))
    ∙ rw append_assoc refl

block_field_length :
    (b : BepBlockInfo) → IsBlock b → length (bytes_field 16 (concat (block_chunks b))) ≤ 56
block_field_length b ok = omega (
  arith,
  length-block b ok,
  length-block_field (concat (block_chunks b)) 1
      (length-varint 0 (length (concat (block_chunks b))) (omega (arith, length-block b ok))),
)

length-blocks :
    (bs : List BepBlockInfo) → All IsBlock bs → length (concat (blocks_chunks bs)) ≤ 56 * length bs
length-blocks [] oks = omega arith
length-blocks (b ∷ bs) (ok, oks) = omega (
  arith,
  length-blocks bs oks,
  block_field_length b ok,
  length-append (bytes_field 16 (concat (block_chunks b))) (concat (blocks_chunks bs)),
)

-- The wire fields in their C ranges, and no more blocks than the array of the struct has places.
pub record IsFileInfo (fi : BepFileInfo) : Type 0 where
  pub info : IsInfo fi
  pub blocks : All IsBlock fi.blocks
  pub num_blocks : fi.num_blocks ≡ pos (length fi.blocks)
  pub few : length fi.blocks ≤ 16

-- The struct without the two members that are not on the wire, and with 1 for a flag that is set.
abbrev pub wire_part : BepFileInfo → BepFileInfo
wire_part fi = record fi {
  deleted = wire_flag fi.deleted;
  invalid = wire_flag fi.invalid;
  content_hash = replicate 32 0;
  has_content_hash = false;
}

module _ (fi : BepFileInfo) (ok : IsFileInfo fi) where
  file_info_chunks : List (List ℕ)
  file_info_chunks = info_chunks fi ++ blocks_chunks fi.blocks

  own_blocks : blocks_of fi none ≡ fi.blocks
  own_blocks = rw ok.num_blocks (take-all (length fi.blocks) fi.blocks (omega arith))

  length-file_info : length (concat file_info_chunks) ≤ 1628
  unfolding file_info_chunks
  length-file_info = rw (concat-append (info_chunks fi) (blocks_chunks fi.blocks)) (
      omega (
        arith,
        length-append (concat (info_chunks fi)) (concat (blocks_chunks fi.blocks)),
        length-info fi ok.info,
        length-blocks fi.blocks ok.blocks,
        ok.few,
      ))

  encode_same :
      (cap : ℕ)
      → bep_encode_file_info fi cap
        ≡ finished (
            write_all (info_writes fi ++ block_encoders (blocks_of fi none)) (pbuf_writer_init cap))
  unfolding bep_encode_file_info
  encode_same cap = refl

  encoded : (cap : ℕ) → 1628 ≤ cap → bep_encode_file_info fi cap ≡ some (concat file_info_chunks)
  unfolding file_info_chunks
  encoded cap room =
      encode_same cap
      ∙ ap (λ bs. finished (write_all (info_writes fi ++ block_encoders bs) (pbuf_writer_init cap)))
          own_blocks
      ∙ finish_fits (info_writes fi ++ block_encoders fi.blocks)
          (info_chunks fi ++ blocks_chunks fi.blocks) cap
          (EmitsAll-append (info_writes fi) (block_encoders fi.blocks) (info_chunks fi)
            (blocks_chunks fi.blocks) (EmitsAll-info fi ok.info)
            (EmitsAll-blocks fi.blocks ok.blocks))
          (omega (arith, length-file_info))

  fields_read :
      decode
        (file_info_field array_block_cb)
        (at fi ok.info (List BepBlockInfo) array_block_cb [] 0)
        (concat file_info_chunks)
      ≡ some (holding (stage fi ok.info 12) fi.blocks)
  unfolding file_info_chunks at
  fields_read =
      decode-info fi ok.info (List BepBlockInfo) array_block_cb [] (blocks_chunks fi.blocks)
      ∙ decode-blocks (stage fi ok.info 12) fi.blocks [] ok.blocks (omega (arith, ok.few))

  decode_same :
      (buf : List ℕ)
      → bep_decode_file_info buf
        ≡ with_blocks (
            with_count (
              decode
                (file_info_field array_block_cb)
                (at fi ok.info (List BepBlockInfo) array_block_cb [] 0)
                buf))
  unfolding bep_decode_file_info at stage
  decode_same buf = refl

  few_blocks : ltb_ℤ (pos 16) (pos (length fi.blocks)) ≡ false
  few_blocks = ground (arith, ok.few)

  last_stage :
      with_blocks (with_count (some (holding (stage fi ok.info 12) fi.blocks)))
      ≡ some (wire_part fi)
  unfolding stage
  last_stage = rw (few_blocks, ok.num_blocks) refl

  decoded : bep_decode_file_info (concat file_info_chunks) ≡ some (wire_part fi)
  decoded = decode_same _ ∙ ap (λ o. with_blocks (with_count o)) fields_read ∙ last_stage

-- A FileInfo whose wire fields are in their C ranges, with at most 16 blocks, always encodes into a
-- buffer of 1628 bytes or more (bep_encode_index gives it 4096), and the decoder gets every field
-- back from those bytes, the version vector and the blocks in their order; a flag that is set comes
-- back as 1, and the two members that are not on the wire come back as zeros.
pub bep_decode_file_info-bep_encode_file_info :
    (fi : BepFileInfo) (cap : ℕ)
    → IsFileInfo fi
    → 1628 ≤ cap
    → (buf : List ℕ) × (bep_encode_file_info fi cap ≡ some buf)
      × (bep_decode_file_info buf ≡ some (wire_part fi))
bep_decode_file_info-bep_encode_file_info fi cap ok room =
    (concat (file_info_chunks fi ok), encoded fi ok cap room, decoded fi ok)
