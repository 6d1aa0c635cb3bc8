-- ===== src/Messages/FileInfo.antt =====
-- src/bep.c: the codec of a FileInfo, with its blocks and its version vector.
pub mod Reading
pub mod Vector
pub mod Block
pub mod Info
pub mod Stages
pub mod RoundTrip
use mathlib.Core.List.{map}
use amisync.Common.{
  ℕ, suc, ◌*◌, ◌+◌, ◌%◌, ◌^◌, Bool, true, false, ◌&&◌, not, Option, none, some, List, [], ◌∷◌, ◌++◌,
  length, take, replicate, if◌then◌else◌, ltb, ◌==◌,
}
use amisync.Common.Int.{ℤ, pos, negsuc, pos_part, neg_part, sub_ℕ, ltb_ℤ}
use amisync.Bep.{
  bep_path_max, bep_max_counters, bep_hash_len, is_set, BepCounter, BepVector, BepBlockInfo,
  BepFileInfo,
}
use amisync.Pbuf.{wt_varint, wt_len}
use amisync.Pbuf.Writer.{
  PbufWriter, Wrote, pbuf_writer_init, pbuf_write_uint64, pbuf_write_string, pbuf_write_bytes,
  pbuf_write_bool, pbuf_write_message,
}
use amisync.Messages.{
  OnField, number, bytes, unknown, decode, copy_str, uint64_of, uint32_of, int64_of, int32_of,
  nonzero, when, write_all, finished,
}

-- The scratch buffer of encode_block.
abbrev pub block_scratch : ℕ
block_scratch = 64

abbrev pub block_writes : BepBlockInfo → List (PbufWriter → Wrote)
block_writes b =
    (λ w. pbuf_write_uint64 w 1 (uint64_of b.offset))
    ∷ (λ w. pbuf_write_uint64 w 2 (uint32_of b.size))
    ∷ when b.has_hash (λ w. pbuf_write_bytes w 3 b.hash)
    ∷ []

unfoldable pub encode_block : PbufWriter → BepBlockInfo → Wrote
unfolding write_all pbuf_write_uint64 pbuf_write_bytes pbuf_write_message pbuf_writer_init
encode_block fi b =
    pbuf_write_message fi 16 (write_all (block_writes b) (pbuf_writer_init block_scratch))

abbrev pub counter_writes : BepCounter → List (PbufWriter → Wrote)
counter_writes c = (λ w. pbuf_write_uint64 w 1 c.id) ∷ (λ w. pbuf_write_uint64 w 2 c.value) ∷ []

-- One turn of the loop of encode_vector, with its 32 bytes of scratch.
unfoldable pub encode_counter : BepCounter → PbufWriter → Wrote
unfolding write_all pbuf_write_uint64 pbuf_write_message pbuf_writer_init
encode_counter c vw = pbuf_write_message vw 1 (write_all (counter_writes c) (pbuf_writer_init 32))

abbrev pub vector_scratch : ℕ
vector_scratch = bep_max_counters * 24 + 16

unfoldable pub encode_vector : PbufWriter → BepVector → Wrote
unfolding encode_counter
encode_vector fi v =
    pbuf_write_message fi 9
      (write_all (map encode_counter v.counters) (pbuf_writer_init vector_scratch))

-- The fields before the blocks.
abbrev pub info_writes : BepFileInfo → List (PbufWriter → Wrote)
info_writes fi =
    (λ w. pbuf_write_string w 1 fi.name)
    ∷ when (not (fi.type == 0)) (λ w. pbuf_write_uint64 w 2 (fi.type % 2 ^ 32))
    ∷ (λ w. pbuf_write_uint64 w 3 (uint64_of fi.size))
    ∷ when (not (fi.permissions == 0)) (λ w. pbuf_write_uint64 w 4 fi.permissions)
    ∷ (λ w. pbuf_write_uint64 w 5 (uint64_of fi.modified_s))
    ∷ when (nonzero fi.modified_ns) (λ w. pbuf_write_uint64 w 11 (uint32_of fi.modified_ns))
    ∷ when (not (fi.modified_by == 0)) (λ w. pbuf_write_uint64 w 12 fi.modified_by)
    ∷ when (is_set fi.deleted) (λ w. pbuf_write_bool w 6 true)
    ∷ when (is_set fi.invalid) (λ w. pbuf_write_bool w 7 true)
    ∷ (λ w. encode_vector w fi.version)
    ∷ (λ w. pbuf_write_uint64 w 10 (uint64_of fi.sequence))
    ∷ when (nonzero fi.block_size) (λ w. pbuf_write_uint64 w 13 (uint32_of fi.block_size))
    ∷ []

-- int64_t off = (int64_t)i * bs; both factors are below 2 ^ 31.
abbrev pub times : ℕ → ℤ → ℤ
times i (pos n) = pos (i * n)
times i (negsuc n) = sub_ℕ 0 (i * suc n)

abbrev pub minus : ℤ → ℤ → ℤ
minus a b = sub_ℕ (pos_part a + neg_part b) (pos_part b + neg_part a)

-- int64_t bs = fi->block_size ? fi->block_size : 1;
abbrev pub block_step : BepFileInfo → ℤ
block_step fi = if nonzero fi.block_size then fi.block_size else pos 1

-- The block that the i-th hash of an external list stands for.
unfoldable pub ext_block : BepFileInfo → ℕ → List ℕ → BepBlockInfo
ext_block fi i hash =
    let bs = block_step fi in
    let off = times i bs in
    let left = minus fi.size off in
    record {
      offset = off;
      size = int32_of (uint64_of (if ltb_ℤ bs left then bs else left));
      hash = hash;
      has_hash = true;
    }

-- The loop over the hashes, from the i-th.
unfoldable pub ext_blocks : BepFileInfo → ℕ → List (List ℕ) → List BepBlockInfo
unfolding ext_block
ext_blocks fi i [] = []
ext_blocks fi i (hash ∷ hashes) = ext_block fi i hash ∷ ext_blocks fi (suc i) hashes

-- `none` is a NULL `ext_hashes`: the blocks are those of the struct then.
abbrev pub blocks_of : BepFileInfo → Option (List (List ℕ)) → List BepBlockInfo
blocks_of fi none = take (pos_part fi.num_blocks) fi.blocks
blocks_of fi (some hashes) = ext_blocks fi 0 hashes

unfoldable pub encode_file_info_body :
    PbufWriter → BepFileInfo → Option (List (List ℕ)) → PbufWriter
unfolding write_all pbuf_write_uint64 pbuf_write_string pbuf_write_bool encode_vector encode_block
    ext_blocks
encode_file_info_body w fi ext_hashes =
    write_all (info_writes fi ++ map (λ b u. encode_block u b) (blocks_of fi ext_hashes)) w

unfoldable pub bep_encode_file_info : BepFileInfo → ℕ → Option (List ℕ)
unfolding encode_file_info_body
bep_encode_file_info fi cap = finished (encode_file_info_body (pbuf_writer_init cap) fi none)

abbrev pub no_block : BepBlockInfo
no_block = record {
  offset = pos 0;
  size = pos 0;
  hash = replicate bep_hash_len 0;
  has_hash = false;
}

abbrev pub with_block_hash : BepBlockInfo → List ℕ → BepBlockInfo
with_block_hash b p = if length p == bep_hash_len then record b { hash = p; has_hash = true } else b

unfoldable pub block_field : ℕ → ℕ → BepBlockInfo → OnField BepBlockInfo
block_field field wt b =
    if (field == 1) && (wt == wt_varint)
    then number (λ v. record b { offset = int64_of v })
    else if (field == 2) && (wt == wt_varint)
    then number (λ v. record b { size = int32_of v })
    else if (field == 3) && (wt == wt_len)
    then bytes (λ p. some (with_block_hash b p))
    else unknown

unfoldable pub decode_block : List ℕ → Option BepBlockInfo
unfolding decode block_field
decode_block buf = decode block_field no_block buf

abbrev pub no_counter : BepCounter
no_counter = record { id = 0; value = 0 }

unfoldable pub counter_field : ℕ → ℕ → BepCounter → OnField BepCounter
counter_field field wt c =
    if (field == 1) && (wt == wt_varint)
    then number (λ v. record c { id = v })
    else if (field == 2) && (wt == wt_varint)
    then number (λ v. record c { value = v })
    else unknown

unfoldable pub decode_counter : List ℕ → Option BepCounter
unfolding decode counter_field
decode_counter buf = decode counter_field no_counter buf

abbrev pub plus_counter : BepVector → Option BepCounter → Option BepVector
plus_counter v none = none
plus_counter v (some c) = some (record v { counters = v.counters ++ c ∷ [] })

-- A counter past the last place of the array is passed over undecoded.
abbrev pub add_counter : BepVector → List ℕ → Option BepVector
add_counter v p =
    if ltb (length v.counters) bep_max_counters then plus_counter v (decode_counter p) else some v

unfoldable pub vector_field : ℕ → ℕ → BepVector → OnField BepVector
unfolding decode_counter
vector_field field wt v = if (field == 1) && (wt == wt_len) then bytes (add_counter v) else unknown

unfoldable pub decode_vector : List ℕ → Option BepVector
unfolding decode vector_field
decode_vector buf = decode vector_field (record { counters = [] }) buf
