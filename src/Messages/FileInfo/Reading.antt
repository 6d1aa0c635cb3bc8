-- ===== src/Messages/FileInfo/Reading.antt =====
-- src/bep.c: the decoder of a FileInfo, which hands each block to a callback.
use amisync.Common.{
  ℕ, suc, ◌%◌, ◌^◌, false, ◌&&◌, Option, none, some, List, [], ◌∷◌, ◌++◌, replicate, if◌then◌else◌,
  ltb, ◌==◌,
}
use amisync.Common.Int.{pos, ltb_ℤ}
use amisync.Bep.{bep_path_max, bep_hash_len, BepVector, BepBlockInfo, BepFileInfo}
use amisync.Pbuf.{wt_varint, wt_len}
use amisync.Messages.{OnField, number, bytes, unknown, decode, copy_str, int64_of, int32_of}
use amisync.Messages.FileInfo.{decode_vector, decode_block}

abbrev pub bep_max_blocks : ℕ
bep_max_blocks = 16

-- memset(fi, 0, sizeof(*fi))
abbrev pub no_file_info : BepFileInfo
no_file_info = record {
  name = [];
  type = 0;
  size = pos 0;
  permissions = 0;
  modified_s = pos 0;
  modified_ns = pos 0;
  modified_by = 0;
  deleted = 0;
  invalid = 0;
  sequence = pos 0;
  block_size = pos 0;
  version = record { counters = [] };
  blocks = [];
  num_blocks = pos 0;
  content_hash = replicate bep_hash_len 0;
  has_content_hash = false;
}

-- The struct, the number of blocks so far, and what the callback's `ctx` points to.
pub record Partial (C : Type 0) : Type 0 where
  pub info : BepFileInfo
  pub count : ℕ
  pub ctx : C

abbrev pub with_vector : BepFileInfo → Option BepVector → Option BepFileInfo
with_vector fi none = none
with_vector fi (some v) = some (record fi { version = v })

module _ {C : Type 0} where
  abbrev pub stored_info : Partial C → Option BepFileInfo → Option (Partial C)
  stored_info s none = none
  stored_info s (some fi) = some (record s { info = fi })

  abbrev pub counted : Partial C → Option C → Option (Partial C)
  counted s none = none
  counted s (some ctx) = some (record s { count = suc s.count; ctx = ctx })

  -- A callback returns its new `ctx`, or `none` to abort; a NULL one keeps what it gets.
  abbrev pub call_back :
      (C → ℕ → BepBlockInfo → Option C) → Partial C → Option BepBlockInfo → Option (Partial C)
  call_back cb s none = none
  call_back cb s (some blk) = counted s (cb s.ctx s.count blk)

  abbrev pub in_info : (BepFileInfo → ℕ → BepFileInfo) → Partial C → OnField (Partial C)
  in_info f s = number (λ v. record s { info = f s.info v })

  unfoldable pub file_info_field :
      (C → ℕ → BepBlockInfo → Option C) → ℕ → ℕ → Partial C → OnField (Partial C)
  unfolding decode_vector decode_block copy_str
  file_info_field cb field wt s =
      if (field == 1) && (wt == wt_len)
      then bytes (λ p. some (record s { info = record s.info { name = copy_str bep_path_max p } }))
      else if (field == 2) && (wt == wt_varint)
      then in_info (λ fi v. record fi { type = v % 2 ^ 32 }) s
      else if (field == 3) && (wt == wt_varint)
      then in_info (λ fi v. record fi { size = int64_of v }) s
      else if (field == 4) && (wt == wt_varint)
      then in_info (λ fi v. record fi { permissions = v % 2 ^ 32 }) s
      else if (field == 5) && (wt == wt_varint)
      then in_info (λ fi v. record fi { modified_s = int64_of v }) s
      else if (field == 11) && (wt == wt_varint)
      then in_info (λ fi v. record fi { modified_ns = int32_of v }) s
      else if (field == 12) && (wt == wt_varint)
      then in_info (λ fi v. record fi { modified_by = v }) s
      else if (field == 6) && (wt == wt_varint)
      then in_info (λ fi v. record fi { deleted = v % 2 ^ 32 }) s
      else if (field == 7) && (wt == wt_varint)
      then in_info (λ fi v. record fi { invalid = v % 2 ^ 32 }) s
      else if (field == 9) && (wt == wt_len)
      then bytes (λ p. stored_info s (with_vector s.info (decode_vector p)))
      else if (field == 10) && (wt == wt_varint)
      then in_info (λ fi v. record fi { sequence = int64_of v }) s
      else if (field == 13) && (wt == wt_varint)
      then in_info (λ fi v. record fi { block_size = int32_of v }) s
      else if (field == 16) && (wt == wt_len)
      then bytes (λ p. call_back cb s (decode_block p))
      else unknown

  -- fi->num_blocks = count;
  abbrev pub with_count : Option (Partial C) → Option (BepFileInfo × C)
  with_count none = none
  with_count (some s) = some (record s.info { num_blocks = pos s.count }, s.ctx)

  unfoldable pub bep_decode_file_info_cb :
      (C → ℕ → BepBlockInfo → Option C) → C → List ℕ → Option (BepFileInfo × C)
  unfolding decode file_info_field
  bep_decode_file_info_cb cb ctx buf =
      with_count
        (decode (file_info_field cb) (record { info = no_file_info; count = 0; ctx = ctx }) buf)

-- Its `ctx` is the blocks of the struct: those that have been stored.
unfoldable pub array_block_cb : List BepBlockInfo → ℕ → BepBlockInfo → Option (List BepBlockInfo)
array_block_cb blocks index blk =
    if ltb index bep_max_blocks then some (blocks ++ blk ∷ []) else some blocks

abbrev pub with_blocks : Option (BepFileInfo × List BepBlockInfo) → Option BepFileInfo
with_blocks none = none
with_blocks (some (fi, stored)) = some (record fi {
  blocks = stored;
  num_blocks =
      if ltb_ℤ (pos bep_max_blocks) fi.num_blocks then pos bep_max_blocks else fi.num_blocks;
})

unfoldable pub bep_decode_file_info : List ℕ → Option BepFileInfo
unfolding bep_decode_file_info_cb array_block_cb
bep_decode_file_info buf = with_blocks (bep_decode_file_info_cb array_block_cb [] buf)
