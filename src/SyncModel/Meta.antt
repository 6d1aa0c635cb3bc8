-- ===== src/SyncModel/Meta.antt =====
-- SyncMeta of include/syncmodel.h, and the functions of src/syncmodel.c that fill and compare it.
use amisync.Common.{
  ℕ, ◌+◌, ◌*◌, ◌-◌, ◌^◌, ◌%◌, Bool, false, not, List, [], ◌∷◌, take, if◌then◌else◌, bytes_eq, ◌||◌,
  replicate,
}
use amisync.Common.Int.{ℤ, pos, negsuc, eqb_ℤ}
use amisync.Bep.{BepVector, BepFileInfo, is_set, bep_path_max, bep_hash_len}

-- Everything kept about a file except its block list. The chars `deleted` and `invalid` are only
-- tested for being 0 and copied, so they are that test.
pub record SyncMeta : Type 0 where
  pub name : List ℕ
  pub size : ℤ
  pub permissions : ℕ
  pub modified_s : ℤ
  pub modified_ns : ℤ
  pub modified_by : ℕ
  pub sequence : ℤ
  pub block_size : ℤ
  pub version : BepVector
  pub content_hash : List ℕ
  pub type : ℕ
  pub deleted : Bool
  pub invalid : Bool
  pub has_content_hash : Bool

abbrev pub zero_hash : List ℕ
zero_hash = replicate bep_hash_len 0

-- `type`, `deleted` and `invalid` are unsigned chars here and ints in the FileInfo: 256 becomes 0. The hash is copied only when there
-- is one; the memset leaves zeros otherwise.
unfoldable pub meta_from_fi : BepFileInfo → SyncMeta
meta_from_fi fi = record {
  name = fi.name;
  size = fi.size;
  permissions = fi.permissions;
  modified_s = fi.modified_s;
  modified_ns = fi.modified_ns;
  modified_by = fi.modified_by;
  sequence = fi.sequence;
  block_size = fi.block_size;
  version = fi.version;
  content_hash = if fi.has_content_hash then fi.content_hash else zero_hash;
  type = fi.type % 256;
  deleted = is_set (fi.deleted % 256);
  invalid = is_set (fi.invalid % 256);
  has_content_hash = fi.has_content_hash;
}

unfoldable pub sync_content_same : SyncMeta → BepFileInfo → Bool
sync_content_same have peer =
    if not (eqb_ℤ have.size peer.size)
    then false
    else if not have.has_content_hash || not peer.has_content_hash
    then false
    else bytes_eq have.content_hash peer.content_hash

-- `(uint64_t)when`
abbrev pub to_uint64 : ℤ → ℕ
to_uint64 (pos n) = n % 2 ^ 64
to_uint64 (negsuc n) = (2 ^ 64 - 1) - n % 2 ^ 64

-- A deletion tombstone: `when` is the modification time and the value of our counter, as a uint64.
unfoldable pub sync_make_tombstone : List ℕ → ℕ → ℕ → ℤ → ℤ → BepFileInfo
sync_make_tombstone name type short_id when seq = record {
  name = take (bep_path_max - 1) name;
  type = type;
  size = pos 0;
  permissions = 0o644;
  modified_s = when;
  modified_ns = pos 0;
  modified_by = 0;
  deleted = 1;
  invalid = 0;
  sequence = seq;
  block_size = pos 0;
  version = record { counters = record { id = short_id; value = to_uint64 when } ∷ [] };
  blocks = [];
  num_blocks = pos 0;
  content_hash = zero_hash;
  has_content_hash = false;
}

-- The loop `v = (v << 8) | raw[i]` over the first 8 bytes, as a uint64.
unfoldable pub fold_bytes : ℕ → List ℕ → ℕ
fold_bytes v [] = v
fold_bytes v (b ∷ raw) = fold_bytes (v * 256 % 2 ^ 64 + b) raw

unfoldable pub sync_short_id_from_raw : List ℕ → ℕ
unfolding fold_bytes
sync_short_id_from_raw raw = fold_bytes 0 (take 8 raw)
