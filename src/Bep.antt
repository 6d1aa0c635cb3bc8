-- ===== src/Bep.antt =====
-- The data of include/bep.h that the sync decisions read: version vectors and FileInfo records.
-- A char buffer is the list of the bytes before its NUL. The first `num_counters` entries of a
-- counter array are a list, so `num_counters` is the list's length. A flag that the code itself sets
-- to 0 or 1 is a Bool; one that comes from the wire is the bits of an int.
use amisync.Common.{ℕ, Bool, not, List, length, ◌==◌}
use amisync.Common.Int.{ℤ}

-- Is an int or a char, used as a test, true?
abbrev pub is_set : ℕ → Bool
is_set n = not (n == 0)

abbrev pub bep_path_max : ℕ
bep_path_max = 256

abbrev pub bep_folder_id_max : ℕ
bep_folder_id_max = 64

abbrev pub bep_max_counters : ℕ
bep_max_counters = 16

abbrev pub bep_hash_len : ℕ
bep_hash_len = 32

pub record BepCounter : Type 0 where
  pub id : ℕ
  pub value : ℕ

pub record BepVector : Type 0 where
  pub counters : List BepCounter

abbrev pub num_counters : BepVector → ℕ
num_counters v = length v.counters

pub record BepBlockInfo : Type 0 where
  pub offset : ℤ
  pub size : ℤ
  pub hash : List ℕ
  pub has_hash : Bool

-- BEP_FILE_FILE and the other values of `type` stay numbers. `deleted` and `invalid` are ints that a
-- peer fills, so other values than 0 and 1 occur.
pub record BepFileInfo : Type 0 where
  pub name : List ℕ
  pub type : ℕ
  pub size : ℤ
  pub permissions : ℕ
  pub modified_s : ℤ
  pub modified_ns : ℤ
  pub modified_by : ℕ
  pub deleted : ℕ
  pub invalid : ℕ
  pub sequence : ℤ
  pub block_size : ℤ
  pub version : BepVector
  pub blocks : List BepBlockInfo
  pub num_blocks : ℤ
  pub content_hash : List ℕ
  pub has_content_hash : Bool
