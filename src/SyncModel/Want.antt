-- ===== src/SyncModel/Want.antt =====
-- The queue of wanted files of src/syncmodel.c: a stack of entries over a pool of block hashes.
pub mod Stack
pub mod Push
pub mod Pop
use amisync.Common.{
  ℕ, zero, suc, ◌+◌, ◌-◌, Bool, true, false, ◌&&◌, ◌||◌, Option, none, some, List, [], ◌∷◌, take,
  if◌then◌else◌, ltb, leb, ◌==◌, bytes_eq,
}
use amisync.Common.Int.{ℤ, pos, pos_part, sub_ℕ, ltb_ℤ}
use amisync.Common.Arrays.{store, store_all, read_all}
use amisync.Bep.{BepFileInfo, BepVector}
use amisync.SyncModel.Meta.{SyncMeta, meta_from_fi, zero_hash}

abbrev pub sync_max_want : ℕ
sync_max_want = 256

abbrev pub sync_hash_pool : ℕ
sync_hash_pool = 2048

-- `num_blocks` is stored only when it is not negative.
pub record WantFile : Type 0 where
  pub folder_idx : ℕ
  pub fi : SyncMeta
  pub hash_off : ℕ
  pub num_blocks : ℕ
  pub conflict : Bool
  pub attempts : ℕ

-- The two arrays are functions of the index; a hash is the list of its bytes.
pub record SyncModel : Type 0 where
  pub num_want : ℕ
  pub hash_used : ℕ
  pub want : ℕ → WantFile
  pub want_hashes : ℕ → List ℕ

abbrev zero_want : WantFile
zero_want = record {
  folder_idx = 0;
  fi = record {
    name = [];
    size = pos 0;
    permissions = 0;
    modified_s = pos 0;
    modified_ns = pos 0;
    modified_by = 0;
    sequence = pos 0;
    block_size = pos 0;
    version = record { counters = [] };
    content_hash = zero_hash;
    type = 0;
    deleted = false;
    invalid = false;
    has_content_hash = false;
  };
  hash_off = 0;
  num_blocks = 0;
  conflict = false;
  attempts = 0;
}

-- The memset of sync_init; it needs no old state.
unfoldable pub sync_init : SyncModel
sync_init = record {
  num_want = 0;
  hash_used = 0;
  want = λ i. zero_want;
  want_hashes = λ i. zero_hash;
}

-- num_blocks < 0 || num_blocks > SYNC_HASH_POOL - m->hash_used
unfoldable pub pool_full : SyncModel → ℤ → Bool
pool_full m num_blocks =
    ltb_ℤ num_blocks (pos 0) || ltb_ℤ (sub_ℕ sync_hash_pool m.hash_used) num_blocks

-- The writes of a push that has passed its guards. `hashes` holds `n` hashes at least.
unfoldable pub push_entry : SyncModel → ℕ → BepFileInfo → List (List ℕ) → ℕ → Bool → ℕ → SyncModel
push_entry m folder_idx meta hashes n conflict attempts = record {
  num_want = m.num_want + 1;
  hash_used = m.hash_used + n;
  want = store m.want m.num_want (record {
    folder_idx = folder_idx;
    fi = meta_from_fi meta;
    hash_off = m.hash_used;
    num_blocks = n;
    conflict = conflict;
    attempts = attempts;
  });
  want_hashes = store_all m.want_hashes m.hash_used (take n hashes);
}

unfoldable pub sync_want_push_again :
    SyncModel → ℕ → BepFileInfo → List (List ℕ) → ℤ → Bool → ℕ → SyncModel × Bool
unfolding pool_full push_entry
sync_want_push_again m folder_idx meta hashes num_blocks conflict attempts =
    if leb sync_max_want m.num_want
    then (m, false)
    else if pool_full m num_blocks
    then (m, false)
    else (push_entry m folder_idx meta hashes (pos_part num_blocks) conflict attempts, true)

unfoldable pub sync_want_push :
    SyncModel → ℕ → BepFileInfo → List (List ℕ) → ℤ → Bool → SyncModel × Bool
unfolding sync_want_push_again
sync_want_push m folder_idx meta hashes num_blocks conflict =
    sync_want_push_again m folder_idx meta hashes num_blocks conflict 0

-- The test of the loop of sync_want_has.
unfoldable pub is_file : WantFile → ℕ → List ℕ → Bool
is_file t folder_idx name = t.folder_idx == folder_idx && bytes_eq t.fi.name name

-- The loop over the entries from index `i` on, `left` of them.
unfoldable pub has_from : SyncModel → ℕ → List ℕ → ℕ → ℕ → Bool
has_from m folder_idx name i zero = false
has_from m folder_idx name i (suc left) =
    is_file (m.want i) folder_idx name || has_from m folder_idx name (suc i) left

unfoldable pub sync_want_has : SyncModel → ℕ → List ℕ → Bool
unfolding has_from is_file
sync_want_has m folder_idx name = has_from m folder_idx name 0 m.num_want

-- What is written through `folder_idx` and `name` (strncpy of at most cap - 1 bytes).
unfoldable pub sync_want_peek : SyncModel → ℕ → Option (ℕ × List ℕ)
sync_want_peek m cap =
    if m.num_want == 0
    then none
    else some
        ((m.want (m.num_want - 1)).folder_idx, take (cap - 1) (m.want (m.num_want - 1)).fi.name)

-- The entry and the hashes that are written through `out` and `hashes_out`.
unfoldable pub sync_want_pop : SyncModel → ℕ → SyncModel × Option (WantFile × List (List ℕ))
sync_want_pop m cap =
    if m.num_want == 0
    then (m, none)
    else (let t = m.want (m.num_want - 1) in
        let ncopy = if ltb t.num_blocks cap then t.num_blocks else cap in
        (
          record m { num_want = m.num_want - 1; hash_used = t.hash_off },
          some (t, read_all m.want_hashes t.hash_off ncopy),
        ))
