-- ===== src/FoldState/Access.antt =====
-- The smaller operations of src/foldstate.c: start and reset of a folder, reads of a record, the marks
-- of a scan, and the counters. A `FolderRec *` is the index of its slot.
pub mod Scan
pub mod Blocks
use amisync.Common.{
  ℕ, text_of, zero, suc, ◌+◌, ◌*◌, ◌-◌, Bool, true, false, ◌&&◌, Option, none, some, List, [], ◌∷◌,
  take, replicate, if◌then◌else◌, ltb, leb, ◌==◌, length,
}
use amisync.Common.Arrays.{store}
use amisync.Common.Int.{ℤ, pos}
use amisync.Bep.{bep_folder_id_max, BepVector, bep_path_max}
use amisync.SyncModel.Meta.{SyncMeta, zero_hash}
use amisync.FoldState.Claims.{FolderClaim, no_claims, foldstate_max_claims}
use amisync.FoldState.Record.{FolderRec, set_version, get_version, meta_from_rec}
use amisync.FoldState.Table.{FileSlot, FolderWantSet, FolderState, find_slot}

abbrev pub zero_rec : FolderRec
zero_rec = record {
  size = pos 0;
  permissions = 0;
  modified_s = pos 0;
  modified_ns = pos 0;
  modified_by = 0;
  sequence = pos 0;
  block_size = pos 0;
  nver = 0;
  vin = [];
  vext = none;
  content_hash = zero_hash;
  type = 0;
  deleted = false;
  invalid = false;
  has_content_hash = false;
}

abbrev pub no_want : FolderWantSet
no_want = record { owner = none; keys = λ i. 0; cap = 0; n = 0; overflow = false }

-- The memset, the folder's id and the short id; it needs no old state. The arrays are NULL.
unfoldable pub foldstate_init : List ℕ → ℕ → FolderState
foldstate_init folder_id short_id = record {
  folder_id = take (bep_folder_id_max - 1) folder_id;
  short_id = short_id;
  sequence = 0;
  prune_gen = 0;
  dirty = false;
  scan_day = 0;
  scan_min = 0;
  index_id = 0;
  chg_verb = 0;
  chg_name = [];
  num_files = 0;
  cap = 0;
  slots = λ i. record { file = zero_rec; name = none; blocks = none; nblocks = 0; seen = false };
  hhead = λ b. none;
  hnext = λ i. none;
  need_gen = 0;
  claims = no_claims;
  wants = replicate foldstate_max_claims no_want;
}

-- The arrays are freed, so what the slots held is out of reach.
unfoldable pub foldstate_free : FolderState → FolderState
foldstate_free fs = record fs {
  cap = 0;
  num_files = 0;
  wants = replicate foldstate_max_claims no_want;
  chg_verb = 0;
  chg_name = [];
  scan_day = 0;
  scan_min = 0;
}

unfoldable pub foldstate_reset : FolderState → List ℕ → ℕ → ℕ → FolderState
unfolding foldstate_free
foldstate_reset fs folder_id short_id index_id =
    let freed = foldstate_free fs in
    record freed {
      sequence = 0;
      prune_gen = 0;
      dirty = false;
      index_id = index_id;
      folder_id = take (bep_folder_id_max - 1) folder_id;
      short_id = short_id;
      claims = no_claims;
    }

-- At most `cap` hashes of the name's blocks, and how many there are.
abbrev pub blocks_at : FolderState → ℕ → Option ℕ → List (List ℕ) × ℕ
blocks_at fs cap_out none = ([], 0)
blocks_at fs cap_out (some i) =
    let s = fs.slots i in
    let n = if ltb s.nblocks cap_out then s.nblocks else cap_out in
    elim s.blocks [
      | none ↦ ([], s.nblocks)
      | some hashes ↦ (if leb s.nblocks 0 then [] else take n hashes, s.nblocks)
    ]

unfoldable pub foldstate_blocks : FolderState → List ℕ → ℕ → List (List ℕ) × ℕ
foldstate_blocks fs name cap_out = blocks_at fs cap_out (find_slot fs name)

abbrev pub rec_slot : FolderState → ℕ → Option ℕ
rec_slot fs i = if ltb i fs.num_files then some i else none

unfoldable pub foldstate_name : FolderState → ℕ → List ℕ
foldstate_name fs i = elim (rec_slot fs i) [ none ↦ [] | some j ↦ text_of (fs.slots j).name ]

unfoldable pub foldstate_version : FolderState → ℕ → BepVector
foldstate_version fs i = get_version (fs.slots i).file

unfoldable pub foldstate_set_version : FolderState → ℕ → BepVector → Bool → FolderState
foldstate_set_version fs i v allocated =
    let s = fs.slots i in
    record fs {
      slots = store fs.slots i (record s { file = set_version s.file v allocated });
      dirty = true;
    }

unfoldable pub foldstate_meta : FolderState → ℕ → SyncMeta
foldstate_meta fs i = meta_from_rec (fs.slots i).file (some (foldstate_name fs i))

unfoldable pub foldstate_clear_seen : FolderState → FolderState
foldstate_clear_seen fs = record fs {
  slots = λ i. if ltb i fs.num_files then record (fs.slots i) { seen = false } else fs.slots i;
}

abbrev pub mark_at : FolderState → Option ℕ → FolderState
mark_at fs none = fs
mark_at fs (some i) = record fs { slots = store fs.slots i (record (fs.slots i) { seen = true }) }

unfoldable pub foldstate_mark_seen : FolderState → List ℕ → FolderState
foldstate_mark_seen fs name = mark_at fs (find_slot fs name)

unfoldable pub foldstate_next_seq : FolderState → FolderState × ℕ
foldstate_next_seq fs = (record fs { dirty = true; sequence = fs.sequence + 1 }, fs.sequence + 1)

unfoldable pub foldstate_need_changed : FolderState → FolderState
foldstate_need_changed fs = record fs { need_gen = fs.need_gen + 1 }
