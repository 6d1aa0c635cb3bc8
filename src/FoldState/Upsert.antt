-- ===== src/FoldState/Upsert.antt =====
-- foldstate_upsert of src/foldstate.c, with ensure_cap, set_name and set_blocks. Which allocations
-- succeed is an argument; a failed one leaves the code's own traces.
pub mod Grown
pub mod Holds
pub mod Stores
use amisync.Common.{
  ℕ, text_of, zero, suc, ◌+◌, ◌*◌, ◌-◌, Bool, true, false, ◌&&◌, not, Option, none, some, List, [],
  ◌∷◌, take, if◌then◌else◌, ltb, leb, ◌==◌,
}
use amisync.Common.Arrays.{store}
use amisync.Bep.{bep_path_max}
use amisync.SyncModel.Meta.{SyncMeta}
use amisync.FoldState.Record.{FolderRec, rec_from_meta}
use amisync.FoldState.Table.{FileSlot, FolderState, hash_link, hash_rebuild, find_slot}

abbrev pub foldstate_init_files : ℕ
foldstate_init_files = 64

abbrev pub foldstate_max_files : ℕ
foldstate_max_files = 100000

-- What FS_ALLOC answers: for the seven arrays of a grown table, for the name, for the spilled
-- counters and for the blocks.
pub record Allocs : Type 0 where
  pub table : Bool
  pub name : Bool
  pub version : Bool
  pub blocks : Bool

-- while (newcap < need) newcap *= 2; `need` rounds are enough, as `newcap` is not 0.
unfoldable pub double_up : ℕ → ℕ → ℕ → ℕ
double_up zero newcap need = newcap
double_up (suc fuel) newcap need =
    let more = double_up fuel (newcap * 2) need in if ltb newcap need then more else newcap

unfoldable pub grown_cap : ℕ → ℕ → ℕ
unfolding double_up
grown_cap cap need =
    let newcap = double_up need (if cap == 0 then foldstate_init_files else cap) need in
    if ltb foldstate_max_files newcap then foldstate_max_files else newcap

-- The names array is cleared before the names in use are copied over.
abbrev pub moved : FolderState → ℕ → FolderState
moved fs newcap = record fs {
  cap = newcap;
  slots = λ i. if ltb i fs.num_files then fs.slots i else record (fs.slots i) { name = none };
}

unfoldable pub ensure_cap : FolderState → ℕ → Bool → FolderState × Bool
unfolding grown_cap hash_rebuild
ensure_cap fs need allocated =
    if leb need fs.cap
    then (fs, true)
    else if ltb foldstate_max_files need
    then (fs, false)
    else if not allocated
    then (fs, false)
    else (hash_rebuild (moved fs (grown_cap fs.cap need)), true)

abbrev pub clear_blocks : FileSlot → FileSlot
clear_blocks s = elim s.blocks [ none ↦ s | some b ↦ record s { blocks = none; nblocks = 0 } ]

-- A negative `nblocks` is like 0.
unfoldable pub set_blocks : FileSlot → Option (List (List ℕ)) → ℕ → Bool → FileSlot
set_blocks s none nblocks allocated = clear_blocks s
set_blocks s (some hashes) nblocks allocated =
    if ltb 0 nblocks && allocated
    then record (clear_blocks s) { blocks = some (take nblocks hashes); nblocks = nblocks }
    else clear_blocks s

-- A slot that has just been taken into use.
abbrev pub fresh_slot : FileSlot → FileSlot
fresh_slot s = record s {
  blocks = none;
  nblocks = 0;
  seen = false;
  name = none;
  file = record s.file { vext = none; nver = 0 };
}

abbrev pub write_meta : FileSlot → SyncMeta → Bool → FileSlot
write_meta s meta allocated = record s { file = rec_from_meta s.file meta allocated }

-- The folder's latest change: 1 added, 2 updated, 3 deleted.
abbrev pub note_change : FolderState → SyncMeta → Bool → FolderState
note_change fs meta was_new =
    if meta.type == 0 && not meta.invalid
    then record fs {
      chg_verb = if meta.deleted then 3 else if was_new then 1 else 2;
      chg_name = take (bep_path_max - 1) meta.name;
    }
    else fs

-- The end of the function, once the record is in slot i.
abbrev pub finish :
    FolderState → ℕ → SyncMeta → Option (List (List ℕ)) → ℕ → Bool → Bool → FolderState
finish fs i meta hashes nblocks allocated was_new =
    note_change
      (record fs {
        slots = store fs.slots i (set_blocks (fs.slots i) hashes nblocks allocated);
        dirty = true;
      })
      meta was_new

-- fs->num_files++, with the slot written, and linked last.
abbrev pub append_slot : FolderState → SyncMeta → Bool → FolderState
append_slot fs meta allocated =
    let i = fs.num_files in
    let s = record (fresh_slot (fs.slots i)) { name = some meta.name } in
    hash_link
      (record fs { num_files = suc i; slots = store fs.slots i (write_meta s meta allocated) }) i

abbrev pub insert_new :
    SyncMeta → Option (List (List ℕ)) → ℕ → Allocs → FolderState × Bool → FolderState × Bool
insert_new meta hashes nblocks a (fs, false) = (fs, false)
insert_new meta hashes nblocks a (fs, true) =
    if a.name
    then (
      finish (append_slot fs meta a.version) fs.num_files meta hashes nblocks a.blocks true,
      true,
    )
    else (
      record fs { slots = store fs.slots fs.num_files (fresh_slot (fs.slots fs.num_files)) },
      false,
    )

abbrev pub update_slot :
    FolderState → SyncMeta → Option (List (List ℕ)) → ℕ → Allocs → ℕ → FolderState
update_slot fs meta hashes nblocks a i =
    finish (record fs { slots = store fs.slots i (write_meta (fs.slots i) meta a.version) }) i meta
      hashes nblocks a.blocks false

abbrev pub upsert_at :
    FolderState → SyncMeta → Option (List (List ℕ)) → ℕ → Allocs → Option ℕ → FolderState × Bool
upsert_at fs meta hashes nblocks a none =
    insert_new meta hashes nblocks a (ensure_cap fs (fs.num_files + 1) a.table)
upsert_at fs meta hashes nblocks a (some i) = (update_slot fs meta hashes nblocks a i, true)

unfoldable pub foldstate_upsert :
    FolderState → SyncMeta → Option (List (List ℕ)) → ℕ → Allocs → FolderState × Bool
unfolding ensure_cap set_blocks
foldstate_upsert fs meta hashes nblocks a =
    upsert_at fs meta hashes nblocks a (find_slot fs meta.name)
