-- ===== src/FoldState/Forget.antt =====
-- The removals of src/foldstate.c: foldstate_forget, foldstate_forget_unseen and
-- foldstate_prune_tombstones.
pub mod Removal
pub mod Filtered
pub mod ByName
use amisync.Common.{
  ℕ, zero, suc, ◌+◌, ◌-◌, Bool, true, false, ◌&&◌, ◌||◌, not, Option, none, some, List, [], ◌∷◌,
  if◌then◌else◌, ltb, ◌==◌,
}
use amisync.Common.Int.{ℤ, ltb_ℤ}
use amisync.Common.Arrays.{store}
use amisync.FoldState.Record.{FolderRec, free_version}
use amisync.FoldState.Table.{FileSlot, FolderState, is_named, hash_rebuild}

-- The tail slot, once its record has moved.
abbrev pub vacated : FileSlot → FileSlot
vacated s = record {
  file = record s.file { vext = none; nver = 0 };
  name = none;
  blocks = none;
  nblocks = 0;
  seen = false;
}

-- The tail record moves into the hole.
abbrev pub swap_remove : FolderState → ℕ → FolderState
swap_remove fs i =
    let last = fs.num_files - 1 in
    record fs {
      num_files = last;
      slots = store (store fs.slots i (fs.slots last)) last (vacated (fs.slots last));
    }

-- The loop of a removal: slot i is looked at again after a swap. Each round brings i and num_files
-- closer, so num_files rounds are enough.
unfoldable pub remove_loop : (FileSlot → Bool) → ℕ → FolderState → ℕ → ℕ → FolderState × ℕ
remove_loop drop zero fs i removed = (fs, removed)
remove_loop drop (suc fuel) fs i removed =
    let again = remove_loop drop fuel (swap_remove fs i) i (removed + 1) in
    let next = remove_loop drop fuel fs (suc i) removed in
    if ltb i fs.num_files then (if drop (fs.slots i) then again else next) else (fs, removed)

abbrev pub settle : FolderState × ℕ → FolderState × ℕ
settle (fs, removed) =
    if ltb 0 removed
    then (hash_rebuild (record fs { dirty = true; prune_gen = fs.prune_gen + 1 }), removed)
    else (fs, removed)

unfoldable pub remove_where : (FileSlot → Bool) → FolderState → FolderState × ℕ
unfolding remove_loop hash_rebuild
remove_where drop fs = settle (remove_loop drop fs.num_files fs 0 0)

-- Live, valid, not met by the scan, and no newer than its start.
abbrev pub is_unseen : ℤ → FileSlot → Bool
is_unseen before s =
    not (s.file.deleted || s.file.invalid || s.seen || ltb_ℤ before s.file.sequence)

unfoldable pub foldstate_forget_unseen : FolderState → ℤ → FolderState × ℕ
unfolding remove_where
foldstate_forget_unseen fs before = remove_where (is_unseen before) fs

abbrev pub is_old_tombstone : ℤ → FileSlot → Bool
is_old_tombstone cutoff s = s.file.deleted && ltb_ℤ s.file.modified_s cutoff

unfoldable pub foldstate_prune_tombstones : FolderState → ℤ → FolderState × ℕ
unfolding remove_where
foldstate_prune_tombstones fs cutoff = remove_where (is_old_tombstone cutoff) fs

-- for (; n > 0; i++, n--): the first slot of the name, without the hash.
unfoldable pub first_named : (ℕ → FileSlot) → List ℕ → ℕ → ℕ → Option ℕ
first_named slots name i zero = none
first_named slots name i (suc n) =
    let next = first_named slots name (suc i) n in if is_named name (slots i) then some i else next

abbrev pub forget_at : FolderState → Option ℕ → FolderState × Bool
forget_at fs none = (fs, false)
forget_at fs (some i) =
    let fs' = swap_remove fs i in
    (hash_rebuild (record fs' { dirty = true; prune_gen = fs'.prune_gen + 1 }), true)

unfoldable pub foldstate_forget : FolderState → List ℕ → FolderState × Bool
unfolding first_named hash_rebuild
foldstate_forget fs name = forget_at fs (first_named fs.slots name 0 fs.num_files)
