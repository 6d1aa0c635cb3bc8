-- ===== src/FoldState/Tests.antt =====
-- Tables that are built by the operations themselves.
use amisync.Common.{ℕ, ◌≡◌, refl, Bool, true, false, none, some, List, [], ◌∷◌, arith, bytes_eq}
use amisync.Common.Int.{pos}
use amisync.SyncModel.Meta.{SyncMeta, zero_hash}
use amisync.FoldState.Record.{rec_from_meta}
use amisync.FoldState.Claims.{name_hash_of}
use amisync.FoldState.Table.{FolderState, find_slot}
use amisync.FoldState.Table.Chain.{last_where, slot_named, find_slot_lem}
use amisync.FoldState.Table.Kept.{IsFolder, entry}
use amisync.FoldState.Upsert.{Allocs, foldstate_upsert}
use amisync.FoldState.Upsert.Stores.{Upserted, ReadsBlocks, foldstate_upsert-Upserted}
use amisync.FoldState.Forget.{
  is_unseen, is_old_tombstone, foldstate_forget, foldstate_forget_unseen,
  foldstate_prune_tombstones,
}
use amisync.FoldState.Forget.Filtered.{Removed}
use amisync.FoldState.Forget.ByName.{Forgotten, foldstate_forget-prune_tombstones}
use amisync.FoldState.Access.{foldstate_init}
use amisync.FoldState.Access.Scan.{scan_mirror, scanned, is_met, foldstate_forget_unseen-mark_seen}

abbrev meta_of : ℕ → ℕ → Bool → SyncMeta
meta_of letter mtime deleted = record {
  name = letter ∷ [];
  size = pos 5;
  permissions = 0o644;
  modified_s = pos mtime;
  modified_ns = pos 0;
  modified_by = 9;
  sequence = pos 1;
  block_size = pos 131072;
  version = record { counters = record { id = 9; value = 1 } ∷ [] };
  content_hash = zero_hash;
  type = 0;
  deleted = deleted;
  invalid = false;
  has_content_hash = true;
}

abbrev all_free : Allocs
all_free = record { table = true; name = true; version = true; blocks = true }

empty : FolderState
unfolding foldstate_init
empty = foldstate_init (b'f' ∷ []) 9

empty-IsFolder : IsFolder empty
unfolding empty last_where
empty-IsFolder = record {
  fits = omega arith;
  linked = record { heads = λ b h. absurd (omega arith); nexts = λ i h. absurd (omega arith) };
  names = λ i h. absurd (omega arith);
}

foldstate_upsert-Upserted_example :
    Upserted empty
      (meta_of b'a' 7 false)
      (some (zero_hash ∷ []))
      1
      all_free
      (foldstate_upsert empty (meta_of b'a' 7 false) (some (zero_hash ∷ [])) 1 all_free).0
      (foldstate_upsert empty (meta_of b'a' 7 false) (some (zero_hash ∷ [])) 1 all_free).1
    × ReadsBlocks
        (meta_of b'a' 7 false)
        (some (zero_hash ∷ []))
        1
        all_free
        (foldstate_upsert empty (meta_of b'a' 7 false) (some (zero_hash ∷ [])) 1 all_free).0
        (foldstate_upsert empty (meta_of b'a' 7 false) (some (zero_hash ∷ [])) 1 all_free).1
foldstate_upsert-Upserted_example =
    foldstate_upsert-Upserted empty (meta_of b'a' 7 false) (some (zero_hash ∷ [])) 1 all_free
      empty-IsFolder (omega arith) (omega arith)

one_file : FolderState
one_file = (foldstate_upsert empty (meta_of b'a' 7 false) (some (zero_hash ∷ [])) 1 all_free).0

one_file-IsFolder : IsFolder one_file
unfolding one_file
one_file-IsFolder =
    (foldstate_upsert-Upserted empty (meta_of b'a' 7 false) (some (zero_hash ∷ [])) 1 all_free
      empty-IsFolder (omega arith) (omega arith)).0.kept

two_files : FolderState
two_files = (foldstate_upsert one_file (meta_of b'b' 8 true) none 0 all_free).0

two_files-IsFolder : IsFolder two_files
unfolding two_files
two_files-IsFolder =
    (foldstate_upsert-Upserted one_file (meta_of b'b' 8 true) none 0 all_free one_file-IsFolder
      (omega arith) (omega arith)).0.kept

find_slot_lem_example : find_slot two_files (b'b' ∷ []) ≡ slot_named two_files (b'b' ∷ [])
find_slot_lem_example =
    find_slot_lem two_files (b'b' ∷ []) (two_files-IsFolder.fits, two_files-IsFolder.linked)

foldstate_forget-prune_tombstones_example :
    Forgotten two_files
      (b'a' ∷ [])
      (foldstate_forget two_files (b'a' ∷ [])).0
      (foldstate_forget two_files (b'a' ∷ [])).1
    × Removed
        (is_unseen (pos 3))
        two_files
        (foldstate_forget_unseen two_files (pos 3)).0
        (foldstate_forget_unseen two_files (pos 3)).1
    × Removed
        (is_old_tombstone (pos 9))
        two_files
        (foldstate_prune_tombstones two_files (pos 9)).0
        (foldstate_prune_tombstones two_files (pos 9)).1
foldstate_forget-prune_tombstones_example =
    foldstate_forget-prune_tombstones two_files (b'a' ∷ []) (pos 3) (pos 9) two_files-IsFolder

foldstate_forget_unseen-mark_seen_example :
    IsFolder (scan_mirror two_files ((b'a' ∷ []) ∷ []) (pos 3)).0
    × ((k : List ℕ)
        → entry (scan_mirror two_files ((b'a' ∷ []) ∷ []) (pos 3)).0 k
          ≡ scanned (is_met ((b'a' ∷ []) ∷ []) k) (pos 3) (entry two_files k))
foldstate_forget_unseen-mark_seen_example =
    foldstate_forget_unseen-mark_seen two_files ((b'a' ∷ []) ∷ []) (pos 3) two_files-IsFolder

-- The second name is in slot 1, and the prune takes out its tombstone.
found_second : find_slot two_files (b'b' ∷ []) ≡ some 1
unfolding two_files one_file empty foldstate_upsert find_slot name_hash_of bytes_eq
found_second = refl

pruned_one : (foldstate_prune_tombstones two_files (pos 9)).1 ≡ 1
unfolding two_files one_file empty foldstate_upsert foldstate_prune_tombstones find_slot
    name_hash_of rec_from_meta
pruned_one = refl
