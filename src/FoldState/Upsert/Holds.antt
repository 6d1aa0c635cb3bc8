-- ===== src/FoldState/Upsert/Holds.antt =====
-- What a slot holds once foldstate_upsert has written it.

use amisync.Common.{
  ℕ, ◌≤◌, ◌≡◌, ap₂, ◌∙◌, Bool, false, ◌&&◌, Option, none, some, List, take, arith, length,
  if◌then◌else◌, ltb,
}
use amisync.SyncModel.Meta.{SyncMeta}
use amisync.FoldState.Record.{meta_from_rec, kept_counters, meta_from_rec-rec_from_meta}
use amisync.FoldState.Table.{FileSlot}
use amisync.FoldState.Upsert.{Allocs, set_blocks, write_meta}

abbrev pub stored_blocks : Option (List (List ℕ)) → ℕ → Bool → Option (List (List ℕ))
stored_blocks none nblocks allocated = none
stored_blocks (some hashes) nblocks allocated =
    if ltb 0 nblocks && allocated then some (take nblocks hashes) else none

-- How many hashes a slot is left with where none are stored: 0 if it is new or had some.
abbrev pub count_left : Option FileSlot → ℕ
count_left none = 0
count_left (some s) = elim s.blocks [ none ↦ s.nblocks | some b ↦ 0 ]

abbrev pub stored_count : Option (List (List ℕ)) → ℕ → Bool → ℕ → ℕ
stored_count none nblocks allocated left = left
stored_count (some hashes) nblocks allocated left =
    if ltb 0 nblocks && allocated then nblocks else left

abbrev pub seen_before : Option FileSlot → Bool
seen_before none = false
seen_before (some s) = s.seen

-- A slot with the record, its blocks and their number, and the mark of the scan as it was.
pub record Holds (meta : SyncMeta) (blocks : Option (List (List ℕ))) (count : ℕ)
    (version_ok seen : Bool) (s : FileSlot) : Type 0 where
  pub meta_of : meta_from_rec s.file s.name ≡ record meta {
    version = record { counters = kept_counters meta.version.counters version_ok };
  }
  pub blocks_of : s.blocks ≡ blocks
  pub count_of : s.nblocks ≡ count
  pub seen_of : s.seen ≡ seen

set_blocks-blocks :
    (s : FileSlot) (hashes : Option (List (List ℕ))) (nblocks : ℕ) (allocated : Bool)
    → (set_blocks s hashes nblocks allocated).blocks ≡ stored_blocks hashes nblocks allocated
unfolding set_blocks
set_blocks-blocks s none nblocks allocated = ground arith
set_blocks-blocks s (some hashes) nblocks allocated = ground arith

set_blocks-nblocks :
    (s : FileSlot) (hashes : Option (List (List ℕ))) (nblocks : ℕ) (allocated : Bool)
    → (set_blocks s hashes nblocks allocated).nblocks
      ≡ stored_count hashes nblocks allocated (count_left (some s))
unfolding set_blocks
set_blocks-nblocks s none nblocks allocated = ground arith
set_blocks-nblocks s (some hashes) nblocks allocated = ground arith

pub set_blocks-keeps :
    (s : FileSlot) (hashes : Option (List (List ℕ))) (nblocks : ℕ) (allocated : Bool)
    → ((set_blocks s hashes nblocks allocated).name ≡ s.name)
      × ((set_blocks s hashes nblocks allocated).file ≡ s.file)
      × ((set_blocks s hashes nblocks allocated).seen ≡ s.seen)
unfolding set_blocks
set_blocks-keeps s none nblocks allocated = ground arith
set_blocks-keeps s (some hashes) nblocks allocated = ground arith

pub set_blocks-Holds :
    (s : FileSlot) (meta : SyncMeta) (hashes : Option (List (List ℕ))) (nblocks : ℕ) (a : Allocs)
    → s.name ≡ some meta.name
    → length meta.name ≤ 255
    → length meta.version.counters ≤ 16
    → Holds meta
        (stored_blocks hashes nblocks a.blocks)
        (stored_count hashes nblocks a.blocks (count_left (some s)))
        a.version
        s.seen
        (set_blocks (write_meta s meta a.version) hashes nblocks a.blocks)
set_blocks-Holds s meta hashes nblocks a e short few =
    let w = write_meta s meta a.version in
    let (name, file, seen) = set_blocks-keeps w hashes nblocks a.blocks in
    record {
      meta_of =
          ap₂ meta_from_rec file (name ∙ e)
          ∙ meta_from_rec-rec_from_meta s.file meta a.version short few;
      blocks_of = set_blocks-blocks w hashes nblocks a.blocks;
      count_of = set_blocks-nblocks w hashes nblocks a.blocks;
      seen_of = seen;
    }
