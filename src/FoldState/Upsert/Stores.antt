-- ===== src/FoldState/Upsert/Stores.antt =====
-- foldstate_upsert as an update of the map from names to slots.

use amisync.Common.{
  ℕ, ◌+◌, ◌≤◌, ◌<◌, ◌≡◌, ◌≢◌, ◌⊎◌, refl, sym, ap, ◌∙◌, inl, inr, Bool, true, false, ◌&&◌, not,
  Option, none, some, List, take, arith, length, Bool-cases, Option-cases, ltb, ◌==◌,
}
use amisync.Common.Arrays.{store}
use amisync.SyncModel.Meta.{SyncMeta}
use amisync.FoldState.Table.{FileSlot, FolderState}
use amisync.FoldState.Table.Chain.{slot_named, find_slot_lem}
use amisync.FoldState.Table.Kept.{
  IsFolder, entry, SameNames-IsFolder, entry-store, store-SameNames, at_slot, found_own, store_self,
  slot_named-store, at_slot-none, same_entry,
}
use amisync.FoldState.Table.Appended.{
  appended, appended-IsFolder, entry-appended, append-SameNames, slot_named-appended,
  slots-appended,
}
use amisync.FoldState.Access.{foldstate_blocks}
use amisync.FoldState.Access.Blocks.{foldstate_blocks-entry}
use amisync.FoldState.Upsert.Grown.{Ensured, ensure_cap-Ensured}
use amisync.FoldState.Upsert.{
  Allocs, foldstate_max_files, ensure_cap, set_blocks, fresh_slot, write_meta, finish, append_slot,
  insert_new, update_slot, foldstate_upsert,
}
use amisync.FoldState.Upsert.Holds.{
  stored_blocks, count_left, stored_count, seen_before, Holds, set_blocks-keeps, set_blocks-Holds,
}

-- The end of the function writes the one slot.
record Finished (fs : FolderState) (name : List ℕ) (s : FileSlot) (fs' : FolderState) : Type 0 where
  kept : IsFolder fs'
  self : entry fs' name ≡ some s
  others : (k : List ℕ) → k ≢ name → entry fs' k ≡ entry fs k

finish-Finished :
    (fs : FolderState) (i : ℕ) (meta : SyncMeta) (hashes : Option (List (List ℕ))) (nblocks : ℕ)
    (allocated was_new : Bool)
    → IsFolder fs
    → slot_named fs meta.name ≡ some i
    → Finished fs meta.name
        (set_blocks (fs.slots i) hashes nblocks allocated)
        (finish fs i meta hashes nblocks allocated was_new)
finish-Finished fs i meta hashes nblocks allocated was_new x found =
    let s = set_blocks (fs.slots i) hashes nblocks allocated in
    let same = (set_blocks-keeps (fs.slots i) hashes nblocks allocated).0 in
    let kept =
      SameNames-IsFolder fs (store fs.slots i s) (store-SameNames fs.slots i fs.num_files s same)
        x in
    let (self, others) = entry-store fs i s meta.name found same in
    elim (Bool-cases (meta.type == 0 && not meta.invalid)) [
      | inl e ↦ rw e (record { kept = kept; self = self; others = others })
      | inr e ↦ rw e (record { kept = kept; self = self; others = others })
    ]

-- What an upsert promises of the map from names to slots.
pub record Upserted (fs : FolderState) (meta : SyncMeta) (hashes : Option (List (List ℕ)))
    (nblocks : ℕ) (a : Allocs) (fs' : FolderState) (ok : Bool) : Type 0 where
  pub kept : IsFolder fs'
  pub others : (k : List ℕ) → k ≢ meta.name → entry fs' k ≡ entry fs k
  pub stored :
      ok ≡ true
      → (s : FileSlot) × (entry fs' meta.name ≡ some s)
        × Holds meta
            (stored_blocks hashes nblocks a.blocks)
            (stored_count hashes nblocks a.blocks (count_left (entry fs meta.name)))
            a.version
            (seen_before (entry fs meta.name))
            s
  pub refused :
      ok ≡ false
      → (entry fs meta.name ≡ none)
        × (entry fs' meta.name ≡ none)
        × ((foldstate_max_files ≤ fs.num_files) ⊎ ((a.table && a.name) ≡ false))

below_store :
    (slots : ℕ → FileSlot) (n : ℕ) (s : FileSlot) (j : ℕ) → j < n → slots j ≡ store slots n s j
below_store slots n s j h = let k : (j == n) ≡ false = ground arith in rw k refl

module _ (meta : SyncMeta) (hashes : Option (List (List ℕ))) (nblocks : ℕ) (a : Allocs)
    (short : length meta.name ≤ 255) (few : length meta.version.counters ≤ 16) where
  abbrev written : FileSlot → FileSlot
  written s = set_blocks (write_meta s meta a.version) hashes nblocks a.blocks

  update_slot-Upserted :
      (fs : FolderState) (i : ℕ)
      → IsFolder fs
      → slot_named fs meta.name ≡ some i
      → Upserted fs meta hashes nblocks a (update_slot fs meta hashes nblocks a i) true
  update_slot-Upserted fs i x found =
      let w = write_meta (fs.slots i) meta a.version in
      let fs1 : FolderState = record fs { slots = store fs.slots i w } in
      let own = found_own fs.slots fs.num_files i meta.name found in
      let kept =
        SameNames-IsFolder fs (store fs.slots i w) (store-SameNames fs.slots i fs.num_files w refl)
          x in
      let done =
        finish-Finished fs1 i meta hashes nblocks a.blocks false kept
          (slot_named-store fs i w meta.name refl ∙ found) in
      let (self, others) = entry-store fs i w meta.name found refl in
      record {
        kept = done.kept;
        others = λ k ne. done.others k ne ∙ others k ne;
        stored = λ e. (
          written (fs.slots i),
          done.self
              ∙ ap (λ t. some (set_blocks t hashes nblocks a.blocks)) (store_self fs.slots i w),
          rw (ap (at_slot fs.slots) found)
              (set_blocks-Holds (fs.slots i) meta hashes nblocks a own short few),
        );
        refused = λ e. cc;
      }

  named_slot : FileSlot → FileSlot
  named_slot s = record (fresh_slot s) { name = some meta.name }

  appended-Upserted :
      (fs fs1 : FolderState)
      → slot_named fs meta.name ≡ none
      → slot_named fs1 meta.name ≡ none
      → Ensured fs (fs.num_files + 1) a.table fs1 true
      → Upserted fs meta hashes nblocks a
          (finish (append_slot fs1 meta a.version) fs1.num_files meta hashes nblocks a.blocks true)
          true
  unfolding named_slot
  appended-Upserted fs fs1 absent here e =
      let n = named_slot (fs1.slots fs1.num_files) in
      let w = write_meta n meta a.version in
      let room : fs1.num_files < fs1.cap = omega (arith, e.room refl, e.count) in
      let kept = appended-IsFolder fs1 w meta.name refl room here e.kept in
      let done =
        finish-Finished (appended fs1 w) fs1.num_files meta hashes nblocks a.blocks true kept
          (slot_named-appended fs1 w meta.name refl) in
      let (self, others) = entry-appended fs1 w meta.name refl in
      record {
        kept = done.kept;
        others = λ k ne. done.others k ne ∙ others k ne ∙ e.same k;
        stored = λ f. (
          written n,
          done.self ∙ ap (λ t. some (set_blocks t hashes nblocks a.blocks)) (slots-appended fs1 w),
          rw (ap (at_slot fs.slots) absent)
              (set_blocks-Holds n meta hashes nblocks a refl short few),
        );
        refused = λ f. cc;
      }

  unnamed-Upserted :
      (fs fs1 : FolderState)
      → slot_named fs meta.name ≡ none
      → slot_named fs1 meta.name ≡ none
      → Ensured fs (fs.num_files + 1) a.table fs1 true
      → a.name ≡ false
      → Upserted fs meta hashes nblocks a
          (record fs1 {
            slots = store fs1.slots fs1.num_files (fresh_slot (fs1.slots fs1.num_files));
          })
          false
  unnamed-Upserted fs fs1 absent here e n =
      let f = fresh_slot (fs1.slots fs1.num_files) in
      let same = λ (k : List ℕ). sym (
        same_entry fs1.slots (store fs1.slots fs1.num_files f) fs1.num_files k
          (λ j h. below_store fs1.slots fs1.num_files f j h)) in
      record {
        kept =
            SameNames-IsFolder fs1 (store fs1.slots fs1.num_files f)
              (append-SameNames fs1.slots fs1.num_files f) e.kept;
        others = λ k ne. same k ∙ e.same k;
        stored = λ g. cc;
        refused = λ g. (
          ap (at_slot fs.slots) absent,
          same meta.name ∙ ap (at_slot fs1.slots) here,
          inr (ground (arith, n)),
        );
      }

  insert_new-Upserted :
      (fs fs1 : FolderState) (ok : Bool)
      → slot_named fs meta.name ≡ none
      → Ensured fs (fs.num_files + 1) a.table fs1 ok
      → Upserted fs meta hashes nblocks a
          (insert_new meta hashes nblocks a (fs1, ok)).0
          (insert_new meta hashes nblocks a (fs1, ok)).1
  insert_new-Upserted fs fs1 false absent e =
      let (same, why) = e.full refl in
      record {
        kept = e.kept;
        others = λ k ne. e.same k;
        stored = λ f. cc;
        refused = λ f. (
          ap (at_slot fs.slots) absent,
          e.same meta.name ∙ ap (at_slot fs.slots) absent,
          elim why [ inl h ↦ inl (omega arith) | inr h ↦ inr (ground (arith, h)) ],
        );
      }
  insert_new-Upserted fs fs1 true absent e =
      let here : slot_named fs1 meta.name ≡ none =
        at_slot-none fs1.slots (slot_named fs1 meta.name)
          (e.same meta.name ∙ ap (at_slot fs.slots) absent) in
      elim (Bool-cases a.name) [
        | inl n ↦ simp n (appended-Upserted fs fs1 absent here e)
        | inr n ↦ simp n (unnamed-Upserted fs fs1 absent here e n)
      ]

-- The hashes that were given are what foldstate_blocks reads, as far as they fit its buffer.
abbrev pub ReadsBlocks :
    SyncMeta → Option (List (List ℕ)) → ℕ → Allocs → FolderState → Bool → Type 0
ReadsBlocks meta none nblocks a fs' ok = Unit {0}
ReadsBlocks meta (some hashes) nblocks a fs' ok =
    ok ≡ true
    → a.blocks ≡ true
    → 0 < nblocks
    → (room : ℕ) → foldstate_blocks fs' meta.name room ≡ (take room (take nblocks hashes), nblocks)

Upserted-ReadsBlocks :
    (fs : FolderState) (meta : SyncMeta) (hashes : Option (List (List ℕ))) (nblocks : ℕ)
    (a : Allocs) (fs' : FolderState) (ok : Bool)
    → Upserted fs meta hashes nblocks a fs' ok
    → ReadsBlocks meta hashes nblocks a fs' ok
Upserted-ReadsBlocks fs meta none nblocks a fs' ok u = tt
Upserted-ReadsBlocks fs meta (some hashes) nblocks a fs' ok u = λ done free h room.
    let (s, e, holds) = u.stored done in
    let both : (ltb 0 nblocks && a.blocks) ≡ true = ground arith in
    foldstate_blocks-entry fs' meta.name s room nblocks hashes u.kept e
      (holds.blocks_of ∙ rw both refl) (holds.count_of ∙ rw both refl) h

upsert-Upserted :
    (fs : FolderState) (meta : SyncMeta) (hashes : Option (List (List ℕ))) (nblocks : ℕ)
    (a : Allocs)
    → IsFolder fs
    → length meta.name ≤ 255
    → length meta.version.counters ≤ 16
    → Upserted fs meta hashes nblocks a
        (foldstate_upsert fs meta hashes nblocks a).0
        (foldstate_upsert fs meta hashes nblocks a).1
unfolding foldstate_upsert
upsert-Upserted fs meta hashes nblocks a x short few =
    let found = find_slot_lem fs meta.name (x.fits, x.linked) in
    elim (Option-cases (slot_named fs meta.name)) [
      | inl e ↦
          rw (found, e)
            (insert_new-Upserted meta hashes nblocks a short few fs
              (ensure_cap fs (fs.num_files + 1) a.table).0
              (ensure_cap fs (fs.num_files + 1) a.table).1 e
              (ensure_cap-Ensured fs (fs.num_files + 1) a.table x))
      | inr (i, e) ↦ rw (found, e) (update_slot-Upserted meta hashes nblocks a short few fs i x e)
    ]

-- foldstate_upsert on a well-formed table, with a name of at most 255 bytes and at most 16 counters:
-- the table stays well formed, and no other name's entry changes. If it returns 1, the name's entry
-- holds the record (with all counters, or the first four if their allocation failed), the given
-- block hashes with their number (no hashes, and 0 or the number left of an entry that had none, if
-- none are given or their allocation failed) and the scan mark it had (0, if it is new), and
-- foldstate_blocks reads those hashes and that number. It returns 0 only for a name that was absent, and still is, when the table is at its ceiling or an
-- allocation failed.
pub foldstate_upsert-Upserted :
    (fs : FolderState) (meta : SyncMeta) (hashes : Option (List (List ℕ))) (nblocks : ℕ)
    (a : Allocs)
    → IsFolder fs
    → length meta.name ≤ 255
    → length meta.version.counters ≤ 16
    → Upserted fs meta hashes nblocks a
        (foldstate_upsert fs meta hashes nblocks a).0
        (foldstate_upsert fs meta hashes nblocks a).1
      × ReadsBlocks meta hashes nblocks a
          (foldstate_upsert fs meta hashes nblocks a).0
          (foldstate_upsert fs meta hashes nblocks a).1
foldstate_upsert-Upserted fs meta hashes nblocks a x short few =
    let u = upsert-Upserted fs meta hashes nblocks a x short few in
    (u, Upserted-ReadsBlocks fs meta hashes nblocks a _ _ u)
