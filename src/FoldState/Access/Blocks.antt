-- ===== src/FoldState/Access/Blocks.antt =====
-- What foldstate_blocks reads of an entry.
use amisync.Common.{
  ℕ, ◌≤◌, ◌<◌, ◌≡◌, refl, sym, ap, ◌∙◌, inl, inr, Option, none, some, List, arith, length, take,
  take-all, length-take, Bool-cases, if◌then◌else◌, ltb,
}
use amisync.FoldState.Table.{FileSlot, FolderState}
use amisync.FoldState.Table.Chain.{slot_named, find_slot_lem}
use amisync.FoldState.Table.Kept.{IsFolder, entry, at_slot}
use amisync.FoldState.Access.{blocks_at, foldstate_blocks}

take_twice :
    (hashes : List (List ℕ)) (nblocks room : ℕ)
    → take (if ltb nblocks room then nblocks else room) (take nblocks hashes)
      ≡ take room (take nblocks hashes)
take_twice hashes nblocks room = elim (Bool-cases (ltb nblocks room)) [
  | inl e ↦
      let few : length (take nblocks hashes) ≤ nblocks =
        omega (arith, length-take nblocks hashes) in
      let fewer : nblocks ≤ room = ground arith in
      rw e (
        take-all nblocks (take nblocks hashes) few
        ∙ sym (take-all room (take nblocks hashes) (omega arith)))
  | inr e ↦ rw e refl
]

-- What foldstate_blocks hands out of a slot that holds hashes.
blocks_at_lem :
    (fs : FolderState) (i room nblocks : ℕ) (hashes : List (List ℕ))
    → (fs.slots i).blocks ≡ some (take nblocks hashes)
    → (fs.slots i).nblocks ≡ nblocks
    → 0 < nblocks
    → blocks_at fs room (some i) ≡ (take room (take nblocks hashes), nblocks)
blocks_at_lem fs i room nblocks hashes b n h = ground (arith, b, n, take_twice hashes nblocks room)

entry_slot :
    (slots : ℕ → FileSlot) (o : Option ℕ) (s : FileSlot)
    → at_slot slots o ≡ some s
    → (i : ℕ) × (o ≡ some i) × (slots i ≡ s)
entry_slot slots none s e = absurd (cc)
entry_slot slots (some i) s e = (i, refl, cc)

pub foldstate_blocks-entry :
    (fs : FolderState) (name : List ℕ) (s : FileSlot) (room nblocks : ℕ) (hashes : List (List ℕ))
    → IsFolder fs
    → entry fs name ≡ some s
    → s.blocks ≡ some (take nblocks hashes)
    → s.nblocks ≡ nblocks
    → 0 < nblocks
    → foldstate_blocks fs name room ≡ (take room (take nblocks hashes), nblocks)
unfolding foldstate_blocks
foldstate_blocks-entry fs name s room nblocks hashes x e b n h =
    let (i, found, same) = entry_slot fs.slots (slot_named fs name) s e in
    ap (blocks_at fs room) (find_slot_lem fs name (x.fits, x.linked) ∙ found)
    ∙ blocks_at_lem fs i room nblocks hashes (ap (λ (t : FileSlot). t.blocks) same ∙ b)
        (ap (λ (t : FileSlot). t.nblocks) same ∙ n) h
