-- ===== src/FoldState/Forget/ByName.antt =====
-- foldstate_forget: the removal of one name; and the three removals together.
use amisync.Common.{
  ℕ, zero, suc, ◌+◌, ◌-◌, ◌≤◌, ◌<◌, ◌≡◌, ◌≢◌, ◌↔◌, refl, sym, ap, ◌∙◌, inl, inr, Bool, true, false,
  Option, none, some, List, arith, Bool-cases, bytes_eq_refl, ◌==◌,
}
use amisync.Common.Int.{ℤ}
use amisync.FoldState.Table.{FileSlot, FolderState, name_is, is_named}
use amisync.FoldState.Table.Kept.{IsFolder, entry, at_slot, name_is-some}
use amisync.FoldState.Forget.{
  swap_remove, first_named, forget_at, foldstate_forget, is_unseen, is_old_tombstone,
  foldstate_forget_unseen, foldstate_prune_tombstones,
}
use amisync.FoldState.Forget.Removal.{entry_iff, found_slot, Names-Distinct, swapped, swapped_old}
use amisync.FoldState.Forget.Filtered.{
  Sweeping, swap-Sweeping, rebuilt-Removed, Removed, filtered, remove_where-Removed,
}

-- What the search from the front finds.
abbrev First : (ℕ → FileSlot) → List ℕ → ℕ → ℕ → Option ℕ → Type 0
First slots name i m none = (j : ℕ) → i ≤ j → j < m → is_named name (slots j) ≡ false
First slots name i m (some j) = (j < m) × (is_named name (slots j) ≡ true)

step-First :
    (slots : ℕ → FileSlot) (name : List ℕ) (i m : ℕ) (o : Option ℕ)
    → is_named name (slots i) ≡ false
    → First slots name (suc i) m o
    → First slots name i m o
step-First slots name i m none h f = λ j k l. elim (Bool-cases (j == i)) [
  | inl e ↦ let same : j ≡ i = ground arith in ap (λ t. is_named name (slots t)) same ∙ h
  | inr e ↦ f j (ground arith) l
]
step-First slots name i m (some j) h f = f

first_named-First :
    (slots : ℕ → FileSlot) (name : List ℕ) (i n m : ℕ)
    → i + n ≡ m
    → First slots name i m (first_named slots name i n)
unfolding first_named
first_named-First slots name i zero m e = λ j h k. absurd (omega arith)
first_named-First slots name i (suc n) m e = elim (Bool-cases (is_named name (slots i))) [
  | inl h ↦ rw h (omega arith, h)
  | inr h ↦ rw h (
      step-First slots name i m (first_named slots name (suc i) n) h
        (first_named-First slots name (suc i) n m (omega arith)))
]

-- A slot other than that of the name has another name.
not_named :
    (fs : FolderState) (name : List ℕ) (i j : ℕ)
    → IsFolder fs
    → i < fs.num_files
    → is_named name (fs.slots i) ≡ true
    → j < fs.num_files
    → j ≢ i
    → is_named name (fs.slots j) ≡ false
not_named fs name i j x h own l ne = elim (Bool-cases (is_named name (fs.slots j))) [
  | inl e ↦ absurd (
      ne (
        (Names-Distinct fs.slots fs.num_files x.names).once j i l h
          (name_is-some name (fs.slots j).name e ∙ sym (name_is-some name (fs.slots i).name own))))
  | inr e ↦ e
]

swapped_unnamed :
    (fs : FolderState) (name : List ℕ) (i j : ℕ)
    → IsFolder fs
    → i < fs.num_files
    → is_named name (fs.slots i) ≡ true
    → j < fs.num_files - 1
    → is_named name (swapped fs.slots i (fs.num_files - 1) j) ≡ false
swapped_unnamed fs name i j x h own l =
    let s = swapped fs.slots i (fs.num_files - 1) j in
    elim (Bool-cases (is_named name s)) [
      | inl e ↦
          (let (m, k, ne, f, g) =
              swapped_old fs.slots i (fs.num_files - 1) name s
                (j, l, refl, name_is-some name s.name e) in
            cc (not_named fs name i m x h own (omega arith) ne, ap (is_named name) f, e))
      | inr e ↦ e
    ]

-- One swap takes the name out: no other slot has it.
forget-Sweeping :
    (fs : FolderState) (name : List ℕ) (i : ℕ)
    → IsFolder fs
    → i < fs.num_files
    → is_named name (fs.slots i) ≡ true
    → Sweeping (is_named name) fs (swap_remove fs i) (swap_remove fs i).num_files 1
forget-Sweeping fs name i x h own =
    let w : Sweeping (is_named name) fs (swap_remove fs i) i (0 + 1) =
      swap-Sweeping (is_named name) fs fs i 0 h own (record {
        distinct = Names-Distinct fs.slots fs.num_files x.names;
        came = λ k s a. a;
        stays = λ k s a keep. a;
        passed = λ j l m. not_named fs name i j x h own m (λ (e : j ≡ i). omega arith);
        count = omega arith;
        room = refl;
        untouched = λ z. refl;
      }) in
    record {
      distinct = w.distinct;
      came = w.came;
      stays = w.stays;
      passed = λ j l m. swapped_unnamed fs name i j x h own m;
      count = omega (arith, h);
      room = w.room;
      untouched = λ z. absurd (omega arith);
    }

-- The entry of the name is gone if there was one, and the others stay.
pub record Forgotten (fs : FolderState) (name : List ℕ) (fs' : FolderState) (ok : Bool)
    : Type 0 where
  pub kept : IsFolder fs'
  pub entries : (k : List ℕ) → entry fs' k ≡ filtered (is_named name) (entry fs k)
  pub found : (ok ≡ true) ↔ (entry fs name ≢ none)

absent_name :
    (fs : FolderState) (name : List ℕ) (o : Option FileSlot)
    → IsFolder fs
    → ((j : ℕ) → 0 ≤ j → j < fs.num_files → is_named name (fs.slots j) ≡ false)
    → entry fs name ≡ o
    → entry fs name ≡ none
absent_name fs name none x f e = e
absent_name fs name (some s) x f e =
    let (j, h, g, own) =
      (entry_iff fs.slots fs.num_files name s (Names-Distinct fs.slots fs.num_files x.names)).0 e in
    let yes_named : is_named name s ≡ true = ap (name_is name) own ∙ bytes_eq_refl name in
    cc (yes_named, ap (is_named name) g, f j (omega arith) h)

unnamed_entry :
    (fs : FolderState) (name k : List ℕ) (o : Option FileSlot)
    → IsFolder fs
    → ((j : ℕ) → 0 ≤ j → j < fs.num_files → is_named name (fs.slots j) ≡ false)
    → entry fs k ≡ o
    → o ≡ filtered (is_named name) o
unnamed_entry fs name k none x f e = refl
unnamed_entry fs name k (some s) x f e =
    let (j, h, g, _) =
      (entry_iff fs.slots fs.num_files k s (Names-Distinct fs.slots fs.num_files x.names)).0 e in
    let no : is_named name s ≡ false = ap (is_named name) (sym g) ∙ f j (omega arith) h in
    rw no refl

forget_at-Forgotten :
    (fs : FolderState) (name : List ℕ) (o : Option ℕ)
    → IsFolder fs
    → First fs.slots name 0 fs.num_files o
    → Forgotten fs name (forget_at fs o).0 (forget_at fs o).1
forget_at-Forgotten fs name none x f = record {
  kept = x;
  entries = λ k. unnamed_entry fs name k (entry fs k) x f refl;
  found = (λ e. cc, λ there. absurd (there (absent_name fs name (entry fs name) x f refl)));
}
forget_at-Forgotten fs name (some i) x (h, own) =
    let r =
      rebuilt-Removed (is_named name) fs (swap_remove fs i) 1 x (omega arith)
        (forget-Sweeping fs name i x h own) in
    let there : entry fs name ≡ some (fs.slots i) = ap (at_slot fs.slots) (
      found_slot fs.slots fs.num_files i name (Names-Distinct fs.slots fs.num_files x.names) h
        (name_is-some name (fs.slots i).name own)) in
    record { kept = r.kept; entries = r.entries; found = (λ e f. cc (there, f), λ f. refl) }

foldstate_forget-Forgotten :
    (fs : FolderState) (name : List ℕ)
    → IsFolder fs
    → Forgotten fs name (foldstate_forget fs name).0 (foldstate_forget fs name).1
unfolding foldstate_forget
foldstate_forget-Forgotten fs name x =
    forget_at-Forgotten fs name (first_named fs.slots name 0 fs.num_files) x
      (first_named-First fs.slots name 0 fs.num_files fs.num_files (omega arith))

-- On a well-formed table, foldstate_forget takes out the entry of the name and answers whether there
-- was one; foldstate_forget_unseen takes out the entries that are live, valid, not marked by the scan
-- and of no later sequence than `before`; foldstate_prune_tombstones takes out the tombstones older
-- than `cutoff`. Each keeps every other entry as it is and the table well formed, and the latter two
-- return how many slots they freed.
pub foldstate_forget-prune_tombstones :
    (fs : FolderState) (name : List ℕ) (before cutoff : ℤ)
    → IsFolder fs
    → Forgotten fs name (foldstate_forget fs name).0 (foldstate_forget fs name).1
      × Removed
          (is_unseen before)
          fs
          (foldstate_forget_unseen fs before).0
          (foldstate_forget_unseen fs before).1
      × Removed
          (is_old_tombstone cutoff)
          fs
          (foldstate_prune_tombstones fs cutoff).0
          (foldstate_prune_tombstones fs cutoff).1
unfolding foldstate_forget_unseen foldstate_prune_tombstones
foldstate_forget-prune_tombstones fs name before cutoff x = (
  foldstate_forget-Forgotten fs name x,
  remove_where-Removed (is_unseen before) fs x,
  remove_where-Removed (is_old_tombstone cutoff) fs x,
)
