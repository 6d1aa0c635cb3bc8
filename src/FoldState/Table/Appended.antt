-- ===== src/FoldState/Table/Appended.antt =====
-- A new slot at the end of the table.

use amisync.Common.{
  ℕ, suc, ◌<◌, ◌≡◌, ◌≢◌, refl, sym, ap, ◌∙◌, inl, inr, true, false, Option, none, some, List, arith,
  Bool-cases, if◌then◌else◌, ◌==◌, bytes_eq_refl,
}
use amisync.Common.Arrays.{store}
use amisync.FoldState.Table.{FileSlot, FolderState, hash_link, name_is, is_named}
use amisync.FoldState.Table.Chain.{last_where, slot_named, hash_link-IsLinked}
use amisync.FoldState.Table.Kept.{
  Names, IsFolder, entry, SameNames, same_named, SameNames-IsFolder, name_is_eq, found-lt, at_slot,
}

-- A new slot at the end.
abbrev pub appended : FolderState → FileSlot → FolderState
appended fs s =
    hash_link (record fs { num_files = suc fs.num_files; slots = store fs.slots fs.num_files s })
      fs.num_files

pub append-SameNames :
    (slots : ℕ → FileSlot) (n : ℕ) (s : FileSlot) → SameNames slots (store slots n s) n
append-SameNames slots n s j h = let k : (j == n) ≡ false = ground arith in rw k refl

named_last :
    (slots : ℕ → FileSlot) (n : ℕ) (s : FileSlot) (name : List ℕ)
    → last_where (λ j. is_named name (store slots n s j)) (suc n)
      ≡ (if name_is name s.name then some n else last_where (λ j. is_named name (slots j)) n)
unfolding last_where
named_last slots n s name =
    let self : (n == n) ≡ true = ground arith in
    rw (self, same_named slots (store slots n s) n name (append-SameNames slots n s)) refl

pub append_names_last :
    (slots : ℕ → FileSlot) (n : ℕ) (s : FileSlot) (name : List ℕ)
    → s.name ≡ some name
    → last_where (λ j. is_named name (store slots n s j)) (suc n) ≡ some n
append_names_last slots n s name e =
    let own : name_is name s.name ≡ true = ap (name_is name) e ∙ bytes_eq_refl name in
    named_last slots n s name ∙ rw own refl

append_names_old :
    (slots : ℕ → FileSlot) (n : ℕ) (s : FileSlot) (name own : List ℕ) (i : ℕ)
    → s.name ≡ some name
    → last_where (λ j. is_named name (slots j)) n ≡ none
    → last_where (λ j. is_named own (slots j)) n ≡ some i
    → last_where (λ j. is_named own (store slots n s j)) (suc n) ≡ some i
append_names_old slots n s name own i e absent f = elim (Bool-cases (name_is own s.name)) [
  | inl h ↦
      let same : own ≡ name =
        name_is_eq own name s.name h (ap (name_is name) e ∙ bytes_eq_refl name) in
      cc (f, absent, ap (λ t. last_where (λ j. is_named t (slots j)) n) same)
  | inr h ↦ named_last slots n s own ∙ rw h f
]

append_names :
    (slots : ℕ → FileSlot) (n : ℕ) (s : FileSlot) (name : List ℕ)
    → s.name ≡ some name
    → last_where (λ j. is_named name (slots j)) n ≡ none
    → Names slots n
    → Names (store slots n s) (suc n)
append_names slots n s name e absent x i h = elim (Bool-cases (i == n)) [
  | inl k ↦
      let f : i ≡ n = ground arith in
      (name, rw k e, append_names_last slots n s name e ∙ ap some (sym f))
  | inr k ↦
      let l : i < n = ground arith in
      let (own, f, g) = x i l in (own, rw k f, append_names_old slots n s name own i e absent g)
]

pub appended-IsFolder :
    (fs : FolderState) (s : FileSlot) (name : List ℕ)
    → s.name ≡ some name
    → fs.num_files < fs.cap
    → slot_named fs name ≡ none
    → IsFolder fs
    → IsFolder (appended fs s)
unfolding hash_link
appended-IsFolder fs s name e room absent x = record {
  fits = room;
  linked =
      hash_link-IsLinked
        (record fs { num_files = suc fs.num_files; slots = store fs.slots fs.num_files s })
        fs.num_files (omega arith)
        (SameNames-IsFolder fs (store fs.slots fs.num_files s)
          (append-SameNames fs.slots fs.num_files s) x).linked;
  names = append_names fs.slots fs.num_files s name e absent x.names;
}

at_slot-same :
    (slots : ℕ → FileSlot) (n : ℕ) (s : FileSlot) (o : Option ℕ)
    → ((i : ℕ) → o ≡ some i → i < n)
    → at_slot (store slots n s) o ≡ at_slot slots o
at_slot-same slots n s none h = refl
at_slot-same slots n s (some i) h =
    let l : i < n = h i refl in let k : (i == n) ≡ false = ground arith in rw k refl

entry_other :
    (fs : FolderState) (s : FileSlot) (name k : List ℕ)
    → s.name ≡ some name
    → k ≢ name
    → entry (appended fs s) k ≡ entry fs k
unfolding hash_link
entry_other fs s name k e ne = elim (Bool-cases (name_is k s.name)) [
  | inl h ↦ absurd (ne (name_is_eq k name s.name h (ap (name_is name) e ∙ bytes_eq_refl name)))
  | inr h ↦
      let same : slot_named (appended fs s) k ≡ slot_named fs k =
        named_last fs.slots fs.num_files s k ∙ rw h refl in
      ap (at_slot (store fs.slots fs.num_files s)) same
      ∙ at_slot-same fs.slots fs.num_files s (slot_named fs k)
          (λ i f. found-lt fs.slots fs.num_files i k f)
]

-- A new slot adds its entry, and no other.
pub entry-appended :
    (fs : FolderState) (s : FileSlot) (name : List ℕ)
    → s.name ≡ some name
    → (entry (appended fs s) name ≡ some s)
      × ((k : List ℕ) → k ≢ name → entry (appended fs s) k ≡ entry fs k)
unfolding hash_link
entry-appended fs s name e =
    let slots' = store fs.slots fs.num_files s in
    let self : (fs.num_files == fs.num_files) ≡ true = ground arith in
    (
      ap (at_slot slots') (append_names_last fs.slots fs.num_files s name e) ∙ rw self refl,
      (λ k ne. entry_other fs s name k e ne),
    )

pub slot_named-appended :
    (fs : FolderState) (s : FileSlot) (name : List ℕ)
    → s.name ≡ some name
    → slot_named (appended fs s) name ≡ some fs.num_files
unfolding hash_link
slot_named-appended fs s name e = append_names_last fs.slots fs.num_files s name e

pub slots-appended : (fs : FolderState) (s : FileSlot) → (appended fs s).slots fs.num_files ≡ s
unfolding hash_link
slots-appended fs s =
    let self : (fs.num_files == fs.num_files) ≡ true = ground arith in rw self refl
