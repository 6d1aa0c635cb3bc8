-- ===== src/FoldState/Table/Kept.antt =====
-- The invariant of the table, and that a write to a slot and a new slot at its end keep it.

use amisync.Common.{
  ℕ, text_of, zero, suc, ◌%◌, ◌≤◌, ◌<◌, ◌≡◌, ◌≢◌, refl, sym, ap, ◌∙◌, inl, inr, Bool, true, Option,
  none, some, List, arith, Bool-cases, Option-cases, ◌==◌, bytes_eq→eq,
}
use amisync.Common.Arrays.{store}
use amisync.FoldState.Claims.{name_hash_of}
use amisync.FoldState.Table.{FileSlot, FolderState, bucket_of, name_is, is_named}
use amisync.FoldState.Table.Chain.{last_where, last_where_ext, Linked, Linked-ext, slot_named}

-- Every slot in use has a name, by which it is found: no two slots have the same one.
abbrev pub Names : (ℕ → FileSlot) → ℕ → Type 0
Names slots n =
    (i : ℕ)
    → i < n
    → (own : List ℕ) × ((slots i).name ≡ some own)
      × (last_where (λ j. is_named own (slots j)) n ≡ some i)

pub record IsTable (n cap : ℕ) (slots : ℕ → FileSlot) (hhead hnext : ℕ → Option ℕ) : Type 0 where
  pub fits : n ≤ cap
  pub linked : Linked (bucket_of cap slots) cap hhead hnext n
  pub names : Names slots n

abbrev pub IsFolder : FolderState → Type 0
IsFolder fs = IsTable fs.num_files fs.cap fs.slots fs.hhead fs.hnext

-- What the index says of a name.
abbrev pub entry : FolderState → List ℕ → Option FileSlot
entry fs name = elim (slot_named fs name) [ none ↦ none | some i ↦ some (fs.slots i) ]

last_where_lt : (p : ℕ → Bool) (n i : ℕ) → last_where p n ≡ some i → (i < n) × (p i ≡ true)
unfolding last_where
last_where_lt p zero i e = cc
last_where_lt p (suc n) i e = elim (Bool-cases (p n)) [
  | inl h ↦ let f : n ≡ i = ground (arith, e, h) in (omega arith, rw (← f) h)
  | inr h ↦ let (l, t) = last_where_lt p n i (ground (arith, e, h)) in (omega arith, t)
]

-- The names of the first n slots are the same in both.
abbrev pub SameNames : (ℕ → FileSlot) → (ℕ → FileSlot) → ℕ → Type 0
SameNames slots slots' n = (j : ℕ) → j < n → (slots j).name ≡ (slots' j).name

pub same_named :
    (slots slots' : ℕ → FileSlot) (n : ℕ) (name : List ℕ)
    → SameNames slots slots' n
    → last_where (λ j. is_named name (slots j)) n ≡ last_where (λ j. is_named name (slots' j)) n
same_named slots slots' n name same =
    last_where_ext (λ j. is_named name (slots j)) (λ j. is_named name (slots' j)) n
      (λ j h. ap (name_is name) (same j h))

pub SameNames-IsFolder :
    (fs : FolderState) (slots' : ℕ → FileSlot)
    → SameNames fs.slots slots' fs.num_files
    → IsFolder fs
    → IsFolder (record fs { slots = slots' })
SameNames-IsFolder fs slots' same x = record {
  fits = x.fits;
  linked =
      Linked-ext (bucket_of fs.cap fs.slots) (bucket_of fs.cap slots') fs.cap fs.hhead fs.hnext
        fs.num_files (λ j h. ap (λ t. name_hash_of (text_of t) % fs.cap) (same j h)) x.linked;
  names = λ i h.
      (let (own, e, f) = x.names i h in
        (own, sym (same i h) ∙ e, sym (same_named fs.slots slots' fs.num_files own same) ∙ f));
}

pub name_is_eq :
    (a b : List ℕ) (own : Option (List ℕ)) → name_is a own ≡ true → name_is b own ≡ true → a ≡ b
name_is_eq a b none h k = cc
name_is_eq a b (some own) h k = sym (bytes_eq→eq own a h) ∙ bytes_eq→eq own b k

-- A slot that is found by two names has but one.
pub found_name :
    (slots : ℕ → FileSlot) (n i : ℕ) (a b : List ℕ)
    → last_where (λ j. is_named a (slots j)) n ≡ some i
    → last_where (λ j. is_named b (slots j)) n ≡ some i
    → a ≡ b
found_name slots n i a b e f =
    name_is_eq a b (slots i).name (last_where_lt (λ j. is_named a (slots j)) n i e).1
      (last_where_lt (λ j. is_named b (slots j)) n i f).1

pub found-lt :
    (slots : ℕ → FileSlot) (n i : ℕ) (name : List ℕ)
    → last_where (λ j. is_named name (slots j)) n ≡ some i
    → i < n
found-lt slots n i name e = (last_where_lt (λ j. is_named name (slots j)) n i e).0

pub store-SameNames :
    (slots : ℕ → FileSlot) (i n : ℕ) (s : FileSlot)
    → s.name ≡ (slots i).name
    → SameNames slots (store slots i s) n
store-SameNames slots i n s e j h = elim (Bool-cases (j == i)) [
  | inl k ↦ let f : j ≡ i = ground arith in rw (k, f) (sym e)
  | inr k ↦ rw k refl
]

abbrev pub at_slot : (ℕ → FileSlot) → Option ℕ → Option FileSlot
at_slot slots none = none
at_slot slots (some i) = some (slots i)

at_slot-store_ne :
    (slots : ℕ → FileSlot) (i : ℕ) (s : FileSlot) (o : Option ℕ)
    → o ≢ some i
    → at_slot (store slots i s) o ≡ at_slot slots o
at_slot-store_ne slots i s none h = refl
at_slot-store_ne slots i s (some j) h = elim (Bool-cases (j == i)) [
  | inl k ↦ let f : j ≡ i = ground arith in absurd (h (ap some f))
  | inr k ↦ rw k refl
]

-- A write to the slot of a name changes the entry of that name and no other.
pub entry-store :
    (fs : FolderState) (i : ℕ) (s : FileSlot) (name : List ℕ)
    → slot_named fs name ≡ some i
    → s.name ≡ (fs.slots i).name
    → (entry (record fs { slots = store fs.slots i s }) name ≡ some s)
      × ((k : List ℕ) → k ≢ name → entry (record fs { slots = store fs.slots i s }) k ≡ entry fs k)
entry-store fs i s name found e =
    let same = λ (k : List ℕ).
      same_named fs.slots (store fs.slots i s) fs.num_files k
        (store-SameNames fs.slots i fs.num_files s e) in
    let self : (i == i) ≡ true = ground arith in
    (
      ap (at_slot (store fs.slots i s)) (sym (same name) ∙ found) ∙ rw self refl,
      (λ k ne.
          ap (at_slot (store fs.slots i s)) (sym (same k))
          ∙ at_slot-store_ne fs.slots i s (slot_named fs k)
              (λ f. ne (found_name fs.slots fs.num_files i k name f found))),
    )

-- Slots that agree below n hold the same entries.
pub same_entry :
    (slots slots' : ℕ → FileSlot) (n : ℕ) (name : List ℕ)
    → ((j : ℕ) → j < n → slots j ≡ slots' j)
    → at_slot slots (last_where (λ j. is_named name (slots j)) n)
      ≡ at_slot slots' (last_where (λ j. is_named name (slots' j)) n)
same_entry slots slots' n name same =
    elim (Option-cases (last_where (λ j. is_named name (slots j)) n)) [
      | inl e ↦ rw (← same_named slots slots' n name (λ j h. ap (λ s. s.name) (same j h)), e) refl
      | inr (i, e) ↦
          rw (← same_named slots slots' n name (λ j h. ap (λ s. s.name) (same j h)), e)
            (ap some (same i (found-lt slots n i name e)))
    ]

pub name_is-some : (a : List ℕ) (own : Option (List ℕ)) → name_is a own ≡ true → own ≡ some a
name_is-some a none h = cc
name_is-some a (some own) h = ap some (bytes_eq→eq own a h)

-- The slot that is found by a name has it.
pub found_own :
    (slots : ℕ → FileSlot) (n i : ℕ) (name : List ℕ)
    → last_where (λ j. is_named name (slots j)) n ≡ some i
    → (slots i).name ≡ some name
found_own slots n i name e =
    name_is-some name (slots i).name (last_where_lt (λ j. is_named name (slots j)) n i e).1

pub store_self : (slots : ℕ → FileSlot) (i : ℕ) (s : FileSlot) → store slots i s i ≡ s
store_self slots i s = let self : (i == i) ≡ true = ground arith in rw self refl

pub slot_named-store :
    (fs : FolderState) (i : ℕ) (s : FileSlot) (name : List ℕ)
    → s.name ≡ (fs.slots i).name
    → slot_named (record fs { slots = store fs.slots i s }) name ≡ slot_named fs name
slot_named-store fs i s name e = sym (
    same_named fs.slots (store fs.slots i s) fs.num_files name
      (store-SameNames fs.slots i fs.num_files s e))

pub at_slot-none : (slots : ℕ → FileSlot) (o : Option ℕ) → at_slot slots o ≡ none → o ≡ none
at_slot-none slots none e = refl
at_slot-none slots (some i) e = cc
