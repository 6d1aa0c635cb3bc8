-- ===== src/FoldState/Access/Scan.antt =====
-- A scan of a mirror: the marks are cleared, each name that is met is marked, and what is left is
-- forgotten.
use amisync.Common.{
  ℕ, ◌<◌, ◌≡◌, ◌≢◌, refl, sym, ap, ◌∙◌, inl, inr, Bool, true, false, ◌||◌, Option, none, some, List,
  [], ◌∷◌, arith, Bool-cases, if◌then◌else◌, ltb, bytes_eq, bytes_eq→eq, bytes_eq_refl,
}
use amisync.Common.Arrays.{store}
use amisync.Common.Int.{ℤ, ltb_ℤ}
use amisync.FoldState.Table.{FileSlot, FolderState}
use amisync.FoldState.Table.Chain.{slot_named, find_slot_lem}
use amisync.FoldState.Table.Kept.{
  IsFolder, entry, at_slot, SameNames, same_named, found-lt, SameNames-IsFolder, store-SameNames,
  entry-store,
}
use amisync.FoldState.Forget.{is_unseen, foldstate_forget_unseen}
use amisync.FoldState.Forget.Filtered.{filtered, remove_where-Removed}
use amisync.FoldState.Access.{foldstate_clear_seen, foldstate_mark_seen, mark_at}

abbrev pub with_mark : Bool → Option FileSlot → Option FileSlot
with_mark b none = none
with_mark b (some s) = some (record s { seen = b })

abbrev pub mark_all_seen : FolderState → List (List ℕ) → FolderState
mark_all_seen fs [] = fs
mark_all_seen fs (name ∷ names) = mark_all_seen (foldstate_mark_seen fs name) names

-- strcmp with one of the names.
abbrev pub is_met : List (List ℕ) → List ℕ → Bool
is_met [] k = false
is_met (name ∷ names) k = bytes_eq k name || is_met names k

bytes_ne : (k name : List ℕ) → bytes_eq k name ≡ false → k ≢ name
bytes_ne k name h e = cc (h, bytes_eq_refl name, ap (λ t. bytes_eq t name) e)

mark_at_lem :
    (fs : FolderState) (name : List ℕ) (o : Option ℕ)
    → IsFolder fs
    → slot_named fs name ≡ o
    → IsFolder (mark_at fs o)
      × ((k : List ℕ)
          → entry (mark_at fs o) k
            ≡ (if bytes_eq k name then with_mark true (entry fs k) else entry fs k))
mark_at_lem fs name none x e = (
  x,
  λ k. elim (Bool-cases (bytes_eq k name)) [
    | inl h ↦
        let same : k ≡ name = bytes_eq→eq k name h in
        let gone : entry fs k ≡ none = ap (entry fs) same ∙ ap (at_slot fs.slots) e in
        rw (h, gone) refl
    | inr h ↦ rw h refl
  ],
)
mark_at_lem fs name (some i) x e =
    let s : FileSlot = record (fs.slots i) { seen = true } in
    let (self, others) = entry-store fs i s name e refl in
    (
      SameNames-IsFolder fs (store fs.slots i s) (store-SameNames fs.slots i fs.num_files s refl) x,
      λ k. elim (Bool-cases (bytes_eq k name)) [
        | inl h ↦
            let same : k ≡ name = bytes_eq→eq k name h in
            let there : entry fs k ≡ some (fs.slots i) =
              ap (entry fs) same ∙ ap (at_slot fs.slots) e in
            ap (entry (mark_at fs (some i))) same ∙ self ∙ rw (h, there) refl
        | inr h ↦ others k (bytes_ne k name h) ∙ rw h refl
      ],
    )

-- A mark sets the mark of its name's entry, and no other.
mark_seen_lem :
    (fs : FolderState) (name : List ℕ)
    → IsFolder fs
    → IsFolder (foldstate_mark_seen fs name)
      × ((k : List ℕ)
          → entry (foldstate_mark_seen fs name) k
            ≡ (if bytes_eq k name then with_mark true (entry fs k) else entry fs k))
unfolding foldstate_mark_seen
mark_seen_lem fs name x =
    rw (find_slot_lem fs name (x.fits, x.linked)) (mark_at_lem fs name (slot_named fs name) x refl)

abbrev clear_mark : ℕ → (ℕ → FileSlot) → ℕ → FileSlot
clear_mark n slots i = if ltb i n then record (slots i) { seen = false } else slots i

clear-SameNames : (slots : ℕ → FileSlot) (n : ℕ) → SameNames slots (clear_mark n slots) n
clear-SameNames slots n j h = let e : ltb j n ≡ true = ground arith in rw e refl

at_slot-clear_mark :
    (slots : ℕ → FileSlot) (n : ℕ) (o : Option ℕ)
    → ((i : ℕ) → o ≡ some i → i < n)
    → at_slot (clear_mark n slots) o ≡ with_mark false (at_slot slots o)
at_slot-clear_mark slots n none h = refl
at_slot-clear_mark slots n (some i) h =
    let l = h i refl in let e : ltb i n ≡ true = ground arith in rw e refl

clear_seen_lem :
    (fs : FolderState)
    → IsFolder fs
    → IsFolder (foldstate_clear_seen fs)
      × ((k : List ℕ) → entry (foldstate_clear_seen fs) k ≡ with_mark false (entry fs k))
unfolding foldstate_clear_seen
clear_seen_lem fs x = (
  SameNames-IsFolder fs (clear_mark fs.num_files fs.slots) (clear-SameNames fs.slots fs.num_files)
      x,
  λ k.
      ap (at_slot (clear_mark fs.num_files fs.slots)) (
        sym (
          same_named fs.slots (clear_mark fs.num_files fs.slots) fs.num_files k
            (clear-SameNames fs.slots fs.num_files)))
      ∙ at_slot-clear_mark fs.slots fs.num_files (slot_named fs k)
          (λ i f. found-lt fs.slots fs.num_files i k f),
)

with_mark_twice : (b c : Bool) (o : Option FileSlot) → with_mark b (with_mark c o) ≡ with_mark b o
with_mark_twice b c none = refl
with_mark_twice b c (some s) = refl

-- The marks of a list of names.
mark_all_lem :
    (fs : FolderState) (names : List (List ℕ))
    → IsFolder fs
    → IsFolder (mark_all_seen fs names)
      × ((k : List ℕ)
          → entry (mark_all_seen fs names) k
            ≡ (if is_met names k then with_mark true (entry fs k) else entry fs k))
mark_all_lem fs [] x = (x, λ k. refl)
mark_all_lem fs (name ∷ names) x =
    let (y, one) = mark_seen_lem fs name x in
    let (z, rest) = mark_all_lem (foldstate_mark_seen fs name) names y in
    (z, λ k. ground (arith, one k, rest k, with_mark_twice true true (entry fs k)))

-- A whole scan that meets `names`.
abbrev pub scan_mirror : FolderState → List (List ℕ) → ℤ → FolderState × ℕ
scan_mirror fs names before =
    foldstate_forget_unseen (mark_all_seen (foldstate_clear_seen fs) names) before

-- What is left of an entry: it was met, or the sweep leaves it alone.
abbrev pub scanned : Bool → ℤ → Option FileSlot → Option FileSlot
scanned met before none = none
scanned met before (some s) =
    if met || s.file.deleted || s.file.invalid || ltb_ℤ before s.file.sequence
    then some (record s { seen = met })
    else none

filtered-scanned :
    (met : Bool) (before : ℤ) (o : Option FileSlot)
    → filtered
        (is_unseen before)
        (if met then with_mark true (with_mark false o) else with_mark false o)
      ≡ scanned met before o
filtered-scanned true before none = refl
filtered-scanned false before none = refl
filtered-scanned true before (some s) = ground arith
filtered-scanned false before (some s) = ground arith

-- On a well-formed table, foldstate_clear_seen, foldstate_mark_seen for each of a list of names, and
-- foldstate_forget_unseen leave exactly the entries that were met, are tombstones or invalid, or have
-- a later sequence than `before`, each as it was but for its mark; the table stays well formed.
pub foldstate_forget_unseen-mark_seen :
    (fs : FolderState) (names : List (List ℕ)) (before : ℤ)
    → IsFolder fs
    → IsFolder (scan_mirror fs names before).0
      × ((k : List ℕ)
          → entry (scan_mirror fs names before).0 k ≡ scanned (is_met names k) before (entry fs k))
unfolding foldstate_forget_unseen
foldstate_forget_unseen-mark_seen fs names before x =
    let (y, cleared) = clear_seen_lem fs x in
    let (z, marked) = mark_all_lem (foldstate_clear_seen fs) names y in
    let r =
      remove_where-Removed (is_unseen before) (mark_all_seen (foldstate_clear_seen fs) names) z in
    (
      r.kept,
      λ k.
          r.entries k
          ∙ ap (filtered (is_unseen before)) (marked k)
          ∙ ap (λ t. filtered (is_unseen before) (if is_met names k then with_mark true t else t))
              (cleared k)
          ∙ filtered-scanned (is_met names k) before (entry fs k),
    )
