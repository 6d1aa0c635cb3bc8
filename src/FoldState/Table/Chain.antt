-- ===== src/FoldState/Table/Chain.antt =====
-- The chains of the name hash, against a search of the table from its end.
use amisync.Common.{
  ℕ, text_of, zero, suc, ◌+◌, ◌%◌, ◌≤◌, ◌<◌, ◌≡◌, refl, ap, ◌∙◌, inl, inr, Bool, true, ◌&&◌, Option,
  none, some, List, arith, Bool-cases, if◌then◌else◌, ltb, ◌==◌, bytes_eq, bytes_eq→eq,
}
use mathlib.Core.Path.{subst}
use native.Mathlib.Nat.{mod-lt}
use amisync.Common.Arrays.{store}
use amisync.FoldState.Claims.{name_hash_of}
use amisync.FoldState.Table.{
  FileSlot, FolderState, bucket_of, hash_link, link_all, hash_rebuild, name_is, is_named, walk,
  find_slot,
}

-- The last index below n that passes the test.
unfoldable pub last_where : (ℕ → Bool) → ℕ → Option ℕ
last_where p zero = none
last_where p (suc n) = if p n then some n else last_where p n

pub last_where_ext :
    (p q : ℕ → Bool) (n : ℕ) → ((j : ℕ) → j < n → p j ≡ q j) → last_where p n ≡ last_where q n
unfolding last_where
last_where_ext p q zero h = refl
last_where_ext p q (suc n) h =
    ground (arith, h n (omega arith), last_where_ext p q n (λ j l. h j (omega arith)))

-- Each chain runs through the slots of its bucket, from the last one down.
pub record Linked (bucket : ℕ → ℕ) (cap : ℕ) (hhead hnext : ℕ → Option ℕ) (n : ℕ) : Type 0 where
  pub heads : (b : ℕ) → b < cap → hhead b ≡ last_where (λ j. bucket j == b) n
  pub nexts : (i : ℕ) → i < n → hnext i ≡ last_where (λ j. bucket j == bucket i) i

-- The links of a table are right for its first n slots.
abbrev pub IsLinked : FolderState → ℕ → Type 0
IsLinked fs n = Linked (bucket_of fs.cap fs.slots) fs.cap fs.hhead fs.hnext n

pub Linked-ext :
    (bucket bucket' : ℕ → ℕ) (cap : ℕ) (hhead hnext : ℕ → Option ℕ) (n : ℕ)
    → ((j : ℕ) → j < n → bucket j ≡ bucket' j)
    → Linked bucket cap hhead hnext n
    → Linked bucket' cap hhead hnext n
Linked-ext bucket bucket' cap hhead hnext n same l = record {
  heads = λ b h.
      l.heads b h
      ∙ last_where_ext (λ j. bucket j == b) (λ j. bucket' j == b) n
          (λ j k. ap (λ t. t == b) (same j k));
  nexts = λ i h.
      l.nexts i h
      ∙ last_where_ext (λ j. bucket j == bucket i) (λ j. bucket' j == bucket' i) i
          (λ j k.
            ap (λ t. t == bucket i) (same j (omega arith)) ∙ ap (λ t. bucket' j == t) (same i h));
}

link_one :
    (bucket : ℕ → ℕ) (cap : ℕ) (hhead hnext : ℕ → Option ℕ) (n : ℕ)
    → bucket n < cap
    → Linked bucket cap hhead hnext n
    → Linked bucket cap (store hhead (bucket n) (some n)) (store hnext n (hhead (bucket n))) (suc n)
unfolding last_where
link_one bucket cap hhead hnext n below l = record {
  heads = λ b h. ground (arith, l.heads b h);
  nexts = λ i h. ground (arith, l.heads (bucket n) below, l.nexts i);
}

pub hash_link-IsLinked :
    (fs : FolderState) (n : ℕ) → 0 < fs.cap → IsLinked fs n → IsLinked (hash_link fs n) (suc n)
unfolding hash_link
hash_link-IsLinked fs n pos l =
    link_one (bucket_of fs.cap fs.slots) fs.cap fs.hhead fs.hnext n
      (mod-lt (name_hash_of (text_of (fs.slots n).name)) pos) l

link_all-IsLinked :
    (fs : FolderState) (i n m : ℕ)
    → 0 < fs.cap
    → i + n ≡ m
    → IsLinked fs i
    → IsLinked (link_all fs i n) m
unfolding link_all hash_link
link_all-IsLinked fs i zero m pos e l = let f : m ≡ i = omega arith in rw f l
link_all-IsLinked fs i (suc n) m pos e l =
    link_all-IsLinked (hash_link fs i) (suc i) n m pos (omega arith) (hash_link-IsLinked fs i pos l)

-- Only the links change.
pub link_all-keeps :
    (fs : FolderState) (i n : ℕ)
    → (link_all fs i n
        ≡ record fs { hhead = (link_all fs i n).hhead; hnext = (link_all fs i n).hnext })
unfolding link_all hash_link
link_all-keeps fs i zero = refl
link_all-keeps fs i (suc n) = link_all-keeps (hash_link fs i) (suc i) n

option_test_bucket :
    (own : Option (List ℕ)) (cap : ℕ) (name : List ℕ)
    → ((name_hash_of (text_of own) % cap == name_hash_of name % cap) && name_is name own)
      ≡ name_is name own
option_test_bucket none cap name = ground arith
option_test_bucket (some own) cap name = elim (Bool-cases (bytes_eq own name)) [
  | inl e ↦ let same : own ≡ name = bytes_eq→eq own name e in rw same (ground arith)
  | inr e ↦ rw e (ground arith)
]

name_test_bucket :
    (slots : ℕ → FileSlot) (cap : ℕ) (name : List ℕ) (j : ℕ)
    → ((bucket_of cap slots j == name_hash_of name % cap) && is_named name (slots j))
      ≡ is_named name (slots j)
name_test_bucket slots cap name j = option_test_bucket (slots j).name cap name

walk_hit :
    (slots : ℕ → FileSlot) (hnext : ℕ → Option ℕ) (bucket : ℕ → ℕ) (name : List ℕ) (n fuel : ℕ)
    → hnext n ≡ last_where (λ j. bucket j == bucket n) n
    → walk slots hnext name fuel (last_where (λ j. bucket j == bucket n) n)
      ≡ last_where (λ j. (bucket j == bucket n) && is_named name (slots j)) n
    → walk slots hnext name (suc fuel) (last_where (λ j. bucket j == bucket n) (suc n))
      ≡ last_where (λ j. (bucket j == bucket n) && is_named name (slots j)) (suc n)
unfolding walk last_where
walk_hit slots hnext bucket name n fuel next ih =
    let same : (bucket n == bucket n) ≡ true = ground arith in rw same (ground (arith, next, ih))

walk_lem :
    (slots : ℕ → FileSlot) (hnext : ℕ → Option ℕ) (bucket : ℕ → ℕ) (name : List ℕ) (b n fuel : ℕ)
    → ((i : ℕ) → i < n → hnext i ≡ last_where (λ j. bucket j == bucket i) i)
    → n ≤ fuel
    → walk slots hnext name fuel (last_where (λ j. bucket j == b) n)
      ≡ last_where (λ j. (bucket j == b) && is_named name (slots j)) n
unfolding walk last_where
walk_lem slots hnext bucket name b zero zero nexts h = refl
walk_lem slots hnext bucket name b zero (suc fuel) nexts h = refl
walk_lem slots hnext bucket name b (suc n) zero nexts h = absurd (omega arith)
walk_lem slots hnext bucket name b (suc n) (suc fuel) nexts h = elim (Bool-cases (bucket n == b)) [
  | inl e ↦
      let f : bucket n ≡ b = ground arith in
      subst
        (λ (t : ℕ).
          walk slots hnext name (suc fuel) (last_where (λ j. bucket j == t) (suc n))
          ≡ last_where (λ j. (bucket j == t) && is_named name (slots j)) (suc n))
        f
        (walk_hit slots hnext bucket name n fuel (nexts n (omega arith)) (
          walk_lem slots hnext bucket name (bucket n) n fuel (λ i k. nexts i (omega arith))
            (omega arith)))
  | inr e ↦
      rw e (
        walk_lem slots hnext bucket name b n (suc fuel) (λ i k. nexts i (omega arith))
          (omega arith))
]

-- The slots of a folder are found by name.
abbrev pub slot_named : FolderState → List ℕ → Option ℕ
slot_named fs name = last_where (λ j. is_named name (fs.slots j)) fs.num_files

find_in_chain :
    (fs : FolderState) (name : List ℕ)
    → 0 < fs.cap
    → IsLinked fs fs.num_files
    → walk fs.slots fs.hnext name fs.num_files (fs.hhead (name_hash_of name % fs.cap))
      ≡ slot_named fs name
find_in_chain fs name pos l =
    ap (walk fs.slots fs.hnext name fs.num_files)
      (l.heads (name_hash_of name % fs.cap) (mod-lt (name_hash_of name) pos))
    ∙ walk_lem fs.slots fs.hnext (bucket_of fs.cap fs.slots) name (name_hash_of name % fs.cap)
        fs.num_files fs.num_files l.nexts (omega arith)
    ∙ last_where_ext
        (λ j.
          (bucket_of fs.cap fs.slots j == name_hash_of name % fs.cap) && is_named name (fs.slots j))
        (λ j. is_named name (fs.slots j)) fs.num_files
        (λ j h. name_test_bucket fs.slots fs.cap name j)

-- A table with links that are right, and with no slot before its arrays are allocated.
abbrev pub IsIndexed : FolderState → Type 0
IsIndexed fs = (fs.num_files ≤ fs.cap) × IsLinked fs fs.num_files

-- On a table whose chains run through the slots of their buckets, from the last one down, find_slot
-- returns what a search of all the slots in use for the name returns, from the last one down.
pub find_slot_lem :
    (fs : FolderState) (name : List ℕ) → IsIndexed fs → find_slot fs name ≡ slot_named fs name
unfolding find_slot last_where
find_slot_lem fs name x = elim (Bool-cases (fs.cap == 0)) [
  | inl e ↦ let z : fs.num_files ≡ 0 = ground (arith, x.0) in rw (e, z) refl
  | inr e ↦ rw e (find_in_chain fs name (ground arith) x.1)
]

empty_links :
    (bucket : ℕ → ℕ) (cap : ℕ) (hhead hnext : ℕ → Option ℕ)
    → Linked bucket cap (λ b. if ltb b cap then none else hhead b) hnext 0
unfolding last_where
empty_links bucket cap hhead hnext = record {
  heads = λ b h. ground arith;
  nexts = λ i h. ground arith;
}

-- A rebuild makes the links right, whatever they were.
pub hash_rebuild-IsLinked :
    (fs : FolderState) → 0 < fs.cap → IsLinked (hash_rebuild fs) fs.num_files
unfolding hash_rebuild
hash_rebuild-IsLinked fs pos =
    let cleared : FolderState = record fs {
      hhead = λ b. if ltb b fs.cap then none else fs.hhead b;
    } in
    link_all-IsLinked cleared 0 fs.num_files fs.num_files pos (omega arith)
      (empty_links (bucket_of fs.cap fs.slots) fs.cap fs.hhead fs.hnext)
