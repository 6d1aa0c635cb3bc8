-- ===== src/FoldState/Table.antt =====
-- FolderState of include/foldstate.h, and its lookup in src/foldstate.c: hash_link, hash_rebuild and
-- find_slot. Everything here runs under the folder's semaphore.
pub mod Chain
pub mod Kept
pub mod Appended
use amisync.Common.{
  ℕ, text_of, zero, suc, ◌+◌, ◌%◌, Bool, true, false, Option, none, some, List, [], ◌∷◌,
  if◌then◌else◌, ltb, ◌==◌, bytes_eq,
}
use amisync.Common.Int.{ℤ}
use amisync.Common.Arrays.{store}
use amisync.FoldState.Claims.{FolderClaim, name_hash_of}
use amisync.FoldState.Record.{FolderRec}

-- The arrays files, names, blocks, nblocks and seen are parallel: slot i is their element i.
pub record FileSlot : Type 0 where
  pub file : FolderRec
  pub name : Option (List ℕ)
  pub blocks : Option (List (List ℕ))
  pub nblocks : ℕ
  pub seen : Bool

-- `keys` is allocated when `cap` is not 0.
pub record FolderWantSet : Type 0 where
  pub owner : Option ℕ
  pub keys : ℕ → ℕ
  pub cap : ℕ
  pub n : ℕ
  pub overflow : Bool

-- An index of -1 is `none`. The two int64 counters that only grow are plain numbers.
pub record FolderState : Type 0 where
  pub folder_id : List ℕ
  pub short_id : ℕ
  pub sequence : ℕ
  pub prune_gen : ℕ
  pub dirty : Bool
  pub scan_day : ℕ
  pub scan_min : ℕ
  pub index_id : ℕ
  pub chg_verb : ℕ
  pub chg_name : List ℕ
  pub num_files : ℕ
  pub cap : ℕ
  pub slots : ℕ → FileSlot
  pub hhead : ℕ → Option ℕ
  pub hnext : ℕ → Option ℕ
  pub need_gen : ℕ
  pub claims : List FolderClaim
  pub wants : List FolderWantSet

-- The bucket of a slot's name.
abbrev pub bucket_of : ℕ → (ℕ → FileSlot) → ℕ → ℕ
bucket_of cap slots i = name_hash_of (text_of (slots i).name) % cap

unfoldable pub hash_link : FolderState → ℕ → FolderState
hash_link fs i =
    let b = bucket_of fs.cap fs.slots i in
    record fs { hnext = store fs.hnext i (fs.hhead b); hhead = store fs.hhead b (some i) }

-- for (; n > 0; i++, n--) hash_link(fs, i);
unfoldable pub link_all : FolderState → ℕ → ℕ → FolderState
unfolding hash_link
link_all fs i zero = fs
link_all fs i (suc n) = link_all (hash_link fs i) (suc i) n

unfoldable pub hash_rebuild : FolderState → FolderState
unfolding link_all
hash_rebuild fs =
    link_all (record fs { hhead = λ b. if ltb b fs.cap then none else fs.hhead b }) 0 fs.num_files

-- names[i] && strcmp(names[i], name) == 0
abbrev pub name_is : List ℕ → Option (List ℕ) → Bool
name_is name none = false
name_is name (some own) = bytes_eq own name

abbrev pub is_named : List ℕ → FileSlot → Bool
is_named name s = name_is name s.name

-- The walk along a chain. A chain that is longer than the fuel would be one with a cycle.
unfoldable pub walk : (ℕ → FileSlot) → (ℕ → Option ℕ) → List ℕ → ℕ → Option ℕ → Option ℕ
walk slots hnext name zero at = none
walk slots hnext name (suc fuel) none = none
walk slots hnext name (suc fuel) (some i) =
    let next = walk slots hnext name fuel (hnext i) in
    if is_named name (slots i) then some i else next

unfoldable pub find_slot : FolderState → List ℕ → Option ℕ
unfolding walk
find_slot fs name =
    if fs.cap == 0
    then none
    else walk fs.slots fs.hnext name fs.num_files (fs.hhead (name_hash_of name % fs.cap))

unfoldable pub foldstate_find : FolderState → List ℕ → Option FolderRec
unfolding find_slot
foldstate_find fs name = elim (find_slot fs name) [ none ↦ none | some i ↦ some (fs.slots i).file ]
