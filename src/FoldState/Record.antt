-- ===== src/FoldState/Record.antt =====
-- FolderRec of include/foldstate.h and its conversions in src/foldstate.c: set_version, get_version,
-- rec_from_meta and meta_from_rec. Whether an allocation succeeds is an argument.
use amisync.Common.{
  ℕ, text_of, ◌-◌, ◌≤◌, ◌≡◌, refl, ap₂, Bool, ◌||◌, Option, none, some, List, [], ◌∷◌, ◌++◌, take,
  drop, length, arith, take-all, take-append, length-take, if◌then◌else◌, ltb, leb,
}
use amisync.Common.Int.{ℤ}
use amisync.Bep.{BepCounter, BepVector, bep_max_counters, bep_path_max}
use amisync.SyncModel.Meta.{SyncMeta}

abbrev pub foldrec_vin : ℕ
foldrec_vin = 4

-- The stored form of a record; its name lives beside it. `vin` is the inline array, as far as it
-- has been written, and `vext` the allocated one.
pub record FolderRec : Type 0 where
  pub size : ℤ
  pub permissions : ℕ
  pub modified_s : ℤ
  pub modified_ns : ℤ
  pub modified_by : ℕ
  pub sequence : ℤ
  pub block_size : ℤ
  pub nver : ℕ
  pub vin : List BepCounter
  pub vext : Option (List BepCounter)
  pub content_hash : List ℕ
  pub type : ℕ
  pub deleted : Bool
  pub invalid : Bool
  pub has_content_hash : Bool

unfoldable pub free_version : FolderRec → FolderRec
free_version r = record r { vext = none; nver = 0 }

abbrev pub at_most : ℕ → ℕ → ℕ
at_most cap n = if ltb cap n then cap else n

-- memcpy of the first n counters into the inline array.
abbrev pub store_inline : FolderRec → List BepCounter → ℕ → FolderRec
store_inline r cs n = record r { vin = take n cs ++ drop n r.vin; nver = n; vext = none }

abbrev pub store_counters : FolderRec → List BepCounter → ℕ → Bool → FolderRec
store_counters r cs n allocated =
    if ltb foldrec_vin n
    then (if allocated
        then record r { vext = some (take n cs); nver = n }
        else store_inline r cs foldrec_vin)
    else store_inline r cs n

unfoldable pub set_version : FolderRec → BepVector → Bool → FolderRec
unfolding free_version
set_version r v allocated =
    let n = length v.counters in
    if leb n 0
    then free_version r
    else store_counters (free_version r) v.counters (at_most bep_max_counters n) allocated

abbrev pub stored_counters : FolderRec → List BepCounter
stored_counters r = elim r.vext [ none ↦ r.vin | some cs ↦ cs ]

unfoldable pub get_version : FolderRec → BepVector
get_version r = record {
  counters =
      if leb r.nver 0 then [] else take (at_most bep_max_counters r.nver) (stored_counters r);
}

unfoldable pub rec_from_meta : FolderRec → SyncMeta → Bool → FolderRec
unfolding set_version
rec_from_meta r m allocated =
    let r' = set_version r m.version allocated in
    record r' {
      size = m.size;
      permissions = m.permissions;
      modified_s = m.modified_s;
      modified_ns = m.modified_ns;
      modified_by = m.modified_by;
      sequence = m.sequence;
      block_size = m.block_size;
      content_hash = m.content_hash;
      type = m.type;
      deleted = m.deleted;
      invalid = m.invalid;
      has_content_hash = m.has_content_hash;
    }

unfoldable pub meta_from_rec : FolderRec → Option (List ℕ) → SyncMeta
unfolding get_version
meta_from_rec r name = record {
  name = take (bep_path_max - 1) (text_of name);
  size = r.size;
  permissions = r.permissions;
  modified_s = r.modified_s;
  modified_ns = r.modified_ns;
  modified_by = r.modified_by;
  sequence = r.sequence;
  block_size = r.block_size;
  version = get_version r;
  content_hash = r.content_hash;
  type = r.type;
  deleted = r.deleted;
  invalid = r.invalid;
  has_content_hash = r.has_content_hash;
}

-- What a stored vector reads back as.
abbrev pub kept_counters : List BepCounter → Bool → List BepCounter
kept_counters cs allocated =
    if allocated || leb (length cs) foldrec_vin then cs else take foldrec_vin cs

length-nil : (cs : List BepCounter) → length cs ≤ 0 → cs ≡ []
length-nil [] h = refl
length-nil (c ∷ cs) h = absurd (omega arith)

take_front :
    (cs ds : List BepCounter) (n : ℕ) → n ≤ length cs → take n (take n cs ++ ds) ≡ take n cs
take_front cs ds n h = take-append (take n cs) ds n (omega (arith, length-take n cs))

pub get_version-set_version :
    (r : FolderRec) (v : BepVector) (allocated : Bool)
    → length v.counters ≤ bep_max_counters
    → (get_version (set_version r v allocated)).counters ≡ kept_counters v.counters allocated
unfolding get_version set_version
get_version-set_version r v allocated h = ground (
  arith,
  length-nil v.counters,
  take-all (length v.counters) v.counters,
  take_front v.counters (drop 4 r.vin) 4,
  take_front v.counters (drop (length v.counters) r.vin) (length v.counters),
)

-- A record that was stored reads back as it was, as far as its counters fit.
pub meta_from_rec-rec_from_meta :
    (r : FolderRec) (m : SyncMeta) (allocated : Bool)
    → length m.name ≤ 255
    → length m.version.counters ≤ bep_max_counters
    → meta_from_rec (rec_from_meta r m allocated) (some m.name)
      ≡ record m { version = record { counters = kept_counters m.version.counters allocated } }
unfolding meta_from_rec rec_from_meta get_version
meta_from_rec-rec_from_meta r m allocated short few =
    ap₂
      (λ (n : List ℕ) (cs : List BepCounter). record m {
        name = n;
        version = record { counters = cs };
      })
      (take-all 255 m.name short) (get_version-set_version r m.version allocated few)
