-- ===== src/SyncModel/Classify/Safety.antt =====
-- No update is lost: what the classification of a peer's record may overwrite, and when it stops.
use amisync.Common.{
  ℕ, ◌+◌, ◌^◌, ◌≤◌, ◌<◌, ◌≡◌, refl, ap, ◌∙◌, ◌≢◌, Bool, true, false, Option, some, arith, ltb,
  lt→ltb, inl, inr, Bool-cases, bytes_eq_iff, if◌then◌else◌,
}
use amisync.Common.Int.{ℤ, eqb_ℤ, eqb_ℤ_iff}
use amisync.Bep.{BepVector, BepFileInfo, num_counters}
use amisync.SyncModel.Version.{
  v_equal, v_theirs, sync_bump_version, sync_version_compare, vec_counter,
}
use amisync.SyncModel.Version.Order.{
  Distinct, Relates, sync_version_compare_iff, sync_version_compare_swap, swap_rel,
}
use amisync.SyncModel.Version.Bump.{
  IsVector, HasRoom, sync_bump_version-dominates, sync_bump_version-IsVector, num_counters-bump,
}
use amisync.SyncModel.Meta.{SyncMeta, meta_from_fi, sync_content_same}
use amisync.SyncModel.Classify.{
  FolderMode, sendreceive, sendonly, receiveonly, SyncAction, ignore, fetch, delete, adopt,
  have_vectors, resolve_conflict, classify_record, classify_deletion, classify_by_version,
  sync_classify_incoming,
}

-- `fetch` and `delete` drop the bytes that we hold with no copy kept.
abbrev pub Overwrites : SyncAction → Type 0
Overwrites fetch = Unit
Overwrites delete = Unit
Overwrites _ = ⊥

Overwrites-theirs :
    (have : SyncMeta) (peer : BepFileInfo)
    → have.deleted ≡ false
    → have_vectors have peer ≡ true
    → Overwrites (classify_record have peer)
    → sync_version_compare have.version peer.version ≡ v_theirs
unfolding classify_record classify_deletion classify_by_version resolve_conflict
Overwrites-theirs have peer live vec o = ground arith

receives_record :
    (have : SyncMeta) (mode : FolderMode) (peer : BepFileInfo)
    → Overwrites (sync_classify_incoming (some have) mode peer)
    → (mode ≢ sendonly) × Overwrites (classify_record have peer)
unfolding sync_classify_incoming
receives_record have sendonly peer o = absurd o
receives_record have sendreceive peer o = (λ e. cc, o)
receives_record have receiveonly peer o = (λ e. cc, o)

-- When both records carry version vectors without repeated ids and our copy is live, an incoming
-- record makes us overwrite or remove our bytes (FETCH or DELETE, with no conflict copy) only in a
-- folder that receives, and only if the peer's vector is nowhere below ours and somewhere above it.
pub sync_classify_incoming-Overwrites :
    (have : SyncMeta) (mode : FolderMode) (peer : BepFileInfo)
    → have.deleted ≡ false
    → have_vectors have peer ≡ true
    → Distinct have.version.counters
    → Distinct peer.version.counters
    → Overwrites (sync_classify_incoming (some have) mode peer)
    → (mode ≢ sendonly) × Relates v_theirs have.version.counters peer.version.counters
sync_classify_incoming-Overwrites have mode peer live vec dh dp o =
    let (receives, writes) = receives_record have mode peer o in
    (
      receives,
      (sync_version_compare_iff have.version peer.version v_theirs dh dp).0
          (Overwrites-theirs have peer live vec writes),
    )

-- The record that we hold once the peer's has been taken over.
abbrev pub taken : BepFileInfo → Option SyncMeta
taken peer = some (meta_from_fi peer)

same_vector :
    (peer : BepFileInfo)
    → Distinct peer.version.counters
    → sync_version_compare peer.version peer.version ≡ v_equal
same_vector peer d =
    (sync_version_compare_iff peer.version peer.version v_equal d d).1
      ((λ id. omega arith), (λ id. omega arith))

eqb_ℤ_refl : (a : ℤ) → eqb_ℤ a a ≡ true
eqb_ℤ_refl a = (eqb_ℤ_iff a a).1 refl

record_settles :
    (peer : BepFileInfo)
    → ltb 0 (num_counters peer.version) ≡ true
    → Distinct peer.version.counters
    → classify_record (meta_from_fi peer) peer ≡ ignore
unfolding classify_record classify_deletion classify_by_version meta_from_fi
record_settles peer v d =
    ground (arith, same_vector peer d, eqb_ℤ_refl peer.modified_s, eqb_ℤ_refl peer.modified_ns)

-- Once the record that we hold is meta_from_fi of what the peer announces, with a vector that is not
-- empty and repeats no id, a further announcement of it is ignored in every mode, whatever the ints
-- of its flags are.
pub sync_classify_incoming_settles :
    (mode : FolderMode) (peer : BepFileInfo)
    → 0 < num_counters peer.version
    → Distinct peer.version.counters
    → sync_classify_incoming (taken peer) mode peer ≡ ignore
unfolding sync_classify_incoming
sync_classify_incoming_settles sendonly peer v d = refl
sync_classify_incoming_settles sendreceive peer v d = record_settles peer (lt→ltb _ _ v) d
sync_classify_incoming_settles receiveonly peer v d = record_settles peer (lt→ltb _ _ v) d

-- The file that we hold and the one announced have the same bytes, as far as their hashes tell.
abbrev pub SameBytes : SyncMeta → BepFileInfo → Type 0
SameBytes have fi =
    (have.size ≡ fi.size)
    × (have.has_content_hash ≡ true)
    × (fi.has_content_hash ≡ true)
    × (have.content_hash ≡ fi.content_hash)

content_same :
    (have : SyncMeta) (fi : BepFileInfo) → SameBytes have fi → sync_content_same have fi ≡ true
unfolding sync_content_same
content_same have fi (size, ours, theirs, hash) = ground (
  arith,
  (eqb_ℤ_iff have.size fi.size).1 size,
  (bytes_eq_iff have.content_hash fi.content_hash).1 hash,
)

told : (have : SyncMeta) (fi : BepFileInfo) → sync_content_same have fi ≡ true → SameBytes have fi
unfolding sync_content_same
told have fi e =
    ground (arith, eqb_ℤ_iff have.size fi.size, bytes_eq_iff have.content_hash fi.content_hash)

content_differs :
    (have : SyncMeta) (fi : BepFileInfo) → ¬ SameBytes have fi → sync_content_same have fi ≡ false
content_differs have fi ne = elim (Bool-cases (sync_content_same have fi)) [
  | inl e ↦ absurd (ne (told have fi e))
  | inr e ↦ e
]

-- Taking a change: fetched where the bytes differ, adopted where they are the same, and deleted where
-- it is a deletion.
abbrev pub TakesChange : SyncAction → SyncMeta → BepFileInfo → Type 0
TakesChange action have fi =
    (fi.deleted ≢ 0 → action ≡ delete)
    × (fi.deleted ≡ 0 → SameBytes have fi → action ≡ adopt)
    × (fi.deleted ≡ 0 → ¬ SameBytes have fi → action ≡ fetch)

newer_deleted :
    (have : SyncMeta) (fi : BepFileInfo)
    → have.deleted ≡ false
    → have_vectors have fi ≡ true
    → sync_version_compare have.version fi.version ≡ v_theirs
    → fi.deleted ≢ 0
    → classify_record have fi ≡ delete
unfolding classify_record classify_deletion
newer_deleted have fi live vec e d = ground arith

newer_live :
    (have : SyncMeta) (fi : BepFileInfo) (same : Bool)
    → have.deleted ≡ false
    → have_vectors have fi ≡ true
    → sync_version_compare have.version fi.version ≡ v_theirs
    → fi.deleted ≡ 0
    → sync_content_same have fi ≡ same
    → classify_record have fi ≡ (if same then adopt else fetch)
unfolding classify_record classify_by_version
newer_live have fi same live vec e d s = ground arith

TakesChange-newer :
    (have : SyncMeta) (fi : BepFileInfo)
    → have.deleted ≡ false
    → have_vectors have fi ≡ true
    → sync_version_compare have.version fi.version ≡ v_theirs
    → TakesChange (classify_record have fi) have fi
TakesChange-newer have fi live vec e = (
  newer_deleted have fi live vec e,
  λ d s. newer_live have fi true live vec e d (content_same have fi s),
  λ d s. newer_live have fi false live vec e d (content_differs have fi s),
)

receiving :
    (have : SyncMeta) (mode : FolderMode) (fi : BepFileInfo)
    → mode ≢ sendonly
    → TakesChange (classify_record have fi) have fi
    → TakesChange (sync_classify_incoming (some have) mode fi) have fi
unfolding sync_classify_incoming
receiving have sendonly fi m t = absurd (m refl)
receiving have sendreceive fi m t = t
receiving have receiveonly fi m t = t

-- A device holds a live record with a vector, and another announces a change of that record under
-- the vector that sync_bump_version makes of it, with room for its counter, no counter at the
-- largest uint64 and a positive value. In a folder that receives, the holder then answers DELETE if
-- the change is a deletion, ADOPT if the sizes and the known hashes of both are equal, and FETCH
-- otherwise.
pub sync_classify_incoming-bump :
    (have : SyncMeta) (mode : FolderMode) (fi : BepFileInfo) (id value : ℕ)
    → mode ≢ sendonly
    → have.deleted ≡ false
    → 0 < num_counters have.version
    → IsVector have.version
    → HasRoom have.version.counters id
    → vec_counter have.version.counters id + 1 < 2 ^ 64
    → 0 < value
    → fi.version ≡ sync_bump_version (some have.version) id value
    → TakesChange (sync_classify_incoming (some have) mode fi) have fi
sync_classify_incoming-bump have mode fi id value m live h v room small pos e =
    let bumped : BepVector = sync_bump_version (some have.version) id value in
    let grown : num_counters have.version ≤ num_counters bumped =
      num_counters-bump have.version id value in
    let newer : sync_version_compare have.version bumped ≡ v_theirs =
      sync_version_compare_swap bumped have.version
        (sync_bump_version-IsVector have.version id value v).0.distinct v.distinct
      ∙ ap swap_rel (sync_bump_version-dominates have.version id value v room small pos) in
    receiving have mode fi m (
      TakesChange-newer have fi live (ground (arith, grown, e))
        (ap (sync_version_compare have.version) e ∙ newer))
