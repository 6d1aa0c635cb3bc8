-- ===== src/SyncModel/Classify.antt =====
-- sync_classify_incoming and resolve_conflict of src/syncmodel.c.
pub mod Safety
pub mod Agreement
use amisync.Common.{
  ℕ, Bool, true, false, ◌&&◌, ◌||◌, not, Option, none, some, List, [], ◌∷◌, length, if◌then◌else◌,
  ltb, ◌==◌,
}
use amisync.Common.Int.{ℤ, pos, negsuc, ltb_ℤ, eqb_ℤ}
use amisync.Bep.{BepFileInfo, is_set, num_counters}
use amisync.SyncModel.Version.{
  SyncVerRel, v_equal, v_ours, v_theirs, v_concurrent, sync_version_compare,
}
use amisync.SyncModel.Meta.{SyncMeta, sync_content_same}

-- include/config.h; the values are those of the wire.
pub data FolderMode : Type 0 where
  sendreceive sendonly receiveonly : FolderMode

-- What to do with a peer's FileInfo.
pub data SyncAction : Type 0 where
  ignore fetch delete adopt conflict : SyncAction

-- memcmp over two hashes of one length: the sign of the first difference.
unfoldable pub memcmp : List ℕ → List ℕ → ℤ
memcmp (x ∷ xs) (y ∷ ys) = if ltb x y then negsuc 0 else if ltb y x then pos 1 else memcmp xs ys
memcmp xs ys = pos 0

abbrev pub newer_wins : ℤ → ℤ → SyncAction
newer_wins theirs ours = if ltb_ℤ ours theirs then conflict else ignore

unfoldable pub resolve_conflict : SyncMeta → BepFileInfo → SyncAction
resolve_conflict have peer =
    if not (eqb_ℤ peer.modified_s have.modified_s)
    then newer_wins peer.modified_s have.modified_s
    else if not (eqb_ℤ peer.modified_ns have.modified_ns)
    then newer_wins peer.modified_ns have.modified_ns
    else if have.has_content_hash && peer.has_content_hash
    then (let c = memcmp peer.content_hash have.content_hash in
        if not (eqb_ℤ c (pos 0)) then newer_wins c (pos 0) else ignore)
    else ignore

-- The peer deleted the file, and we hold it.
unfoldable pub classify_deletion : SyncMeta → Bool → SyncVerRel → BepFileInfo → SyncAction
classify_deletion have true v_theirs peer = delete
classify_deletion have true rel peer = ignore
classify_deletion have false rel peer =
    if ltb_ℤ peer.modified_s have.modified_s then ignore else delete

abbrev pub same_times : SyncMeta → BepFileInfo → Bool
same_times have peer =
    eqb_ℤ have.modified_s peer.modified_s && eqb_ℤ have.modified_ns peer.modified_ns

abbrev pub as_adopt : SyncAction → SyncAction
as_adopt conflict = adopt
as_adopt action = ignore

-- The switch on how the vectors of two records relate, for a live peer file.
unfoldable pub classify_by_version : SyncVerRel → Bool → SyncMeta → BepFileInfo → SyncAction
classify_by_version v_theirs same have peer = if same then adopt else fetch
classify_by_version v_ours same have peer = ignore
classify_by_version v_equal same have peer =
    if same && (not (same_times have peer) || not (have.permissions == peer.permissions))
    then adopt
    else ignore
classify_by_version v_concurrent same have peer =
    if same
    then (if same_times have peer then adopt else as_adopt (resolve_conflict have peer))
    else if have.deleted
    then fetch
    else resolve_conflict have peer

-- Records from before version tracking: the last writer wins.
unfoldable pub classify_by_time : Bool → SyncMeta → BepFileInfo → SyncAction
classify_by_time same have peer =
    if same then ignore else if ltb_ℤ peer.modified_s have.modified_s then ignore else fetch

abbrev pub have_vectors : SyncMeta → BepFileInfo → Bool
have_vectors have peer = ltb 0 (num_counters have.version) && ltb 0 (num_counters peer.version)

unfoldable pub classify_record : SyncMeta → BepFileInfo → SyncAction
unfolding classify_deletion classify_by_version classify_by_time
classify_record have peer =
    let rel = sync_version_compare have.version peer.version in
    let same = not have.deleted && sync_content_same have peer in
    if is_set peer.deleted
    then (if have.deleted then ignore else classify_deletion have (have_vectors have peer) rel peer)
    else if have_vectors have peer
    then classify_by_version rel same have peer
    else classify_by_time same have peer

-- `none` is a name that we have no record of.
unfoldable pub sync_classify_incoming : Option SyncMeta → FolderMode → BepFileInfo → SyncAction
unfolding classify_record
sync_classify_incoming have sendonly peer = ignore
sync_classify_incoming none mode peer = if is_set peer.deleted then ignore else fetch
sync_classify_incoming (some have) mode peer = classify_record have peer
