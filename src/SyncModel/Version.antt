-- ===== src/SyncModel/Version.antt =====
-- The version vectors of src/syncmodel.c: sync_bump_version, vec_counter, sync_version_has and
-- sync_version_compare. A uint64 is a number below 2 ^ 64, and its sums wrap.
pub mod Order
pub mod Bump
use amisync.Common.{
  ℕ, suc, ◌+◌, ◌^◌, ◌%◌, ◌≡◌, Bool, true, false, ◌||◌, not, Option, none, some, List, [], ◌∷◌, ◌++◌,
  ltb, leb, ◌==◌, if◌then◌else◌, length, set, get_or,
}
use amisync.Bep.{BepCounter, BepVector, num_counters, bep_max_counters}

-- How two version vectors relate.
pub data SyncVerRel : Type 0 where
  v_equal v_ours v_theirs v_concurrent : SyncVerRel

-- The loop `for (i ...) if (counters[i].id == id) break;`: the index it stops at.
unfoldable pub find_counter : List BepCounter → ℕ → ℕ
find_counter [] id = 0
find_counter (c ∷ cs) id = let next = suc (find_counter cs id) in if c.id == id then 0 else next

abbrev no_counter : BepCounter
no_counter = record { id = 0; value = 0 }

-- `value` forced strictly above the counter's own, as a uint64.
unfoldable pub raise_above : ℕ → ℕ → ℕ
raise_above old value = if leb value old then (old + 1) % 2 ^ 64 else value

-- `prev` is the vector to start from; NULL starts from the empty one. With `prev == out` the
-- vector is changed in place, which is the same start.
abbrev pub start_vector : Option BepVector → List BepCounter
start_vector none = []
start_vector (some v) = v.counters

unfoldable pub bump_counters : List BepCounter → ℕ → ℕ → List BepCounter
unfolding find_counter raise_above
bump_counters cs short_id value =
    let i = find_counter cs short_id in
    if ltb i (length cs)
    then set cs i
        (record { id = short_id; value = raise_above (get_or cs i no_counter).value value })
    else if ltb (length cs) bep_max_counters
    then cs ++ (record { id = short_id; value = value } ∷ [])
    else cs

unfoldable pub sync_bump_version : Option BepVector → ℕ → ℕ → BepVector
unfolding bump_counters
sync_bump_version prev short_id value = record {
  counters = bump_counters (start_vector prev) short_id value;
}

-- The counter value for `id`, 0 if absent.
unfoldable pub vec_counter : List BepCounter → ℕ → ℕ
vec_counter [] id = 0
vec_counter (c ∷ cs) id = if c.id == id then c.value else vec_counter cs id

-- `none` is a NULL vector.
unfoldable pub sync_version_has : Option BepVector → ℕ → Bool
sync_version_has none id = false
sync_version_has (some v) id = not (vec_counter v.counters id == 0)

-- The first loop of sync_version_compare, over our counters: it may set both flags.
unfoldable pub scan_ours : List BepCounter → List BepCounter → Bool → Bool → Bool × Bool
scan_ours [] theirs ours_gt theirs_gt = (ours_gt, theirs_gt)
scan_ours (c ∷ cs) theirs ours_gt theirs_gt =
    let b = vec_counter theirs c.id in
    scan_ours cs theirs (if ltb b c.value then true else ours_gt)
      (if ltb b c.value then theirs_gt else if ltb c.value b then true else theirs_gt)

-- The second loop, over their counters.
unfoldable pub scan_theirs : List BepCounter → List BepCounter → Bool → Bool
scan_theirs [] ours theirs_gt = theirs_gt
scan_theirs (c ∷ cs) ours theirs_gt =
    scan_theirs cs ours (if ltb (vec_counter ours c.id) c.value then true else theirs_gt)

abbrev pub rel_of_flags : Bool → Bool → SyncVerRel
rel_of_flags true true = SyncVerRel.v_concurrent
rel_of_flags true false = SyncVerRel.v_ours
rel_of_flags false true = SyncVerRel.v_theirs
rel_of_flags false false = SyncVerRel.v_equal

unfoldable pub sync_version_compare : BepVector → BepVector → SyncVerRel
unfolding scan_ours scan_theirs vec_counter
sync_version_compare ours theirs =
    let (ours_gt, theirs_gt) = scan_ours ours.counters theirs.counters false false in
    rel_of_flags ours_gt (scan_theirs theirs.counters ours.counters theirs_gt)
