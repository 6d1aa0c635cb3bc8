-- ===== src/SyncModel/Tests.antt =====
-- Concrete runs of the sync decisions, and the theorems at concrete inputs.
use amisync.Common.{
  ℕ, ◌⊎◌, bytes_eq, ◌+◌, ◌<◌, ◌≡◌, refl, ◌≢◌, ◌↔◌, Bool, true, false, some, none, [], ◌∷◌, arith,
}
use amisync.Common.Int.{pos, negsuc}
use amisync.Bep.{BepCounter, BepVector, BepFileInfo}
use amisync.SyncModel.Version.{
  v_equal, v_ours, v_theirs, v_concurrent, sync_version_compare, sync_bump_version, vec_counter,
}
use amisync.SyncModel.Version.Order.{has_id, Distinct, Relates, sync_version_compare_iff}
use amisync.SyncModel.Version.Bump.{
  IsVector, HasRoom, sync_bump_version-IsVector, sync_bump_version-dominates,
}
use amisync.SyncModel.Meta.{meta_from_fi, sync_content_same}
use amisync.SyncModel.Classify.{
  sendonly, sendreceive, receiveonly, ignore, fetch, adopt, conflict, sync_classify_incoming,
  resolve_conflict, memcmp,
}
use amisync.SyncModel.Classify.Safety.{
  Overwrites, TakesChange, taken, sync_classify_incoming-Overwrites, sync_classify_incoming_settles,
  sync_classify_incoming-bump,
}
use amisync.SyncModel.Classify.Agreement.{
  Edited, OneSide, sync_classify_incoming-one_winner, sync_classify_incoming-SameContent,
}
use amisync.SyncModel.Want.{SyncModel, sync_init, sync_want_push_again, sync_want_pop}
use amisync.SyncModel.Want.Stack.{IsStack}
use amisync.SyncModel.Want.Push.{Push, pushed_entry, sync_want_push_again_refines}
use amisync.SyncModel.Want.Pop.{Pop, sync_want_pop_refines}

abbrev at : ℕ → ℕ → BepCounter
at id value = record { id = id; value = value }

-- Device 1 made three changes and device 2 one; the other vector lacks device 2.
abbrev mine : BepVector
mine = record { counters = at 1 3 ∷ at 2 1 ∷ [] }

abbrev yours : BepVector
yours = record { counters = at 1 3 ∷ [] }

abbrev other : BepVector
other = record { counters = at 1 2 ∷ at 3 1 ∷ [] }

compare_runs :
    (sync_version_compare mine yours ≡ v_ours)
    × (sync_version_compare yours mine ≡ v_theirs)
    × (sync_version_compare mine other ≡ v_concurrent)
    × (sync_version_compare mine mine ≡ v_equal)
unfolding sync_version_compare
compare_runs = (refl, refl, refl, refl)

Distinct-mine : Distinct mine.counters
unfolding has_id
Distinct-mine = (refl, (refl, tt))

Distinct-yours : Distinct yours.counters
unfolding has_id
Distinct-yours = (refl, tt)

sync_version_compare_iff_example :
    (sync_version_compare mine yours ≡ v_ours) ↔ Relates v_ours mine.counters yours.counters
sync_version_compare_iff_example =
    sync_version_compare_iff mine yours v_ours Distinct-mine Distinct-yours

valid_mine : IsVector mine
valid_mine = record { distinct = Distinct-mine; fits = omega arith }

sync_bump_version-IsVector_example :
    IsVector (sync_bump_version (some mine) 2 7) × IsVector (sync_bump_version none 2 7)
sync_bump_version-IsVector_example = sync_bump_version-IsVector mine 2 7 valid_mine

room_mine : HasRoom mine.counters 2
unfolding has_id
room_mine = refl

small_mine : vec_counter mine.counters 2 + 1 < 18446744073709551616
unfolding vec_counter
small_mine = omega arith

sync_bump_version-dominates_example :
    sync_version_compare (sync_bump_version (some mine) 2 1) mine ≡ v_ours
sync_bump_version-dominates_example =
    sync_bump_version-dominates mine 2 1 valid_mine room_mine small_mine (omega arith)

-- A file `a` of one block.
abbrev file : BepVector → ℕ → ℕ → BepFileInfo
file v mtime hash = record {
  name = b'a' ∷ [];
  type = 0;
  size = pos 5;
  permissions = 0o644;
  modified_s = pos mtime;
  modified_ns = pos 0;
  modified_by = 1;
  deleted = 0;
  invalid = 0;
  sequence = pos 1;
  block_size = pos 131072;
  version = v;
  blocks = [];
  num_blocks = pos 1;
  content_hash = hash ∷ [];
  has_content_hash = true;
}

classify_runs :
    (sync_classify_incoming none sendreceive (file mine 9 1) ≡ fetch)
    × (sync_classify_incoming (taken (file yours 9 1)) sendreceive (file mine 9 2) ≡ fetch)
    × (sync_classify_incoming (taken (file yours 9 1)) sendreceive (file mine 9 1) ≡ adopt)
    × (sync_classify_incoming (taken (file mine 9 1)) receiveonly (file other 9 2) ≡ conflict)
    × (sync_classify_incoming (taken (file mine 9 1)) receiveonly (file other 8 2) ≡ ignore)
    × (sync_classify_incoming (taken (file yours 9 1)) sendonly (file mine 9 2) ≡ ignore)
unfolding sync_classify_incoming sync_version_compare sync_content_same resolve_conflict memcmp
    bytes_eq meta_from_fi
classify_runs = (refl, refl, refl, refl, refl, refl)

Overwrites-yours :
    Overwrites (sync_classify_incoming (taken (file yours 9 1)) sendreceive (file mine 9 2))
unfolding sync_classify_incoming sync_version_compare sync_content_same bytes_eq meta_from_fi
Overwrites-yours = tt

sync_classify_incoming-Overwrites_example :
    (sendreceive ≢ sendonly) × Relates v_theirs yours.counters mine.counters
unfolding meta_from_fi
sync_classify_incoming-Overwrites_example =
    sync_classify_incoming-Overwrites (meta_from_fi (file yours 9 1)) sendreceive (file mine 9 2)
      refl refl Distinct-yours Distinct-mine Overwrites-yours

sync_classify_incoming_settles_example :
    sync_classify_incoming (taken (file mine 9 1)) receiveonly (file mine 9 1) ≡ ignore
sync_classify_incoming_settles_example =
    sync_classify_incoming_settles receiveonly (file mine 9 1) (omega arith) Distinct-mine

abbrev edited : BepFileInfo
edited = record (file mine 10 2) { version = sync_bump_version (some mine) 2 7 }

sync_classify_incoming-bump_example :
    TakesChange
      (sync_classify_incoming (taken (file mine 9 1)) sendreceive edited)
      (meta_from_fi (file mine 9 1))
      edited
unfolding meta_from_fi
sync_classify_incoming-bump_example =
    sync_classify_incoming-bump (meta_from_fi (file mine 9 1)) sendreceive edited 2 7 (λ p. cc) refl
      (omega arith) valid_mine room_mine small_mine (omega arith) refl

Distinct-other : Distinct other.counters
unfolding has_id
Distinct-other = (refl, (refl, tt))

edits : (h : ℕ) → Edited (file mine 9 1) (file other 9 h)
unfolding sync_version_compare
edits h = record {
  live_a = refl;
  live_b = refl;
  hashed_a = refl;
  hashed_b = refl;
  vector_a = omega arith;
  vector_b = omega arith;
  distinct_a = Distinct-mine;
  distinct_b = Distinct-other;
  concurrent = refl;
}

sync_classify_incoming-one_winner_example :
    OneSide conflict
      (sync_classify_incoming (taken (file mine 9 1)) sendreceive (file other 9 2))
      (sync_classify_incoming (taken (file other 9 2)) receiveonly (file mine 9 1))
sync_classify_incoming-one_winner_example =
    sync_classify_incoming-one_winner sendreceive receiveonly (edits 2) (λ p. cc) (λ p. cc) refl
      (λ p. cc)

sync_classify_incoming-SameContent_example :
    (((pos 9 ≢ pos 9) ⊎ (pos 0 ≢ pos 0))
      → OneSide adopt
          (sync_classify_incoming (taken (file mine 9 1)) sendreceive (file other 9 1))
          (sync_classify_incoming (taken (file other 9 1)) sendreceive (file mine 9 1)))
    × ((pos 9 ≡ pos 9)
        → (pos 0 ≡ pos 0)
        → (sync_classify_incoming (taken (file mine 9 1)) sendreceive (file other 9 1) ≡ adopt)
          × (sync_classify_incoming (taken (file other 9 1)) sendreceive (file mine 9 1) ≡ adopt))
sync_classify_incoming-SameContent_example =
    sync_classify_incoming-SameContent sendreceive sendreceive (edits 1) (λ p. cc) (λ p. cc)
      (refl, refl)

init-IsStack : IsStack sync_init
unfolding sync_init
init-IsStack = record { want_fits = omega arith; pool_fits = omega arith; stacked = refl }

abbrev one_wanted : SyncModel × Bool
one_wanted = sync_want_push_again sync_init 3 (file mine 9 1) ((7 ∷ []) ∷ []) (pos 1) false 2

sync_want_push_again_refines_example :
    Push sync_init 1 (pushed_entry 3 (file mine 9 1) ((7 ∷ []) ∷ []) false 2) one_wanted
sync_want_push_again_refines_example =
    sync_want_push_again_refines sync_init 3 (file mine 9 1) ((7 ∷ []) ∷ []) false 2 init-IsStack

-- A count that does not fit the pool, or is negative, is refused.
push_refuses :
    ((sync_want_push_again sync_init 3 (file mine 9 1) [] (pos 2049) false 0).1 ≡ false)
    × ((sync_want_push_again sync_init 3 (file mine 9 1) [] (negsuc 0) false 0).1 ≡ false)
    × ((sync_want_push_again sync_init 3 (file mine 9 1) [] (pos 2048) false 0).1 ≡ true)
unfolding sync_want_push_again sync_init
push_refuses = (refl, refl, refl)

one-IsStack : IsStack one_wanted.0
unfolding sync_want_push_again sync_init
one-IsStack = record { want_fits = omega arith; pool_fits = omega arith; stacked = (refl, refl) }

sync_want_pop_refines_example : Pop one_wanted.0 1 (sync_want_pop one_wanted.0 1)
sync_want_pop_refines_example = sync_want_pop_refines one_wanted.0 1 one-IsStack
