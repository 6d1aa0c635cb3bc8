-- ===== src/SyncModel/Version/Bump.antt =====
-- What sync_bump_version does to a version vector.
use amisync.Common.{
  ℕ, ◌+◌, ◌^◌, ◌≤◌, ◌<◌, ◌≡◌, refl, inl, inr, true, false, ◌||◌, none, some, List, [], ◌∷◌, ◌++◌,
  arith, ltb, ◌==◌, if◌then◌else◌, Bool-cases, length, set, get_or, length-set, length-append,
}
use amisync.Bep.{BepCounter, BepVector, bep_max_counters, num_counters}
use amisync.SyncModel.Version.{
  v_ours, find_counter, no_counter, raise_above, bump_counters, sync_bump_version, vec_counter,
  sync_version_compare,
}
use amisync.SyncModel.Version.Order.{has_id, Distinct, vec_counter_absent, sync_version_compare_iff}

abbrev counter : ℕ → ℕ → BepCounter
counter id value = record { id = id; value = value }

module _ (id : ℕ) where
  find_counter_lem : (cs : List BepCounter) → ltb (find_counter cs id) (length cs) ≡ has_id cs id
  unfolding find_counter has_id
  find_counter_lem [] = refl
  find_counter_lem (c ∷ cs) = ground (arith, find_counter_lem cs)

  get_or-find :
      (cs : List BepCounter) → (get_or cs (find_counter cs id) no_counter).value ≡ vec_counter cs id
  unfolding find_counter vec_counter
  get_or-find [] = refl
  get_or-find (c ∷ cs) = elim (Bool-cases (c.id == id)) [
    | inl e ↦ rw e
    | inr e ↦ rw e (get_or-find cs)
  ]

  has_id-set :
      (cs : List BepCounter) (x j : ℕ)
      → has_id (set cs (find_counter cs id) (counter id x)) j ≡ has_id cs j
  unfolding find_counter has_id
  has_id-set [] x j = refl
  has_id-set (c ∷ cs) x j = elim (Bool-cases (c.id == id)) [
    | inl e ↦ rw e (ground arith)
    | inr e ↦ rw e (ground (arith, has_id-set cs x j))
  ]

  vec_counter-set :
      (cs : List BepCounter) (x j : ℕ)
      → has_id cs id ≡ true
      → vec_counter (set cs (find_counter cs id) (counter id x)) j
        ≡ (if id == j then x else vec_counter cs j)
  unfolding find_counter has_id vec_counter
  vec_counter-set [] x j h = cc
  vec_counter-set (c ∷ cs) x j h = elim (Bool-cases (c.id == id)) [
    | inl e ↦ rw e (ground arith)
    | inr e ↦ rw e (ground (arith, vec_counter-set cs x j))
  ]

  has_id-append :
      (cs : List BepCounter) (x j : ℕ)
      → has_id (cs ++ counter id x ∷ []) j ≡ (has_id cs j || (id == j))
  unfolding has_id
  has_id-append [] x j = ground arith
  has_id-append (c ∷ cs) x j = ground (arith, has_id-append cs x j)

  vec_counter-append :
      (cs : List BepCounter) (x j : ℕ)
      → has_id cs id ≡ false
      → vec_counter (cs ++ counter id x ∷ []) j ≡ (if id == j then x else vec_counter cs j)
  unfolding has_id vec_counter
  vec_counter-append [] x j h = refl
  vec_counter-append (c ∷ cs) x j h = ground (arith, vec_counter-append cs x j)

  Distinct-set :
      (cs : List BepCounter) (x : ℕ)
      → Distinct cs
      → Distinct (set cs (find_counter cs id) (counter id x))
  unfolding find_counter
  Distinct-set [] x d = d
  Distinct-set (c ∷ cs) x d = elim (Bool-cases (c.id == id)) [
    | inl e ↦ rw e (ground arith)
    | inr e ↦ rw e (rw has_id-set d.0, Distinct-set cs x d.1)
  ]

  Distinct-append :
      (cs : List BepCounter) (x : ℕ)
      → has_id cs id ≡ false
      → Distinct cs
      → Distinct (cs ++ counter id x ∷ [])
  unfolding has_id
  Distinct-append [] x h d = (refl, tt)
  Distinct-append (c ∷ cs) x h d =
      (rw has_id-append (ground arith), Distinct-append cs x (ground arith) d.1)

-- There is room for our counter: it is in the vector, or a slot is free.
abbrev pub HasRoom : List BepCounter → ℕ → Type 0
HasRoom cs id = (has_id cs id || ltb (length cs) bep_max_counters) ≡ true

-- The three branches of the code, by whether our counter is there and whether the vector is full.
module _ (cs : List BepCounter) (id value : ℕ) where
  bump_present :
      has_id cs id ≡ true
      → bump_counters cs id value
        ≡ set cs (find_counter cs id) (counter id (raise_above (vec_counter cs id) value))
  unfolding bump_counters
  bump_present h = rw (find_counter_lem id cs, h, get_or-find id cs)

  bump_absent :
      has_id cs id ≡ false
      → bump_counters cs id value
        ≡ (if ltb (length cs) bep_max_counters then cs ++ counter id value ∷ [] else cs)
  unfolding bump_counters
  bump_absent h = rw (find_counter_lem id cs, h)

-- Our counter after the bump.
unfoldable pub bumped_value : List BepCounter → ℕ → ℕ → ℕ
bumped_value cs id value = if has_id cs id then raise_above (vec_counter cs id) value else value

fits_of_room :
    (cs : List BepCounter) (id : ℕ)
    → HasRoom cs id
    → has_id cs id ≡ false
    → ltb (length cs) bep_max_counters ≡ true
fits_of_room cs id room h = ground arith

vec_counter-bump :
    (cs : List BepCounter) (id value j : ℕ)
    → HasRoom cs id
    → vec_counter (bump_counters cs id value) j
      ≡ (if id == j then bumped_value cs id value else vec_counter cs j)
unfolding bumped_value
vec_counter-bump cs id value j room = elim (Bool-cases (has_id cs id)) [
  | inl h ↦ rw (bump_present cs id value h, vec_counter-set id cs _ j h, h)
  | inr h ↦
      rw (bump_absent cs id value h, fits_of_room cs id room h, vec_counter-append id cs _ j h, h)
]

Distinct-bump :
    (cs : List BepCounter) (id value : ℕ) → Distinct cs → Distinct (bump_counters cs id value)
Distinct-bump cs id value d = elim (Bool-cases (has_id cs id)) [
  | inl h ↦ rw (bump_present cs id value h) (Distinct-set id cs _ d)
  | inr h ↦ rw (bump_absent cs id value h) (elim (Bool-cases (ltb (length cs) bep_max_counters)) [
    | inl e ↦ rw e (Distinct-append id cs value h d)
    | inr e ↦ rw e d
  ])
]

length-bump :
    (cs : List BepCounter) (id value : ℕ)
    → length cs ≤ bep_max_counters
    → length (bump_counters cs id value) ≤ bep_max_counters
length-bump cs id value h = elim (Bool-cases (has_id cs id)) [
  | inl e ↦ rw (bump_present cs id value e, length-set) h
  | inr e ↦
      rw (bump_absent cs id value e) (ground (arith, length-append cs (counter id value ∷ [])))
]

-- A bump drops no counter.
pub num_counters-bump :
    (v : BepVector) (id value : ℕ)
    → num_counters v ≤ num_counters (sync_bump_version (some v) id value)
unfolding sync_bump_version
num_counters-bump v id value = elim (Bool-cases (has_id v.counters id)) [
  | inl e ↦ rw (bump_present v.counters id value e, length-set) (omega arith)
  | inr e ↦
      rw (bump_absent v.counters id value e)
        (ground (arith, length-append v.counters (counter id value ∷ [])))
]

-- A vector as it is stored: no id twice, and no more counters than the array has slots.
pub record IsVector (v : BepVector) : Type 0 where
  pub distinct : Distinct v.counters
  pub fits : length v.counters ≤ bep_max_counters

-- Bumping keeps a vector well formed: no id occurs twice, and the counters fit the 16 slots, also
-- when the vector is full; starting from NULL needs nothing.
pub sync_bump_version-IsVector :
    (prev : BepVector) (id value : ℕ)
    → IsVector prev
    → IsVector (sync_bump_version (some prev) id value) × IsVector (sync_bump_version none id value)
unfolding sync_bump_version
sync_bump_version-IsVector prev id value v = (
  record {
    distinct = Distinct-bump prev.counters id value v.distinct;
    fits = length-bump prev.counters id value v.fits;
  },
  record { distinct = Distinct-bump [] id value tt; fits = length-bump [] id value (omega arith) },
)

-- When our counter is there or a slot is free, a bump leaves the counter of every other device as
-- it was, and ours becomes `value`, or one more than it was (as a uint64) where `value` does not
-- exceed it.
pub sync_bump_version-counters :
    (prev : BepVector) (id value j : ℕ)
    → HasRoom prev.counters id
    → vec_counter (sync_bump_version (some prev) id value).counters j
      ≡ (if id == j then bumped_value prev.counters id value else vec_counter prev.counters j)
unfolding sync_bump_version
sync_bump_version-counters prev id value j room = vec_counter-bump prev.counters id value j room

-- When our counter is there or a slot is free, has not reached the largest uint64, and the new
-- value is positive, the bumped vector dominates the one that it was made from: the announcement of
-- a local change is newer than what it replaces.
pub sync_bump_version-dominates :
    (prev : BepVector) (id value : ℕ)
    → IsVector prev
    → HasRoom prev.counters id
    → vec_counter prev.counters id + 1 < 2 ^ 64
    → 0 < value
    → sync_version_compare (sync_bump_version (some prev) id value) prev ≡ v_ours
unfolding bumped_value raise_above
sync_bump_version-dominates prev id value v room small pos =
    (sync_version_compare_iff _ prev v_ours (sync_bump_version-IsVector prev id value v).0.distinct
        v.distinct).1
      ((id, bumped), λ j. below j)
  where
    bumped :
        vec_counter prev.counters id
        < vec_counter (sync_bump_version (some prev) id value).counters id
    bumped = ground (
      arith,
      sync_bump_version-counters prev id value id room,
      vec_counter_absent prev.counters id,
    )

    below :
        (j : ℕ)
        → vec_counter prev.counters j
          ≤ vec_counter (sync_bump_version (some prev) id value).counters j
    below j = ground (
      arith,
      sync_bump_version-counters prev id value j room,
      vec_counter_absent prev.counters id,
    )
