-- ===== src/SyncModel/Version/Order.antt =====
-- sync_version_compare against the order of version vectors: counter by counter, absent as 0.
use amisync.Common.{
  ℕ, ◌≤◌, ◌<◌, ◌≡◌, refl, ◌↔◌, inl, inr, ◌∙◌, Bool, true, false, ◌||◌, List, [], ◌∷◌, arith, ltb,
  ◌==◌, if◌then◌else◌, Bool-cases,
}
use amisync.Bep.{BepCounter, BepVector}
use amisync.SyncModel.Version.{
  SyncVerRel, v_equal, v_ours, v_theirs, v_concurrent, vec_counter, scan_ours, scan_theirs,
  rel_of_flags, sync_version_compare,
}

-- Whether some entry of the list has the id.
unfoldable pub has_id : List BepCounter → ℕ → Bool
has_id [] id = false
has_id (c ∷ cs) id = (c.id == id) || has_id cs id

-- No id occurs twice: what every vector built by sync_bump_version satisfies.
abbrev pub Distinct : List BepCounter → Type 0
Distinct [] = Unit
Distinct (c ∷ cs) = (has_id cs c.id ≡ false) × Distinct cs

abbrev pub IsBelow : List BepCounter → List BepCounter → Type 0
IsBelow a b = (id : ℕ) → vec_counter a id ≤ vec_counter b id

abbrev pub Exceeds : List BepCounter → List BepCounter → Type 0
Exceeds a b = (id : ℕ) × (vec_counter b id < vec_counter a id)

-- What each answer says of the two vectors.
abbrev pub Relates : SyncVerRel → List BepCounter → List BepCounter → Type 0
Relates v_equal a b = IsBelow a b × IsBelow b a
Relates v_ours a b = Exceeds a b × IsBelow b a
Relates v_theirs a b = IsBelow a b × Exceeds b a
Relates v_concurrent a b = Exceeds a b × Exceeds b a

-- Some entry of the first list is above the second vector.
pub exceeds : List BepCounter → List BepCounter → Bool
exceeds [] b = false
exceeds (c ∷ cs) b = ltb (vec_counter b c.id) c.value || exceeds cs b

pub vec_counter_absent :
    (cs : List BepCounter) (id : ℕ) → has_id cs id ≡ false → vec_counter cs id ≡ 0
unfolding vec_counter has_id
vec_counter_absent [] id h = refl
vec_counter_absent (c ∷ cs) id h = ground (arith, vec_counter_absent cs id)

exceeds-false : (a b : List BepCounter) → exceeds a b ≡ false → IsBelow a b
unfolding vec_counter exceeds
exceeds-false [] b h id = omega arith
exceeds-false (c ∷ cs) b h id =
    ground (arith, λ (e : exceeds cs b ≡ false). exceeds-false cs b e id)

Exceeds-cons :
    (c : BepCounter) (cs b : List BepCounter)
    → has_id cs c.id ≡ false
    → Exceeds cs b
    → Exceeds (c ∷ cs) b
unfolding vec_counter
Exceeds-cons c cs b d (id, h) = (id, ground (arith, vec_counter_absent cs c.id d))

pub exceeds-true : (a b : List BepCounter) → Distinct a → exceeds a b ≡ true → Exceeds a b
unfolding vec_counter exceeds
exceeds-true [] b d h = cc
exceeds-true (c ∷ cs) b d h = elim (Bool-cases (ltb (vec_counter b c.id) c.value)) [
  | inl e ↦ (c.id, ground arith)
  | inr e ↦ Exceeds-cons c cs b d.0 (exceeds-true cs b d.1 (ground arith))
]

-- The flags of the two loops, whatever order the entries have.
scan_ours_gt :
    (a b : List BepCounter) (o t : Bool) → (scan_ours a b o t).0 ≡ (if o then true else exceeds a b)
unfolding scan_ours exceeds
scan_ours_gt [] b o t = ground arith
scan_ours_gt (c ∷ cs) b o t = scan_ours_gt cs b _ _ ∙ ground arith

-- `t` is right once: what the first loop notes of theirs the second loop finds again.
scan_theirs_gt :
    (a b : List BepCounter) (t : Bool) → scan_theirs a b t ≡ (if t then true else exceeds a b)
unfolding scan_theirs exceeds
scan_theirs_gt [] b t = ground arith
scan_theirs_gt (c ∷ cs) b t = scan_theirs_gt cs b _ ∙ ground arith

exceeds_of_lt :
    (b a : List BepCounter) (id : ℕ) → vec_counter a id < vec_counter b id → exceeds b a ≡ true
exceeds_of_lt b a id h = elim (Bool-cases (exceeds b a)) [
  | inl e ↦ e
  | inr e ↦ absurd (omega (arith, exceeds-false b a e id))
]

-- Every entry of a list without repeated ids is the one that vec_counter finds.
abbrev Found : List BepCounter → List BepCounter → Type 0
Found [] a = Unit
Found (c ∷ cs) a = (vec_counter a c.id ≡ c.value) × Found cs a

Found-cons :
    (cs a : List BepCounter) (d : BepCounter)
    → has_id cs d.id ≡ false
    → Found cs a
    → Found cs (d ∷ a)
unfolding vec_counter has_id
Found-cons [] a d h f = tt
Found-cons (c ∷ cs) a d h f = (ground (arith, f.0), Found-cons cs a d (ground arith) f.1)

Distinct-Found : (a : List BepCounter) → Distinct a → Found a a
unfolding vec_counter
Distinct-Found [] d = tt
Distinct-Found (c ∷ cs) d = (ground arith, Found-cons cs cs c d.0 (Distinct-Found cs d.1))

scan_ours_theirs :
    (cs a b : List BepCounter) (o t : Bool)
    → Found cs a
    → (if (scan_ours cs b o t).1 then true else exceeds b a) ≡ (if t then true else exceeds b a)
unfolding scan_ours
scan_ours_theirs [] a b o t f = refl
scan_ours_theirs (c ∷ cs) a b o t f =
    scan_ours_theirs cs a b _ _ f.1 ∙ ground (arith, f.0, exceeds_of_lt b a c.id)

-- With no id twice in ours, the answer is read off the two comparisons.
pub sync_version_compare-exceeds :
    (a b : BepVector)
    → Distinct a.counters
    → sync_version_compare a b
      ≡ rel_of_flags (exceeds a.counters b.counters) (exceeds b.counters a.counters)
unfolding sync_version_compare
sync_version_compare-exceeds a b d = ground (
  arith,
  scan_ours_gt a.counters b.counters false false,
  scan_theirs_gt b.counters a.counters (scan_ours a.counters b.counters false false).1,
  scan_ours_theirs a.counters a.counters b.counters false false (Distinct-Found a.counters d),
)

Relates-flags :
    (a b : List BepCounter) (x y : Bool)
    → Distinct a
    → Distinct b
    → exceeds a b ≡ x
    → exceeds b a ≡ y
    → Relates (rel_of_flags x y) a b
Relates-flags a b true true da db ex ey = (exceeds-true a b da ex, exceeds-true b a db ey)
Relates-flags a b true false da db ex ey = (exceeds-true a b da ex, exceeds-false b a ey)
Relates-flags a b false true da db ex ey = (exceeds-false a b ex, exceeds-true b a db ey)
Relates-flags a b false false da db ex ey = (exceeds-false a b ex, exceeds-false b a ey)

not_both : (a b : List BepCounter) → Exceeds a b → IsBelow a b → ⊥
not_both a b (id, h) below = omega (arith, below id)

-- At most one of the four relations holds of a pair of vectors.
Relates-unique : (r s : SyncVerRel) (a b : List BepCounter) → Relates r a b → Relates s a b → r ≡ s
Relates-unique v_equal v_equal a b h k = refl
Relates-unique v_equal v_ours a b h k = absurd (not_both a b k.0 h.0)
Relates-unique v_equal v_theirs a b h k = absurd (not_both b a k.1 h.1)
Relates-unique v_equal v_concurrent a b h k = absurd (not_both a b k.0 h.0)
Relates-unique v_ours v_equal a b h k = absurd (not_both a b h.0 k.0)
Relates-unique v_ours v_ours a b h k = refl
Relates-unique v_ours v_theirs a b h k = absurd (not_both a b h.0 k.0)
Relates-unique v_ours v_concurrent a b h k = absurd (not_both b a k.1 h.1)
Relates-unique v_theirs v_equal a b h k = absurd (not_both b a h.1 k.1)
Relates-unique v_theirs v_ours a b h k = absurd (not_both a b k.0 h.0)
Relates-unique v_theirs v_theirs a b h k = refl
Relates-unique v_theirs v_concurrent a b h k = absurd (not_both a b k.0 h.0)
Relates-unique v_concurrent v_equal a b h k = absurd (not_both a b h.0 k.0)
Relates-unique v_concurrent v_ours a b h k = absurd (not_both b a h.1 k.1)
Relates-unique v_concurrent v_theirs a b h k = absurd (not_both a b h.0 k.0)
Relates-unique v_concurrent v_concurrent a b h k = refl

-- For two vectors in which no id occurs twice, sync_version_compare returns a given answer
-- exactly when that answer's relation between the counters holds: equal when every counter agrees,
-- ours (theirs) when ours (theirs) is nowhere below and somewhere above, concurrent when each is
-- somewhere above the other; a counter that a vector lacks counts as 0.
pub sync_version_compare_iff :
    (a b : BepVector) (r : SyncVerRel)
    → Distinct a.counters
    → Distinct b.counters
    → (sync_version_compare a b ≡ r) ↔ Relates r a.counters b.counters
sync_version_compare_iff a b r da db =
    let holds : Relates (sync_version_compare a b) a.counters b.counters =
      rw (sync_version_compare-exceeds a b da)
        (Relates-flags a.counters b.counters _ _ da db refl refl) in
    (λ e. rw e at holds, λ h. Relates-unique _ r a.counters b.counters holds h)

abbrev pub swap_rel : SyncVerRel → SyncVerRel
swap_rel v_equal = v_equal
swap_rel v_ours = v_theirs
swap_rel v_theirs = v_ours
swap_rel v_concurrent = v_concurrent

-- For two vectors in which no id occurs twice, comparing them the other way round swaps the
-- answers ours and theirs and keeps the other two: two devices never both think that they are newer.
pub sync_version_compare_swap :
    (a b : BepVector)
    → Distinct a.counters
    → Distinct b.counters
    → sync_version_compare b a ≡ swap_rel (sync_version_compare a b)
sync_version_compare_swap a b da db =
    rw (sync_version_compare-exceeds a b da, sync_version_compare-exceeds b a db)
      (flags_swap (exceeds a.counters b.counters) (exceeds b.counters a.counters))
  where
    flags_swap : (x y : Bool) → rel_of_flags y x ≡ swap_rel (rel_of_flags x y)
    flags_swap true true = refl
    flags_swap true false = refl
    flags_swap false true = refl
    flags_swap false false = refl
