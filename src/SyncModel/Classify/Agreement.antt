-- ===== src/SyncModel/Classify/Agreement.antt =====
-- Two devices that run the same rule on a concurrent edit come to matching decisions.
use amisync.Common.{
  ℕ, ◌<◌, ◌≡◌, refl, ap, sym, ◌∙◌, ◌≢◌, ◌⊎◌, inl, inr, true, false, some, List, [], ◌∷◌, arith,
  ◌==◌, Bool-cases, length, bytes_eq_iff,
}
use amisync.Common.Int.{pos, negsuc, eqb_ℤ_iff}
use amisync.Bep.{BepFileInfo, num_counters}
use amisync.SyncModel.Version.{v_concurrent, sync_version_compare}
use amisync.SyncModel.Version.Order.{Distinct, sync_version_compare_swap}
use amisync.SyncModel.Meta.{SyncMeta, meta_from_fi, sync_content_same}
use amisync.SyncModel.Classify.{
  FolderMode, sendreceive, sendonly, receiveonly, SyncAction, ignore, adopt, conflict, memcmp,
  resolve_conflict, classify_record, classify_by_version, sync_classify_incoming,
}
use amisync.SyncModel.Classify.Safety.{taken}

-- One of two hashes of one length is the larger, if they differ.
memcmp_ne :
    (xs ys : List ℕ)
    → length xs ≡ length ys
    → xs ≢ ys
    → ((memcmp xs ys ≡ pos 1) × (memcmp ys xs ≡ negsuc 0))
      ⊎ ((memcmp xs ys ≡ negsuc 0) × (memcmp ys xs ≡ pos 1))
unfolding memcmp
memcmp_ne [] [] l h = absurd (h refl)
memcmp_ne [] (y ∷ ys) l h = absurd (omega arith)
memcmp_ne (x ∷ xs) [] l h = absurd (omega arith)
memcmp_ne (x ∷ xs) (y ∷ ys) l h = elim (Bool-cases (x == y)) [
  | inl e ↦ ground (arith, memcmp_ne xs ys (omega arith) (tails (ground arith)))
  | inr e ↦ ground arith
]
  where
    tails : x ≡ y → xs ≢ ys
    tails e p = h (cc)

-- A file that two devices hold, each as it announces it: live, hashed, under concurrent vectors.
pub record Edited (a b : BepFileInfo) : Type 0 where
  pub live_a : a.deleted ≡ 0
  pub live_b : b.deleted ≡ 0
  pub hashed_a : a.has_content_hash ≡ true
  pub hashed_b : b.has_content_hash ≡ true
  pub vector_a : 0 < num_counters a.version
  pub vector_b : 0 < num_counters b.version
  pub distinct_a : Distinct a.version.counters
  pub distinct_b : Distinct b.version.counters
  pub concurrent : sync_version_compare a.version b.version ≡ v_concurrent

swapped : {a b : BepFileInfo} → Edited a b → sync_version_compare b.version a.version ≡ v_concurrent
swapped {a} {b} e =
    rw (sync_version_compare_swap a.version b.version e.distinct_a e.distinct_b, e.concurrent)

-- Exactly one of the two answers is the action, and the other is to ignore.
abbrev pub OneSide : SyncAction → SyncAction → SyncAction → Type 0
OneSide action x y = ((x ≡ action) × (y ≡ ignore)) ⊎ ((x ≡ ignore) × (y ≡ action))

resolve-OneSide :
    (a b : BepFileInfo)
    → a.has_content_hash ≡ true
    → b.has_content_hash ≡ true
    → length a.content_hash ≡ length b.content_hash
    → a.content_hash ≢ b.content_hash
    → OneSide conflict (resolve_conflict (meta_from_fi a) b) (resolve_conflict (meta_from_fi b) a)
unfolding resolve_conflict meta_from_fi
resolve-OneSide a b ha hb l ne = ground (arith, memcmp_ne a.content_hash b.content_hash l ne)

differs :
    (a b : BepFileInfo)
    → a.content_hash ≢ b.content_hash
    → a.has_content_hash ≡ true
    → sync_content_same (meta_from_fi a) b ≡ false
unfolding sync_content_same meta_from_fi
differs a b ne h = ground (arith, bytes_eq_iff a.content_hash b.content_hash)

record_concurrent :
    {a b : BepFileInfo}
    → Edited a b
    → classify_record (meta_from_fi a) b
      ≡ classify_by_version v_concurrent (sync_content_same (meta_from_fi a) b) (meta_from_fi a) b
unfolding classify_record meta_from_fi
record_concurrent {a} {b} e = ground arith

as_record :
    (have : SyncMeta) (mode : FolderMode) (peer : BepFileInfo)
    → mode ≢ sendonly
    → sync_classify_incoming (some have) mode peer ≡ classify_record have peer
unfolding sync_classify_incoming
as_record have sendonly peer m = absurd (m refl)
as_record have sendreceive peer m = refl
as_record have receiveonly peer m = refl

abbrev answer : BepFileInfo → FolderMode → BepFileInfo → SyncAction
answer a mode b = sync_classify_incoming (taken a) mode b

flip : {a b : BepFileInfo} → Edited a b → Edited b a
flip e = record {
  live_a = e.live_b;
  live_b = e.live_a;
  hashed_a = e.hashed_b;
  hashed_b = e.hashed_a;
  vector_a = e.vector_b;
  vector_b = e.vector_a;
  distinct_a = e.distinct_b;
  distinct_b = e.distinct_a;
  concurrent = swapped e;
}

answer_concurrent :
    {a b : BepFileInfo} {mode : FolderMode}
    → Edited a b
    → mode ≢ sendonly
    → answer a mode b
      ≡ classify_by_version v_concurrent (sync_content_same (meta_from_fi a) b) (meta_from_fi a) b
answer_concurrent {a} {b} {mode} e m = as_record (meta_from_fi a) mode b m ∙ record_concurrent e

answer_conflict :
    {a b : BepFileInfo} {mode : FolderMode}
    → Edited a b
    → mode ≢ sendonly
    → a.content_hash ≢ b.content_hash
    → answer a mode b ≡ resolve_conflict (meta_from_fi a) b
unfolding classify_by_version meta_from_fi
answer_conflict {a} {b} {mode} e m ne =
    answer_concurrent e m ∙ ground (arith, differs a b ne e.hashed_a)

-- Two devices hold live, hashed copies of a file under concurrent vectors, and the hashes have one
-- length and differ. In folders that receive, exactly one of them answers CONFLICT (it keeps its
-- own copy aside and takes the other's) and the other ignores.
pub sync_classify_incoming-one_winner :
    {a b : BepFileInfo} (m n : FolderMode)
    → Edited a b
    → m ≢ sendonly
    → n ≢ sendonly
    → length a.content_hash ≡ length b.content_hash
    → a.content_hash ≢ b.content_hash
    → OneSide conflict (sync_classify_incoming (taken a) m b) (sync_classify_incoming (taken b) n a)
sync_classify_incoming-one_winner {a} {b} m n e hm hn l ne =
    rw (answer_conflict e hm ne, answer_conflict (flip e) hn (λ p. ne (sym p)))
      (resolve-OneSide a b e.hashed_a e.hashed_b l ne)

-- Both copies have the same bytes.
abbrev pub SameContent : BepFileInfo → BepFileInfo → Type 0
SameContent a b = (a.size ≡ b.size) × (a.content_hash ≡ b.content_hash)

alike :
    (a b : BepFileInfo)
    → SameContent a b
    → a.has_content_hash ≡ true
    → b.has_content_hash ≡ true
    → sync_content_same (meta_from_fi a) b ≡ true
unfolding sync_content_same meta_from_fi
alike a b same ha hb =
    ground
      (arith, same.0, same.1, bytes_eq_iff a.content_hash b.content_hash, eqb_ℤ_iff a.size b.size)

alike_sides :
    (a b : BepFileInfo)
    → a.content_hash ≡ b.content_hash
    → (a.modified_s ≢ b.modified_s) ⊎ (a.modified_ns ≢ b.modified_ns)
    → OneSide adopt
        (classify_by_version v_concurrent true (meta_from_fi a) b)
        (classify_by_version v_concurrent true (meta_from_fi b) a)
unfolding classify_by_version resolve_conflict meta_from_fi
alike_sides a b same t =
    ground (arith, eqb_ℤ_iff a.modified_s b.modified_s, eqb_ℤ_iff a.modified_ns b.modified_ns)

tie :
    (a b : BepFileInfo)
    → a.modified_s ≡ b.modified_s
    → a.modified_ns ≡ b.modified_ns
    → classify_by_version v_concurrent true (meta_from_fi a) b ≡ adopt
unfolding classify_by_version meta_from_fi
tie a b s ns =
    ground (
      arith,
      (eqb_ℤ_iff a.modified_s b.modified_s).1 s,
      (eqb_ℤ_iff a.modified_ns b.modified_ns).1 ns,
    )

answer_alike :
    {a b : BepFileInfo} {mode : FolderMode}
    → Edited a b
    → mode ≢ sendonly
    → SameContent a b
    → answer a mode b ≡ classify_by_version v_concurrent true (meta_from_fi a) b
answer_alike {a} {b} {mode} e m same =
    answer_concurrent e m
    ∙ ap (λ x. classify_by_version v_concurrent x (meta_from_fi a) b)
        (alike a b same e.hashed_a e.hashed_b)

-- Two devices hold the same bytes under concurrent vectors, in folders that receive. If the
-- modification times differ, exactly one of them adopts the other's record and the other ignores;
-- if they are equal, each adopts the other's.
pub sync_classify_incoming-SameContent :
    {a b : BepFileInfo} (m n : FolderMode)
    → Edited a b
    → m ≢ sendonly
    → n ≢ sendonly
    → SameContent a b
    → (((a.modified_s ≢ b.modified_s) ⊎ (a.modified_ns ≢ b.modified_ns))
        → OneSide adopt
            (sync_classify_incoming (taken a) m b)
            (sync_classify_incoming (taken b) n a))
      × ((a.modified_s ≡ b.modified_s)
          → (a.modified_ns ≡ b.modified_ns)
          → (sync_classify_incoming (taken a) m b ≡ adopt)
            × (sync_classify_incoming (taken b) n a ≡ adopt))
sync_classify_incoming-SameContent {a} {b} m n e hm hn same =
    rw (answer_alike e hm same, answer_alike (flip e) hn (sym same.0, sym same.1))
      (alike_sides a b same.1, λ s ns. (tie a b s ns, tie b a (sym s) (sym ns)))
