-- ===== src/FoldState/Forget/Filtered.antt =====
-- A removal filters the map from names to slots.
use amisync.Common.{
  ℕ, zero, suc, ◌+◌, ◌-◌, ◌≤◌, ◌<◌, ◌≡◌, ◌≢◌, refl, sym, ap, ◌∙◌, inl, inr, Bool, true, false,
  Option, none, some, List, arith, Bool-cases, Option-cases, if◌then◌else◌, ltb, ◌==◌,
}
use mathlib.Core.Path.{subst}
use amisync.FoldState.Table.{FileSlot, FolderState, hash_rebuild}
use amisync.FoldState.Table.Kept.{IsFolder, entry}
use amisync.FoldState.Upsert.Grown.{
  hash_rebuild-IsFolder, entry-hash_rebuild, num_files-hash_rebuild,
}
use amisync.FoldState.Forget.{swap_remove, remove_loop, settle, remove_where}
use amisync.FoldState.Forget.Removal.{
  Distinct, At, entry_iff, Distinct-Names, Names-Distinct, swapped-Distinct, swapped_old,
  swapped_kept, swapped_below,
}

-- The entry, if it is to stay.
abbrev pub filtered : (FileSlot → Bool) → Option FileSlot → Option FileSlot
filtered drop none = none
filtered drop (some s) = if drop s then none else some s

module _ (drop : FileSlot → Bool) (orig : FolderState) where
  -- The loop at slot i, with `removed` slots gone: the slots before i stay, and all that should.
  pub record Sweeping (fs : FolderState) (i removed : ℕ) : Type 0 where
    pub distinct : Distinct fs.slots fs.num_files
    pub came :
        (k : List ℕ) (s : FileSlot)
        → At fs.slots fs.num_files k s
        → At orig.slots orig.num_files k s
    pub stays :
        (k : List ℕ) (s : FileSlot)
        → At orig.slots orig.num_files k s
        → drop s ≡ false
        → At fs.slots fs.num_files k s
    pub passed : (j : ℕ) → j < i → j < fs.num_files → drop (fs.slots j) ≡ false
    pub count : fs.num_files + removed ≡ orig.num_files
    pub room : fs.cap ≡ orig.cap
    pub untouched : removed ≡ 0 → fs ≡ orig

  hole_gone :
      (fs : FolderState) (i j : ℕ) (s : FileSlot)
      → drop (fs.slots i) ≡ true
      → drop s ≡ false
      → j ≡ i
      → fs.slots j ≢ s
  hole_gone fs i j s gone keep same f = cc (gone, keep, ap drop f, ap (λ t. drop (fs.slots t)) same)

  passed_one :
      (fs : FolderState) (i j : ℕ)
      → drop (fs.slots i) ≡ false
      → j < suc i
      → (j < i → j < fs.num_files → drop (fs.slots j) ≡ false)
      → j < fs.num_files
      → drop (fs.slots j) ≡ false
  passed_one fs i j g k before l = elim (Bool-cases (j == i)) [
    | inl e ↦ let f : j ≡ i = ground arith in ap (λ t. drop (fs.slots t)) f ∙ g
    | inr e ↦ before (ground arith) l
  ]

  pub swap-Sweeping :
      (fs : FolderState) (i removed : ℕ)
      → i < fs.num_files
      → drop (fs.slots i) ≡ true
      → Sweeping fs i removed
      → Sweeping (swap_remove fs i) i (removed + 1)
  swap-Sweeping fs i removed h gone w =
      let last = fs.num_files - 1 in
      let e : fs.num_files ≡ suc last = omega arith in
      record {
        distinct = swapped-Distinct fs.slots i last (subst (Distinct fs.slots) e w.distinct);
        came = λ k s a.
            (let (j, l, ne, f, g) = swapped_old fs.slots i last k s a in
              w.came k s (j, omega arith, f, g));
        stays = λ k s a keep.
            (let (j, l, f, g) = w.stays k s a keep in
              swapped_kept fs.slots i last k s (omega arith) (j, omega arith, f, g)
                (λ same. hole_gone fs i j s gone keep same f));
        passed =
            λ j l m. ap drop (swapped_below fs.slots i last j l m) ∙ w.passed j l (omega arith);
        count = omega (arith, w.count);
        room = w.room;
        untouched = λ z. absurd (omega arith);
      }

  loop-Sweeping :
      (fuel : ℕ) (fs : FolderState) (i removed : ℕ)
      → fs.num_files ≤ fuel + i
      → Sweeping fs i removed
      → Sweeping
          (remove_loop drop fuel fs i removed).0
          (remove_loop drop fuel fs i removed).0.num_files
          (remove_loop drop fuel fs i removed).1
  unfolding remove_loop
  loop-Sweeping zero fs i removed h w = record {
    distinct = w.distinct;
    came = w.came;
    stays = w.stays;
    passed = λ j k l. w.passed j (omega arith) l;
    count = w.count;
    room = w.room;
    untouched = w.untouched;
  }
  loop-Sweeping (suc fuel) fs i removed h w = elim (Bool-cases (ltb i fs.num_files)) [
    | inl e ↦ elim (Bool-cases (drop (fs.slots i))) [
      | inl g ↦
          rw (e, g)
            (loop-Sweeping fuel (swap_remove fs i) i (removed + 1) (ground arith)
              (swap-Sweeping fs i removed (ground arith) g w))
      | inr g ↦
          rw (e, g)
            (loop-Sweeping fuel fs (suc i) removed (ground arith) (record {
              distinct = w.distinct;
              came = w.came;
              stays = w.stays;
              passed = λ j k l. passed_one fs i j g k (w.passed j) l;
              count = w.count;
              room = w.room;
              untouched = w.untouched;
            }))
    ]
    | inr e ↦ rw e (record {
      distinct = w.distinct;
      came = w.came;
      stays = w.stays;
      passed = λ j k l. w.passed j (ground arith) l;
      count = w.count;
      room = w.room;
      untouched = w.untouched;
    })
  ]

  pub start-Sweeping : IsFolder orig → Sweeping orig 0 0
  start-Sweeping x = record {
    distinct = Names-Distinct orig.slots orig.num_files x.names;
    came = λ k s a. a;
    stays = λ k s a keep. a;
    passed = λ j h l. absurd (omega arith);
    count = omega arith;
    room = refl;
    untouched = λ z. refl;
  }

  left_over :
      (fs : FolderState) (removed : ℕ) (k : List ℕ) (s t : FileSlot)
      → Sweeping fs fs.num_files removed
      → drop s ≡ true
      → At fs.slots fs.num_files k t
      → some t ≢ some s
  left_over fs removed k s t w g (j, h, e, f) same = cc (w.passed j h h, ap drop e, g, same)

  swept_entry :
      (fs : FolderState) (removed : ℕ) (k : List ℕ)
      → IsFolder orig
      → Sweeping fs fs.num_files removed
      → entry fs k ≡ filtered drop (entry orig k)
  swept_entry fs removed k x w =
      let there = λ (s : FileSlot). entry_iff fs.slots fs.num_files k s w.distinct in
      let before = λ (s : FileSlot).
        entry_iff orig.slots orig.num_files k s
          (Names-Distinct orig.slots orig.num_files x.names) in
      elim (Option-cases (entry orig k)) [
        | inl e ↦ elim (Option-cases (entry fs k)) [
          | inl f ↦ rw e f
          | inr (s, f) ↦ cc ((before s).1 (w.came k s ((there s).0 f)), e)
        ]
        | inr (s, e) ↦ elim (Bool-cases (drop s)) [
          | inl g ↦ elim (Option-cases (entry fs k)) [
            | inl f ↦ rw (e, g) f
            | inr (t, f) ↦ absurd (
                left_over fs removed k s t w g ((there t).0 f)
                  (sym ((before t).1 (w.came k t ((there t).0 f))) ∙ e))
          ]
          | inr g ↦ rw (e, g) ((there s).1 (w.stays k s ((before s).0 e) g))
        ]
      ]

  -- What a removal promises: the table stays well formed and is filtered, and the count is right.
  pub record Removed (fs : FolderState) (removed : ℕ) : Type 0 where
    pub kept : IsFolder fs
    pub entries : (k : List ℕ) → entry fs k ≡ filtered drop (entry orig k)
    pub count : fs.num_files + removed ≡ orig.num_files

  pub rebuilt-Removed :
      (fs : FolderState) (removed : ℕ)
      → IsFolder orig
      → 0 < removed
      → Sweeping fs fs.num_files removed
      → Removed (hash_rebuild (record fs { dirty = true; prune_gen = fs.prune_gen + 1 })) removed
  rebuilt-Removed fs removed x some_gone w =
      let fs1 : FolderState = record fs { dirty = true; prune_gen = fs.prune_gen + 1 } in
      record {
        kept =
            hash_rebuild-IsFolder fs1 (omega (arith, w.count, w.room, x.fits))
              (omega (arith, w.count, w.room, x.fits))
              (Distinct-Names fs.slots fs.num_files w.distinct);
        entries = λ k. entry-hash_rebuild fs1 k ∙ swept_entry fs removed k x w;
        count = omega (arith, num_files-hash_rebuild fs1, w.count);
      }

  pub settle-Removed :
      (fs : FolderState) (removed : ℕ)
      → IsFolder orig
      → Sweeping fs fs.num_files removed
      → Removed (settle (fs, removed)).0 (settle (fs, removed)).1
  settle-Removed fs removed x w = elim (Bool-cases (ltb 0 removed)) [
    | inl e ↦ rw e (rebuilt-Removed fs removed x (ground arith) w)
    | inr e ↦ rw e (record {
      kept = subst IsFolder (sym (w.untouched (ground arith))) x;
      entries = λ k. swept_entry fs removed k x w;
      count = w.count;
    })
  ]

  pub remove_where-Removed :
      IsFolder orig → Removed (remove_where drop orig).0 (remove_where drop orig).1
  unfolding remove_where
  remove_where-Removed x =
      settle-Removed (remove_loop drop orig.num_files orig 0 0).0
        (remove_loop drop orig.num_files orig 0 0).1 x
        (loop-Sweeping orig.num_files orig 0 0 (omega arith) (start-Sweeping x))
