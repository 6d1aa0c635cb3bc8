-- ===== src/FoldState/Upsert/Grown.antt =====
-- ensure_cap: a grown table holds what it held.
use mathlib.Core.Path.{subst}
use amisync.Common.{
  ℕ, zero, suc, ◌+◌, ◌*◌, ◌≤◌, ◌<◌, ◌≡◌, ◌⊎◌, refl, sym, ap, ◌∙◌, inl, inr, Bool, true, false, none,
  List, arith, Bool-cases, if◌then◌else◌, ltb, leb, ◌==◌,
}
use amisync.FoldState.Table.{FolderState, hash_rebuild}
use amisync.FoldState.Table.Chain.{hash_rebuild-IsLinked, link_all-keeps, IsLinked}
use amisync.FoldState.Table.Kept.{Names, IsFolder, entry, SameNames-IsFolder, same_entry}
use amisync.FoldState.Upsert.{foldstate_max_files, double_up, grown_cap, moved, ensure_cap}

-- The capacity after a grow is enough.
double_up-ge :
    (fuel newcap need : ℕ) → 0 < newcap → need ≤ fuel + newcap → need ≤ double_up fuel newcap need
unfolding double_up
double_up-ge zero newcap need pos h = omega arith
double_up-ge (suc fuel) newcap need pos h = ground (arith, double_up-ge fuel (newcap * 2) need)

grown_cap-ge : (cap need : ℕ) → need ≤ foldstate_max_files → need ≤ grown_cap cap need
unfolding grown_cap
grown_cap-ge c need h = ground (arith, double_up-ge need (if c == 0 then 64 else c) need)

-- A rebuild changes nothing but the links.
hash_rebuild-keeps :
    (fs : FolderState)
    → hash_rebuild fs
      ≡ record fs { hhead = (hash_rebuild fs).hhead; hnext = (hash_rebuild fs).hnext }
unfolding hash_rebuild
hash_rebuild-keeps fs =
    link_all-keeps (record fs { hhead = λ b. if ltb b fs.cap then none else fs.hhead b }) 0
      fs.num_files

pub hash_rebuild-IsFolder :
    (fs : FolderState)
    → 0 < fs.cap
    → fs.num_files ≤ fs.cap
    → Names fs.slots fs.num_files
    → IsFolder (hash_rebuild fs)
hash_rebuild-IsFolder fs pos fits names = subst IsFolder (sym (hash_rebuild-keeps fs)) (record {
  fits = fits;
  linked =
      subst (λ t. IsLinked t fs.num_files) (hash_rebuild-keeps fs) (hash_rebuild-IsLinked fs pos);
  names = names;
})

pub entry-hash_rebuild : (fs : FolderState) (k : List ℕ) → entry (hash_rebuild fs) k ≡ entry fs k
entry-hash_rebuild fs k = ap (λ t. entry t k) (hash_rebuild-keeps fs)

pub num_files-hash_rebuild : (fs : FolderState) → (hash_rebuild fs).num_files ≡ fs.num_files
num_files-hash_rebuild fs = ap (λ t. t.num_files) (hash_rebuild-keeps fs)

cap-hash_rebuild : (fs : FolderState) → (hash_rebuild fs).cap ≡ fs.cap
cap-hash_rebuild fs = ap (λ t. t.cap) (hash_rebuild-keeps fs)

moved_slot : (fs : FolderState) (c j : ℕ) → j < fs.num_files → fs.slots j ≡ (moved fs c).slots j
moved_slot fs c j h = let e : ltb j fs.num_files ≡ true = ground arith in rw e refl

-- What ensure_cap leaves: the same entries, and room if it says so.
pub record Ensured (fs : FolderState) (need : ℕ) (allocated : Bool) (fs' : FolderState) (ok : Bool)
    : Type 0 where
  pub kept : IsFolder fs'
  pub same : (k : List ℕ) → entry fs' k ≡ entry fs k
  pub count : fs'.num_files ≡ fs.num_files
  pub room : ok ≡ true → need ≤ fs'.cap
  pub full : ok ≡ false → (fs' ≡ fs) × ((foldstate_max_files < need) ⊎ (allocated ≡ false))

grown-Ensured :
    (fs : FolderState) (need : ℕ)
    → fs.cap < need
    → need ≤ foldstate_max_files
    → IsFolder fs
    → Ensured fs need true (hash_rebuild (moved fs (grown_cap fs.cap need))) true
grown-Ensured fs need more fits x =
    let c = grown_cap fs.cap need in
    let g = grown_cap-ge fs.cap need fits in
    record {
      kept =
          hash_rebuild-IsFolder (moved fs c) (omega (arith, g)) (omega (arith, g, x.fits))
            (SameNames-IsFolder fs (moved fs c).slots
              (λ j h. ap (λ s. s.name) (moved_slot fs c j h)) x).names;
      same = λ k.
          entry-hash_rebuild (moved fs c) k
          ∙ sym (same_entry fs.slots (moved fs c).slots fs.num_files k (moved_slot fs c));
      count = num_files-hash_rebuild (moved fs c);
      room = λ e. rw (cap-hash_rebuild (moved fs c)) g;
      full = λ e. cc;
    }

pub ensure_cap-Ensured :
    (fs : FolderState) (need : ℕ) (allocated : Bool)
    → IsFolder fs
    → Ensured fs need allocated (ensure_cap fs need allocated).0 (ensure_cap fs need allocated).1
unfolding ensure_cap
ensure_cap-Ensured fs need allocated x = elim (Bool-cases (leb need fs.cap)) [
  | inl e ↦ rw e (record {
    kept = x;
    same = λ k. refl;
    count = refl;
    room = λ f. ground arith;
    full = λ f. cc;
  })
  | inr e ↦ elim (Bool-cases (ltb foldstate_max_files need)) [
    | inl f ↦
        rw (e, f)
          (record {
            kept = x;
            same = λ k. refl;
            count = refl;
            room = λ g. cc;
            full = λ g. (refl, inl (ground arith));
          })
    | inr f ↦ elim (Bool-cases allocated) [
      | inl g ↦ rw (e, f, g) (grown-Ensured fs need (ground arith) (ground arith) x)
      | inr g ↦
          rw (e, f, g)
            (record {
              kept = x;
              same = λ k. refl;
              count = refl;
              room = λ h. cc;
              full = λ h. (refl, inr refl);
            })
    ]
  ]
]
