-- ===== src/FoldState/Claims/Holder.antt =====
-- The claims as a map from name hashes to workers: one holder at most.
use amisync.Common.{
  ℕ, zero, suc, ◌+◌, ◌≤◌, ◌≡◌, refl, sym, ap, ◌∙◌, ◌≢◌, ◌⊎◌, inl, inr, Bool, true, false, ◌&&◌,
  Option, none, some, List, [], ◌∷◌, arith, set, if◌then◌else◌, ◌==◌, Option-cases,
}
use amisync.FoldState.Claims.{
  FolderClaim, scan_claims, claim_hash, foldstate_claim, name_hash_of, foldstate_unclaim,
}

-- The worker that holds the hash.
unfoldable pub holder : List FolderClaim → ℕ → Option ℕ
holder [] h = none
holder (c ∷ cs) h = elim c.owner [
  | none ↦ holder cs h
  | some o ↦ if c.name_hash == h then some o else holder cs h
]

unfoldable pub find_free : List FolderClaim → ℕ → Option ℕ
find_free [] i = none
find_free (c ∷ cs) i = elim c.owner [ none ↦ some i | some o ↦ find_free cs (suc i) ]

abbrev or_else : Option ℕ → Option ℕ → Option ℕ
or_else (some s) other = some s
or_else none other = other

-- The answer of the loop, by the holder and the free slots.
abbrev scanned : Option ℕ → ℕ → Option ℕ → Option ℕ × Bool
scanned (some o) owner slot = (none, o == owner)
scanned none owner slot = (slot, false)

scan_claims_lem :
    (cs : List FolderClaim) (h owner i : ℕ) (slot : Option ℕ)
    → scan_claims cs h owner i slot ≡ scanned (holder cs h) owner (or_else slot (find_free cs i))
unfolding scan_claims holder find_free
scan_claims_lem [] h owner i none = refl
scan_claims_lem [] h owner i (some s) = refl
scan_claims_lem (c ∷ cs) h owner i none =
    ground
      (arith, scan_claims_lem cs h owner (suc i) none, scan_claims_lem cs h owner (suc i) (some i))
scan_claims_lem (c ∷ cs) h owner i (some s) =
    ground (arith, scan_claims_lem cs h owner (suc i) (some s))

abbrev slot_of : ℕ → ℕ → FolderClaim
slot_of owner h = record { owner = some owner; name_hash = h }

find_free_ge : (cs : List FolderClaim) (i s : ℕ) → find_free cs i ≡ some s → i ≤ s
unfolding find_free
find_free_ge [] i s e = cc
find_free_ge (c ∷ cs) i s e = ground (arith, find_free_ge cs (suc i) s)

-- Filling the first free slot adds the claim.
holder-set :
    (cs : List FolderClaim) (h owner k j i : ℕ)
    → holder cs h ≡ none
    → find_free cs i ≡ some (j + i)
    → holder (set cs j (slot_of owner h)) k ≡ (if h == k then some owner else holder cs k)
unfolding holder find_free
holder-set [] h owner k j i e f = cc
holder-set (c ∷ cs) h owner k zero i e f = ground (arith, find_free_ge cs (suc i) i)
holder-set (c ∷ cs) h owner k (suc j) i e f = ground (arith, holder-set cs h owner k j (suc i))

-- No two slots are held under one hash.
abbrev pub IsExclusive : List FolderClaim → Type 0
IsExclusive [] = Unit
IsExclusive (c ∷ cs) = (c.owner ≢ none → holder cs c.name_hash ≡ none) × IsExclusive cs

set-IsExclusive :
    (cs : List FolderClaim) (h owner j i : ℕ)
    → holder cs h ≡ none
    → find_free cs i ≡ some (j + i)
    → IsExclusive cs
    → IsExclusive (set cs j (slot_of owner h))
unfolding holder find_free
set-IsExclusive [] h owner j i e f x = tt
set-IsExclusive (c ∷ cs) h owner zero i e f x =
    ((λ n. ground (arith, find_free_ge cs (suc i) i)), x.1)
set-IsExclusive (c ∷ cs) h owner (suc j) i e f x = (
  (λ n. ground (arith, holder-set cs h owner c.name_hash j (suc i), x.0 n)),
  set-IsExclusive cs h owner j (suc i) (ground arith) (ground arith) x.1,
)

-- What a claim of an unheld name, or of a held one, must answer.
abbrev pub granted : Option ℕ → Bool → ℕ → Bool
granted none free owner = free
granted (some o) free owner = o == owner

unfoldable pub has_free : List FolderClaim → Bool
has_free cs = elim (find_free cs 0) [ none ↦ false | some i ↦ true ]

-- What a claim does to the map from hashes to workers.
abbrev pub Claimed : List FolderClaim → ℕ → ℕ → List FolderClaim × Bool → Type 0
Claimed cs h owner (cs', ok) =
    (ok ≡ granted (holder cs h) (has_free cs) owner)
    × ((k : ℕ) → holder cs' k ≡ (if ok && (h == k) then some owner else holder cs k))
    × IsExclusive cs'

has_free-none : (cs : List FolderClaim) → find_free cs 0 ≡ none → has_free cs ≡ false
unfolding has_free
has_free-none cs f = rw (has_free, f) refl

has_free-some : (cs : List FolderClaim) (i : ℕ) → find_free cs 0 ≡ some i → has_free cs ≡ true
unfolding has_free
has_free-some cs i f = rw (has_free, f) refl

some_plus_zero : (j : ℕ) → some j ≡ some (j + 0)
some_plus_zero j = ap some (omega arith)

granted_keeps :
    (cs : List FolderClaim) (h owner o k : ℕ)
    → holder cs h ≡ some o
    → holder cs k ≡ (if (o == owner) && (h == k) then some owner else holder cs k)
granted_keeps cs h owner o k e = ground (arith, e)

claim_hash-Claimed :
    (cs : List FolderClaim) (h owner : ℕ)
    → IsExclusive cs
    → Claimed cs h owner (claim_hash cs h owner)
unfolding claim_hash
claim_hash-Claimed cs h owner x = elim (Option-cases (holder cs h)) [
  | inr (o, e) ↦
      rw (scan_claims_lem cs h owner 0 none, e) (refl, (λ k. granted_keeps cs h owner o k e), x)
  | inl e ↦ elim (Option-cases (find_free cs 0)) [
    | inl f ↦
        rw (scan_claims_lem cs h owner 0 none, e, f) (sym (has_free-none cs f), (λ k. refl), x)
    | inr (j, f) ↦
        let g : find_free cs 0 ≡ some (j + 0) = f ∙ some_plus_zero j in
        rw (scan_claims_lem cs h owner 0 none, e, f)
          (
            sym (has_free-some cs j f),
            (λ k. holder-set cs h owner k j 0 e g),
            set-IsExclusive cs h owner j 0 e g x,
          )
  ]
]

-- A claim returns 1 exactly when the worker holds the name's hash already, or nobody does and a
-- slot is free. Afterwards the hash is the worker's if it returned 1, every other hash has the holder
-- that it had, and still no two slots are held under one hash.
pub foldstate_claim_lem :
    (cs : List FolderClaim) (name : List ℕ) (owner : ℕ)
    → IsExclusive cs
    → Claimed cs (name_hash_of name) owner (foldstate_claim cs name owner)
unfolding foldstate_claim
foldstate_claim_lem cs name owner x = claim_hash-Claimed cs (name_hash_of name) owner x

abbrev pub without : ℕ → Option ℕ → Option ℕ
without owner none = none
without owner (some o) = if o == owner then none else some o

-- A slot that is held says so, and the rest of the slots then does not hold its hash.
AloneIn : FolderClaim → List FolderClaim → Type 0
AloneIn c cs = (c.owner ≡ none) ⊎ ((o : ℕ) × (c.owner ≡ some o)) × (holder cs c.name_hash ≡ none)

head_alone : (c : FolderClaim) (cs : List FolderClaim) → IsExclusive (c ∷ cs) → AloneIn c cs
unfolding AloneIn
head_alone c cs x = elim (Option-cases c.owner) [
  | inl e ↦ inl e
  | inr (o, e) ↦ inr ((o, e), x.0 (ground (arith, e)))
]

holder_unclaim :
    (cs : List FolderClaim) (owner k : ℕ)
    → IsExclusive cs
    → holder (foldstate_unclaim cs owner) k ≡ without owner (holder cs k)
unfolding holder foldstate_unclaim AloneIn
holder_unclaim [] owner k x = refl
holder_unclaim (c ∷ cs) owner k x = elim (head_alone c cs x) [
  | inl e ↦ ground (arith, e, holder_unclaim cs owner k x.1)
  | inr ((o, e), f) ↦ ground (arith, e, f, holder_unclaim cs owner k x.1)
]

unclaim-IsExclusive :
    (cs : List FolderClaim) (owner : ℕ) → IsExclusive cs → IsExclusive (foldstate_unclaim cs owner)
unfolding foldstate_unclaim AloneIn
unclaim-IsExclusive [] owner x = tt
unclaim-IsExclusive (c ∷ cs) owner x = elim (head_alone c cs x) [
  | inl e ↦ ((λ n. ground (arith, n, e)), unclaim-IsExclusive cs owner x.1)
  | inr ((o, e), f) ↦ (
    (λ n. ground (arith, e, f, holder_unclaim cs owner c.name_hash x.1)),
    unclaim-IsExclusive cs owner x.1,
  )
]

-- Unclaiming ends every claim of the worker and no other, and still no two slots are held under one
-- hash.
pub holder-foldstate_unclaim :
    (cs : List FolderClaim) (owner : ℕ)
    → IsExclusive cs
    → ((k : ℕ) → holder (foldstate_unclaim cs owner) k ≡ without owner (holder cs k))
      × IsExclusive (foldstate_unclaim cs owner)
holder-foldstate_unclaim cs owner x =
    ((λ k. holder_unclaim cs owner k x), unclaim-IsExclusive cs owner x)
