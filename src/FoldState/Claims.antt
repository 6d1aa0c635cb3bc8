-- ===== src/FoldState/Claims.antt =====
-- foldstate_claim and foldstate_unclaim of src/foldstate.c. Both run under the folder's semaphore,
-- so each is one step. A worker's pointer is a number, and NULL is `none`.
pub mod Holder
mod Tests
use Prim.Native.Nat.{bit_xor}
use amisync.Common.{
  ℕ, first_of, zero, suc, ◌+◌, ◌*◌, ◌^◌, ◌%◌, Bool, true, false, Option, none, some, List, [], ◌∷◌,
  set, replicate, if◌then◌else◌, ◌==◌,
}

abbrev pub foldstate_max_claims : ℕ
foldstate_max_claims = 16

pub record FolderClaim : Type 0 where
  pub owner : Option ℕ
  pub name_hash : ℕ

-- 32-bit FNV-1a.
unfoldable pub hash_bytes : ℕ → List ℕ → ℕ
hash_bytes h [] = h
hash_bytes h (c ∷ s) = hash_bytes (bit_xor h c * 16777619 % 2 ^ 32) s

unfoldable pub name_hash_of : List ℕ → ℕ
unfolding hash_bytes
name_hash_of name = hash_bytes 2166136261 name

abbrev pub no_claims : List FolderClaim
no_claims = replicate foldstate_max_claims (record { owner = none; name_hash = 0 })

-- The loop: the first free slot so far, and the answer. A slot that holds the name ends it.
unfoldable pub scan_claims : List FolderClaim → ℕ → ℕ → ℕ → Option ℕ → Option ℕ × Bool
scan_claims [] h owner i slot = (slot, false)
scan_claims (c ∷ cs) h owner i slot = elim c.owner [
  | none ↦ scan_claims cs h owner (suc i) (first_of slot i)
  | some o ↦
      (let more = scan_claims cs h owner (suc i) slot in
        if c.name_hash == h then (none, o == owner) else more)
]

abbrev pub take_slot : List FolderClaim → ℕ → ℕ → Option ℕ × Bool → List FolderClaim × Bool
take_slot claims h owner (none, ok) = (claims, ok)
take_slot claims h owner (some i, ok) =
    (set claims i (record { owner = some owner; name_hash = h }), true)

unfoldable pub claim_hash : List FolderClaim → ℕ → ℕ → List FolderClaim × Bool
unfolding scan_claims
claim_hash claims h owner = take_slot claims h owner (scan_claims claims h owner 0 none)

-- The claims of the folder after the call, and what it returns.
unfoldable pub foldstate_claim : List FolderClaim → List ℕ → ℕ → List FolderClaim × Bool
unfolding claim_hash name_hash_of
foldstate_claim claims name owner = claim_hash claims (name_hash_of name) owner

abbrev pub release : ℕ → FolderClaim → FolderClaim
release owner c = elim c.owner [
  | none ↦ c
  | some o ↦ if o == owner then record c { owner = none } else c
]

unfoldable pub foldstate_unclaim : List FolderClaim → ℕ → List FolderClaim
foldstate_unclaim [] owner = []
foldstate_unclaim (c ∷ cs) owner = release owner c ∷ foldstate_unclaim cs owner
