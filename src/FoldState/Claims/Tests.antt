-- ===== src/FoldState/Claims/Tests.antt =====
-- Claims at concrete folders.
use amisync.Common.{◌≡◌, refl, false, none, some, List, [], ◌∷◌}
use amisync.FoldState.Claims.{FolderClaim, name_hash_of, foldstate_claim}
use amisync.FoldState.Claims.Holder.{holder, Claimed, IsExclusive, foldstate_claim_lem}

-- The hash of the one-letter name "a".
name_hash_of_a : name_hash_of (b'a' ∷ []) ≡ 0xe40c292c
unfolding name_hash_of
name_hash_of_a = refl

abbrev two_claims : List FolderClaim
two_claims =
    record { owner = some 1; name_hash = 0xe40c292c }
    ∷ record { owner = none; name_hash = 0xe40c292c }
    ∷ record { owner = some 2; name_hash = 7 }
    ∷ []

two_claims-IsExclusive : IsExclusive two_claims
unfolding holder
two_claims-IsExclusive = ((λ n. refl), ((λ n. refl), ((λ n. refl), tt)))

foldstate_claim_lem_example :
    Claimed two_claims (name_hash_of (b'a' ∷ [])) 2 (foldstate_claim two_claims (b'a' ∷ []) 2)
foldstate_claim_lem_example = foldstate_claim_lem two_claims (b'a' ∷ []) 2 two_claims-IsExclusive

-- The name is held, so the claim of another worker is refused.
claim_refused : (foldstate_claim two_claims (b'a' ∷ []) 2).1 ≡ false
unfolding foldstate_claim
claim_refused = refl
