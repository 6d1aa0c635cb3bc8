-- ===== src/SyncModel/Want/Stack.antt =====
-- The queue of wanted files refines a stack: each entry with its own block hashes.
use amisync.Common.{ℕ, zero, suc, ◌+◌, ◌≤◌, ◌<◌, ◌≡◌, refl, ap, ap₂, Bool, List, [], ◌∷◌, arith}
use amisync.Common.Arrays.{read_all, read_all_ext}
use amisync.SyncModel.Meta.{SyncMeta}
use amisync.SyncModel.Want.{WantFile, SyncModel, sync_max_want, sync_hash_pool}

-- A wanted file with its hashes, as a client sees it.
pub record Entry : Type 0 where
  pub folder : ℕ
  pub meta : SyncMeta
  pub hashes : List (List ℕ)
  pub conflict : Bool
  pub attempts : ℕ

abbrev pub entry : WantFile → List (List ℕ) → Entry
entry t hashes = record {
  folder = t.folder_idx;
  meta = t.fi;
  hashes = hashes;
  conflict = t.conflict;
  attempts = t.attempts;
}

-- The first n entries, the newest first.
unfoldable pub entries : (ℕ → WantFile) → (ℕ → List ℕ) → ℕ → List Entry
entries want pool zero = []
entries want pool (suc n) =
    entry (want n) (read_all pool (want n).hash_off (want n).num_blocks) ∷ entries want pool n

unfoldable pub contents : SyncModel → List Entry
contents m = entries m.want m.want_hashes m.num_want

-- The hashes of n entries lie one behind the other, and fill the pool up to `used`.
abbrev pub Stacked : (ℕ → WantFile) → ℕ → ℕ → Type 0
Stacked want zero used = used ≡ 0
Stacked want (suc n) used =
    ((want n).hash_off + (want n).num_blocks ≡ used) × Stacked want n (want n).hash_off

pub record IsStack (m : SyncModel) : Type 0 where
  pub want_fits : m.num_want ≤ sync_max_want
  pub pool_fits : m.hash_used ≤ sync_hash_pool
  pub stacked : Stacked m.want m.num_want m.hash_used

-- Writes at or above entry n and pool index `used` are not seen below.
pub Stacked-frame :
    (want want' : ℕ → WantFile) (n used : ℕ)
    → ((i : ℕ) → i < n → want' i ≡ want i)
    → Stacked want n used
    → Stacked want' n used
Stacked-frame want want' zero used same s = s
Stacked-frame want want' (suc n) used same s =
    rw (same n (omega arith)) (s.0, Stacked-frame want want' n _ (λ i h. same i (omega arith)) s.1)

pub entries_frame :
    (want want' : ℕ → WantFile) (pool pool' : ℕ → List ℕ) (n used : ℕ)
    → ((i : ℕ) → i < n → want' i ≡ want i)
    → ((j : ℕ) → j < used → pool' j ≡ pool j)
    → Stacked want n used
    → entries want' pool' n ≡ entries want pool n
unfolding entries
entries_frame want want' pool pool' zero used same kept s = refl
entries_frame want want' pool pool' (suc n) used same kept s = rw (same n (omega arith)) (
    ap₂ ◌∷◌ (ap (entry (want n)) (read_all_ext pool' pool _ _ (λ j h. kept j (omega arith)))) (
      entries_frame want want' pool pool' n (want n).hash_off (λ i h. same i (omega arith))
        (λ j h. kept j (omega arith)) s.1))
