-- ===== src/SyncModel/Want/Push.antt =====
-- sync_want_push_again puts an entry on the stack, or refuses it for want of room.
use amisync.Common.{
  ℕ, suc, ◌+◌, ◌≤◌, ◌<◌, ◌≡◌, refl, ap, inl, inr, Bool, true, false, ◌||◌, List, ◌∷◌, arith, length,
  take, take-all, leb, Bool-cases, leb→le,
}
use amisync.Common.Int.{pos}
use amisync.Common.Arrays.{read_all, store_all_below, read_all-store_all}
use native.Mathlib.Numerals.{add-one}
use amisync.Bep.{BepFileInfo}
use amisync.SyncModel.Meta.{meta_from_fi}
use amisync.SyncModel.Want.Stack.{
  Entry, entries, contents, Stacked, IsStack, Stacked-frame, entries_frame,
}
use amisync.SyncModel.Want.{
  WantFile, SyncModel, sync_max_want, sync_hash_pool, pool_full, push_entry, sync_want_push_again,
}

-- What a push adds.
abbrev pub pushed_entry : ℕ → BepFileInfo → List (List ℕ) → Bool → ℕ → Entry
pushed_entry folder_idx meta hashes conflict attempts = record {
  folder = folder_idx;
  meta = meta_from_fi meta;
  hashes = hashes;
  conflict = conflict;
  attempts = attempts;
}

abbrev pub HasSpace : SyncModel → ℕ → Type 0
HasSpace m n = (m.num_want < sync_max_want) × (m.hash_used + n ≤ sync_hash_pool)

module _ (m : SyncModel) (folder_idx : ℕ) (meta : BepFileInfo) (hashes : List (List ℕ))
    (conflict : Bool) (attempts : ℕ) (s : IsStack m) where
  abbrev pushed : SyncModel
  pushed = push_entry m folder_idx meta hashes (length hashes) conflict attempts

  stored_below : (i : ℕ) → i < m.num_want → pushed.want i ≡ m.want i
  unfolding push_entry
  stored_below i h = ground arith

  kept_below : (j : ℕ) → j < m.hash_used → pushed.want_hashes j ≡ m.want_hashes j
  unfolding push_entry
  kept_below j h = store_all_below m.want_hashes m.hash_used (take (length hashes) hashes) j h

  abbrev new_want : WantFile
  new_want = record {
    folder_idx = folder_idx;
    fi = meta_from_fi meta;
    hash_off = m.hash_used;
    num_blocks = length hashes;
    conflict = conflict;
    attempts = attempts;
  }

  stored_top : pushed.want m.num_want ≡ new_want
  unfolding push_entry
  stored_top = ground arith

  read_top : read_all pushed.want_hashes m.hash_used (length hashes) ≡ hashes
  unfolding push_entry
  read_top =
      rw (take-all (length hashes) hashes (omega arith))
        (read_all-store_all m.want_hashes m.hash_used hashes)

  pushed_contents :
      entries pushed.want pushed.want_hashes (suc m.num_want)
      ≡ pushed_entry folder_idx meta hashes conflict attempts ∷ contents m
  unfolding entries contents
  pushed_contents =
      rw (stored_top, read_top)
        (ap (◌∷◌ (pushed_entry folder_idx meta hashes conflict attempts)) (
          entries_frame m.want pushed.want m.want_hashes pushed.want_hashes m.num_want m.hash_used
            stored_below kept_below s.stacked))

  pushed-Stacked : Stacked pushed.want (suc m.num_want) (m.hash_used + length hashes)
  pushed-Stacked =
      rw stored_top
        (refl, Stacked-frame m.want pushed.want m.num_want m.hash_used stored_below s.stacked)

  pushed_refines :
      HasSpace m (length hashes)
      → IsStack pushed
        × (contents pushed ≡ pushed_entry folder_idx meta hashes conflict attempts ∷ contents m)
  unfolding push_entry contents
  pushed_refines h = (
    record {
      want_fits = omega arith;
      pool_fits = omega arith;
      stacked = rw add-one pushed-Stacked;
    },
    rw add-one pushed_contents,
  )

-- The guards of a push, as an order.
push_guards :
    (m : SyncModel) (n : ℕ)
    → m.hash_used ≤ sync_hash_pool
    → (leb sync_max_want m.num_want || pool_full m (pos n)) ≡ false
    → HasSpace m n
unfolding pool_full
push_guards m n h e = ground arith

push_refused : (m : SyncModel) (n : ℕ) → pool_full m (pos n) ≡ true → ¬ HasSpace m n
unfolding pool_full
push_refused m n e h = ground arith

-- Whether a push is accepted, by the room left; the other answer leaves the queue as it was.
abbrev pub Push : SyncModel → ℕ → Entry → SyncModel × Bool → Type 0
Push m n e (m', true) = HasSpace m n × (IsStack m' × (contents m' ≡ e ∷ contents m))
Push m n e (m', false) = ¬ (HasSpace m n) × (m' ≡ m)

-- On a well-formed queue, with as many hashes as blocks, a push is accepted exactly when fewer than
-- 256 files are queued and the hashes fit into the pool of 2048. It then keeps the queue well formed
-- and puts the file, its hashes, its conflict mark and its attempt count on top of what was there;
-- a refused push changes nothing.
pub sync_want_push_again_refines :
    (m : SyncModel) (folder_idx : ℕ) (meta : BepFileInfo) (hashes : List (List ℕ)) (conflict : Bool)
    (attempts : ℕ)
    → IsStack m
    → Push m
        (length hashes)
        (pushed_entry folder_idx meta hashes conflict attempts)
        (sync_want_push_again m folder_idx meta hashes (pos (length hashes)) conflict attempts)
unfolding sync_want_push_again
sync_want_push_again_refines m folder_idx meta hashes conflict attempts s =
    elim (Bool-cases (leb sync_max_want m.num_want)) [
      | inl full ↦ rw full ((λ h. omega (arith, leb→le _ _ full)), refl)
      | inr room ↦ rw room (elim (Bool-cases (pool_full m (pos (length hashes)))) [
        | inl full ↦ rw full (push_refused m (length hashes) full, refl)
        | inr fits ↦
            let space : HasSpace m (length hashes) =
              push_guards m (length hashes) s.pool_fits (ground arith) in
            rw fits (space, pushed_refines m folder_idx meta hashes conflict attempts s space)
      ])
    ]
