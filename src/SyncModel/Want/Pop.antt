-- ===== src/SyncModel/Want/Pop.antt =====
-- sync_want_pop takes the newest entry off the stack, and sync_want_has searches it.
use amisync.Common.{
  ℕ, zero, suc, ◌+◌, ◌-◌, ◌≤◌, ◌≡◌, refl, ap, ap₂, ◌∙◌, Bool, true, false, ◌&&◌, ◌||◌, Option, none,
  some, List, [], ◌∷◌, arith, take, if◌then◌else◌, ltb, ◌==◌, bytes_eq,
}
use amisync.Common.Arrays.{read_all}
use native.Mathlib.Nat.{add-zero, zero-add}
use amisync.SyncModel.Want.Stack.{Entry, entry, entries, contents, Stacked, IsStack}
use amisync.SyncModel.Want.{WantFile, SyncModel, has_from, is_file, sync_want_has, sync_want_pop}

none_of_more : (k : ℕ) → (if ltb 0 (suc k) then 0 else suc k) ≡ 0
none_of_more k = ground arith

none_of_zero : (n : ℕ) → (if ltb (suc n) 0 then suc n else 0) ≡ 0
none_of_zero n = ground arith

first_of_more :
    (n k : ℕ) → (if ltb (suc n) (suc k) then suc n else suc k) ≡ suc (if ltb n k then n else k)
first_of_more n k = ground arith

take-read_all :
    (pool : ℕ → List ℕ) (i n k : ℕ)
    → read_all pool i (if ltb n k then n else k) ≡ take k (read_all pool i n)
unfolding read_all
take-read_all pool i zero zero = refl
take-read_all pool i (suc n) zero = rw (none_of_zero n)
take-read_all pool i zero (suc k) = rw (none_of_more k)
take-read_all pool i (suc n) (suc k) =
    rw (first_of_more n k) (ap (◌∷◌ (pool i)) (take-read_all pool (suc i) n k))

-- What a pop answers, by what is queued.
abbrev pub Pop : SyncModel → ℕ → SyncModel × Option (WantFile × List (List ℕ)) → Type 0
Pop m cap (m', none) = (contents m ≡ []) × (m' ≡ m)
Pop m cap (m', some (t, hs)) =
    IsStack m'
    × ((all : List (List ℕ)) × (contents m ≡ entry t all ∷ contents m') × (hs ≡ take cap all))

abbrev queue : ℕ → ℕ → (ℕ → WantFile) → (ℕ → List ℕ) → SyncModel
queue n used want pool = record { num_want = n; hash_used = used; want = want; want_hashes = pool }

suc_sub_one : (n : ℕ) → suc n - 1 ≡ n
suc_sub_one n = omega arith

suc_ne_zero : (n : ℕ) → (suc n == 0) ≡ false
suc_ne_zero n = ground arith

used_below :
    (n used : ℕ) (want : ℕ → WantFile) → Stacked want (suc n) used → (want n).hash_off ≤ used
used_below n used want s = omega arith

Pop-queue :
    (n used : ℕ) (want : ℕ → WantFile) (pool : ℕ → List ℕ) (cap : ℕ)
    → IsStack (queue n used want pool)
    → Pop (queue n used want pool) cap (sync_want_pop (queue n used want pool) cap)
unfolding sync_want_pop contents entries
Pop-queue zero used want pool cap s = (refl, refl)
Pop-queue (suc n) used want pool cap s =
    rw (suc_ne_zero n, suc_sub_one n)
      (
        record { want_fits = omega arith; pool_fits = omega arith; stacked = s.stacked.1 },
        (
          read_all pool (want n).hash_off (want n).num_blocks,
          refl,
          take-read_all pool (want n).hash_off (want n).num_blocks cap,
        ),
      )

-- On a well-formed queue a pop fails, and changes nothing, exactly when nothing is queued. Otherwise
-- it hands out the newest file with its first `cap` hashes, and leaves a well-formed queue of the rest.
pub sync_want_pop_refines : (m : SyncModel) (cap : ℕ) → IsStack m → Pop m cap (sync_want_pop m cap)
sync_want_pop_refines m cap s = Pop-queue m.num_want m.hash_used m.want m.want_hashes cap s

-- Some queued file has the folder and the name.
pub queued : ℕ → List ℕ → List Entry → Bool
queued folder_idx name [] = false
queued folder_idx name (e ∷ es) =
    (e.folder == folder_idx && bytes_eq e.meta.name name) || queued folder_idx name es

or_swap : (a b c : Bool) → (a || (b || c)) ≡ (b || (a || c))
or_swap true b c = ground arith
or_swap false b c = refl

next : (i left : ℕ) → suc i + left ≡ i + suc left
next i left = omega arith

has_from_last :
    (m : SyncModel) (f : ℕ) (name : List ℕ) (i left : ℕ)
    → has_from m f name i (suc left)
      ≡ (is_file (m.want (i + left)) f name || has_from m f name i left)
unfolding has_from
has_from_last m f name i zero = rw add-zero
has_from_last m f name i (suc left) =
    rw (has_from_last m f name (suc i) left, next i left) (or_swap (is_file (m.want i) f name) _ _)

has_first :
    (m : SyncModel) (f : ℕ) (name : List ℕ) (n : ℕ)
    → has_from m f name 0 n ≡ queued f name (entries m.want m.want_hashes n)
unfolding has_from queued entries
has_first m f name zero = refl
has_first m f name (suc n) =
    has_from_last m f name 0 n
    ∙ ap₂ (λ i b. is_file (m.want i) f name || b) (zero-add n) (has_first m f name n)
    ∙ (unfold is_file in refl)

-- sync_want_has answers whether a queued file has this folder and this name, not the name alone.
pub sync_want_has_refines :
    (m : SyncModel) (folder_idx : ℕ) (name : List ℕ)
    → sync_want_has m folder_idx name ≡ queued folder_idx name (contents m)
unfolding sync_want_has contents
sync_want_has_refines m folder_idx name = has_first m folder_idx name m.num_want
