-- ===== src/Wreg.antt =====
-- src/wreg.c: the registry of worker tasks. Each function runs under Forbid, so each is one step. A
-- task's pointer is a number and NULL is `none`; `me` is FindTask(NULL). Signal is AmigaOS's, and a
-- parameter: what it does to the state `S` of the system.
pub mod Registered
pub mod Signalled
mod Tests
use amisync.Common.{
  ℕ, first_of, suc, Bool, true, false, Option, none, some, List, [], ◌∷◌, set, replicate,
  if◌then◌else◌, ◌==◌,
}

abbrev pub wreg_max : ℕ
wreg_max = 64

-- BSS: all NULL.
abbrev pub wreg_tasks : List (Option ℕ)
wreg_tasks = replicate wreg_max none

-- The loop of wreg_add: whether `me` was found, and the first spare slot before it.
unfoldable pub scan_tasks : List (Option ℕ) → ℕ → ℕ → Option ℕ → Bool × Option ℕ
scan_tasks [] me i spare = (false, spare)
scan_tasks (none ∷ ts) me i spare = scan_tasks ts me (suc i) (first_of spare i)
scan_tasks (some t ∷ ts) me i spare =
    let more = scan_tasks ts me (suc i) spare in if t == me then (true, spare) else more

abbrev pub take_spare : List (Option ℕ) → ℕ → Bool × Option ℕ → List (Option ℕ)
take_spare tasks me (true, spare) = tasks
take_spare tasks me (false, none) = tasks
take_spare tasks me (false, some i) = set tasks i (some me)

unfoldable pub wreg_add : List (Option ℕ) → ℕ → List (Option ℕ)
unfolding scan_tasks
wreg_add tasks me = take_spare tasks me (scan_tasks tasks me 0 none)

-- The first slot that holds `me` is cleared, and the loop ends there.
unfoldable pub wreg_remove : List (Option ℕ) → ℕ → List (Option ℕ)
wreg_remove [] me = []
wreg_remove (none ∷ ts) me = none ∷ wreg_remove ts me
wreg_remove (some t ∷ ts) me =
    let more = wreg_remove ts me in if t == me then none ∷ ts else some t ∷ more

module _ {ℓ} {S : Type ℓ} (signal : ℕ → ℕ → S → S) where
  unfoldable pub wreg_signal : List (Option ℕ) → ℕ → S → S
  wreg_signal [] sigmask s = s
  wreg_signal (none ∷ ts) sigmask s = wreg_signal ts sigmask s
  wreg_signal (some t ∷ ts) sigmask s = wreg_signal ts sigmask (signal t sigmask s)
