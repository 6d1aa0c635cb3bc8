-- ===== src/Wreg/Tests.antt =====
-- Registries at concrete tasks.
use amisync.Common.{ℕ, ◌≡◌, refl, Option, none, some, List, [], ◌∷◌, if◌then◌else◌, ◌==◌}
use amisync.Wreg.{wreg_add, wreg_signal}
use amisync.Wreg.Signalled.{SignalLaw, received-wreg_signal}
use amisync.Wreg.Registered.{registered, IsOnce}

abbrev two_tasks : List (Option ℕ)
two_tasks = some 7 ∷ none ∷ some 9 ∷ none ∷ []

two_tasks-IsOnce : IsOnce two_tasks
unfolding registered
two_tasks-IsOnce = (refl, (refl, tt))

-- A system that only keeps what each task has received.
abbrev deliver : ℕ → ℕ → (ℕ → List ℕ) → ℕ → List ℕ
deliver t sigmask s k = if t == k then sigmask ∷ s k else s k

abbrev inbox : (ℕ → List ℕ) → ℕ → List ℕ
inbox s k = s k

deliver-SignalLaw : SignalLaw deliver inbox
deliver-SignalLaw t sigmask s k = refl

received-wreg_signal_example : wreg_signal deliver two_tasks 4096 (λ k. []) 9 ≡ 4096 ∷ []
unfolding registered
received-wreg_signal_example =
    received-wreg_signal deliver inbox deliver-SignalLaw two_tasks 4096 (λ k. []) 9 two_tasks-IsOnce

-- The first spare slot is taken, and a full table drops the task.
wreg_runs :
    (wreg_add two_tasks 8 ≡ some 7 ∷ some 8 ∷ some 9 ∷ none ∷ [])
    × (wreg_add (some 1 ∷ []) 2 ≡ some 1 ∷ [])
unfolding wreg_add
wreg_runs = (refl, refl)
