-- ===== src/Wreg/Signalled.antt =====
-- wreg_signal, given what Signal does.
use amisync.Common.{
  ℕ, ◌≡◌, refl, ◌∙◌, inl, inr, false, Option, none, some, List, [], ◌∷◌, arith, if◌then◌else◌, ◌==◌,
  Bool-cases,
}
use amisync.Wreg.{wreg_signal}
use amisync.Wreg.Registered.{registered, IsOnce}

-- Signal, as far as wreg_signal relies on it: it adds the mask to what the named task has received,
-- and to nobody else's. `received s k` is the list of masks, the last one first.
module _ {ℓ} {S : Type ℓ} (signal : ℕ → ℕ → S → S) (received : S → ℕ → List ℕ) where
  abbrev pub SignalLaw : Type ℓ
  SignalLaw =
      (t sigmask : ℕ) (s : S) (k : ℕ)
      → received (signal t sigmask s) k ≡ (if t == k then sigmask ∷ received s k else received s k)

  wreg_signal_unregistered :
      (law : SignalLaw) (ts : List (Option ℕ)) (sigmask : ℕ) (s : S) (k : ℕ)
      → registered ts k ≡ false
      → received (wreg_signal signal ts sigmask s) k ≡ received s k
  unfolding wreg_signal registered
  wreg_signal_unregistered law [] sigmask s k h = refl
  wreg_signal_unregistered law (none ∷ ts) sigmask s k h =
      wreg_signal_unregistered law ts sigmask s k h
  wreg_signal_unregistered law (some t ∷ ts) sigmask s k h =
      wreg_signal_unregistered law ts sigmask (signal t sigmask s) k (ground arith)
      ∙ ground (arith, law t sigmask s k)

  -- With Signal's documented effect, and no task in two slots, wreg_signal signals each registered
  -- task exactly once, and no other task.
  pub received-wreg_signal :
      (law : SignalLaw) (ts : List (Option ℕ)) (sigmask : ℕ) (s : S) (k : ℕ)
      → IsOnce ts
      → received (wreg_signal signal ts sigmask s) k
        ≡ (if registered ts k then sigmask ∷ received s k else received s k)
  unfolding wreg_signal registered
  received-wreg_signal law [] sigmask s k x = refl
  received-wreg_signal law (none ∷ ts) sigmask s k x = received-wreg_signal law ts sigmask s k x
  received-wreg_signal law (some t ∷ ts) sigmask s k x = elim (Bool-cases (t == k)) [
    | inl e ↦
        let f : t ≡ k = ground arith in
        let g : registered ts k ≡ false = rw f at x.0 in
        wreg_signal_unregistered law ts sigmask (signal t sigmask s) k g
        ∙ law t sigmask s k
        ∙ ground (arith, e)
    | inr e ↦
        received-wreg_signal law ts sigmask (signal t sigmask s) k x.1
        ∙ ground (arith, e, law t sigmask s k)
  ]
