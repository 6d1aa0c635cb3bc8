-- ===== src/Wreg/Registered.antt =====
-- The registry as a set of tasks: each stands in it once at most.
use amisync.Common.{
  ℕ, first_of, zero, suc, ◌+◌, ◌≤◌, ◌≡◌, refl, sym, ap, ◌∙◌, inl, inr, Bool, true, false, ◌&&◌,
  ◌||◌, not, Option, none, some, List, [], ◌∷◌, arith, length, set, length-set, ◌==◌, Bool-cases,
  Option-cases,
}
use amisync.Wreg.{scan_tasks, take_spare, wreg_add, wreg_remove}

unfoldable pub registered : List (Option ℕ) → ℕ → Bool
registered [] k = false
registered (none ∷ ts) k = registered ts k
registered (some t ∷ ts) k = (t == k) || registered ts k

unfoldable pub spare_slot : List (Option ℕ) → ℕ → Option ℕ
spare_slot [] i = none
spare_slot (none ∷ ts) i = some i
spare_slot (some t ∷ ts) i = spare_slot ts (suc i)

-- No task stands in two slots.
abbrev pub IsOnce : List (Option ℕ) → Type 0
IsOnce [] = Unit
IsOnce (none ∷ ts) = IsOnce ts
IsOnce (some t ∷ ts) = (registered ts t ≡ false) × IsOnce ts

abbrev or_spare : Option ℕ → Option ℕ → Option ℕ
or_spare (some s) other = some s
or_spare none other = other

scan_unregistered :
    (ts : List (Option ℕ)) (me i : ℕ) (spare : Option ℕ)
    → registered ts me ≡ false
    → scan_tasks ts me i spare ≡ (false, or_spare spare (spare_slot ts i))
unfolding scan_tasks registered spare_slot
scan_unregistered [] me i none h = refl
scan_unregistered [] me i (some s) h = refl
scan_unregistered (none ∷ ts) me i none h = scan_unregistered ts me (suc i) (some i) h
scan_unregistered (none ∷ ts) me i (some s) h = scan_unregistered ts me (suc i) (some s) h
scan_unregistered (some t ∷ ts) me i spare h = ground (arith, scan_unregistered ts me (suc i) spare)

scan_registered :
    (ts : List (Option ℕ)) (me i : ℕ) (spare : Option ℕ)
    → registered ts me ≡ true
    → (scan_tasks ts me i spare).0 ≡ true
unfolding scan_tasks registered
scan_registered [] me i spare h = cc
scan_registered (none ∷ ts) me i spare h = scan_registered ts me (suc i) (first_of spare i) h
scan_registered (some t ∷ ts) me i spare h = ground (arith, scan_registered ts me (suc i) spare)

spare_slot_ge : (ts : List (Option ℕ)) (i s : ℕ) → spare_slot ts i ≡ some s → i ≤ s
unfolding spare_slot
spare_slot_ge [] i s e = cc
spare_slot_ge (none ∷ ts) i s e = ground arith
spare_slot_ge (some t ∷ ts) i s e = ground (arith, spare_slot_ge ts (suc i) s)

registered-set :
    (ts : List (Option ℕ)) (me k j i : ℕ)
    → spare_slot ts i ≡ some (j + i)
    → registered (set ts j (some me)) k ≡ ((me == k) || registered ts k)
unfolding registered spare_slot
registered-set [] me k j i e = cc
registered-set (none ∷ ts) me k zero i e = refl
registered-set (none ∷ ts) me k (suc j) i e = ground arith
registered-set (some t ∷ ts) me k zero i e = ground (arith, spare_slot_ge ts (suc i) i)
registered-set (some t ∷ ts) me k (suc j) i e = ground (arith, registered-set ts me k j (suc i))

set-IsOnce :
    (ts : List (Option ℕ)) (me j i : ℕ)
    → spare_slot ts i ≡ some (j + i)
    → registered ts me ≡ false
    → IsOnce ts
    → IsOnce (set ts j (some me))
unfolding registered spare_slot
set-IsOnce [] me j i e h x = tt
set-IsOnce (none ∷ ts) me zero i e h x = (h, x)
set-IsOnce (none ∷ ts) me (suc j) i e h x = ground arith
set-IsOnce (some t ∷ ts) me zero i e h x = ground (arith, spare_slot_ge ts (suc i) i)
set-IsOnce (some t ∷ ts) me (suc j) i e h x = (
  ground (arith, registered-set ts me t j (suc i), x.0),
  set-IsOnce ts me j (suc i) (ground arith) (ground arith) x.1,
)

unfoldable pub has_spare : List (Option ℕ) → Bool
has_spare ts = elim (spare_slot ts 0) [ none ↦ false | some i ↦ true ]

has_spare-none : (ts : List (Option ℕ)) → spare_slot ts 0 ≡ none → has_spare ts ≡ false
unfolding has_spare
has_spare-none ts e = rw (has_spare, e) refl

has_spare-some : (ts : List (Option ℕ)) (i : ℕ) → spare_slot ts 0 ≡ some i → has_spare ts ≡ true
unfolding has_spare
has_spare-some ts i e = rw (has_spare, e) refl

-- The registry after a worker has registered itself.
abbrev pub Added : List (Option ℕ) → ℕ → List (Option ℕ) → Type 0
Added ts me ts' =
    ((k : ℕ) → registered ts' k ≡ (registered ts k || (has_spare ts && (me == k))))
    × IsOnce ts'
    × (length ts' ≡ length ts)

take_registered :
    (ts : List (Option ℕ)) (me : ℕ) (r : Bool × Option ℕ) → r.0 ≡ true → take_spare ts me r ≡ ts
take_registered ts me (true, spare) e = refl
take_registered ts me (false, spare) e = cc

registered_same :
    (ts : List (Option ℕ)) (me k : ℕ) (b : Bool)
    → registered ts me ≡ true
    → registered ts k ≡ (registered ts k || (b && (me == k)))
registered_same ts me k b h = elim (Bool-cases (me == k)) [
  | inl e ↦
      let f : me ≡ k = ground arith in
      let g : registered ts k ≡ true = rw f at h in ground (arith, g)
  | inr e ↦ ground (arith, e)
]

-- wreg_add registers the calling task if it is registered already or a slot is spare, and no other
-- task; it leaves no task in two slots, and the table keeps its length.
pub wreg_add_lem : (ts : List (Option ℕ)) (me : ℕ) → IsOnce ts → Added ts me (wreg_add ts me)
unfolding wreg_add
wreg_add_lem ts me x = elim (Bool-cases (registered ts me)) [
  | inl h ↦
      rw (take_registered ts me (scan_tasks ts me 0 none) (scan_registered ts me 0 none h))
        ((λ k. registered_same ts me k (has_spare ts) h), x, refl)
  | inr h ↦ elim (Option-cases (spare_slot ts 0)) [
    | inl e ↦
        rw (scan_unregistered ts me 0 none h, e)
          ((λ k. rw (has_spare-none ts e) (ground arith)), x, refl)
    | inr (j, e) ↦
        let f : spare_slot ts 0 ≡ some (j + 0) = e ∙ ap some (omega arith) in
        rw (scan_unregistered ts me 0 none h, e)
          (
            (λ k. rw (has_spare-some ts j e) (registered-set ts me k j 0 f ∙ ground arith)),
            set-IsOnce ts me j 0 f h x,
            length-set ts j (some me),
          )
  ]
]

wreg_remove_here :
    (t : ℕ) (ts : List (Option ℕ)) (me : ℕ)
    → (t == me) ≡ true
    → wreg_remove (some t ∷ ts) me ≡ none ∷ ts
unfolding wreg_remove
wreg_remove_here t ts me e = rw e refl

wreg_remove_later :
    (t : ℕ) (ts : List (Option ℕ)) (me : ℕ)
    → (t == me) ≡ false
    → wreg_remove (some t ∷ ts) me ≡ some t ∷ wreg_remove ts me
unfolding wreg_remove
wreg_remove_later t ts me e = rw e refl

-- What the rest of the table says once the first slot is cleared.
registered_rest :
    (t : ℕ) (ts : List (Option ℕ)) (k : ℕ)
    → registered ts t ≡ false
    → registered ts k ≡ (((t == k) || registered ts k) && not (t == k))
registered_rest t ts k h = elim (Bool-cases (t == k)) [
  | inl e ↦
      let f : t ≡ k = ground arith in
      let g : registered ts k ≡ false = rw f at h in ground (arith, g)
  | inr e ↦ ground (arith, e)
]

registered-wreg_remove :
    (ts : List (Option ℕ)) (me k : ℕ)
    → IsOnce ts
    → registered (wreg_remove ts me) k ≡ (registered ts k && not (me == k))
unfolding wreg_remove registered
registered-wreg_remove [] me k x = refl
registered-wreg_remove (none ∷ ts) me k x = registered-wreg_remove ts me k x
registered-wreg_remove (some t ∷ ts) me k x = elim (Bool-cases (t == me)) [
  | inl e ↦
      let f : t ≡ me = ground arith in
      rw (wreg_remove_here t ts me e, sym f) (registered_rest t ts k x.0)
  | inr e ↦ rw (wreg_remove_later t ts me e) (ground (arith, e, registered-wreg_remove ts me k x.1))
]

wreg_remove-IsOnce : (ts : List (Option ℕ)) (me : ℕ) → IsOnce ts → IsOnce (wreg_remove ts me)
unfolding wreg_remove registered
wreg_remove-IsOnce [] me x = tt
wreg_remove-IsOnce (none ∷ ts) me x = wreg_remove-IsOnce ts me x
wreg_remove-IsOnce (some t ∷ ts) me x = elim (Bool-cases (t == me)) [
  | inl e ↦ rw (wreg_remove_here t ts me e) x.1
  | inr e ↦
      rw (wreg_remove_later t ts me e)
        (ground (arith, x.0, registered-wreg_remove ts me t x.1), wreg_remove-IsOnce ts me x.1)
]

-- wreg_remove takes out the calling task and no other, and leaves no task in two slots.
pub wreg_remove_lem :
    (ts : List (Option ℕ)) (me : ℕ)
    → IsOnce ts
    → ((k : ℕ) → registered (wreg_remove ts me) k ≡ (registered ts k && not (me == k)))
      × IsOnce (wreg_remove ts me)
wreg_remove_lem ts me x = ((λ k. registered-wreg_remove ts me k x), wreg_remove-IsOnce ts me x)
