-- ===== src/Messages/Frames/Transport.antt =====
-- What the loops over a transport do when the transport keeps its promises.
use amisync.Common.{
  ℕ, zero, suc, ◌-◌, ◌≤◌, ◌<◌, ◌≡◌, refl, sym, ap, ap₂, ◌∙◌, true, false, some, List, [], ◌∷◌, ◌++◌,
  arith, length, length-append, take, drop, take_append_drop, ◌==◌, Option,
}
use mathlib.Core.List.{append_assoc, append-nil}
use amisync.Messages.Frames.{Arrival, got, all, full_loop, read_full, send_loop, write_full}

-- A transport whose bytes still to come are `pending`: as long as some are, a read gets at least one
-- of them and at most as many as it asked for, in order.
abbrev pub Delivers : {T : Type 0} → (T → ℕ → T × Arrival) → (T → List ℕ) → Type 0
Delivers {T} read pending =
    (t : T) (n : ℕ)
    → 0 < n
    → 0 < length (pending t)
    → (t' : T) × (bs : List ℕ) × (read t n ≡ (t', got bs))
      × (0 < length bs)
      × (length bs ≤ n)
      × (pending t ≡ bs ++ pending t')

-- A transport that has sent `sent`: a write of some bytes takes at least one, from their front.
abbrev pub Accepts : {T : Type 0} → (T → List ℕ → T × Option ℕ) → (T → List ℕ) → Type 0
Accepts {T} write sent =
    (t : T) (bytes : List ℕ)
    → 0 < length bytes
    → (t' : T) × (n : ℕ) × (write t bytes ≡ (t', some n))
      × (0 < n)
      × (n ≤ length bytes)
      × (sent t' ≡ sent t ++ take n bytes)

split_append :
    (xs ys us vs : List ℕ)
    → xs ++ ys ≡ us ++ vs
    → length xs ≤ length us
    → (ds : List ℕ) × (us ≡ xs ++ ds) × (ys ≡ ds ++ vs)
split_append [] ys us vs e h = (us, refl, e)
split_append (x ∷ xs) ys [] vs e h = absurd (omega arith)
split_append (x ∷ xs) ys (u ∷ us) vs e h =
    let head : x ≡ u = cc in
    let tail : xs ++ ys ≡ us ++ vs = cc in
    let (ds, f, g) = split_append xs ys us vs tail (omega arith) in (ds, ap₂ ◌∷◌ (sym head) f, g)

length-drop : (n : ℕ) (xs : List ℕ) → length (drop n xs) ≡ length xs - n
length-drop zero xs = omega arith
length-drop (suc n) [] = omega arith
length-drop (suc n) (x ∷ xs) = length-drop n xs ∙ omega arith

not_empty : (n : ℕ) → (suc n == 0) ≡ false
not_empty n = ground arith

module _ {T : Type 0} (read : T → ℕ → T × Arrival) (pending : T → List ℕ)
    (d : Delivers read pending) where
  read_turn :
      (fuel n m : ℕ) (t t₁ : T) (cs acc : List ℕ)
      → read t (suc n) ≡ (t₁, got cs)
      → suc n - length cs ≡ m
      → full_loop read (suc fuel) t (suc n) acc ≡ full_loop read fuel t₁ m (acc ++ cs)
  unfolding full_loop
  read_turn fuel n m t t₁ cs acc r e = rw (not_empty n, r, e) refl

  full_loop_lem :
      (fuel : ℕ) (t : T) (bs acc rest : List ℕ)
      → pending t ≡ bs ++ rest
      → length bs ≤ fuel
      → (t' : T) × (full_loop read fuel t (length bs) acc ≡ (t', all (acc ++ bs)))
        × (pending t' ≡ rest)
  unfolding full_loop
  full_loop_lem zero t [] acc rest e h = (t, ap (λ a. (t, all a)) (sym (append-nil acc)), e)
  full_loop_lem (suc fuel) t [] acc rest e h = (t, ap (λ a. (t, all a)) (sym (append-nil acc)), e)
  full_loop_lem zero t (b ∷ bs) acc rest e h = absurd (omega arith)
  full_loop_lem (suc fuel) t (b ∷ bs) acc rest e h =
      let (t₁, cs, r, some_bytes, few, left) =
        d t (suc (length bs)) (omega arith) (omega (arith, ap length e)) in
      let (ds, f, g) = split_append cs (pending t₁) (b ∷ bs) rest (sym left ∙ e) few in
      let (t₂, ih, done) =
        full_loop_lem fuel t₁ ds (acc ++ cs) rest g
          (omega (arith, ap length f, length-append cs ds)) in
      (
        t₂,
        read_turn fuel (length bs) (length ds) t t₁ cs acc r
              (omega (arith, ap length f, length-append cs ds))
            ∙ ih
            ∙ ap (λ a. (t₂, all a)) (append_assoc acc cs ds ∙ ap (◌++◌ acc) (sym f)),
        done,
      )

  -- However the bytes arrive in pieces, read_full gets the next `length bs` of them, and no more.
  pub read_full_lem :
      (t : T) (bs rest : List ℕ)
      → pending t ≡ bs ++ rest
      → (t' : T) × (read_full read t (length bs) ≡ (t', all bs)) × (pending t' ≡ rest)
  unfolding read_full
  read_full_lem t bs rest e = full_loop_lem (length bs) t bs [] rest e (omega arith)

module _ {T : Type 0} (write : T → List ℕ → T × Option ℕ) (sent : T → List ℕ)
    (a : Accepts write sent) where
  write_turn :
      (fuel : ℕ) (t t₁ : T) (b : ℕ) (bs rest : List ℕ) (n : ℕ)
      → write t (b ∷ bs) ≡ (t₁, some n)
      → drop n (b ∷ bs) ≡ rest
      → send_loop write (suc fuel) t (b ∷ bs) ≡ send_loop write fuel t₁ rest
  unfolding send_loop
  write_turn fuel t t₁ b bs rest n w e = rw (not_empty (length bs), w, e) refl

  send_loop_lem :
      (fuel : ℕ) (t : T) (bytes : List ℕ)
      → length bytes ≤ fuel
      → (t' : T) × (send_loop write fuel t bytes ≡ (t', true)) × (sent t' ≡ sent t ++ bytes)
  unfolding send_loop
  send_loop_lem zero t [] h = (t, refl, sym (append-nil (sent t)))
  send_loop_lem (suc fuel) t [] h = (t, refl, sym (append-nil (sent t)))
  send_loop_lem zero t (b ∷ bs) h = absurd (omega arith)
  send_loop_lem (suc fuel) t (b ∷ bs) h =
      let (t₁, n, w, some_bytes, few, added) = a t (b ∷ bs) (omega arith) in
      let whole : take n (b ∷ bs) ++ drop n (b ∷ bs) ≡ b ∷ bs = take_append_drop n (b ∷ bs) in
      let (t₂, ih, done) =
        send_loop_lem fuel t₁ (drop n (b ∷ bs)) (omega (arith, length-drop n (b ∷ bs))) in
      (
        t₂,
        write_turn fuel t t₁ b bs (drop n (b ∷ bs)) n w refl ∙ ih,
        done
            ∙ ap (λ s. s ++ drop n (b ∷ bs)) added
            ∙ append_assoc (sent t) (take n (b ∷ bs)) (drop n (b ∷ bs))
            ∙ ap (◌++◌ (sent t)) whole,
      )

  -- However the transport splits them, write_full sends all the bytes, in order.
  pub write_full_lem :
      (t : T) (bytes : List ℕ)
      → (t' : T) × (write_full write t bytes ≡ (t', true)) × (sent t' ≡ sent t ++ bytes)
  unfolding write_full
  write_full_lem t bytes = send_loop_lem (length bytes) t bytes (omega arith)
