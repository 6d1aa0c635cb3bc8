-- ===== src/Offered/Table.antt =====
-- One offered_note on the table: which slot its search finds, and what its writes keep.
use amisync.Common.{
  ℕ, text_of, first_of, zero, suc, ◌+◌, ◌≤◌, ◌≡◌, refl, sym, ap, ◌∙◌, ◌≢◌, inl, inr, true, false,
  Option, none, some, List, [], ◌∷◌, arith, length, set, get_or, take-all, All, if◌then◌else◌,
  bytes_eq, bytes_eq→eq, bytes_eq_refl, Bool-cases,
}
use amisync.Offered.{
  OfferedFolder, Slot, is_empty, scopy, text_max, belongs, holds, scan_offers, blank_slot, refresh,
  put_key, write_offer, refused, offered_note,
}

pub scopy_fits : (s : List ℕ) → length s ≤ 63 → scopy (some s) text_max ≡ s
unfolding scopy
scopy_fits s h = take-all 63 s h

pub All-set :
    (P : Slot → Type 0) (slots : List Slot) (i : ℕ) (v : Slot)
    → All P slots
    → P v
    → All P (set slots i v)
All-set P [] i v h p = tt
All-set P (s ∷ slots) zero v h p = (p, h.1)
All-set P (s ∷ slots) (suc i) v h p = (h.0, All-set P slots i v h.1 p)

-- The slots of a device.
unfoldable pub offers_of : List Slot → List ℕ → List OfferedFolder
offers_of [] d = []
offers_of (s ∷ slots) d =
    let more = offers_of slots d in if belongs s d then s.offer ∷ more else more

pub offers_of-set :
    (slots : List Slot) (i : ℕ) (v : Slot) (d : List ℕ)
    → belongs (get_or slots i blank_slot) d ≡ false
    → belongs v d ≡ false
    → offers_of (set slots i v) d ≡ offers_of slots d
unfolding offers_of
offers_of-set [] i v d h k = refl
offers_of-set (s ∷ slots) zero v d h k = rw (h, k) refl
offers_of-set (s ∷ slots) (suc i) v d h k = rw (offers_of-set slots i v d h k) refl

pub bytes_ne : (a b d : List ℕ) → bytes_eq a b ≡ true → b ≢ d → bytes_eq a d ≡ false
bytes_ne a b d h k = elim (Bool-cases (bytes_eq a d)) [
  | inl e ↦ absurd (k (sym (bytes_eq→eq a b h) ∙ bytes_eq→eq a d e))
  | inr e ↦ e
]

scan_ge :
    (slots : List Slot) (d id : List ℕ) (i : ℕ) (f : Option ℕ) (j : ℕ)
    → (scan_offers slots d id i f).0 ≡ some j
    → i ≤ j
unfolding scan_offers
scan_ge [] d id i f j e = cc
scan_ge (s ∷ slots) d id i f j e =
    ground (arith, scan_ge slots d id (suc i) f j, scan_ge slots d id (suc i) (first_of f i) j)

-- The search breaks at a slot that holds the key.
pub scan_found :
    (slots : List Slot) (d id : List ℕ) (i : ℕ) (f : Option ℕ) (k : ℕ)
    → (scan_offers slots d id i f).0 ≡ some (k + i)
    → holds (get_or slots k blank_slot) d id ≡ true
unfolding scan_offers
scan_found [] d id i f k e = cc
scan_found (s ∷ slots) d id i f zero e =
    ground (arith, scan_ge slots d id (suc i) f i, scan_ge slots d id (suc i) (first_of f i) i)
scan_found (s ∷ slots) d id i f (suc k) e =
    ground
      (arith, scan_found slots d id (suc i) f k, scan_found slots d id (suc i) (first_of f i) k)

scan_free_kept :
    (slots : List Slot) (d id : List ℕ) (i f : ℕ) → (scan_offers slots d id i (some f)).1 ≡ some f
unfolding scan_offers
scan_free_kept [] d id i f = refl
scan_free_kept (s ∷ slots) d id i f = ground (arith, scan_free_kept slots d id (suc i) f)

scan_free_ge :
    (slots : List Slot) (d id : List ℕ) (i j : ℕ)
    → (scan_offers slots d id i none).1 ≡ some j
    → i ≤ j
unfolding scan_offers
scan_free_ge [] d id i j e = cc
scan_free_ge (s ∷ slots) d id i j e =
    ground (arith, scan_free_ge slots d id (suc i) j, scan_free_kept slots d id (suc i) i)

-- The free slot that the search remembers is free.
pub scan_free :
    (slots : List Slot) (d id : List ℕ) (i k : ℕ)
    → (scan_offers slots d id i none).1 ≡ some (k + i)
    → is_empty (get_or slots k blank_slot).offer.id ≡ true
unfolding scan_offers
scan_free [] d id i k e = refl
scan_free (s ∷ slots) d id i zero e = ground (arith, scan_free_ge slots d id (suc i) i)
scan_free (s ∷ slots) d id i (suc k) e =
    ground (arith, scan_free slots d id (suc i) k, scan_free_kept slots d id (suc i) i)

-- What holds of every slot still does after the writes, if it holds of the slot written.
write-All :
    (P : Slot → Type 0) (slots : List Slot) (d id : List ℕ) (u : Slot → Slot)
    → All P slots
    → ((s : Slot) → holds s d id ≡ true → P (u s))
    → ((s : Slot) → P (u (put_key d id s)))
    → (r : Option ℕ × Option ℕ)
    → ((k : ℕ) → r.0 ≡ some k → holds (get_or slots k blank_slot) d id ≡ true)
    → All P (write_offer slots d id u r)
write-All P slots d id u h old new (some k, f) found =
    All-set P slots k (u (get_or slots k blank_slot)) h
      (old (get_or slots k blank_slot) (found k refl))
write-All P slots d id u h old new (none, none) found = h
write-All P slots d id u h old new (none, some k) found =
    All-set P slots k (u (put_key d id (get_or slots k blank_slot))) h
      (new (get_or slots k blank_slot))

pub offered_note-All :
    (P : Slot → Type 0) (slots : List Slot) (device_id device_name id label : Option (List ℕ))
    → All P slots
    → ((s : Slot)
        → refused device_id id label ≡ false
        → holds s (text_of device_id) (text_of id) ≡ true
        → P (refresh label device_name s))
    → ((s : Slot)
        → refused device_id id label ≡ false
        → P (refresh label device_name (put_key (text_of device_id) (text_of id) s)))
    → All P (offered_note slots device_id device_name id label)
unfolding offered_note
offered_note-All P slots device_id device_name id label h old new =
    elim (Bool-cases (refused device_id id label)) [
      | inl e ↦ rw e h
      | inr e ↦ rw e (
          write-All P slots (text_of device_id) (text_of id) (refresh label device_name) h
            (λ s. old s e) (λ s. new s e)
            (scan_offers slots (text_of device_id) (text_of id) 0 none)
            (λ k f.
              scan_found slots (text_of device_id) (text_of id) 0 none k
                (f ∙ ap some (omega arith))))
    ]

write-offers_of :
    (slots : List Slot) (d id : List ℕ) (u : Slot → Slot) (other : List ℕ)
    → ((s : Slot) → holds s d id ≡ true → (belongs s other ≡ false) × (belongs (u s) other ≡ false))
    → ((s : Slot) → belongs (u (put_key d id s)) other ≡ false)
    → (r : Option ℕ × Option ℕ)
    → ((k : ℕ) → r.0 ≡ some k → holds (get_or slots k blank_slot) d id ≡ true)
    → ((k : ℕ) → r.1 ≡ some k → is_empty (get_or slots k blank_slot).offer.id ≡ true)
    → offers_of (write_offer slots d id u r) other ≡ offers_of slots other
write-offers_of slots d id u other old new (some k, f) found free =
    let o = old (get_or slots k blank_slot) (found k refl) in
    offers_of-set slots k (u (get_or slots k blank_slot)) other o.0 o.1
write-offers_of slots d id u other old new (none, none) found free = refl
write-offers_of slots d id u other old new (none, some k) found free =
    offers_of-set slots k (u (put_key d id (get_or slots k blank_slot))) other
      (ground (arith, free k refl)) (new (get_or slots k blank_slot))

held_ne :
    (s : Slot) (d id other : List ℕ) → holds s d id ≡ true → d ≢ other → belongs s other ≡ false
held_ne s d id other h ne =
    let e : bytes_eq s.offer.device_id d ≡ true = ground arith in
    ground (arith, bytes_ne s.offer.device_id d other e ne)

fresh_ne :
    (s : Slot) (d id other : List ℕ)
    → length d ≤ 63
    → d ≢ other
    → belongs (put_key d id s) other ≡ false
fresh_ne s d id other fits ne =
    let e : bytes_eq (scopy (some d) text_max) other ≡ false =
      rw (scopy_fits d fits) (bytes_ne d d other (bytes_eq_refl d) ne) in
    ground (arith, e)

-- A note of one device leaves the offers of another as they are.
pub offers_of-offered_note :
    (slots : List Slot) (device_id device_name id label : Option (List ℕ)) (other : List ℕ)
    → length (text_of device_id) ≤ 63
    → text_of device_id ≢ other
    → offers_of (offered_note slots device_id device_name id label) other ≡ offers_of slots other
unfolding offered_note
offers_of-offered_note slots device_id device_name id label other fits ne =
    let d = text_of device_id in
    let k = text_of id in
    elim (Bool-cases (refused device_id id label)) [
      | inl e ↦ rw e refl
      | inr e ↦ rw e (
          write-offers_of slots d k (refresh label device_name) other
            (λ s h. let o = held_ne s d k other h ne in (o, o)) (λ s. fresh_ne s d k other fits ne)
            (scan_offers slots d k 0 none)
            (λ j f. scan_found slots d k 0 none j (f ∙ ap some (omega arith)))
            (λ j f. scan_free slots d k 0 j (f ∙ ap some (omega arith))))
    ]
