-- ===== src/Offered/Session.antt =====
-- A peer's ClusterConfig is one session: offered_begin, an offered_note for each folder, offered_end.
use amisync.Common.{
  ℕ, text_of, ◌≤◌, ◌≡◌, refl, ◌∙◌, ◌≢◌, ◌⊎◌, inl, inr, true, false, ◌&&◌, Option, some, List, [],
  ◌∷◌, arith, length, All, bytes_eq→eq, Bool-cases,
}
use amisync.Offered.{
  Slot, belongs, mark, mark_all, offered_begin, refused, offered_note, drop_stale, drop_all,
  offered_end,
}
use amisync.Offered.Table.{
  scopy_fits, offers_of, bytes_ne, offered_note-All, offers_of-offered_note,
}

-- One folder of a ClusterConfig.
pub record Note : Type 0 where
  pub id : Option (List ℕ)
  pub label : Option (List ℕ)
  pub device_name : Option (List ℕ)

abbrev pub note_all : List Slot → Option (List ℕ) → List Note → List Slot
note_all slots device_id [] = slots
note_all slots device_id (n ∷ notes) =
    note_all (offered_note slots device_id n.device_name n.id n.label) device_id notes

abbrev pub offered_session : List Slot → Option (List ℕ) → List Note → List Slot
offered_session slots device_id notes =
    offered_end (note_all (offered_begin slots device_id) device_id notes) device_id

-- The decoder hands out strings that fit into their fields.
abbrev pub FitsText : Option (List ℕ) → Type 0
FitsText s = length (text_of s) ≤ 63

-- Some note that was not refused names the folder.
abbrev pub Told : Option (List ℕ) → List Note → List ℕ → Type 0
Told device_id [] id = ⊥
Told device_id (n ∷ notes) id =
    ((refused device_id n.id n.label ≡ false) × (text_of n.id ≡ id)) ⊎ Told device_id notes id

-- In the session of a device: each of its offers that is not stale was told.
abbrev Inv : List ℕ → (List ℕ → Type 0) → Slot → Type 0
Inv d T s = belongs s d ≡ true → s.stale ≡ false → T s.offer.id

mark_stale : (s : Slot) (d : List ℕ) → belongs (mark d s) d ≡ true → (mark d s).stale ≢ false
mark_stale s d b f = ground arith

the_kept :
    (s : Slot) (d : List ℕ)
    → (belongs s d && s.stale) ≡ false
    → belongs (drop_stale d s) d ≡ true
    → (belongs s d ≡ true) × (s.stale ≡ false)
the_kept s d e b = (ground arith, ground arith)

drop_kept :
    (s : Slot) (d : List ℕ) (T : List ℕ → Type 0)
    → Inv d T s
    → belongs (drop_stale d s) d ≡ true
    → T (drop_stale d s).offer.id
drop_kept s d T h b = elim (Bool-cases (belongs s d && s.stale)) [
  | inl e ↦ absurd (ground (arith, e))
  | inr e ↦ let (c, f) = the_kept s d e b in rw e (h c f)
]

mark_all-Inv :
    (slots : List Slot) (d : List ℕ) (T : List ℕ → Type 0) → All (Inv d T) (mark_all slots d)
mark_all-Inv [] d T = tt
mark_all-Inv (s ∷ slots) d T = ((λ b f. absurd (mark_stale s d b f)), mark_all-Inv slots d T)

drop_all-Inv :
    (slots : List Slot) (d : List ℕ) (T : List ℕ → Type 0)
    → All (Inv d T) slots
    → All (λ s. belongs s d ≡ true → T s.offer.id) (drop_all slots d)
drop_all-Inv [] d T h = tt
drop_all-Inv (s ∷ slots) d T h = ((λ b. drop_kept s d T h.0 b), drop_all-Inv slots d T h.1)

note-Inv :
    (T : List ℕ → Type 0) (slots : List Slot) (device_id : Option (List ℕ)) (n : Note)
    → FitsText n.id
    → (refused device_id n.id n.label ≡ false → T (text_of n.id))
    → All (Inv (text_of device_id) T) slots
    → All (Inv (text_of device_id) T) (offered_note slots device_id n.device_name n.id n.label)
note-Inv T slots device_id n fits told h =
    offered_note-All (Inv (text_of device_id) T) slots device_id n.device_name n.id n.label h
      (λ s e k b f. rw (bytes_eq→eq s.offer.id (text_of n.id) (ground arith)) (told e))
      (λ s e b f. rw (scopy_fits (text_of n.id) fits) (told e))

note_all-Inv :
    (T : List ℕ → Type 0) (slots : List Slot) (device_id : Option (List ℕ)) (notes : List Note)
    → All (λ n. FitsText n.id) notes
    → All (λ n. refused device_id n.id n.label ≡ false → T (text_of n.id)) notes
    → All (Inv (text_of device_id) T) slots
    → All (Inv (text_of device_id) T) (note_all slots device_id notes)
note_all-Inv T slots device_id [] fits told h = h
note_all-Inv T slots device_id (n ∷ notes) fits told h =
    note_all-Inv T (offered_note slots device_id n.device_name n.id n.label) device_id notes fits.1
      told.1 (note-Inv T slots device_id n fits.0 told.0 h)

Told-All :
    (device_id : Option (List ℕ)) (notes : List Note) (T : List ℕ → Type 0)
    → ((id : List ℕ) → Told device_id notes id → T id)
    → All (λ n. refused device_id n.id n.label ≡ false → T (text_of n.id)) notes
Told-All device_id [] T h = tt
Told-All device_id (n ∷ notes) T h =
    ((λ e. h (text_of n.id) (inl (e, refl))), Told-All device_id notes T (λ id t. h id (inr t)))

offers_of-mark_all :
    (slots : List Slot) (d other : List ℕ)
    → offers_of (mark_all slots d) other ≡ offers_of slots other
unfolding offers_of
offers_of-mark_all [] d other = refl
offers_of-mark_all (s ∷ slots) d other = ground (arith, offers_of-mark_all slots d other)

offers_of-drop_all :
    (slots : List Slot) (d other : List ℕ)
    → d ≢ other
    → offers_of (drop_all slots d) other ≡ offers_of slots other
unfolding offers_of
offers_of-drop_all [] d other ne = refl
offers_of-drop_all (s ∷ slots) d other ne =
    ground (arith, bytes_ne s.offer.device_id d other, offers_of-drop_all slots d other ne)

offers_of-note_all :
    (slots : List Slot) (device_id : Option (List ℕ)) (notes : List Note) (other : List ℕ)
    → FitsText device_id
    → text_of device_id ≢ other
    → offers_of (note_all slots device_id notes) other ≡ offers_of slots other
offers_of-note_all slots device_id [] other fits ne = refl
offers_of-note_all slots device_id (n ∷ notes) other fits ne =
    offers_of-note_all (offered_note slots device_id n.device_name n.id n.label) device_id notes
      other fits ne
    ∙ offers_of-offered_note slots device_id n.device_name n.id n.label other fits ne

-- After the session of a device with a non-empty id, whose strings fit into their fields, every
-- offer of that device is one that the session named and that offered_note did not refuse: what the
-- device offered before and no longer does is gone. The offers of every other device are as before.
pub offered_session_lem :
    (slots : List Slot) (device_id : List ℕ) (notes : List Note)
    → device_id ≢ []
    → FitsText (some device_id)
    → All (λ n. FitsText n.id) notes
    → All
        (λ s. belongs s device_id ≡ true → Told (some device_id) notes s.offer.id)
        (offered_session slots (some device_id) notes)
      × ((other : List ℕ)
          → device_id ≢ other
          → offers_of (offered_session slots (some device_id) notes) other ≡ offers_of slots other)
unfolding offered_begin offered_end
offered_session_lem slots [] notes ne fits all = absurd (ne refl)
offered_session_lem slots (c ∷ d) notes ne fits all =
    let dev = some (c ∷ d) in
    let begun = mark_all slots (c ∷ d) in
    (
      drop_all-Inv (note_all begun dev notes) (c ∷ d) (Told dev notes) (
          note_all-Inv (Told dev notes) begun dev notes all
            (Told-All dev notes (Told dev notes) (λ id t. t))
            (mark_all-Inv slots (c ∷ d) (Told dev notes))),
      (λ other o.
          offers_of-drop_all (note_all begun dev notes) (c ∷ d) other o
          ∙ offers_of-note_all begun dev notes other fits o
          ∙ offers_of-mark_all slots (c ∷ d) other),
    )
