-- ===== src/Offered.antt =====
-- src/offered.c and include/offered.h: the folders that peers offer and that are not configured. Each
-- function runs under Forbid, so each is one step. A string is the list of its bytes without the NUL
-- and a NULL pointer is `none`.
pub mod Table
pub mod Session
mod Tests
use amisync.Common.{
  ℕ, text_of, first_of, suc, ◌-◌, Bool, true, false, ◌&&◌, ◌||◌, not, Option, none, some, List, [],
  ◌∷◌, set, get_or, take, length, if◌then◌else◌, ◌==◌, bytes_eq,
}
use amisync.PathSafe.{text_field_safe}

abbrev pub offered_max : ℕ
offered_max = 8

-- BEP_FOLDER_ID_MAX, BEP_NAME_MAX and DEVICE_ID_BUFSZ.
abbrev pub text_max : ℕ
text_max = 64

pub record OfferedFolder : Type 0 where
  pub id : List ℕ
  pub label : List ℕ
  pub device_name : List ℕ
  pub device_id : List ℕ

-- g_offers[i] with g_stale[i].
pub record Slot : Type 0 where
  pub offer : OfferedFolder
  pub stale : Bool

abbrev pub is_empty : List ℕ → Bool
is_empty [] = true
is_empty (c ∷ s) = false

abbrev pub is_blank : Option (List ℕ) → Bool
is_blank none = true
is_blank (some s) = is_empty s

unfoldable pub scopy : Option (List ℕ) → ℕ → List ℕ
scopy src cap = take (cap - 1) (text_of src)

abbrev pub belongs : Slot → List ℕ → Bool
belongs s device_id = not (is_empty s.offer.id) && bytes_eq s.offer.device_id device_id

abbrev pub mark : List ℕ → Slot → Slot
mark device_id s = if belongs s device_id then record s { stale = true } else s

abbrev pub mark_all : List Slot → List ℕ → List Slot
mark_all [] device_id = []
mark_all (s ∷ slots) device_id = mark device_id s ∷ mark_all slots device_id

unfoldable pub offered_begin : List Slot → Option (List ℕ) → List Slot
offered_begin slots device_id =
    if is_blank device_id then slots else mark_all slots (text_of device_id)

-- The key test of the loop, on a slot in use.
abbrev pub holds : Slot → List ℕ → List ℕ → Bool
holds s device_id id =
    not (is_empty s.offer.id) && (bytes_eq s.offer.id id && bytes_eq s.offer.device_id device_id)

-- The loop of offered_note: where it breaks, and the first free slot before.
unfoldable pub scan_offers : List Slot → List ℕ → List ℕ → ℕ → Option ℕ → Option ℕ × Option ℕ
scan_offers [] device_id id i free_slot = (none, free_slot)
scan_offers (s ∷ slots) device_id id i free_slot =
    let vacant = scan_offers slots device_id id (suc i) (first_of free_slot i) in
    let next = scan_offers slots device_id id (suc i) free_slot in
    if is_empty s.offer.id
    then vacant
    else if holds s device_id id
    then (some i, free_slot)
    else next

abbrev pub blank_slot : Slot
blank_slot = record {
  offer = record { id = []; label = []; device_name = []; device_id = [] };
  stale = false;
}

-- The writes below the search, into the slot found and into a free one.
abbrev pub refresh : Option (List ℕ) → Option (List ℕ) → Slot → Slot
refresh label device_name s = record {
  offer = record {
    id = s.offer.id;
    label = scopy label text_max;
    device_name = scopy device_name text_max;
    device_id = s.offer.device_id;
  };
  stale = false;
}

abbrev pub put_key : List ℕ → List ℕ → Slot → Slot
put_key device_id id s = record s {
  offer = record s.offer {
    id = scopy (some id) text_max;
    device_id = scopy (some device_id) text_max;
  };
}

abbrev pub write_offer :
    List Slot → List ℕ → List ℕ → (Slot → Slot) → Option ℕ × Option ℕ → List Slot
write_offer slots device_id id update (some i, free_slot) =
    set slots i (update (get_or slots i blank_slot))
write_offer slots device_id id update (none, none) = slots
write_offer slots device_id id update (none, some i) =
    set slots i (update (put_key device_id id (get_or slots i blank_slot)))

-- The guards in front of the table.
abbrev pub refused : Option (List ℕ) → Option (List ℕ) → Option (List ℕ) → Bool
refused device_id id none = is_blank id || is_blank device_id || not (text_field_safe id)
refused device_id id (some label) =
    is_blank id
    || is_blank device_id
    || not (text_field_safe id)
    || not (text_field_safe (some label))

unfoldable pub offered_note :
    List Slot → Option (List ℕ) → Option (List ℕ) → Option (List ℕ) → Option (List ℕ) → List Slot
unfolding scan_offers
offered_note slots device_id device_name id label =
    if refused device_id id label
    then slots
    else write_offer slots (text_of device_id) (text_of id) (refresh label device_name)
        (scan_offers slots (text_of device_id) (text_of id) 0 none)

abbrev pub drop_stale : List ℕ → Slot → Slot
drop_stale device_id s =
    if belongs s device_id && s.stale
    then record { offer = record s.offer { id = [] }; stale = false }
    else s

abbrev pub drop_all : List Slot → List ℕ → List Slot
drop_all [] device_id = []
drop_all (s ∷ slots) device_id = drop_stale device_id s ∷ drop_all slots device_id

unfoldable pub offered_end : List Slot → Option (List ℕ) → List Slot
offered_end slots device_id =
    if is_blank device_id then slots else drop_all slots (text_of device_id)
