-- ===== src/Offered/Tests.antt =====
-- A session at a concrete table.
use amisync.Common.{
  ℕ, ◌≡◌, refl, ◌≢◌, ◌≤◌, true, false, none, some, List, [], ◌∷◌, All, arith, bytes_eq,
}
use amisync.Offered.{Slot, belongs, offered_begin, offered_note, offered_end, scopy}
use amisync.PathSafe.{text_field_safe}
use amisync.Offered.Table.{offers_of}
use amisync.Offered.Session.{Note, Told, offered_session, offered_session_lem}

abbrev offer : List ℕ → List ℕ → Slot
offer device_id id = record {
  offer = record { id = id; label = b'L' ∷ []; device_name = b'N' ∷ []; device_id = device_id };
  stale = false;
}

abbrev three_offers : List Slot
three_offers =
    offer (b'A' ∷ []) (b'x' ∷ [])
    ∷ offer (b'B' ∷ []) (b'x' ∷ [])
    ∷ offer (b'A' ∷ []) (b'y' ∷ [])
    ∷ []

abbrev note : List ℕ → Note
note id = record { id = some id; label = none; device_name = none }

abbrev device_a : List ℕ
device_a = b'A' ∷ []

abbrev only_y : List Note
only_y = note (b'y' ∷ []) ∷ []

not_empty : device_a ≢ []
not_empty e = cc

one_fits : 1 ≤ 63
one_fits = omega arith

offered_session_lem_example :
    All
      (λ s. belongs s device_a ≡ true → Told (some device_a) only_y s.offer.id)
      (offered_session three_offers (some device_a) only_y)
    × ((other : List ℕ)
        → device_a ≢ other
        → offers_of (offered_session three_offers (some device_a) only_y) other
          ≡ offers_of three_offers other)
offered_session_lem_example =
    offered_session_lem three_offers device_a only_y not_empty one_fits (one_fits, tt)

-- The offer that was not renewed is gone.
session_run :
    offers_of (offered_session three_offers (some device_a) only_y) device_a
    ≡ record { id = b'y' ∷ []; label = []; device_name = []; device_id = device_a } ∷ []
unfolding offers_of offered_begin offered_note offered_end scopy text_field_safe bytes_eq
session_run = refl
