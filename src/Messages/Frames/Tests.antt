-- ===== src/Messages/Frames/Tests.antt =====
-- Messages over a transport that carries one byte at a time, and the theorems on them there.
use native.Mathlib.Decide.{dec_lt}
use amisync.Common.{
  ℕ, ◌≡◌, refl, sym, Bool, true, false, Option, none, some, List, [], ◌∷◌, ◌++◌, arith,
}
use amisync.Common.Int.{pos}
use amisync.Messages.Frames.{Arrival, got, closed, all, read_full, BepConn}
use amisync.Messages.Frames.Transport.{Delivers, Accepts, read_full_lem}
use amisync.Messages.Frames.Sent.{header_for}
use amisync.Messages.Frames.Message.{
  message, at_eof, read_error, bep_send_message, bep_read_message,
}
use amisync.Messages.Frames.Delivered.{bep_read_message-bep_send_message}

abbrev take_one : List ℕ → List ℕ → List ℕ × Option ℕ
take_one t [] = (t, none)
take_one t (b ∷ bytes) = (t ++ b ∷ [], some 1)

abbrev give_one : List ℕ → ℕ → List ℕ × Arrival
give_one [] n = ([], closed)
give_one (b ∷ t) n = (t, got (b ∷ []))

abbrev same_bytes : List ℕ → List ℕ
same_bytes t = t

abbrev always : ℕ → Bool
always n = true

-- A compressor that stores, and its inverse.
abbrev stores : List ℕ → ℕ → Option (List ℕ)
stores bytes n = some bytes

take_one-Accepts : Accepts take_one same_bytes
take_one-Accepts t [] h = absurd (omega arith)
take_one-Accepts t (b ∷ bytes) h = (t ++ b ∷ [], 1, refl, omega arith, omega arith, refl)

give_one-Delivers : Delivers give_one same_bytes
give_one-Delivers [] n h k = absurd (omega arith)
give_one-Delivers (b ∷ t) n h k = (t, b ∷ [], refl, omega arith, omega arith, refl)

abbrev conn : List ℕ → BepConn (List ℕ)
conn t = record {
  t = t;
  wire_cap = 16384;
  plain_cap = 65536;
  last_reset = false;
  compress = true;
  body_in_plain = false;
  in_handler = false;
  plain_skips = 0;
}

-- An empty input is a clean end; a frame that breaks off is not; a Ping is read.
reads :
    ((bep_read_message give_one always stores (conn [])).1 ≡ at_eof)
    × ((bep_read_message give_one always stores (conn (0 ∷ []))).1 ≡ at_eof)
    × ((bep_read_message give_one always stores (conn (0 ∷ 0 ∷ 0 ∷ []))).1 ≡ read_error)
    × ((bep_read_message give_one always stores (conn (0 ∷ 2 ∷ 8 ∷ 6 ∷ 0 ∷ 0 ∷ 0 ∷ 0 ∷ []))).1
        ≡ message (record { type = pos 6; compression = pos 0 }) [])
unfolding bep_read_message
reads = (refl, refl, refl, refl)

sends :
    bep_send_message take_one always stores (conn []) (pos 6) (7 ∷ [])
    ≡ (conn (0 ∷ 2 ∷ 8 ∷ 6 ∷ 0 ∷ 0 ∷ 0 ∷ 1 ∷ 7 ∷ []), true)
unfolding bep_send_message dec_lt
sends = refl

read_full_lem_example :
    (t' : List ℕ) × (read_full give_one (1 ∷ 2 ∷ 3 ∷ []) 2 ≡ (t', all (1 ∷ 2 ∷ []))) × (t' ≡ 3 ∷ [])
read_full_lem_example =
    read_full_lem give_one same_bytes give_one-Delivers (1 ∷ 2 ∷ 3 ∷ []) (1 ∷ 2 ∷ []) (3 ∷ []) refl

bep_read_message-bep_send_message_example :
    ((bep_send_message take_one always stores (conn []) (pos 6) (7 ∷ [])).1 ≡ true)
    × (compressed : Bool) × (r' : BepConn (List ℕ)) × (bep_read_message give_one always stores (
          conn (
            same_bytes (bep_send_message take_one always stores (conn []) (pos 6) (7 ∷ [])).0.t
            ++ 9 ∷ []))
        ≡ (r', message (header_for (pos 6) compressed) (7 ∷ [])))
    × (r'.t ≡ 9 ∷ [])
bep_read_message-bep_send_message_example =
    bep_read_message-bep_send_message take_one same_bytes give_one same_bytes always stores stores
      (conn [])
      (conn (
        same_bytes (bep_send_message take_one always stores (conn []) (pos 6) (7 ∷ [])).0.t
        ++ 9 ∷ []))
      (pos 6) (7 ∷ []) (9 ∷ []) take_one-Accepts give_one-Delivers (λ n. refl)
      (λ msg cap z e. sym e) (omega arith) (omega arith) refl
