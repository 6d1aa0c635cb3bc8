-- ===== src/Messages/Frames.antt =====
-- src/bep.c: messages in their frames, over a transport of the caller.
mod Tests
pub mod Message
pub mod Transport
pub mod Layout
pub mod Sent
pub mod Taken
pub mod Delivered
use amisync.Common.{
  ℕ, zero, suc, ◌+◌, ◌-◌, ◌*◌, ◌/◌, ◌%◌, ◌^◌, Bool, true, false, ◌&&◌, ◌||◌, not, Option, none,
  some, List, [], ◌∷◌, ◌++◌, length, take, drop, if◌then◌else◌, ltb, leb, ◌==◌,
}
use amisync.Common.Int.{ℤ, pos, eqb_ℤ}
use amisync.Messages.Hello.{
  BepHeader, bep_compress_none, bep_compress_lz4, bep_encode_header, bep_decode_header,
}

abbrev pub put_be16 : ℕ → List ℕ
put_be16 v = v / 2 ^ 8 % 256 ∷ v % 256 ∷ []

abbrev pub put_be32 : ℕ → List ℕ
put_be32 v = v / 2 ^ 24 % 256 ∷ v / 2 ^ 16 % 256 ∷ v / 2 ^ 8 % 256 ∷ v % 256 ∷ []

-- The bytes are those of the buffer from `p`.
abbrev pub get_be16 : List ℕ → ℕ
get_be16 (a ∷ b ∷ _) = a * 2 ^ 8 + b
get_be16 _ = 0

abbrev pub get_be32 : List ℕ → ℕ
get_be32 (a ∷ b ∷ c ∷ d ∷ _) = a * 2 ^ 24 + b * 2 ^ 16 + c * 2 ^ 8 + d
get_be32 _ = 0

-- What a BepReadFn answers: n > 0 bytes, 0, BEP_READ_RESET, or another negative number.
pub data Arrival : Type 0 where
  got : List ℕ → Arrival
  closed reset broken : Arrival

-- What read_full returns: 1 with the bytes, 0, BEP_READ_RESET or -1.
pub data Full : Type 0 where
  all : List ℕ → Full
  eof was_reset error : Full

module _ {T : Type 0} (read : T → ℕ → T × Arrival) where
  abbrev pub after_read : ℕ → List ℕ → (T → ℕ → List ℕ → T × Full) → T × Arrival → T × Full
  after_read len acc more (t, got bs) = more t (len - length bs) (acc ++ bs)
  after_read len acc more (t, closed) = (t, eof)
  after_read len acc more (t, reset) = (t, was_reset)
  after_read len acc more (t, broken) = (t, error)

  -- The `while (got < len)` loop; `len` is what is still missing, and every turn gets some of it.
  unfoldable pub full_loop : ℕ → T → ℕ → List ℕ → T × Full
  full_loop zero t len acc = if len == 0 then (t, all acc) else (t, error)
  full_loop (suc fuel) t len acc =
      let rest = after_read len acc (full_loop fuel) (read t len) in
      if len == 0 then (t, all acc) else rest

  unfoldable pub read_full : T → ℕ → T × Full
  unfolding full_loop
  read_full t len = full_loop len t len []

-- A BepWriteFn answers the number n > 0 of bytes that it took, or fails.
module _ {T : Type 0} (write : T → List ℕ → T × Option ℕ) where
  abbrev pub after_write : List ℕ → (T → List ℕ → T × Bool) → T × Option ℕ → T × Bool
  after_write bytes more (t, none) = (t, false)
  after_write bytes more (t, some n) = more t (drop n bytes)

  unfoldable pub send_loop : ℕ → T → List ℕ → T × Bool
  send_loop zero t bytes = (t, length bytes == 0)
  send_loop (suc fuel) t bytes =
      let rest = after_write bytes (send_loop fuel) (write t bytes) in
      if length bytes == 0 then (t, true) else rest

  unfoldable pub write_full : T → List ℕ → T × Bool
  unfolding send_loop
  write_full t bytes = send_loop (length bytes) t bytes

abbrev pub bep_msg_max : ℕ
bep_msg_max = (1024 + 64) * 1024

abbrev pub bep_coalesce_max : ℕ
bep_coalesce_max = 2048

abbrev pub bep_compress_min : ℕ
bep_compress_min = 1024

-- `t` is the state behind the transport. The sentence in `last_err`, the send buffer 'out', and what
-- the buffers hold between calls are left out; `in_handler` and `body_in_plain` say when 'plain' is in
-- use.
pub record BepConn (T : Type 0) : Type 0 where
  pub t : T
  pub wire_cap : ℕ
  pub plain_cap : ℕ
  pub last_reset : Bool
  pub compress : Bool
  pub body_in_plain : Bool
  pub in_handler : Bool
  pub plain_skips : ℕ

-- while (newcap < need) newcap += 128 KiB, and the ceiling; `need` turns are enough.
unfoldable pub grown : ℕ → ℕ → ℕ → ℕ
grown zero newcap need = newcap
grown (suc fuel) newcap need =
    let more = grown fuel (newcap + 128 * 1024) need in if ltb newcap need then more else newcap

-- The capacity after grow_buf, with the answer of BEP_ALLOC for each size, or a failure.
unfoldable pub grow_buf : (ℕ → Bool) → ℕ → ℕ → Option ℕ
unfolding grown
grow_buf alloc cap need =
    let newcap = grown need cap need in
    let size = if ltb bep_msg_max newcap then bep_msg_max else newcap in
    if leb need cap
    then some cap
    else if ltb bep_msg_max need
    then none
    else if alloc size
    then some size
    else none
