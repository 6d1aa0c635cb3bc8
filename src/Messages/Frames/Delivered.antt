-- ===== src/Messages/Frames/Delivered.antt =====
-- On bep_send_message at one end and bep_read_message at the other.

use amisync.Common.{
  ℕ, ◌≤◌, ◌≡◌, refl, ap, ◌∙◌, Bool, true, false, Option, some, List, ◌++◌, arith, length, drop,
  drop-append, ltb, ◌==◌,
}
use amisync.Common.Int.{ℤ}
use amisync.Messages.Values.{IsInt32}
use amisync.Messages.Hello.{BepHeader}
use amisync.Messages.Frames.{put_be32, get_be32, Arrival, bep_msg_max, BepConn}
use amisync.Messages.Frames.Transport.{Delivers, Accepts}
use amisync.Messages.Frames.Message.{
  ensure_plain, with_plain, bep_send_message, message, take_body, bep_read_message, expanded,
  into_plain,
}
use amisync.Messages.Frames.Layout.{get_be32-put_be32, frame_of, grow_buf-some}
use amisync.Messages.Frames.Sent.{header_for, Stands, IsSent, bep_send_message-IsSent}
use amisync.Messages.Frames.Taken.{read_frame}

-- What is left of a block of bytes: decompression gives back what was compressed.
abbrev pub Restores : (List ℕ → ℕ → Option (List ℕ)) → (List ℕ → ℕ → Option (List ℕ)) → Type 0
Restores compress decompress =
    (msg : List ℕ) (cap : ℕ) (z : List ℕ)
    → compress msg cap ≡ some z
    → decompress z (length msg) ≡ some msg

module _ {S T : Type 0} (write : S → List ℕ → S × Option ℕ) (read : T → ℕ → T × Arrival)
    (alloc : ℕ → Bool) (lz4_compress lz4_decompress : List ℕ → ℕ → Option (List ℕ))
    (always : (n : ℕ) → alloc n ≡ true) (restores : Restores lz4_compress lz4_decompress) where
  body_length :
      (msg body : List ℕ) (compressed : Bool)
      → Stands write alloc lz4_compress msg body compressed
      → length msg ≤ bep_msg_max
      → length body ≤ bep_msg_max
  body_length msg body false e h = omega (arith, ap length e)
  body_length msg body true (z, cap, c, e, few) h = omega (arith, ap length e)

  plain_body :
      (c : BepConn T) (type : ℤ) (body : List ℕ)
      → take_body read alloc lz4_decompress (header_for type false) c body
        ≡ (record c { body_in_plain = false }, message (header_for type false) body)
  unfolding take_body
  plain_body c type body = refl

  lz4_size :
      (c : BepConn T) (type : ℤ) (body : List ℕ) (m : ℕ)
      → get_be32 body ≡ m
      → 4 ≤ length body
      → m ≤ bep_msg_max
      → take_body read alloc lz4_decompress (header_for type true) c body
        ≡ into_plain read alloc lz4_decompress (header_for type true) body (ensure_plain alloc c m)
  unfolding take_body
  lz4_size c type body m e long h =
      let enough : ltb (length body) 4 ≡ false = ground arith in
      let small : ltb bep_msg_max m ≡ false = ground arith in rw (e, enough, small) refl

  lz4_expanded :
      (c : BepConn T) (hdr : BepHeader) (msg z : List ℕ) (m : ℕ)
      → m ≡ length msg
      → lz4_decompress z (length msg) ≡ some msg
      → expanded read alloc lz4_decompress hdr m c (lz4_decompress z m)
        ≡ (record c { body_in_plain = true }, message hdr msg)
  lz4_expanded c hdr msg z m e r =
      let whole : (length msg == length msg) ≡ true = ground arith in rw (e, r, whole) refl

  lz4_body :
      (c : BepConn T) (type : ℤ) (msg z : List ℕ) (cap : ℕ)
      → lz4_compress msg cap ≡ some z
      → length msg ≤ bep_msg_max
      → (c' : BepConn T) × (take_body read alloc lz4_decompress
            (header_for type true)
            c
            (put_be32 (length msg) ++ z)
          ≡ (c', message (header_for type true) msg))
        × (c'.t ≡ c.t)
  lz4_body c type msg z cap e h =
      let size : get_be32 (put_be32 (length msg) ++ z) ≡ length msg =
        get_be32-put_be32 (length msg) z (omega arith) in
      let (cap', g) = grow_buf-some alloc c.plain_cap (length msg) always h in
      (
        record c { plain_cap = cap'; body_in_plain = true },
        lz4_size c type (put_be32 (length msg) ++ z) (length msg) size (omega arith) h
            ∙ ap
                (λ o.
                  into_plain read alloc lz4_decompress (header_for type true)
                    (put_be32 (length msg) ++ z) (with_plain alloc c o))
                g
            ∙ lz4_expanded (record c { plain_cap = cap' }) (header_for type true) msg z
                (get_be32 (put_be32 (length msg) ++ z)) size (restores msg cap z e),
        refl,
      )

  take_body_lem :
      (c : BepConn T) (type : ℤ) (msg body : List ℕ) (compressed : Bool)
      → Stands write alloc lz4_compress msg body compressed
      → length msg ≤ bep_msg_max
      → (c' : BepConn T) × (take_body read alloc lz4_decompress (header_for type compressed) c body
          ≡ (c', message (header_for type compressed) msg))
        × (c'.t ≡ c.t)
  take_body_lem c type msg body false e h = (
    record c { body_in_plain = false },
    plain_body c type body
        ∙ ap (λ b. (record c { body_in_plain = false }, message (header_for type false) b)) e,
    refl,
  )
  take_body_lem c type msg body true (z, cap, e, whole, few) h =
      let (c', r, same) = lz4_body c type msg z cap e h in
      (c', ap (take_body read alloc lz4_decompress (header_for type true) c) whole ∙ r, same)

-- When a message of up to BEP_MSG_MAX bytes is sent on one connection, compressed or not, and what
-- that send put into the transport is what waits on another, the send succeeds and the read there
-- returns the message's type and its very bytes, however the transports split what they carry, and
-- leaves what follows the frame. Both transports make progress, allocation succeeds, and LZ4
-- decompression gives back what was compressed.
pub bep_read_message-bep_send_message :
    {S T : Type 0} (write : S → List ℕ → S × Option ℕ) (sent : S → List ℕ)
    (read : T → ℕ → T × Arrival) (pending : T → List ℕ) (alloc : ℕ → Bool)
    (lz4_compress lz4_decompress : List ℕ → ℕ → Option (List ℕ)) (s : BepConn S) (r : BepConn T)
    (type : ℤ) (msg rest : List ℕ)
    → Accepts write sent
    → Delivers read pending
    → ((n : ℕ) → alloc n ≡ true)
    → Restores lz4_compress lz4_decompress
    → IsInt32 type
    → length msg ≤ bep_msg_max
    → pending r.t
      ≡ drop (length (sent s.t)) (sent (bep_send_message write alloc lz4_compress s type msg).0.t)
        ++ rest
    → ((bep_send_message write alloc lz4_compress s type msg).1 ≡ true)
      × (compressed : Bool) × (r' : BepConn T) × (bep_read_message read alloc lz4_decompress r
          ≡ (r', message (header_for type compressed) msg))
      × (pending r'.t ≡ rest)
bep_read_message-bep_send_message write sent read pending alloc lz4_compress lz4_decompress s r type
      msg rest accepts delivers always restores ht hm wire =
    let out : IsSent write alloc lz4_compress sent accepts s type msg
        (bep_send_message write alloc lz4_compress s type msg) =
      bep_send_message-IsSent write alloc lz4_compress sent accepts s type msg ht in
    let waiting : pending r.t ≡ frame_of out.h out.body ++ rest =
      wire
      ∙ ap (λ b. b ++ rest)
          (ap (drop (length (sent s.t))) out.added
            ∙ drop-append (sent s.t) (frame_of out.h out.body) (length (sent s.t)) refl) in
    let (c₁, read_it, left) =
      read_frame read alloc lz4_decompress pending delivers always r out.h out.body rest
        (header_for type out.compressed) waiting out.decoded (omega (arith, out.short))
        (body_length write read alloc lz4_compress lz4_decompress always restores msg out.body
          out.compressed out.stands hm) in
    let (c₂, taken, same) =
      take_body_lem write read alloc lz4_compress lz4_decompress always restores c₁ type msg
        out.body out.compressed out.stands hm in
    (out.ok, out.compressed, c₂, read_it ∙ taken, ap pending same ∙ left)
