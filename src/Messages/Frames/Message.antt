-- ===== src/Messages/Frames/Message.antt =====
-- src/bep.c: bep_send_message and bep_read_message.
use amisync.Common.{
  ℕ, ◌+◌, ◌-◌, Bool, true, false, ◌&&◌, not, Option, none, some, List, ◌++◌, length, drop,
  if◌then◌else◌, ltb, leb, ◌==◌,
}
use amisync.Common.Int.{ℤ, pos, eqb_ℤ}
use amisync.Messages.Hello.{
  BepHeader, bep_compress_none, bep_compress_lz4, bep_encode_header, bep_decode_header,
}
use amisync.Messages.Frames.{
  put_be16, put_be32, get_be16, get_be32, Arrival, Full, all, eof, was_reset, error, read_full,
  write_full, bep_msg_max, bep_coalesce_max, bep_compress_min, BepConn, grow_buf,
}

-- BEP_RESPONSE
abbrev pub bep_response : ℤ
bep_response = pos 4

module _ {T : Type 0} (alloc : ℕ → Bool) where
  abbrev pub with_plain : BepConn T → Option ℕ → BepConn T × Bool
  with_plain c none = (c, false)
  with_plain c (some cap) = (record c { plain_cap = cap }, true)

  abbrev pub ensure_plain : BepConn T → ℕ → BepConn T × Bool
  ensure_plain c need = with_plain c (grow_buf alloc c.plain_cap need)

  abbrev pub with_wire : BepConn T → Option ℕ → BepConn T × Bool
  with_wire c none = (c, false)
  with_wire c (some cap) = (record c { wire_cap = cap }, true)

  abbrev pub ensure_wire : BepConn T → ℕ → BepConn T × Bool
  ensure_wire c need = with_wire c (grow_buf alloc c.wire_cap need)

-- LZ4_compress_default on a message and a capacity; `none` is a result of 0.
module _ {T : Type 0} (write : T → List ℕ → T × Option ℕ) (alloc : ℕ → Bool)
    (lz4_compress : List ℕ → ℕ → Option (List ℕ)) where
  -- The body that is sent, and whether it is compressed.
  abbrev pub shorter_of : List ℕ → Option (List ℕ) → List ℕ × Bool
  shorter_of msg none = (msg, false)
  shorter_of msg (some z) =
      if ltb 0 (length z) && ltb (length z + 4) (length msg)
      then (put_be32 (length msg) ++ z, true)
      else (msg, false)

  abbrev pub chosen : BepConn T → List ℕ × Bool → BepConn T × List ℕ × Bool
  chosen c (body, compressed) = (c, body, compressed)

  abbrev pub compressed_in : List ℕ → BepConn T × Bool → BepConn T × List ℕ × Bool
  compressed_in msg (c, false) = (c, msg, false)
  compressed_in msg (c, true) = chosen c (shorter_of msg (lz4_compress msg (c.plain_cap - 4)))

  unfoldable pub choose_body : BepConn T → ℤ → List ℕ → BepConn T × List ℕ × Bool
  unfolding grow_buf
  choose_body c type msg =
      let worth =
        c.compress && leb bep_compress_min (length msg) && not (eqb_ℤ type bep_response) in
      let compressed = compressed_in msg (ensure_plain alloc c (length msg + 4)) in
      if c.in_handler && c.body_in_plain && worth
      then (record c { plain_skips = c.plain_skips + 1 }, msg, false)
      else if worth
      then compressed
      else (c, msg, false)

  abbrev pub written_to : BepConn T → T × Bool → BepConn T × Bool
  written_to c (t, ok) = (record c { t = t }, ok)

  abbrev pub then_body : List ℕ → T × Bool → T × Bool
  then_body body (t, false) = (t, false)
  then_body body (t, true) = write_full write t body

  -- One write, or two when the body is longer than the frame's buffer.
  abbrev pub send_frame : BepConn T → List ℕ → List ℕ → BepConn T × Bool
  send_frame c frame body =
      if length body == 0
      then written_to c (write_full write c.t frame)
      else if leb (length body) bep_coalesce_max
      then written_to c (write_full write c.t (frame ++ body))
      else written_to c (then_body body (write_full write c.t frame))

  abbrev pub send_encoded : BepConn T → List ℕ → Option (List ℕ) → BepConn T × Bool
  send_encoded c body none = (c, false)
  send_encoded c body (some h) =
      send_frame c (put_be16 (length h) ++ h ++ put_be32 (length body)) body

  abbrev pub send_chosen : ℤ → BepConn T × List ℕ × Bool → BepConn T × Bool
  send_chosen type (c, body, compressed) = send_encoded c body (
      bep_encode_header
        (record {
          type = type;
          compression = if compressed then bep_compress_lz4 else bep_compress_none;
        })
        16)

  unfoldable pub bep_send_message : BepConn T → ℤ → List ℕ → BepConn T × Bool
  unfolding choose_body bep_encode_header write_full
  bep_send_message c type msg = send_chosen type (choose_body c type msg)

-- What bep_read_message returns: 1 with the header and the body, 0 or -1.
pub data Received : Type 0 where
  message : BepHeader → List ℕ → Received
  at_eof read_error : Received

-- LZ4_decompress_safe on a block and the size that it should have; `none` is a negative result.
module _ {T : Type 0} (read : T → ℕ → T × Arrival) (alloc : ℕ → Bool)
    (lz4_decompress : List ℕ → ℕ → Option (List ℕ)) where
  abbrev pub bep_fail : BepConn T → BepConn T × Received
  bep_fail c = (record c { last_reset = false }, read_error)

  -- A part of the frame, after the first: a close is an error there.
  abbrev pub got_part :
      BepConn T → (BepConn T → List ℕ → BepConn T × Received) → T × Full → BepConn T × Received
  got_part c more (t, all bs) = more (record c { t = t }) bs
  got_part c more (t, was_reset) = (record c { t = t; last_reset = true }, read_error)
  got_part c more (t, eof) = bep_fail (record c { t = t })
  got_part c more (t, error) = bep_fail (record c { t = t })

  -- Reading `len` bytes into 'wire', which is grown for them; none are read for 0.
  abbrev pub into_wire :
      ℕ → (BepConn T → List ℕ → BepConn T × Received) → BepConn T × Bool → BepConn T × Received
  into_wire len more (c, false) = bep_fail c
  into_wire len more (c, true) = got_part c more (read_full read c.t len)

  abbrev pub expanded : BepHeader → ℕ → BepConn T → Option (List ℕ) → BepConn T × Received
  expanded hdr usize c none = bep_fail c
  expanded hdr usize c (some plain) =
      if length plain == usize
      then (record c { body_in_plain = true }, message hdr plain)
      else bep_fail c

  abbrev pub into_plain : BepHeader → List ℕ → BepConn T × Bool → BepConn T × Received
  into_plain hdr body (c, false) = bep_fail c
  into_plain hdr body (c, true) =
      expanded hdr (get_be32 body) c (lz4_decompress (drop 4 body) (get_be32 body))

  -- A size above BEP_MSG_MAX stands for a negative int too.
  unfoldable pub take_body : BepHeader → BepConn T → List ℕ → BepConn T × Received
  unfolding grow_buf
  take_body hdr c body =
      let usize = get_be32 body in
      let plain = into_plain hdr body (ensure_plain alloc c usize) in
      if eqb_ℤ hdr.compression bep_compress_lz4
      then if ltb (length body) 4
        then bep_fail c
        else if ltb bep_msg_max usize
        then bep_fail c
        else plain
      else (record c { body_in_plain = false }, message hdr body)

  unfoldable pub read_body : BepHeader → BepConn T → List ℕ → BepConn T × Received
  unfolding take_body read_full
  read_body hdr c lenbuf =
      let mlen = get_be32 lenbuf in
      if ltb bep_msg_max mlen
      then bep_fail c
      else into_wire mlen (take_body hdr) (ensure_wire alloc c mlen)

  abbrev pub decoded_header : BepConn T → Option BepHeader → BepConn T × Received
  decoded_header c none = bep_fail c
  decoded_header c (some hdr) = got_part c (read_body hdr) (read_full read c.t 4)

  -- The length has 16 bits, so its test against BEP_MSG_MAX always passes.
  unfoldable pub read_header : BepConn T → List ℕ → BepConn T × Received
  unfolding read_body bep_decode_header
  read_header c lenbuf =
      let hlen = get_be16 lenbuf in
      into_wire hlen (λ c' h. decoded_header c' (bep_decode_header h)) (ensure_wire alloc c hlen)

  -- Only a close in front of the first part is a clean one.
  abbrev pub first_part : BepConn T → T × Full → BepConn T × Received
  first_part c (t, all bs) = read_header (record c { t = t }) bs
  first_part c (t, eof) = (record c { t = t }, at_eof)
  first_part c (t, was_reset) = (record c { t = t; last_reset = true }, read_error)
  first_part c (t, error) = bep_fail (record c { t = t })

  unfoldable pub bep_read_message : BepConn T → BepConn T × Received
  unfolding read_header
  bep_read_message c = first_part (record c { last_reset = false }) (read_full read c.t 2)
