-- ===== src/Messages/Frames/Taken.antt =====
-- What bep_read_message takes from the transport.

use amisync.Common.{
  ℕ, ◌^◌, ◌≤◌, ◌<◌, ◌≡◌, refl, sym, ap, ◌∙◌, Bool, true, false, Option, some, List, [], ◌++◌, arith,
  length, ltb,
}
use amisync.Messages.Hello.{BepHeader, bep_decode_header}
use amisync.Messages.Frames.{
  put_be16, put_be32, get_be16, get_be32, Arrival, read_full, bep_msg_max, BepConn,
}
use amisync.Messages.Frames.Transport.{Delivers, read_full_lem}
use amisync.Messages.Frames.Message.{
  ensure_wire, with_wire, Received, into_wire, got_part, take_body, read_body, decoded_header,
  read_header, first_part, bep_read_message,
}
use amisync.Messages.Frames.Layout.{
  get_be16-put_be16, get_be32-put_be32, frame_of, frame_rest, grow_buf-some,
}

module _ {T : Type 0} (read : T → ℕ → T × Arrival) (alloc : ℕ → Bool)
    (lz4_decompress : List ℕ → ℕ → Option (List ℕ)) (pending : T → List ℕ)
    (d : Delivers read pending) (always : (n : ℕ) → alloc n ≡ true) where
  -- The call went on as `more` does after the bytes `bs`, and these are taken from the transport.
  into_wire_lem :
      (c : BepConn T) (bs rest : List ℕ) (more : BepConn T → List ℕ → BepConn T × Received)
      → pending c.t ≡ bs ++ rest
      → length bs ≤ bep_msg_max
      → (c' : BepConn T) × (into_wire read alloc lz4_decompress
            (length bs)
            more
            (ensure_wire alloc c (length bs))
          ≡ more c' bs)
        × (pending c'.t ≡ rest)
  into_wire_lem c bs rest more e h =
      let (cap, g) = grow_buf-some alloc c.wire_cap (length bs) always h in
      let (t', r, left) = read_full_lem read pending d c.t bs rest e in
      (
        record c { wire_cap = cap; t = t' },
        ap (λ o. into_wire read alloc lz4_decompress (length bs) more (with_wire alloc c o)) g
            ∙ ap (got_part read alloc lz4_decompress (record c { wire_cap = cap }) more) r,
        left,
      )

  part_lem :
      (c : BepConn T) (bs rest : List ℕ) (more : BepConn T → List ℕ → BepConn T × Received)
      → pending c.t ≡ bs ++ rest
      → (c' : BepConn T) × (got_part read alloc lz4_decompress c more
            (read_full read c.t (length bs))
          ≡ more c' bs)
        × (pending c'.t ≡ rest)
  part_lem c bs rest more e =
      let (t', r, left) = read_full_lem read pending d c.t bs rest e in
      (record c { t = t' }, ap (got_part read alloc lz4_decompress c more) r, left)

  read_body_size :
      (hdr : BepHeader) (c : BepConn T) (lenbuf : List ℕ) (m : ℕ)
      → get_be32 lenbuf ≡ m
      → m ≤ bep_msg_max
      → read_body read alloc lz4_decompress hdr c lenbuf
        ≡ into_wire read alloc lz4_decompress m
            (take_body read alloc lz4_decompress hdr)
            (ensure_wire alloc c m)
  unfolding read_body
  read_body_size hdr c lenbuf m e h =
      let small : ltb bep_msg_max m ≡ false = ground arith in rw (e, small) refl

  read_body_lem :
      (hdr : BepHeader) (c : BepConn T) (body rest : List ℕ)
      → pending c.t ≡ body ++ rest
      → length body ≤ bep_msg_max
      → (c' : BepConn T) × (read_body read alloc lz4_decompress hdr c (put_be32 (length body))
          ≡ take_body read alloc lz4_decompress hdr c' body)
        × (pending c'.t ≡ rest)
  read_body_lem hdr c body rest e h =
      let size : get_be32 (put_be32 (length body)) ≡ length body =
        get_be32-put_be32 (length body) [] (omega arith) in
      let (c', r, left) = into_wire_lem c body rest (take_body read alloc lz4_decompress hdr) e h in
      (c', read_body_size hdr c (put_be32 (length body)) (length body) size h ∙ r, left)

  with_header : BepConn T → List ℕ → BepConn T × Received
  with_header c h = decoded_header read alloc lz4_decompress c (bep_decode_header h)

  read_header_size :
      (c : BepConn T) (lenbuf : List ℕ) (n : ℕ)
      → get_be16 lenbuf ≡ n
      → read_header read alloc lz4_decompress c lenbuf
        ≡ into_wire read alloc lz4_decompress n with_header (ensure_wire alloc c n)
  unfolding read_header with_header
  read_header_size c lenbuf n e =
      ap
        (λ m.
          into_wire read alloc lz4_decompress m
            (λ c' h. decoded_header read alloc lz4_decompress c' (bep_decode_header h))
            (ensure_wire alloc c m))
        e

  decoded_lem :
      (c : BepConn T) (h : List ℕ) (hdr : BepHeader)
      → bep_decode_header h ≡ some hdr
      → with_header c h
        ≡ got_part read alloc lz4_decompress c
            (read_body read alloc lz4_decompress hdr)
            (read_full read c.t 4)
  unfolding with_header
  decoded_lem c h hdr e = ap (decoded_header read alloc lz4_decompress c) e

  started :
      (c : BepConn T)
      → bep_read_message read alloc lz4_decompress c
        ≡ first_part read alloc lz4_decompress
            (record c { last_reset = false })
            (read_full read c.t 2)
  unfolding bep_read_message
  started c = refl

  first_lem :
      (c : BepConn T) (bs rest : List ℕ)
      → pending c.t ≡ bs ++ rest
      → length bs ≡ 2
      → (c' : BepConn T) × (bep_read_message read alloc lz4_decompress c
          ≡ read_header read alloc lz4_decompress c' bs)
        × (pending c'.t ≡ rest)
  first_lem c bs rest e two =
      let (t', r, left) = read_full_lem read pending d c.t bs rest e in
      (
        record c { t = t'; last_reset = false },
        started c
            ∙ ap (first_part read alloc lz4_decompress (record c { last_reset = false }))
                (ap (read_full read c.t) (sym two) ∙ r),
        left,
      )

  -- The header and the body of a frame are read, and what follows the frame is left.
  pub read_frame :
      (c : BepConn T) (h body rest : List ℕ) (hdr : BepHeader)
      → pending c.t ≡ frame_of h body ++ rest
      → bep_decode_header h ≡ some hdr
      → length h < 2 ^ 16
      → length body ≤ bep_msg_max
      → (c' : BepConn T) × (bep_read_message read alloc lz4_decompress c
          ≡ take_body read alloc lz4_decompress hdr c' body)
        × (pending c'.t ≡ rest)
  read_frame c h body rest hdr e dec hh hb =
      let (c₁, r₁, e₁) =
        first_lem c (put_be16 (length h)) (h ++ (put_be32 (length body) ++ (body ++ rest)))
          (e ∙ frame_rest h body rest) refl in
      let (c₂, r₂, e₂) =
        into_wire_lem c₁ h (put_be32 (length body) ++ (body ++ rest)) with_header e₁
          (omega arith) in
      let (c₃, r₃, e₃) =
        part_lem c₂ (put_be32 (length body)) (body ++ rest)
          (read_body read alloc lz4_decompress hdr) e₂ in
      let (c₄, r₄, e₄) = read_body_lem hdr c₃ body rest e₃ hb in
      (
        c₄,
        r₁
            ∙ read_header_size c₁ (put_be16 (length h)) (length h) (get_be16-put_be16 (length h) hh)
            ∙ r₂
            ∙ decoded_lem c₂ h hdr dec
            ∙ r₃
            ∙ r₄,
        e₄,
      )
