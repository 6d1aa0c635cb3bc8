-- ===== src/Messages/Frames/Sent.antt =====
-- What bep_send_message puts into the transport.
use mathlib.Core.List.{append_assoc, append-nil}
use amisync.Common.{
  ℕ, ◌+◌, ◌-◌, ◌≤◌, ◌<◌, ◌≡◌, refl, sym, ap, ◌∙◌, Bool, true, false, ◌&&◌, Option, none, some, List,
  [], ◌∷◌, ◌++◌, arith, length, if◌then◌else◌, ltb, leb, ◌==◌, inl, inr, Bool-cases,
}
use amisync.Common.Int.{ℤ}
use amisync.Messages.Values.{IsInt32}
use amisync.Messages.Hello.{BepHeader, bep_compress_none, bep_compress_lz4, bep_decode_header}
use amisync.Messages.Hello.RoundTrip.{IsHeader, bep_decode_header-bep_encode_header}
use amisync.Messages.Frames.{put_be16, put_be32, bep_coalesce_max, BepConn, grow_buf}
use amisync.Messages.Frames.Transport.{Accepts, write_full_lem}
use amisync.Messages.Frames.Message.{
  with_plain, shorter_of, compressed_in, choose_body, send_frame, send_encoded, send_chosen,
  written_to, then_body, bep_send_message,
}
use amisync.Messages.Frames.Layout.{frame_of, frame_assoc}

-- The header that stands in front of a body that is compressed or not.
abbrev pub header_for : ℤ → Bool → BepHeader
header_for type compressed = record {
  type = type;
  compression = if compressed then bep_compress_lz4 else bep_compress_none;
}

header_for-IsHeader :
    (type : ℤ) (compressed : Bool) → IsInt32 type → IsHeader (header_for type compressed)
header_for-IsHeader type true h = record { type = h; compression = omega arith }
header_for-IsHeader type false h = record { type = h; compression = omega arith }

module _ {T : Type 0} (write : T → List ℕ → T × Option ℕ) (alloc : ℕ → Bool)
    (lz4_compress : List ℕ → ℕ → Option (List ℕ)) where
  -- The body stands for the message: as it is, or its size and the compressed bytes.
  abbrev pub Stands : List ℕ → List ℕ → Bool → Type 0
  Stands msg body false = body ≡ msg
  Stands msg body true =
      (z : List ℕ) × (cap : ℕ) × (lz4_compress msg cap ≡ some z)
      × (body ≡ put_be32 (length msg) ++ z)
      × (length z + 4 < length msg)

  abbrev IsChoice : BepConn T → List ℕ → BepConn T × List ℕ × Bool → Type 0
  IsChoice c msg (c', body, compressed) = (c'.t ≡ c.t) × Stands msg body compressed

  shorter_of-Stands :
      (msg : List ℕ) (cap : ℕ) (o : Option (List ℕ))
      → lz4_compress msg cap ≡ o
      → Stands msg
          (shorter_of write alloc lz4_compress msg o).0
          (shorter_of write alloc lz4_compress msg o).1
  shorter_of-Stands msg cap none e = refl
  shorter_of-Stands msg cap (some z) e =
      elim (Bool-cases (ltb 0 (length z) && ltb (length z + 4) (length msg))) [
        | inl y ↦ rw y (z, cap, e, refl, ground (arith, y))
        | inr n ↦ rw n refl
      ]

  compressed_in-IsChoice :
      (c : BepConn T) (msg : List ℕ) (o : Option ℕ)
      → IsChoice c msg (compressed_in write alloc lz4_compress msg (with_plain alloc c o))
  compressed_in-IsChoice c msg none = (refl, refl)
  compressed_in-IsChoice c msg (some cap) =
      (refl, shorter_of-Stands msg (cap - 4) (lz4_compress msg (cap - 4)) refl)

  IsChoice-if :
      (b : Bool) (c : BepConn T) (msg : List ℕ) (x y : BepConn T × List ℕ × Bool)
      → IsChoice c msg x
      → IsChoice c msg y
      → IsChoice c msg (if b then x else y)
  IsChoice-if true c msg x y h k = h
  IsChoice-if false c msg x y h k = k

  choose_body-IsChoice :
      (c : BepConn T) (type : ℤ) (msg : List ℕ)
      → IsChoice c msg (choose_body write alloc lz4_compress c type msg)
  unfolding choose_body
  choose_body-IsChoice c type msg =
      IsChoice-if _ c msg _ _ (refl, refl)
        (IsChoice-if _ c msg _ _
          (compressed_in-IsChoice c msg (grow_buf alloc c.plain_cap (length msg + 4))) (refl, refl))

  module _ (sent : T → List ℕ) (a : Accepts write sent) where
    Sends : BepConn T → List ℕ → BepConn T × Bool → Type 0
    Sends c bytes r = (r.1 ≡ true) × (sent r.0.t ≡ sent c.t ++ bytes)

    written_to-Sends :
        (c : BepConn T) (bytes : List ℕ) (t : T) (o : T × Bool)
        → o ≡ (t, true)
        → sent t ≡ sent c.t ++ bytes
        → Sends c bytes (written_to write alloc lz4_compress c o)
    unfolding Sends
    written_to-Sends c bytes t o e s = rw e (refl, s)

    Sends-if :
        (b : Bool) (c : BepConn T) (bytes : List ℕ) (x y : BepConn T × Bool)
        → (b ≡ true → Sends c bytes x)
        → (b ≡ false → Sends c bytes y)
        → Sends c bytes (if b then x else y)
    Sends-if true c bytes x y h k = h refl
    Sends-if false c bytes x y h k = k refl

    nothing : (body frame : List ℕ) → (length body == 0) ≡ true → frame ++ body ≡ frame
    nothing [] frame e = append-nil frame
    nothing (b ∷ body) frame e = absurd (ground (arith, e))

    send_frame_lem :
        (c : BepConn T) (frame body : List ℕ)
        → Sends c (frame ++ body) (send_frame write alloc lz4_compress c frame body)
    send_frame_lem c frame body =
        let (t₁, e₁, s₁) = write_full_lem write sent a c.t frame in
        let (t₂, e₂, s₂) = write_full_lem write sent a t₁ body in
        let (t₃, e₃, s₃) = write_full_lem write sent a c.t (frame ++ body) in
        Sends-if (length body == 0) c (frame ++ body) _ _
          (λ e.
            written_to-Sends c (frame ++ body) t₁ _ e₁
              (s₁ ∙ ap (◌++◌ (sent c.t)) (sym (nothing body frame e))))
          (λ _.
            Sends-if (leb (length body) bep_coalesce_max) c (frame ++ body) _ _
              (λ _. written_to-Sends c (frame ++ body) t₃ _ e₃ s₃)
              (λ _.
                written_to-Sends c (frame ++ body) t₂ _
                  (ap (then_body write alloc lz4_compress body) e₁ ∙ e₂)
                  (s₂ ∙ ap (λ s. s ++ body) s₁ ∙ append_assoc (sent c.t) frame body)))

    send_encoded_lem :
        (c : BepConn T) (h body : List ℕ) (o : Option (List ℕ))
        → o ≡ some h
        → Sends c (frame_of h body) (send_encoded write alloc lz4_compress c body o)
    send_encoded_lem c h body o e =
        rw (e, sym (frame_assoc h body))
          (send_frame_lem c (put_be16 (length h) ++ h ++ put_be32 (length body)) body)

    -- A message went out in one frame, whose body stands for it.
    pub record IsSent (c : BepConn T) (type : ℤ) (msg : List ℕ) (r : BepConn T × Bool)
        : Type 0 where
      pub h : List ℕ
      pub body : List ℕ
      pub compressed : Bool
      pub stands : Stands msg body compressed
      pub short : length h ≤ 12
      pub decoded : bep_decode_header h ≡ some (header_for type compressed)
      pub ok : r.1 ≡ true
      pub added : sent r.0.t ≡ sent c.t ++ frame_of h body

    chosen-IsSent :
        (c : BepConn T) (type : ℤ) (msg : List ℕ) (x : BepConn T × List ℕ × Bool)
        → IsInt32 type
        → IsChoice c msg x
        → IsSent c type msg (send_chosen write alloc lz4_compress type x)
    unfolding Sends
    chosen-IsSent c type msg (c', body, compressed) ht (same, st) =
        let (h, short, enc, dec) =
          bep_decode_header-bep_encode_header (header_for type compressed) 16
            (header_for-IsHeader type compressed ht) (omega arith) in
        let (ok, added) = send_encoded_lem c' h body _ enc in
        record {
          h = h;
          body = body;
          compressed = compressed;
          stands = st;
          short = short;
          decoded = dec;
          ok = ok;
          added = added ∙ ap (λ t. sent t ++ frame_of h body) same;
        }

    pub bep_send_message-IsSent :
        (c : BepConn T) (type : ℤ) (msg : List ℕ)
        → IsInt32 type
        → IsSent c type msg (bep_send_message write alloc lz4_compress c type msg)
    unfolding bep_send_message
    bep_send_message-IsSent c type msg ht =
        chosen-IsSent c type msg (choose_body write alloc lz4_compress c type msg) ht
          (choose_body-IsChoice c type msg)
