-- ===== src/Messages/Hello/RoundTrip.antt =====
-- On the encoders and decoders of the Hello and the header.
use amisync.Common.{ℕ, ◌≤◌, ◌≡◌, refl, ap, ◌∙◌, not, some, List, [], ◌∷◌, arith, length}
use amisync.Common.Int.{eqb_ℤ}
use amisync.Pbuf.Fields.{uint64_field, bytes_field}
use amisync.Messages.{decode, int32_of, uint32_of}
use amisync.Messages.Steps.{when_bytes, decode_end, decode_number, decode_bytes, decode_when}
use amisync.Messages.Values.{
  IsText, IsInt32, int32_of-uint32_of, uint32_of-lt, unset_enum, copy_str_lem, string_length,
  length-int_field, length-when,
}
use amisync.Messages.Emits.{Emits-string, Emits-enum, Emits-when}
use amisync.Messages.Runs.{
  concat, EmitsAll, ◌also◌, no_more, finish_fits, ◌then_within◌, no_chunks, length-concat,
}
use amisync.Messages.Hello.{
  BepHello, no_hello, hello_writes, bep_encode_hello, hello_field, bep_decode_hello, BepHeader,
  header_writes, default_header, bep_compress_none, bep_encode_header, header_field,
  bep_decode_header,
}

-- Names that the buffers of the struct can hold.
pub record IsHello (h : BepHello) : Type 0 where
  pub device_name : IsText 64 h.device_name
  pub client_name : IsText 64 h.client_name
  pub client_version : IsText 32 h.client_version

module _ (h : BepHello) (ok : IsHello h) where
  hello_chunks : List (List ℕ)
  hello_chunks =
      bytes_field 1 h.device_name
      ∷ bytes_field 2 h.client_name
      ∷ bytes_field 3 h.client_version
      ∷ []

  EmitsAll-hello : EmitsAll (hello_writes h) hello_chunks
  unfolding hello_chunks
  EmitsAll-hello =
      Emits-string 1 h.device_name (omega arith) (omega (arith, ok.device_name.fits))
      also Emits-string 2 h.client_name (omega arith) (omega (arith, ok.client_name.fits))
      also Emits-string 3 h.client_version (omega arith) (omega (arith, ok.client_version.fits))
      also no_more

  length-hello : length (concat hello_chunks) ≤ 166
  unfolding hello_chunks
  length-hello = length-concat hello_chunks (66 ∷ 66 ∷ 34 ∷ []) (
      string_length 1 h.device_name 64 ok.device_name (omega arith) (omega arith)
      then_within string_length 2 h.client_name 64 ok.client_name (omega arith) (omega arith)
      then_within string_length 3 h.client_version 32 ok.client_version (omega arith) (omega arith)
      then_within no_chunks)

  decode-hello : decode hello_field no_hello (concat hello_chunks) ≡ some h
  unfolding hello_chunks hello_field
  decode-hello =
      decode_bytes hello_field no_hello 1 h.device_name _ (omega arith)
        (omega (arith, ok.device_name.fits)) _ _ refl refl
      ∙ decode_bytes hello_field _ 2 h.client_name _ (omega arith)
          (omega (arith, ok.client_name.fits)) _ _ refl refl
      ∙ decode_bytes hello_field _ 3 h.client_version _ (omega arith)
          (omega (arith, ok.client_version.fits)) _ _ refl refl
      ∙ decode_end hello_field _
      ∙ rw
          (
            copy_str_lem 64 h.device_name ok.device_name,
            copy_str_lem 64 h.client_name ok.client_name,
            copy_str_lem 32 h.client_version ok.client_version,
          )
          refl

-- A Hello whose names fit their buffers always encodes into a buffer of 166 bytes or more, and the
-- decoder gets the same Hello back from those bytes.
pub bep_decode_hello-bep_encode_hello :
    (h : BepHello) (cap : ℕ)
    → IsHello h
    → 166 ≤ cap
    → (buf : List ℕ) × (bep_encode_hello h cap ≡ some buf) × (bep_decode_hello buf ≡ some h)
unfolding bep_encode_hello bep_decode_hello
bep_decode_hello-bep_encode_hello h cap ok room = (
  concat (hello_chunks h ok),
  finish_fits (hello_writes h) (hello_chunks h ok) cap (EmitsAll-hello h ok)
      (omega (arith, length-hello h ok)),
  decode-hello h ok,
)

pub record IsHeader (hdr : BepHeader) : Type 0 where
  pub type : IsInt32 hdr.type
  pub compression : IsInt32 hdr.compression

module _ (hdr : BepHeader) (ok : IsHeader hdr) where
  header_chunks : List (List ℕ)
  header_chunks =
      uint64_field 1 (uint32_of hdr.type)
      ∷ when_bytes (not (eqb_ℤ hdr.compression bep_compress_none))
          (uint64_field 2 (uint32_of hdr.compression))
      ∷ []

  EmitsAll-header : EmitsAll (header_writes hdr) header_chunks
  unfolding header_chunks
  EmitsAll-header =
      Emits-enum 1 hdr.type (omega arith)
      also Emits-when _ _ _ (λ _. Emits-enum 2 hdr.compression (omega arith))
      also no_more

  length-header : length (concat header_chunks) ≤ 12
  unfolding header_chunks
  length-header = length-concat header_chunks (6 ∷ 6 ∷ []) (
      length-int_field 1 hdr.type (omega arith)
      then_within length-when _ _ 6 (length-int_field 2 hdr.compression (omega arith))
      then_within no_chunks)

  decode-header : decode header_field default_header (concat header_chunks) ≡ some hdr
  unfolding header_chunks header_field
  decode-header =
      decode_number header_field default_header 1 (uint32_of hdr.type) _ (omega arith)
        (omega (arith, uint32_of-lt hdr.type)) _ refl
      ∙ decode_when header_field _ _ _ _ _
          (λ _.
            decode_number header_field _ 2 (uint32_of hdr.compression) [] (omega arith)
              (omega (arith, uint32_of-lt hdr.compression)) _ refl)
          (λ e.
            ap (λ c. record { type = int32_of (uint32_of hdr.type); compression = c })
              (unset_enum hdr.compression ok.compression e))
      ∙ decode_end header_field _
      ∙ rw (int32_of-uint32_of hdr.type ok.type, int32_of-uint32_of hdr.compression ok.compression)
          refl

-- A header with an int type and an int compression always encodes into a buffer of 12 bytes or more,
-- which the 16 of bep_send_message are; it takes 12 at most, and the decoder gets the same header
-- back from them.
pub bep_decode_header-bep_encode_header :
    (hdr : BepHeader) (cap : ℕ)
    → IsHeader hdr
    → 12 ≤ cap
    → (buf : List ℕ) × (length buf ≤ 12)
      × (bep_encode_header hdr cap ≡ some buf)
      × (bep_decode_header buf ≡ some hdr)
unfolding bep_encode_header bep_decode_header
bep_decode_header-bep_encode_header hdr cap ok room = (
  concat (header_chunks hdr ok),
  length-header hdr ok,
  finish_fits (header_writes hdr) (header_chunks hdr ok) cap (EmitsAll-header hdr ok)
      (omega (arith, length-header hdr ok)),
  decode-header hdr ok,
)
