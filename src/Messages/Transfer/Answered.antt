-- ===== src/Messages/Transfer/Answered.antt =====
-- On bep_encode_response and bep_decode_response.
use amisync.Common.{
  ℕ, ◌+◌, ◌^◌, ◌≤◌, ◌<◌, ◌≡◌, refl, ap, ◌∙◌, false, not, some, List, [], ◌∷◌, ◌++◌, arith, length,
  ltb,
}
use amisync.Common.Int.{ℤ, pos, eqb_ℤ}
use amisync.Pbuf.Fields.{uint64_field, bytes_field}
use amisync.Messages.{decode, int32_of, uint32_of}
use amisync.Messages.Steps.{when_bytes, decode_end, decode_number, decode_bytes, decode_when}
use amisync.Messages.Values.{
  IsInt32, int32_of-uint32_of, uint32_of-lt, unset_enum, length-uint32, length-bytes_field,
  length-int_field, length-when,
}
use amisync.Messages.Emits.{Emits-uint64, Emits-bytes, Emits-enum, Emits-when}
use amisync.Messages.Runs.{
  concat, EmitsAll, ◌also◌, no_more, finish_fits, ◌then_within◌, no_chunks, length-concat,
}
use amisync.Messages.Transfer.{
  BepResponse, no_response, response_writes, bep_encode_response, response_field,
  bep_decode_response,
}

pub record IsResponse (rs : BepResponse) : Type 0 where
  pub id : IsInt32 rs.id
  pub data_len : length rs.data_bytes < 2 ^ 31
  pub code : IsInt32 rs.code

module _ (rs : BepResponse) (ok : IsResponse rs) where
  response_chunks : List (List ℕ)
  response_chunks =
      uint64_field 1 (uint32_of rs.id)
      ∷ when_bytes (ltb 0 (length rs.data_bytes)) (bytes_field 2 rs.data_bytes)
      ∷ when_bytes (not (eqb_ℤ rs.code (pos 0))) (uint64_field 3 (uint32_of rs.code))
      ∷ []

  EmitsAll-response : EmitsAll (response_writes rs) response_chunks
  unfolding response_chunks
  EmitsAll-response =
      Emits-uint64 1 (uint32_of rs.id) (omega arith) (omega (arith, uint32_of-lt rs.id))
      also Emits-when _ _ _
          (λ _. Emits-bytes 2 rs.data_bytes (omega arith) (omega (arith, ok.data_len)))
      also Emits-when _ _ _ (λ _. Emits-enum 3 rs.code (omega arith))
      also no_more

  length-response : length (concat response_chunks) ≤ length rs.data_bytes + 18
  unfolding response_chunks
  length-response = omega (
    arith,
    length-concat response_chunks (6 ∷ (6 + length rs.data_bytes) ∷ 6 ∷ []) (
        length-int_field 1 rs.id (omega arith)
        then_within length-when _ _ (6 + length rs.data_bytes) (
            length-bytes_field 2 rs.data_bytes 5 (omega arith)
              (length-uint32 (length rs.data_bytes) (omega (arith, ok.data_len))))
        then_within length-when _ _ 6 (length-int_field 3 rs.code (omega arith))
        then_within no_chunks),
  )

  no_data : (d : List ℕ) → ltb 0 (length d) ≡ false → [] ≡ d
  no_data [] h = refl
  no_data (b ∷ d) h = absurd (ground arith)

  partly : List ℕ → ℤ → BepResponse
  partly d code = record { id = rs.id; data_bytes = d; code = code }

  response_tail : List ℕ
  response_tail =
      when_bytes (ltb 0 (length rs.data_bytes)) (bytes_field 2 rs.data_bytes)
      ++ (when_bytes (not (eqb_ℤ rs.code (pos 0))) (uint64_field 3 (uint32_of rs.code)) ++ [])

  decode-response : decode response_field no_response (concat response_chunks) ≡ some rs
  unfolding response_chunks response_tail response_field partly
  decode-response =
      decode_number response_field no_response 1 (uint32_of rs.id) _ (omega arith)
        (omega (arith, uint32_of-lt rs.id)) _ refl
      ∙ ap
          (λ i.
            decode response_field (record { id = i; data_bytes = []; code = pos 0 }) response_tail)
          (int32_of-uint32_of rs.id ok.id)
      ∙ decode_when response_field (partly [] (pos 0)) (partly rs.data_bytes (pos 0)) _ _ _
          (λ _.
            decode_bytes response_field _ 2 rs.data_bytes _ (omega arith)
              (omega (arith, ok.data_len)) _ _ refl refl)
          (λ e. ap (λ d. partly d (pos 0)) (no_data rs.data_bytes e))
      ∙ decode_when response_field _ (partly rs.data_bytes (int32_of (uint32_of rs.code))) _ _ _
          (λ _.
            decode_number response_field _ 3 (uint32_of rs.code) [] (omega arith)
              (omega (arith, uint32_of-lt rs.code)) _ refl)
          (λ e. ap (partly rs.data_bytes) (unset_enum rs.code ok.code e))
      ∙ decode_end response_field _
      ∙ rw (int32_of-uint32_of rs.code ok.code) refl

-- A response always encodes into a buffer with 18 bytes more than its data, and the decoder gets the
-- same response back from those bytes; bep_send_response asks for 64 bytes more.
pub bep_decode_response-bep_encode_response :
    (rs : BepResponse) (cap : ℕ)
    → IsResponse rs
    → length rs.data_bytes + 18 ≤ cap
    → (buf : List ℕ) × (bep_encode_response rs cap ≡ some buf) × (bep_decode_response buf ≡ some rs)
unfolding bep_encode_response bep_decode_response
bep_decode_response-bep_encode_response rs cap ok room = (
  concat (response_chunks rs ok),
  finish_fits (response_writes rs) (response_chunks rs ok) cap (EmitsAll-response rs ok)
      (omega (arith, length-response rs ok)),
  decode-response rs ok,
)
