-- ===== src/Messages/Transfer/RoundTrip.antt =====
-- On bep_encode_request and bep_decode_request.
use amisync.Common.{
  ℕ, ◌^◌, ◌≤◌, ◌<◌, ◌≡◌, refl, sym, ap, ap₂, ◌∙◌, Bool, true, false, some, List, [], ◌∷◌, ◌++◌,
  arith, length, replicate,
}
use amisync.Common.Int.{ℤ, pos}
use amisync.Pbuf.Fields.{uint64_field, bytes_field}
use amisync.Messages.{decode, int32_of, uint32_of, uint64_of, nonzero}
use amisync.Messages.Steps.{when_bytes, decode_end, decode_number, decode_bytes, decode_when}
use amisync.Messages.Values.{
  IsText, IsInt32, IsInt64, int32_of-uint32_of, int64_of-uint64_of, uint32_of-lt, uint64_of-lt,
  unset_int, copy_str_lem, length-varint, length-uint64, length-uint64_field, length-bytes_field,
  string_length, length-int_field, length-when,
}
use amisync.Messages.Emits.{Emits-uint64, Emits-bytes, Emits-bool, Emits-string, Emits-when}
use amisync.Messages.Runs.{
  concat, EmitsAll, ◌also◌, no_more, finish_fits, ◌then_within◌, no_chunks, length-concat,
}
use amisync.Messages.Transfer.{
  BepRequest, no_request, request_writes, bep_encode_request, with_hash, request_field,
  bep_decode_request,
}

-- The fields are in their C ranges; without a hash the array is the zeros of a fresh struct.
pub record IsRequest (rq : BepRequest) : Type 0 where
  pub id : IsInt32 rq.id
  pub folder : IsText 64 rq.folder
  pub name : IsText 256 rq.name
  pub offset : IsInt64 rq.offset
  pub size : IsInt32 rq.size
  pub hash : length rq.hash ≡ 32
  pub no_hash : rq.has_hash ≡ false → rq.hash ≡ replicate 32 0
  pub block_no : IsInt32 rq.block_no

module _ (rq : BepRequest) (ok : IsRequest rq) where
  request_chunks : List (List ℕ)
  request_chunks =
      uint64_field 1 (uint32_of rq.id)
      ∷ bytes_field 2 rq.folder
      ∷ bytes_field 3 rq.name
      ∷ uint64_field 4 (uint64_of rq.offset)
      ∷ uint64_field 5 (uint32_of rq.size)
      ∷ when_bytes rq.has_hash (bytes_field 6 rq.hash)
      ∷ when_bytes rq.from_temporary (uint64_field 7 1)
      ∷ when_bytes (nonzero rq.block_no) (uint64_field 9 (uint32_of rq.block_no))
      ∷ []

  uint32_fits : (v : ℤ) → uint32_of v < 2 ^ 64
  uint32_fits v = omega (arith, uint32_of-lt v)

  EmitsAll-request : EmitsAll (request_writes rq) request_chunks
  unfolding request_chunks
  EmitsAll-request =
      Emits-uint64 1 (uint32_of rq.id) (omega arith) (uint32_fits rq.id)
      also Emits-string 2 rq.folder (omega arith) (omega (arith, ok.folder.fits))
      also Emits-string 3 rq.name (omega arith) (omega (arith, ok.name.fits))
      also Emits-uint64 4 (uint64_of rq.offset) (omega arith) (uint64_of-lt rq.offset)
      also Emits-uint64 5 (uint32_of rq.size) (omega arith) (uint32_fits rq.size)
      also Emits-when _ _ _ (λ _. Emits-bytes 6 rq.hash (omega arith) (omega (arith, ok.hash)))
      also Emits-when _ _ _ (λ _. Emits-bool 7 (omega arith))
      also Emits-when _ _ _
          (λ _. Emits-uint64 9 (uint32_of rq.block_no) (omega arith) (uint32_fits rq.block_no))
      also no_more

  -- What has been decoded when the first five fields have been read.
  upto : List ℕ → Bool → Bool → ℤ → BepRequest
  upto hash has_hash from_temporary block_no = record {
    id = rq.id;
    folder = rq.folder;
    name = rq.name;
    offset = rq.offset;
    size = rq.size;
    hash = hash;
    has_hash = has_hash;
    from_temporary = from_temporary;
    block_no = block_no;
  }

  request_tail : List ℕ
  request_tail =
      when_bytes rq.has_hash (bytes_field 6 rq.hash)
      ++ (when_bytes rq.from_temporary (uint64_field 7 1)
          ++ (when_bytes (nonzero rq.block_no) (uint64_field 9 (uint32_of rq.block_no)) ++ []))

  decode-head :
      decode request_field no_request (concat request_chunks)
      ≡ decode request_field (upto (replicate 32 0) false false (pos 0)) request_tail
  unfolding request_chunks request_field upto request_tail
  decode-head =
      decode_number request_field no_request 1 (uint32_of rq.id) _ (omega arith) (uint32_fits rq.id)
        _ refl
      ∙ decode_bytes request_field _ 2 rq.folder _ (omega arith) (omega (arith, ok.folder.fits)) _ _
          refl refl
      ∙ decode_bytes request_field _ 3 rq.name _ (omega arith) (omega (arith, ok.name.fits)) _ _
          refl refl
      ∙ decode_number request_field _ 4 (uint64_of rq.offset) _ (omega arith)
          (uint64_of-lt rq.offset) _ refl
      ∙ decode_number request_field _ 5 (uint32_of rq.size) _ (omega arith) (uint32_fits rq.size) _
          refl
      ∙ rw
          (
            int32_of-uint32_of rq.id ok.id,
            int32_of-uint32_of rq.size ok.size,
            int64_of-uint64_of rq.offset ok.offset,
            copy_str_lem 64 rq.folder ok.folder,
            copy_str_lem 256 rq.name ok.name,
          )
          refl

  upto_hash :
      rq.has_hash ≡ true
      → with_hash (upto (replicate 32 0) false false (pos 0)) rq.hash
        ≡ upto rq.hash rq.has_hash false (pos 0)
  unfolding upto
  upto_hash e = rw (ok.hash, e) refl

  upto_no_hash :
      rq.has_hash ≡ false
      → upto (replicate 32 0) false false (pos 0) ≡ upto rq.hash rq.has_hash false (pos 0)
  upto_no_hash e = ap₂ (λ h b. upto h b false (pos 0)) (sym (ok.no_hash e)) (sym e)

  decode-tail :
      decode request_field (upto (replicate 32 0) false false (pos 0)) request_tail ≡ some rq
  unfolding request_field request_tail upto
  decode-tail =
      decode_when request_field _ (upto rq.hash rq.has_hash false (pos 0)) rq.has_hash
        (bytes_field 6 rq.hash) _
        (λ e.
          decode_bytes request_field _ 6 rq.hash _ (omega arith) (omega (arith, ok.hash)) _ _ refl
            (ap some (upto_hash e)))
        upto_no_hash
      ∙ decode_when request_field _ (upto rq.hash rq.has_hash rq.from_temporary (pos 0))
          rq.from_temporary (uint64_field 7 1) _
          (λ e. decode_number request_field _ 7 1 _ (omega arith) (omega arith) _ refl ∙ rw e refl)
          (λ e. ap (λ b. upto rq.hash rq.has_hash b (pos 0)) (sym e))
      ∙ decode_when request_field _
          (upto rq.hash rq.has_hash rq.from_temporary (int32_of (uint32_of rq.block_no)))
          (nonzero rq.block_no) (uint64_field 9 (uint32_of rq.block_no)) _
          (λ e.
            decode_number request_field _ 9 (uint32_of rq.block_no) _ (omega arith)
              (uint32_fits rq.block_no) _ refl)
          (λ e.
            ap (upto rq.hash rq.has_hash rq.from_temporary) (unset_int rq.block_no ok.block_no e))
      ∙ decode_end request_field _
      ∙ rw (int32_of-uint32_of rq.block_no ok.block_no) refl

  length-request : length (concat request_chunks) ≤ 390
  unfolding request_chunks
  length-request = length-concat request_chunks (6 ∷ 66 ∷ 258 ∷ 11 ∷ 6 ∷ 35 ∷ 2 ∷ 6 ∷ []) (
      length-int_field 1 rq.id (omega arith)
      then_within string_length 2 rq.folder 64 ok.folder (omega arith) (omega arith)
      then_within string_length 3 rq.name 256 ok.name (omega arith) (omega arith)
      then_within length-uint64_field 4 (uint64_of rq.offset) 10 (omega arith)
          (length-uint64 (uint64_of rq.offset))
      then_within length-int_field 5 rq.size (omega arith)
      then_within length-when rq.has_hash (bytes_field 6 rq.hash) 35 (
          omega (
            arith,
            ok.hash,
            length-bytes_field 6 rq.hash 2 (omega arith)
                (length-varint 1 (length rq.hash) (omega (arith, ok.hash))),
          ))
      then_within length-when _ _ 2
          (length-uint64_field 7 1 1 (omega arith) (length-varint 0 1 (omega arith)))
      then_within length-when _ _ 6 (length-int_field 9 rq.block_no (omega arith))
      then_within no_chunks)

-- A request whose fields are in their C ranges always encodes into a buffer of 390 bytes or more,
-- and the decoder gets the same request back from those bytes, every field of it.
pub bep_decode_request-bep_encode_request :
    (rq : BepRequest) (cap : ℕ)
    → IsRequest rq
    → 390 ≤ cap
    → (buf : List ℕ) × (bep_encode_request rq cap ≡ some buf) × (bep_decode_request buf ≡ some rq)
unfolding bep_encode_request bep_decode_request
bep_decode_request-bep_encode_request rq cap ok room = (
  concat (request_chunks rq ok),
  finish_fits (request_writes rq) (request_chunks rq ok) cap (EmitsAll-request rq ok)
      (omega (arith, length-request rq ok)),
  decode-head rq ok ∙ decode-tail rq ok,
)
