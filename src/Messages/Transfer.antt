-- ===== src/Messages/Transfer.antt =====
-- src/bep.c: the codecs of a request for a block and of the response to it.
pub mod RoundTrip
pub mod Answered
pub mod Bounded
use amisync.Common.{
  ℕ, Bool, true, false, ◌&&◌, not, Option, some, List, [], ◌∷◌, length, replicate, if◌then◌else◌,
  ltb, ◌==◌,
}
use amisync.Common.Int.{ℤ, pos, eqb_ℤ}
use amisync.Bep.{bep_folder_id_max, bep_path_max, bep_hash_len}
use amisync.Pbuf.{wt_varint, wt_len}
use amisync.Pbuf.Writer.{
  PbufWriter, Wrote, pbuf_writer_init, pbuf_write_uint64, pbuf_write_string, pbuf_write_bytes,
  pbuf_write_bool,
}
use amisync.Messages.{
  OnField, number, bytes, unknown, decode, copy_str, uint64_of, uint32_of, int64_of, int32_of,
  flag_of, nonzero, when, write_all, finished, pbuf_write_enum,
}

-- A flag is only tested for being 0.
pub record BepRequest : Type 0 where
  pub id : ℤ
  pub folder : List ℕ
  pub name : List ℕ
  pub offset : ℤ
  pub size : ℤ
  pub hash : List ℕ
  pub has_hash : Bool
  pub from_temporary : Bool
  pub block_no : ℤ

-- memset(rq, 0, sizeof(*rq))
abbrev pub no_request : BepRequest
no_request = record {
  id = pos 0;
  folder = [];
  name = [];
  offset = pos 0;
  size = pos 0;
  hash = replicate bep_hash_len 0;
  has_hash = false;
  from_temporary = false;
  block_no = pos 0;
}

-- The writes of bep_encode_request, in order.
abbrev pub request_writes : BepRequest → List (PbufWriter → Wrote)
request_writes rq =
    (λ w. pbuf_write_uint64 w 1 (uint32_of rq.id))
    ∷ (λ w. pbuf_write_string w 2 rq.folder)
    ∷ (λ w. pbuf_write_string w 3 rq.name)
    ∷ (λ w. pbuf_write_uint64 w 4 (uint64_of rq.offset))
    ∷ (λ w. pbuf_write_uint64 w 5 (uint32_of rq.size))
    ∷ when rq.has_hash (λ w. pbuf_write_bytes w 6 rq.hash)
    ∷ when rq.from_temporary (λ w. pbuf_write_bool w 7 true)
    ∷ when (nonzero rq.block_no) (λ w. pbuf_write_uint64 w 9 (uint32_of rq.block_no))
    ∷ []

unfoldable pub bep_encode_request : BepRequest → ℕ → Option (List ℕ)
unfolding write_all pbuf_write_uint64 pbuf_write_string pbuf_write_bytes pbuf_write_bool
    pbuf_writer_init
bep_encode_request rq cap = finished (write_all (request_writes rq) (pbuf_writer_init cap))

-- if (n == BEP_HASH_LEN) { memcpy(rq->hash, p, n); rq->has_hash = 1; }
abbrev pub with_hash : BepRequest → List ℕ → BepRequest
with_hash rq p = if length p == bep_hash_len then record rq { hash = p; has_hash = true } else rq

unfoldable pub request_field : ℕ → ℕ → BepRequest → OnField BepRequest
unfolding copy_str
request_field field wt rq =
    if (field == 1) && (wt == wt_varint)
    then number (λ v. record rq { id = int32_of v })
    else if (field == 2) && (wt == wt_len)
    then bytes (λ p. some (record rq { folder = copy_str bep_folder_id_max p }))
    else if (field == 3) && (wt == wt_len)
    then bytes (λ p. some (record rq { name = copy_str bep_path_max p }))
    else if (field == 4) && (wt == wt_varint)
    then number (λ v. record rq { offset = int64_of v })
    else if (field == 5) && (wt == wt_varint)
    then number (λ v. record rq { size = int32_of v })
    else if (field == 6) && (wt == wt_len)
    then bytes (λ p. some (with_hash rq p))
    else if (field == 7) && (wt == wt_varint)
    then number (λ v. record rq { from_temporary = flag_of v })
    else if (field == 9) && (wt == wt_varint)
    then number (λ v. record rq { block_no = int32_of v })
    else unknown

unfoldable pub bep_decode_request : List ℕ → Option BepRequest
unfolding decode request_field
bep_decode_request buf = decode request_field no_request buf

-- `data_bytes` is the bytes that `data` and `data_len` describe.
pub record BepResponse : Type 0 where
  pub id : ℤ
  pub data_bytes : List ℕ
  pub code : ℤ

abbrev pub no_response : BepResponse
no_response = record { id = pos 0; data_bytes = []; code = pos 0 }

-- BEP_ERR_NONE
abbrev pub bep_err_none : ℤ
bep_err_none = pos 0

-- The writes of bep_encode_response, in order.
abbrev pub response_writes : BepResponse → List (PbufWriter → Wrote)
response_writes rs =
    (λ w. pbuf_write_uint64 w 1 (uint32_of rs.id))
    ∷ when (ltb 0 (length rs.data_bytes)) (λ w. pbuf_write_bytes w 2 rs.data_bytes)
    ∷ when (not (eqb_ℤ rs.code bep_err_none)) (λ w. pbuf_write_enum w 3 rs.code)
    ∷ []

unfoldable pub bep_encode_response : BepResponse → ℕ → Option (List ℕ)
unfolding write_all pbuf_write_uint64 pbuf_write_bytes pbuf_write_enum pbuf_writer_init
bep_encode_response rs cap = finished (write_all (response_writes rs) (pbuf_writer_init cap))

unfoldable pub response_field : ℕ → ℕ → BepResponse → OnField BepResponse
response_field field wt rs =
    if (field == 1) && (wt == wt_varint)
    then number (λ v. record rs { id = int32_of v })
    else if (field == 2) && (wt == wt_len)
    then bytes (λ p. some (record rs { data_bytes = p }))
    else if (field == 3) && (wt == wt_varint)
    then number (λ v. record rs { code = int32_of v })
    else unknown

unfoldable pub bep_decode_response : List ℕ → Option BepResponse
unfolding decode response_field
bep_decode_response buf = decode response_field no_response buf
