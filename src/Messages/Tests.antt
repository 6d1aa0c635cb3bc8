-- ===== src/Messages/Tests.antt =====
-- Runs of the codecs, and their theorems at concrete messages.
use amisync.Common.{ℕ, ◌≡◌, refl, true, false, none, some, List, [], ◌∷◌, arith, replicate}
use native.Mathlib.Decide.{dec_lt}
use amisync.Common.Int.{pos, negsuc}
use amisync.Bep.{BepFileInfo}
use amisync.Pbuf.{reading}
use amisync.Messages.{read_fields}
use amisync.Messages.Keeps.{OfResult}
use amisync.Messages.Loop.{read_fields-fuel}
use amisync.Messages.Hello.{BepHello, BepHeader, bep_encode_header, bep_decode_header}
use amisync.Messages.Transfer.{
  BepRequest, no_request, request_field, bep_encode_request, bep_decode_request, BepResponse,
  bep_encode_response, bep_decode_response,
}
use amisync.Messages.Transfer.RoundTrip.{IsRequest, bep_decode_request-bep_encode_request}
use amisync.Messages.Transfer.Answered.{bep_decode_response-bep_encode_response}
use amisync.Messages.Transfer.Bounded.{IsBounded, bep_decode_request-IsBounded}
use amisync.Messages.FileInfo.{decode_vector, bep_encode_file_info}
use amisync.Messages.FileInfo.Reading.{bep_decode_file_info}
use amisync.Messages.FileInfo.RoundTrip.{
  IsFileInfo, wire_part, bep_decode_file_info-bep_encode_file_info,
}

abbrev hello : BepHello
hello = record { device_name = b'A' ∷ b'4' ∷ []; client_name = b's' ∷ []; client_version = [] }

abbrev lz4_index : BepHeader
lz4_index = record { type = pos 1; compression = pos 1 }

abbrev request : BepRequest
request = record {
  id = pos 300;
  folder = b'd' ∷ [];
  name = b'a' ∷ b'/' ∷ b'b' ∷ [];
  offset = pos 131072;
  size = pos 131072;
  hash = replicate 32 7;
  has_hash = true;
  from_temporary = false;
  block_no = pos 1;
}

abbrev refusal : BepResponse
refusal = record { id = pos 300; data_bytes = []; code = pos 2 }

abbrev file_info : BepFileInfo
file_info = record {
  name = b'a' ∷ [];
  type = 0;
  size = pos 5;
  permissions = 0x1a4;
  modified_s = negsuc 0;
  modified_ns = pos 0;
  modified_by = 9;
  deleted = 0;
  invalid = 1;
  sequence = pos 12;
  block_size = pos 131072;
  version = record { counters = record { id = 9; value = 2 } ∷ [] };
  blocks = record { offset = pos 0; size = pos 5; hash = replicate 32 3; has_hash = true } ∷ [];
  num_blocks = pos 1;
  content_hash = replicate 32 1;
  has_content_hash = true;
}

-- The bytes of a header, and a header with an unknown field 5 in front of its type.
headers :
    (bep_encode_header lz4_index 16 ≡ some (8 ∷ 1 ∷ 16 ∷ 1 ∷ []))
    × (bep_encode_header lz4_index 3 ≡ none)
    × (bep_decode_header (40 ∷ 150 ∷ 1 ∷ 8 ∷ 1 ∷ [])
        ≡ some (record { type = pos 1; compression = pos 0 }))
    × (bep_decode_header (8 ∷ []) ≡ none)
unfolding bep_encode_header bep_decode_header dec_lt
headers = (refl, refl, refl, refl)

-- A name with a NUL inside ends there; a hash of the wrong length is passed over.
strange_request :
    bep_decode_request (26 ∷ 3 ∷ b'a' ∷ 0 ∷ b'b' ∷ 50 ∷ 1 ∷ 9 ∷ [])
    ≡ some (record no_request { name = b'a' ∷ [] })
unfolding bep_decode_request
strange_request = refl

-- The bytes of a vector with one counter.
one_counter :
    decode_vector (10 ∷ 4 ∷ 8 ∷ 9 ∷ 16 ∷ 2 ∷ [])
    ≡ some (record { counters = record { id = 9; value = 2 } ∷ [] })
unfolding decode_vector
one_counter = refl

request-IsRequest : IsRequest request
request-IsRequest = record {
  id = omega arith;
  folder = record { fits = omega arith; no_nul = omega arith };
  name = record { fits = omega arith; no_nul = omega arith };
  offset = omega arith;
  size = omega arith;
  hash = refl;
  no_hash = λ e. cc;
  block_no = omega arith;
}

bep_decode_request-bep_encode_request_example :
    (buf : List ℕ) × (bep_encode_request request 512 ≡ some buf)
    × (bep_decode_request buf ≡ some request)
bep_decode_request-bep_encode_request_example =
    bep_decode_request-bep_encode_request request 512 request-IsRequest (omega arith)

bep_decode_response-bep_encode_response_example :
    (buf : List ℕ) × (bep_encode_response refusal 64 ≡ some buf)
    × (bep_decode_response buf ≡ some refusal)
bep_decode_response-bep_encode_response_example =
    bep_decode_response-bep_encode_response refusal 64
      (record { id = omega arith; data_len = omega arith; code = omega arith }) (omega arith)

bep_decode_request-IsBounded_example :
    OfResult IsBounded (bep_decode_request (26 ∷ 3 ∷ b'a' ∷ 0 ∷ b'b' ∷ 50 ∷ 1 ∷ 9 ∷ []))
bep_decode_request-IsBounded_example =
    bep_decode_request-IsBounded (26 ∷ 3 ∷ b'a' ∷ 0 ∷ b'b' ∷ 50 ∷ 1 ∷ 9 ∷ [])

read_fields-fuel_example :
    read_fields request_field none 4 (reading (8 ∷ 1 ∷ [])) no_request
    ≡ read_fields request_field (some request) 3 (reading (8 ∷ 1 ∷ [])) no_request
read_fields-fuel_example =
    read_fields-fuel request_field none (some request) 4 3 (reading (8 ∷ 1 ∷ [])) no_request
      (omega arith) (omega arith)

file_info-IsFileInfo : IsFileInfo file_info
file_info-IsFileInfo = record {
  info = record {
    name = record { fits = omega arith; no_nul = omega arith };
    type = omega arith;
    size = omega arith;
    permissions = omega arith;
    modified_s = omega arith;
    modified_ns = omega arith;
    modified_by = omega arith;
    sequence = omega arith;
    block_size = omega arith;
    version = record {
      fits = omega arith;
      counters = (record { id = omega arith; value = omega arith }, tt);
    };
  };
  blocks =
      (record { offset = omega arith; size = omega arith; hash = refl; no_hash = λ e. cc }, tt);
  num_blocks = refl;
  few = omega arith;
}

bep_decode_file_info-bep_encode_file_info_example :
    (buf : List ℕ) × (bep_encode_file_info file_info 4096 ≡ some buf)
    × (bep_decode_file_info buf ≡ some (wire_part file_info))
bep_decode_file_info-bep_encode_file_info_example =
    bep_decode_file_info-bep_encode_file_info file_info 4096 file_info-IsFileInfo (omega arith)
