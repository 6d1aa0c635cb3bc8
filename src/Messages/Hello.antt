-- ===== src/Messages/Hello.antt =====
-- src/bep.c: the codecs of the Hello and of the header in front of every later message.
pub mod RoundTrip
use amisync.Common.{
  ℕ, Bool, true, false, ◌&&◌, ◌||◌, not, Option, some, List, [], ◌∷◌, if◌then◌else◌, ◌==◌,
}
use amisync.Common.Int.{ℤ, pos, eqb_ℤ}
use amisync.Pbuf.{wt_varint, wt_len}
use amisync.Pbuf.Writer.{PbufWriter, Wrote, pbuf_writer_init, pbuf_write_string}
use amisync.Messages.{
  OnField, number, bytes, unknown, decode, copy_str, int32_of, when, write_all, finished,
  pbuf_write_enum,
}

abbrev pub bep_name_max : ℕ
bep_name_max = 64

abbrev pub bep_version_max : ℕ
bep_version_max = 32

pub record BepHello : Type 0 where
  pub device_name : List ℕ
  pub client_name : List ℕ
  pub client_version : List ℕ

abbrev pub no_hello : BepHello
no_hello = record { device_name = []; client_name = []; client_version = [] }

-- The writes of bep_encode_hello, in order.
abbrev pub hello_writes : BepHello → List (PbufWriter → Wrote)
hello_writes h =
    (λ w. pbuf_write_string w 1 h.device_name)
    ∷ (λ w. pbuf_write_string w 2 h.client_name)
    ∷ (λ w. pbuf_write_string w 3 h.client_version)
    ∷ []

unfoldable pub bep_encode_hello : BepHello → ℕ → Option (List ℕ)
unfolding write_all pbuf_write_string pbuf_writer_init
bep_encode_hello h cap = finished (write_all (hello_writes h) (pbuf_writer_init cap))

unfoldable pub hello_field : ℕ → ℕ → BepHello → OnField BepHello
unfolding copy_str
hello_field field wt h =
    if (wt == wt_len) && ((field == 1) || (field == 2) || (field == 3))
    then bytes (λ d. some (
        if field == 1
        then record h { device_name = copy_str bep_name_max d }
        else if field == 2
        then record h { client_name = copy_str bep_name_max d }
        else record h { client_version = copy_str bep_version_max d }))
    else unknown

unfoldable pub bep_decode_hello : List ℕ → Option BepHello
unfolding decode hello_field
bep_decode_hello buf = decode hello_field no_hello buf

pub record BepHeader : Type 0 where
  pub type : ℤ
  pub compression : ℤ

abbrev pub bep_compress_none : ℤ
bep_compress_none = pos 0

abbrev pub bep_compress_lz4 : ℤ
bep_compress_lz4 = pos 1

-- The type is 0, which is BEP_CLUSTER_CONFIG.
abbrev pub default_header : BepHeader
default_header = record { type = pos 0; compression = bep_compress_none }

-- The type is written even when it is 0.
abbrev pub header_writes : BepHeader → List (PbufWriter → Wrote)
header_writes hdr =
    (λ w. pbuf_write_enum w 1 hdr.type)
    ∷ when (not (eqb_ℤ hdr.compression bep_compress_none))
        (λ w. pbuf_write_enum w 2 hdr.compression)
    ∷ []

unfoldable pub bep_encode_header : BepHeader → ℕ → Option (List ℕ)
unfolding write_all pbuf_write_enum pbuf_writer_init
bep_encode_header hdr cap = finished (write_all (header_writes hdr) (pbuf_writer_init cap))

unfoldable pub header_field : ℕ → ℕ → BepHeader → OnField BepHeader
header_field field wt hdr =
    if (field == 1) && (wt == wt_varint)
    then number (λ v. record hdr { type = int32_of v })
    else if (field == 2) && (wt == wt_varint)
    then number (λ v. record hdr { compression = int32_of v })
    else unknown

unfoldable pub bep_decode_header : List ℕ → Option BepHeader
unfolding decode header_field
bep_decode_header buf = decode header_field default_header buf
