-- ===== src/Messages/FileInfo/Stages.antt =====
-- How the fields of a FileInfo before its blocks are read back.
use amisync.Common.{
  ℕ, ◌%◌, ◌^◌, ◌≡◌, refl, sym, ap, ◌∙◌, false, not, Option, some, List, [], ◌++◌, arith, replicate,
  if◌then◌else◌, ltb, ◌==◌,
}
use amisync.Common.Int.{pos}
use amisync.Bep.{BepBlockInfo, BepFileInfo, is_set}
use amisync.Pbuf.Fields.{uint64_field, bytes_field}
use amisync.Messages.{decode, bytes, uint64_of, uint32_of, nonzero}
use amisync.Messages.Steps.{when_bytes, decode_number_to, decode_bytes, decode_when}
use amisync.Messages.Values.{
  int32_of-uint32_of, int64_of-uint64_of, uint64_of-lt, nonzero-false, copy_str_lem,
}
use amisync.Messages.Runs.{concat}
use amisync.Messages.FileInfo.{decode_vector}
use amisync.Messages.FileInfo.Vector.{vector_chunks, length-vector_bytes, decode-vector}
use amisync.Messages.FileInfo.Reading.{Partial, stored_info, with_vector, file_info_field}
use amisync.Messages.FileInfo.Info.{IsInfo, info_chunks, is_zero, same_bits, twice, uint32_fits}

-- A flag goes over the wire as 1 or not at all.
abbrev pub wire_flag : ℕ → ℕ
wire_flag n = if is_set n then 1 else 0

module _ (fi : BepFileInfo) (ok : IsInfo fi) where
  -- The struct when the first `k` fields of the wire order have been read.
  unfoldable pub stage : ℕ → BepFileInfo
  stage k = record {
    name = if ltb 0 k then fi.name else [];
    type = if ltb 1 k then fi.type else 0;
    size = if ltb 2 k then fi.size else pos 0;
    permissions = if ltb 3 k then fi.permissions else 0;
    modified_s = if ltb 4 k then fi.modified_s else pos 0;
    modified_ns = if ltb 5 k then fi.modified_ns else pos 0;
    modified_by = if ltb 6 k then fi.modified_by else 0;
    deleted = if ltb 7 k then wire_flag fi.deleted else 0;
    invalid = if ltb 8 k then wire_flag fi.invalid else 0;
    sequence = if ltb 10 k then fi.sequence else pos 0;
    block_size = if ltb 11 k then fi.block_size else pos 0;
    version = if ltb 9 k then fi.version else record { counters = [] };
    blocks = [];
    num_blocks = pos 0;
    content_hash = replicate 32 0;
    has_content_hash = false;
  }

  module _ (C : Type 0) (cb : C → ℕ → BepBlockInfo → Option C) (ctx : C) where
    unfoldable pub at : ℕ → Partial C
    at k = record { info = stage k; count = 0; ctx = ctx }

    version_choice :
        (s : Partial C)
        → file_info_field cb 9 2 s
          ≡ bytes (λ p. stored_info s (with_vector s.info (decode_vector p)))
    unfolding file_info_field
    version_choice s = refl

    decode-names :
        (rest : List ℕ)
        → decode (file_info_field cb) (at 0) (
            bytes_field 1 fi.name
            ++ (when_bytes (not (fi.type == 0)) (uint64_field 2 (fi.type % 2 ^ 32))
                ++ (uint64_field 3 (uint64_of fi.size)
                    ++ (when_bytes (not (fi.permissions == 0)) (uint64_field 4 fi.permissions)
                        ++ rest))))
          ≡ decode (file_info_field cb) (at 4) rest
    unfolding at stage file_info_field
    decode-names rest =
        decode_bytes (file_info_field cb) (at 0) 1 fi.name _ (omega arith)
          (omega (arith, ok.name.fits)) _ (at 1) refl (rw (copy_str_lem 256 fi.name ok.name) refl)
        ∙ decode_when (file_info_field cb) (at 1) (at 2) (not (fi.type == 0))
            (uint64_field 2 (fi.type % 2 ^ 32)) _
            (λ _.
              decode_number_to (file_info_field cb) (at 1) 2 (fi.type % 2 ^ 32) _ (omega arith)
                (omega arith) _ (at 2) refl (rw (twice fi.type ok.type) refl))
            (λ e. rw (sym (is_zero fi.type e)) refl)
        ∙ decode_number_to (file_info_field cb) (at 2) 3 (uint64_of fi.size) _ (omega arith)
            (uint64_of-lt fi.size) _ (at 3) refl (rw (int64_of-uint64_of fi.size ok.size) refl)
        ∙ decode_when (file_info_field cb) (at 3) (at 4) (not (fi.permissions == 0))
            (uint64_field 4 fi.permissions) _
            (λ _.
              decode_number_to (file_info_field cb) (at 3) 4 fi.permissions _ (omega arith)
                (omega (arith, ok.permissions)) _ (at 4) refl
                (rw (same_bits fi.permissions ok.permissions) refl))
            (λ e. rw (sym (is_zero fi.permissions e)) refl)

    decode-times :
        (rest : List ℕ)
        → decode (file_info_field cb) (at 4) (
            uint64_field 5 (uint64_of fi.modified_s)
            ++ (when_bytes (nonzero fi.modified_ns) (uint64_field 11 (uint32_of fi.modified_ns))
                ++ (when_bytes (not (fi.modified_by == 0)) (uint64_field 12 fi.modified_by)
                    ++ rest)))
          ≡ decode (file_info_field cb) (at 7) rest
    unfolding at stage file_info_field
    decode-times rest =
        decode_number_to (file_info_field cb) (at 4) 5 (uint64_of fi.modified_s) _ (omega arith)
          (uint64_of-lt fi.modified_s) _ (at 5) refl
          (rw (int64_of-uint64_of fi.modified_s ok.modified_s) refl)
        ∙ decode_when (file_info_field cb) (at 5) (at 6) (nonzero fi.modified_ns)
            (uint64_field 11 (uint32_of fi.modified_ns)) _
            (λ _.
              decode_number_to (file_info_field cb) (at 5) 11 (uint32_of fi.modified_ns) _
                (omega arith) (uint32_fits fi.modified_ns) _ (at 6) refl
                (rw (int32_of-uint32_of fi.modified_ns ok.modified_ns) refl))
            (λ e. rw (sym (nonzero-false fi.modified_ns e)) refl)
        ∙ decode_when (file_info_field cb) (at 6) (at 7) (not (fi.modified_by == 0))
            (uint64_field 12 fi.modified_by) _
            (λ _.
              decode_number_to (file_info_field cb) (at 6) 12 fi.modified_by _ (omega arith)
                ok.modified_by _ (at 7) refl refl)
            (λ e. rw (sym (is_zero fi.modified_by e)) refl)

    decode-flags :
        (rest : List ℕ)
        → decode (file_info_field cb) (at 7) (
            when_bytes (is_set fi.deleted) (uint64_field 6 1)
            ++ (when_bytes (is_set fi.invalid) (uint64_field 7 1) ++ rest))
          ≡ decode (file_info_field cb) (at 9) rest
    unfolding at stage file_info_field
    decode-flags rest =
        decode_when (file_info_field cb) (at 7) (at 8) (is_set fi.deleted) (uint64_field 6 1) _
          (λ e.
            decode_number_to (file_info_field cb) (at 7) 6 1 _ (omega arith) (omega arith) _ (at 8)
              refl (rw e refl))
          (λ e. rw e refl)
        ∙ decode_when (file_info_field cb) (at 8) (at 9) (is_set fi.invalid) (uint64_field 7 1) _
            (λ e.
              decode_number_to (file_info_field cb) (at 8) 7 1 _ (omega arith) (omega arith) _
                (at 9) refl (rw e refl))
            (λ e. rw e refl)

    version_read : stored_info (at 9) (with_vector (at 9).info (some fi.version)) ≡ some (at 10)
    unfolding at stage
    version_read = refl

    decode-version :
        (rest : List ℕ)
        → decode
            (file_info_field cb)
            (at 9)
            (bytes_field 9 (concat (vector_chunks fi.version.counters)) ++ rest)
          ≡ decode (file_info_field cb) (at 10) rest
    decode-version rest =
        decode_bytes (file_info_field cb) (at 9) 9 (concat (vector_chunks fi.version.counters)) rest
          (omega arith) (omega (arith, length-vector_bytes fi.version ok.version)) _ (at 10)
          (version_choice (at 9))
          (ap (λ v. stored_info (at 9) (with_vector (at 9).info v))
              (decode-vector fi.version ok.version)
            ∙ version_read)

    decode-sizes :
        (rest : List ℕ)
        → decode (file_info_field cb) (at 10) (
            uint64_field 10 (uint64_of fi.sequence)
            ++ (when_bytes (nonzero fi.block_size) (uint64_field 13 (uint32_of fi.block_size))
                ++ rest))
          ≡ decode (file_info_field cb) (at 12) rest
    unfolding at stage file_info_field
    decode-sizes rest =
        decode_number_to (file_info_field cb) (at 10) 10 (uint64_of fi.sequence) _ (omega arith)
          (uint64_of-lt fi.sequence) _ (at 11) refl
          (rw (int64_of-uint64_of fi.sequence ok.sequence) refl)
        ∙ decode_when (file_info_field cb) (at 11) (at 12) (nonzero fi.block_size)
            (uint64_field 13 (uint32_of fi.block_size)) _
            (λ _.
              decode_number_to (file_info_field cb) (at 11) 13 (uint32_of fi.block_size) _
                (omega arith) (uint32_fits fi.block_size) _ (at 12) refl
                (rw (int32_of-uint32_of fi.block_size ok.block_size) refl))
            (λ e. rw (sym (nonzero-false fi.block_size e)) refl)

    -- Reading them all.
    pub decode-info :
        (more : List (List ℕ))
        → decode (file_info_field cb) (at 0) (concat (info_chunks fi ++ more))
          ≡ decode (file_info_field cb) (at 12) (concat more)
    decode-info more =
        decode-names _
        ∙ decode-times _
        ∙ decode-flags _
        ∙ decode-version _
        ∙ decode-sizes (concat more)
