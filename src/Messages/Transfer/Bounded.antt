-- ===== src/Messages/Transfer/Bounded.antt =====
-- What a peer's bytes can make of a request.
use amisync.Common.{ℕ, ◌≡◌, refl, ◌&&◌, List, length, ◌==◌, ==_iff, inl, inr, Bool-cases, arith}
use amisync.Pbuf.{wt_varint, wt_len}
use amisync.Messages.{unknown}
use amisync.Messages.Keeps.{OfResult, OfField, OfField-if, decode-OfResult}
use amisync.Messages.Values.{IsText, copy_str-IsText}
use amisync.Messages.Transfer.{BepRequest, no_request, with_hash, request_field, bep_decode_request}

-- The strings end inside their buffers, and the hash fills its array.
pub record IsBounded (rq : BepRequest) : Type 0 where
  pub folder : IsText 64 rq.folder
  pub name : IsText 256 rq.name
  pub hash : length rq.hash ≡ 32

with_hash-IsBounded : (rq : BepRequest) (p : List ℕ) → IsBounded rq → IsBounded (with_hash rq p)
with_hash-IsBounded rq p b = elim (Bool-cases (length p == 32)) [
  | inl e ↦ rw e (record { folder = b.folder; name = b.name; hash = (==_iff (length p) 32).0 e })
  | inr e ↦ rw e (record { folder = b.folder; name = b.name; hash = b.hash })
]

-- A copy with other numbers and flags.
same_texts :
    (rq other : BepRequest)
    → IsBounded rq
    → other.folder ≡ rq.folder
    → other.name ≡ rq.name
    → other.hash ≡ rq.hash
    → IsBounded other
same_texts rq other b f n h = record {
  folder = rw f b.folder;
  name = rw n b.name;
  hash = rw h b.hash;
}

request_field-IsBounded :
    (field wt : ℕ) (rq : BepRequest) → IsBounded rq → OfField IsBounded (request_field field wt rq)
unfolding request_field
request_field-IsBounded field wt rq b =
    OfField-if IsBounded ((field == 1) && (wt == wt_varint)) _ _
      (λ v. same_texts rq _ b refl refl refl)
      (OfField-if IsBounded ((field == 2) && (wt == wt_len)) _ _
        (λ p. record { folder = copy_str-IsText 64 p (omega arith); name = b.name; hash = b.hash })
        (OfField-if IsBounded ((field == 3) && (wt == wt_len)) _ _
          (λ p. record {
            folder = b.folder;
            name = copy_str-IsText 256 p (omega arith);
            hash = b.hash;
          })
          (OfField-if IsBounded ((field == 4) && (wt == wt_varint)) _ _
            (λ v. same_texts rq _ b refl refl refl)
            (OfField-if IsBounded ((field == 5) && (wt == wt_varint)) _ _
              (λ v. same_texts rq _ b refl refl refl)
              (OfField-if IsBounded ((field == 6) && (wt == wt_len)) _ _
                (λ p. with_hash-IsBounded rq p b)
                (OfField-if IsBounded ((field == 7) && (wt == wt_varint)) _ _
                  (λ v. same_texts rq _ b refl refl refl)
                  (OfField-if IsBounded ((field == 9) && (wt == wt_varint)) _ unknown
                    (λ v. same_texts rq _ b refl refl refl) tt)))))))

no_request-IsBounded : IsBounded no_request
no_request-IsBounded = record {
  folder = record { fits = omega arith; no_nul = tt };
  name = record { fits = omega arith; no_nul = tt };
  hash = refl;
}

-- Whatever bytes a peer sends, a request that the decoder makes of them has a folder id and a name
-- that end inside their buffers of 64 and 256 bytes, with no NUL before their end, and a hash of 32
-- bytes.
pub bep_decode_request-IsBounded : (buf : List ℕ) → OfResult IsBounded (bep_decode_request buf)
unfolding bep_decode_request
bep_decode_request-IsBounded buf =
    decode-OfResult IsBounded request_field request_field-IsBounded no_request buf
      no_request-IsBounded
