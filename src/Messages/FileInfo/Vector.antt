-- ===== src/Messages/FileInfo/Vector.antt =====
-- On encode_vector and decode_vector, and the size of their scratch buffers.
use mathlib.Core.List.{map, append_assoc, append-nil}
use amisync.Common.{
  ℕ, ◌+◌, ◌*◌, ◌^◌, ◌≤◌, ◌<◌, ◌≡◌, refl, ◌∙◌, some, List, [], ◌∷◌, ◌++◌, arith, length,
  length-append, All, lt→ltb,
}
use amisync.Bep.{BepCounter, BepVector}
use amisync.Pbuf.Fields.{uint64_field, bytes_field}
use amisync.Messages.{decode, bytes}
use amisync.Messages.Steps.{decode_end, decode_number, decode_bytes}
use amisync.Messages.Values.{length-varint, length-uint64, length-uint64_field, length-bytes_field}
use amisync.Messages.Emits.{Emits, Emits-uint64}
use amisync.Messages.Runs.{
  concat, EmitsAll, ◌also◌, no_more, Emits-nested, ◌then_within◌, no_chunks, length-concat,
}
use amisync.Messages.FileInfo.{
  counter_writes, encode_counter, vector_scratch, encode_vector, no_counter, counter_field,
  decode_counter, add_counter, vector_field, decode_vector,
}

pub record IsCounter (c : BepCounter) : Type 0 where
  pub id : c.id < 2 ^ 64
  pub value : c.value < 2 ^ 64

abbrev counter_chunks : BepCounter → List (List ℕ)
counter_chunks c = uint64_field 1 c.id ∷ uint64_field 2 c.value ∷ []

module _ (c : BepCounter) (ok : IsCounter c) where
  length-counter : length (concat (counter_chunks c)) ≤ 22
  length-counter = length-concat (counter_chunks c) (11 ∷ 11 ∷ []) (
      length-uint64_field 1 c.id 10 (omega arith) (length-uint64 c.id)
      then_within length-uint64_field 2 c.value 10 (omega arith) (length-uint64 c.value)
      then_within no_chunks)

  EmitsAll-counter : EmitsAll (counter_writes c) (counter_chunks c)
  EmitsAll-counter =
      Emits-uint64 1 c.id (omega arith) ok.id
      also Emits-uint64 2 c.value (omega arith) ok.value
      also no_more

  Emits-counter : Emits (encode_counter c) (bytes_field 1 (concat (counter_chunks c)))
  unfolding encode_counter
  Emits-counter =
      Emits-nested 1 (counter_writes c) (counter_chunks c) 32 EmitsAll-counter
        (omega (arith, length-counter)) (omega arith) (omega arith)

  decode-counter : decode_counter (concat (counter_chunks c)) ≡ some c
  unfolding decode_counter counter_field
  decode-counter =
      decode_number counter_field no_counter 1 c.id _ (omega arith) ok.id _ refl
      ∙ decode_number counter_field _ 2 c.value _ (omega arith) ok.value _ refl
      ∙ decode_end counter_field _

abbrev pub vector_chunks : List BepCounter → List (List ℕ)
vector_chunks cs = map (λ c. bytes_field 1 (concat (counter_chunks c))) cs

length-vector :
    (cs : List BepCounter) → All IsCounter cs → length (concat (vector_chunks cs)) ≤ 24 * length cs
length-vector [] oks = omega arith
length-vector (c ∷ cs) (ok, oks) = omega (
  arith,
  length-vector cs oks,
  length-counter c ok,
  length-append (bytes_field 1 (concat (counter_chunks c))) (concat (vector_chunks cs)),
  length-bytes_field 1 (concat (counter_chunks c)) 1 (omega arith)
      (length-varint 0 (length (concat (counter_chunks c))) (omega (arith, length-counter c ok))),
)

EmitsAll-vector :
    (cs : List BepCounter) → All IsCounter cs → EmitsAll (map encode_counter cs) (vector_chunks cs)
EmitsAll-vector [] oks = no_more
EmitsAll-vector (c ∷ cs) (ok, oks) = Emits-counter c ok also EmitsAll-vector cs oks

is_counter : (v : BepVector) → vector_field 1 2 v ≡ bytes (add_counter v)
unfolding vector_field
is_counter v = refl

one_more :
    (c : BepCounter) (xs : List BepCounter)
    → IsCounter c
    → length xs < 16
    → add_counter (record { counters = xs }) (concat (counter_chunks c))
      ≡ some (record { counters = xs ++ c ∷ [] })
one_more c xs ok room = rw (lt→ltb (length xs) 16 room, decode-counter c ok) refl

decode-counters :
    (cs : List BepCounter) (xs : List BepCounter)
    → All IsCounter cs
    → length xs + length cs ≤ 16
    → decode vector_field (record { counters = xs }) (concat (vector_chunks cs))
      ≡ some (record { counters = xs ++ cs })
decode-counters [] xs oks room = decode_end vector_field _ ∙ rw append-nil refl
decode-counters (c ∷ cs) xs (ok, oks) room =
    decode_bytes vector_field (record { counters = xs }) 1 (concat (counter_chunks c))
      (concat (vector_chunks cs)) (omega arith) (omega (arith, length-counter c ok))
      (add_counter (record { counters = xs })) (record { counters = xs ++ c ∷ [] })
      (is_counter (record { counters = xs })) (one_more c xs ok (omega arith))
    ∙ decode-counters cs (xs ++ c ∷ []) oks (omega (arith, length-append xs (c ∷ [])))
    ∙ rw append_assoc refl

-- At most as many counters as the array has places, each of two uint64.
pub record IsVector (v : BepVector) : Type 0 where
  pub fits : length v.counters ≤ 16
  pub counters : All IsCounter v.counters

module _ (v : BepVector) (ok : IsVector v) where
  pub length-vector_bytes : length (concat (vector_chunks v.counters)) ≤ 384
  length-vector_bytes = omega (arith, length-vector v.counters ok.counters, ok.fits)

  pub Emits-vector :
      Emits (λ w. encode_vector w v) (bytes_field 9 (concat (vector_chunks v.counters)))
  unfolding encode_vector
  Emits-vector =
      Emits-nested 9 (map encode_counter v.counters) (vector_chunks v.counters) vector_scratch
        (EmitsAll-vector v.counters ok.counters) (omega (arith, length-vector_bytes)) (omega arith)
        (omega arith)

  pub decode-vector : decode_vector (concat (vector_chunks v.counters)) ≡ some v
  unfolding decode_vector
  decode-vector = decode-counters v.counters [] ok.counters (omega (arith, ok.fits))
