-- ===== src/Messages/Frames/Layout.antt =====
-- The numbers in a frame, the frame as a whole, and the growth of a buffer.
use mathlib.Core.List.{append_assoc}
use amisync.Common.{
  ℕ, ◌^◌, ◌≤◌, ◌<◌, ◌≡◌, refl, Bool, true, false, some, List, ◌++◌, arith, length, if◌then◌else◌,
  ltb, leb, inl, inr, Bool-cases,
}
use amisync.Messages.Frames.{put_be16, put_be32, get_be16, get_be32, bep_msg_max, grow_buf, grown}

pub get_be16-put_be16 : (v : ℕ) → v < 2 ^ 16 → get_be16 (put_be16 v) ≡ v
get_be16-put_be16 v h = omega arith

pub get_be32-put_be32 : (v : ℕ) (rest : List ℕ) → v < 2 ^ 32 → get_be32 (put_be32 v ++ rest) ≡ v
get_be32-put_be32 v rest h = omega arith

-- The frame of a body under a header, with the body.
abbrev pub frame_of : List ℕ → List ℕ → List ℕ
frame_of h body = put_be16 (length h) ++ (h ++ (put_be32 (length body) ++ body))

pub frame_assoc :
    (h body : List ℕ) → put_be16 (length h) ++ h ++ put_be32 (length body) ++ body ≡ frame_of h body
frame_assoc h body = rw (append_assoc, append_assoc) refl

pub frame_rest :
    (h body rest : List ℕ)
    → frame_of h body ++ rest
      ≡ put_be16 (length h) ++ (h ++ (put_be32 (length body) ++ (body ++ rest)))
frame_rest h body rest = rw (append_assoc, append_assoc) refl

-- A buffer can grow to whatever size a message may have.
pub grow_buf-some :
    (alloc : ℕ → Bool) (cap need : ℕ)
    → ((n : ℕ) → alloc n ≡ true)
    → need ≤ bep_msg_max
    → (cap' : ℕ) × (grow_buf alloc cap need ≡ some cap')
unfolding grow_buf
grow_buf-some alloc cap need always h = elim (Bool-cases (leb need cap)) [
  | inl e ↦ (cap, rw e refl)
  | inr e ↦
      let small : ltb bep_msg_max need ≡ false = ground arith in
      (
        if ltb bep_msg_max (grown need cap need) then bep_msg_max else grown need cap need,
        rw
            (
              e,
              small,
              always (
                  if ltb bep_msg_max (grown need cap need)
                  then bep_msg_max
                  else grown need cap need),
            )
            refl,
      )
]
