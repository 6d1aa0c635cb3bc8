-- ===== src/PathSafe/Local/Contained.antt =====
-- The mapping to Latin-1 and path_name_safe: a safe name stays safe.
use amisync.Common.{
  ℕ, zero, suc, ◌-◌, ◌≤◌, ◌<◌, ◌≡◌, ◌≢◌, inl, inr, refl, sym, ap, ap₂, ◌∙◌, Bool, true, false, some,
  List, [], ◌∷◌, All, if◌then◌else◌, ltb, ◌==◌, arith, Bool-cases,
}
use native.Mathlib.Decide.{dec_lt}
use amisync.PathSafe.{path_name_safe}
use amisync.PathSafe.Local.{utf8_seq, utf8_class, class_loop, name_to_local}
use amisync.PathSafe.Local.Encoder.{encode_1}
use amisync.PathSafe.Local.Utf8.{utf8_seq-Encodes}
use amisync.PathSafe.Local.Copied.{
  copy_loop_whole, joined, local_form, decode, decode_step, decode-none, decode_skip, class_step,
  class_none, seq-or-none,
}
use amisync.PathSafe.Local.Joined.{to_local_loop_lem}
use amisync.PathSafe.Local.Split.{IsInner, mapped, split_components, split-IsInner}
use amisync.PathSafe.Components.{components, IsSafe, IsPlain, path_name_safe_iff}

abbrev head_or : ℕ → List ℕ → ℕ
head_or d [] = d
head_or d (x ∷ xs) = x

-- Only an ASCII byte stands for an ASCII character.
seq_ascii :
    (b n cp : ℕ) (p : List ℕ) → utf8_seq (b ∷ p) ≡ some (n, cp) → cp < 0x80 → (n ≡ 1) × (cp ≡ b)
seq_ascii b n cp p e h =
    let (sc, en, (rest, ep)) = utf8_seq-Encodes (b ∷ p) n cp e in
    let u = encode_1 cp h in
    let q : b ∷ p ≡ cp ∷ rest = rw u at ep in
    let m : n ≡ 1 = rw u at en in (m, sym (ap (head_or 0) q))

module _ (P : ℕ → Type 0) (high : (b : ℕ) → 0x80 ≤ b → P b) where
  decode-All : (skip : ℕ) (p : List ℕ) → All P p → All P (decode skip p)
  decode-All skip [] h = unfold decode in tt
  decode-All (suc skip) (b ∷ p) (hb, h) = let d = decode_skip skip b p in rw d (decode-All skip p h)
  decode-All zero (b ∷ p) (hb, h) = elim (seq-or-none (b ∷ p)) [
    | inl e ↦ let d = decode-none b p e in rw d tt
    | inr (n, cp, e) ↦
        let d = decode_step b n cp p e in
        rw d (
          elim (dec_lt cp 0x80) [
            | yes l ↦ let (m, same) = seq_ascii b n cp p e l in rw same hb
            | no l ↦ high cp (omega arith)
          ],
          decode-All (n - 1) p h,
        )
  ]

decode_ascii :
    (wide : Bool) (s : List ℕ)
    → class_loop 0 wide s ≢ 0
    → All (λ c. c < 0x80) (decode 0 s)
    → decode 0 s ≡ s
decode_ascii wide [] c h = unfold decode in refl
decode_ascii wide (b ∷ p) c h = elim (seq-or-none (b ∷ p)) [
  | inl e ↦ absurd (c (class_none wide b p e))
  | inr (n, cp, e) ↦
      let d = decode_step b n cp p e in
      let both : All (λ x. x < 0x80) (cp ∷ decode (n - 1) p) = rw d at h in
      let (m, same) = seq_ascii b n cp p e both.0 in
      let wider = if ltb 0xFF cp then true else wide in
      let k = class_step wide b n cp p e in
      let z : n - 1 ≡ 0 = omega arith in
      let ck : class_loop 0 wider p ≢ 0 = rw (k, z) at c in
      let rest : All (λ x. x < 0x80) (decode 0 p) = rw z at both.1 in
      d ∙ rw z (ap₂ ◌∷◌ same (decode_ascii wider p ck rest))
]

decode_empty :
    (s t : List ℕ) → class_loop 0 false s ≢ 0 → All (λ c. c < 0x80) t → decode 0 s ≡ t → s ≡ t
decode_empty s t c h e = sym (decode_ascii false s c (rw e h)) ∙ e

valid : (s : List ℕ) → utf8_class s ≡ 1 → class_loop 0 false s ≢ 0
unfolding utf8_class
valid s e k = omega arith

-- A component keeps what makes it safe.
local_form-IsSafe : (s : List ℕ) → IsSafe s → IsSafe (local_form s)
local_form-IsSafe s (a, b, d, plain) = elim (Bool-cases (utf8_class s == 1)) [
  | inr e ↦ rw e (a, b, d, plain)
  | inl e ↦
      let c = valid s (ground arith) in
      rw e (
        (λ k. a (decode_empty s [] c tt k)),
        (λ k. b (decode_empty s (b'.' ∷ []) c (omega arith, tt) k)),
        (λ k. d (decode_empty s (b'.' ∷ b'.' ∷ []) c (omega arith, (omega arith, tt)) k)),
        decode-All IsPlain (λ x h. ((λ k. omega arith), (λ k. omega arith))) 0 s plain,
      )
]

local_form-IsInner : (s : List ℕ) → All IsInner s → All IsInner (local_form s)
local_form-IsInner s h = elim (Bool-cases (utf8_class s == 1)) [
  | inr e ↦ rw e h
  | inl e ↦ rw e (decode-All IsInner (λ x k. λ q. omega arith) 0 s h)
]

IsInner-All : (cs : List (List ℕ)) → All (All IsInner) cs → All (λ s. All IsInner (local_form s)) cs
IsInner-All [] h = tt
IsInner-All (s ∷ cs) (hs, h) = (local_form-IsInner s hs, IsInner-All cs h)

IsSafe-All : (cs : List (List ℕ)) → All IsSafe cs → All IsSafe (mapped local_form cs)
IsSafe-All [] h = tt
IsSafe-All (s ∷ cs) (hs, h) = (local_form-IsSafe s hs, IsSafe-All cs h)

-- Where a safe name of a peer is mapped to a name on disk, that name is safe as well: the code points
-- that the mapping writes make no new slash, colon or backslash, and no component "." or "..".
pub name_to_local-path_name_safe :
    (name local : List ℕ) (size : ℕ)
    → path_name_safe (some name) ≡ true
    → name_to_local size name ≡ some local
    → path_name_safe (some local) ≡ true
unfolding name_to_local
name_to_local-path_name_safe name local size safe e =
    let l =
      copy_loop_whole size [] (joined local_form (components name)) local
        (sym (to_local_loop_lem size [] [] name) ∙ e) in
    let cs =
      split_components local_form name (IsInner-All (components name) (split-IsInner [] name tt)) in
    let parts : components local ≡ mapped local_form (components name) = ap components l ∙ cs in
    let good = IsSafe-All (components name) ((path_name_safe_iff name).0.0 safe) in
    (path_name_safe_iff local).0.1 (rw parts good)
