-- ===== src/PathSafe/Components.antt =====
-- The accepted names and texts, described by their components and bytes.
use amisync.Common.{
  ℕ, ◌≤◌, ◌≡◌, refl, ap, ◌≢◌, ◌↔◌, inl, inr, true, false, none, some, List, [], ◌∷◌, ◌++◌, arith,
  length, All, if◌then◌else◌, ◌==◌, bytes_eq, bytes_eq_iff, Bool-cases,
}
use amisync.PathSafe.{component_ok, scan_name, path_name_safe, scan_text, text_field_safe}

-- The components of a name: what stands between the slashes. `front` is the start of the first.
abbrev pub split_from : List ℕ → List ℕ → List (List ℕ)
split_from front [] = front ∷ []
split_from front (c ∷ p) =
    let next = split_from [] p in
    let more = split_from (front ++ c ∷ []) p in if c == b'/' then front ∷ next else more

abbrev pub components : List ℕ → List (List ℕ)
components name = split_from [] name

-- Neither a volume separator nor a backslash.
abbrev pub IsPlain : ℕ → Type 0
IsPlain c = (c ≢ b':') × (c ≢ b'\\')

-- A component that names an entry of the directory that it is looked up in.
abbrev pub IsSafe : List ℕ → Type 0
IsSafe seg = (seg ≢ []) × (seg ≢ b'.' ∷ []) × (seg ≢ b'.' ∷ b'.' ∷ []) × All IsPlain seg

length_zero : (seg : List ℕ) → length seg ≡ 0 → seg ≡ []
length_zero [] h = refl
length_zero (c ∷ seg) h = absurd (omega arith)

abbrev Allowed : List ℕ → Type 0
Allowed seg = (seg ≢ []) × (seg ≢ b'.' ∷ []) × (seg ≢ b'.' ∷ b'.' ∷ [])

component_ok→Allowed : (seg : List ℕ) → component_ok seg ≡ true → Allowed seg
unfolding component_ok bytes_eq
component_ok→Allowed seg h = (
  (λ e. cc (h, ap component_ok e)),
  (λ e. cc (h, ap component_ok e)),
  (λ e. cc (h, ap component_ok e)),
)

Allowed→component_ok : (seg : List ℕ) → Allowed seg → component_ok seg ≡ true
unfolding component_ok
Allowed→component_ok seg h =
    ground
      (arith, length_zero seg, bytes_eq_iff seg (b'.' ∷ []), bytes_eq_iff seg (b'.' ∷ b'.' ∷ []))

All-snoc : (seg : List ℕ) (c : ℕ) → All IsPlain seg → IsPlain c → All IsPlain (seg ++ c ∷ [])
All-snoc [] c h k = (k, tt)
All-snoc (x ∷ seg) c h k = (h.0, All-snoc seg c h.1 k)

-- What an accepted byte shows, in the two branches of the loop.
slash_step :
    (seg : List ℕ) (c : ℕ) (p : List ℕ)
    → (c == b'/') ≡ true
    → scan_name seg (c ∷ p) ≡ true
    → (component_ok seg ≡ true) × (scan_name [] p ≡ true)
unfolding scan_name
slash_step seg c p e h = ground arith

IsPlain-step :
    (seg : List ℕ) (c : ℕ) (p : List ℕ)
    → (c == b'/') ≡ false
    → scan_name seg (c ∷ p) ≡ true
    → IsPlain c × (scan_name (seg ++ c ∷ []) p ≡ true)
unfolding scan_name
IsPlain-step seg c p e h = ((ground arith, ground arith), ground arith)

scan_name→All :
    (seg p : List ℕ) → All IsPlain seg → scan_name seg p ≡ true → All IsSafe (split_from seg p)
scan_name→All seg [] plain h =
    let a : Allowed seg = component_ok→Allowed seg (unfold scan_name in h) in
    ((a.0, a.1, a.2, plain), tt)
scan_name→All seg (c ∷ p) plain h = elim (Bool-cases (c == b'/')) [
  | inl e ↦
      let (ok, next) = slash_step seg c p e h in
      let a : Allowed seg = component_ok→Allowed seg ok in
      rw e ((a.0, a.1, a.2, plain), scan_name→All [] p tt next)
  | inr e ↦
      let (k, more) = IsPlain-step seg c p e h in
      rw e (scan_name→All (seg ++ c ∷ []) p (All-snoc seg c plain k) more)
]

All-init : (seg : List ℕ) (c : ℕ) → All IsPlain (seg ++ c ∷ []) → All IsPlain seg
All-init [] c h = tt
All-init (x ∷ seg) c h = (h.0, All-init seg c h.1)

All-last : (seg : List ℕ) (c : ℕ) → All IsPlain (seg ++ c ∷ []) → IsPlain c
All-last [] c h = h.0
All-last (x ∷ seg) c h = All-last seg c h.1

-- The bytes of a component are plain, so each is where a component of the whole is safe.
first-IsPlain : (seg p : List ℕ) → All IsSafe (split_from seg p) → All IsPlain seg
first-IsPlain seg [] h = h.0.3
first-IsPlain seg (c ∷ p) h = elim (Bool-cases (c == b'/')) [
  | inl e ↦ let k : All IsSafe (seg ∷ split_from [] p) = rw e at h in k.0.3
  | inr e ↦ All-init seg c (first-IsPlain (seg ++ c ∷ []) p (rw e at h))
]

slash_back :
    (seg : List ℕ) (c : ℕ) (p : List ℕ)
    → (c == b'/') ≡ true
    → component_ok seg ≡ true
    → scan_name [] p ≡ true
    → scan_name seg (c ∷ p) ≡ true
unfolding scan_name
slash_back seg c p e ok next = ground arith

plain_back :
    (seg : List ℕ) (c : ℕ) (p : List ℕ)
    → (c == b'/') ≡ false
    → IsPlain c
    → scan_name (seg ++ c ∷ []) p ≡ true
    → scan_name seg (c ∷ p) ≡ true
unfolding scan_name
plain_back seg c p e (k, l) more = ground arith

All→scan_name : (seg p : List ℕ) → All IsSafe (split_from seg p) → scan_name seg p ≡ true
unfolding scan_name
All→scan_name seg [] h = Allowed→component_ok seg (h.0.0, h.0.1, h.0.2)
All→scan_name seg (c ∷ p) h = elim (Bool-cases (c == b'/')) [
  | inl e ↦
      let k : All IsSafe (seg ∷ split_from [] p) = rw e at h in
      slash_back seg c p e (Allowed→component_ok seg (k.0.0, k.0.1, k.0.2)) (All→scan_name [] p k.1)
  | inr e ↦
      let k : All IsSafe (split_from (seg ++ c ∷ []) p) = rw e at h in
      plain_back seg c p e (All-last seg c (first-IsPlain (seg ++ c ∷ []) p k))
        (All→scan_name (seg ++ c ∷ []) p k)
]

-- The tests in front of the loop refuse nothing that the loop would accept.
path_name_safe-scan_name : (name : List ℕ) → path_name_safe (some name) ≡ scan_name [] name
unfolding path_name_safe
path_name_safe-scan_name [] = refl
path_name_safe-scan_name (c ∷ p) = ground arith

-- A name is accepted exactly when every component between its slashes is non-empty, is neither "."
-- nor "..", and holds neither ':' nor '\'. NULL is refused.
pub path_name_safe_iff :
    (name : List ℕ)
    → ((path_name_safe (some name) ≡ true) ↔ All IsSafe (components name))
      × (path_name_safe none ≡ false)
unfolding path_name_safe
path_name_safe_iff name =
    rw path_name_safe-scan_name ((scan_name→All [] name tt, All→scan_name [] name), refl)

-- A byte that cannot end a configuration line, hide part of it, or unbalance its quotes.
abbrev pub IsText : ℕ → Type 0
IsText c = (0x20 ≤ c) × (c ≢ 0x7f) × (c ≢ 0x22)

scan_text→All : (s : List ℕ) → scan_text s ≡ true → All IsText s
unfolding scan_text
scan_text→All [] h = tt
scan_text→All (c ∷ s) h =
    ((ground arith, ground arith, ground arith), scan_text→All s (ground arith))

All→scan_text : (s : List ℕ) → All IsText s → scan_text s ≡ true
unfolding scan_text
All→scan_text [] h = refl
All→scan_text (c ∷ s) ((a, b, d), h) = ground (arith, All→scan_text s h)

-- A text is accepted for a configuration line exactly when none of its bytes is a control
-- character (a newline among them), DEL or a double quote; NULL is refused.
pub text_field_safe_iff :
    (s : List ℕ)
    → ((text_field_safe (some s) ≡ true) ↔ All IsText s) × (text_field_safe none ≡ false)
unfolding text_field_safe
text_field_safe_iff s = ((scan_text→All s, All→scan_text s), refl)
