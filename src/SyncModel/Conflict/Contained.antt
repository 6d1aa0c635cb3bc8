-- ===== src/SyncModel/Conflict/Contained.antt =====
-- The name of a conflict copy of a safe name is safe.
use amisync.Common.{
  ℕ, zero, suc, ◌+◌, ◌-◌, ◌%◌, ◌/◌, ◌≤◌, ◌<◌, ◌≡◌, ◌≢◌, inl, inr, sym, ap, ◌∙◌, Bool, true, false,
  none, some, List, [], ◌∷◌, ◌++◌, length, take, drop, replicate, All, if◌then◌else◌, ltb, leb,
  ◌==◌, arith, Bool-cases, append_nil, append_assoc, take_append_drop, length-append,
}
use native.Mathlib.Decide.{dec_lt}
use amisync.Common.Int.{ℤ, pos, negsuc}
use amisync.PathSafe.{path_name_safe}
use amisync.PathSafe.Components.{split_from, components, IsSafe, IsPlain, path_name_safe_iff}
use amisync.SyncModel.Conflict.{
  Civil, civil_from_unix, digits, padded, padded_int, cnfl, sync_conflict, suffix_of, stem_of,
  sync_make_conflict_name,
}

-- A character that may stand inside a component.
abbrev pub IsNameChar : ℕ → Type 0
IsNameChar c = (c ≢ b'/') × IsPlain c

abbrev IsInfix : List ℕ → Type 0
IsInfix x = All IsNameChar x × (3 ≤ length x)

module _ (P : ℕ → Type 0) where
  All-append : (xs ys : List ℕ) → All P xs → All P ys → All P (xs ++ ys)
  All-append [] ys h k = k
  All-append (x ∷ xs) ys (hx, h) k = (hx, All-append xs ys h k)

  All-before : (xs ys : List ℕ) → All P (xs ++ ys) → All P xs
  All-before [] ys h = tt
  All-before (x ∷ xs) ys (hx, h) = (hx, All-before xs ys h)

  All-after : (xs ys : List ℕ) → All P (xs ++ ys) → All P ys
  All-after [] ys h = h
  All-after (x ∷ xs) ys (hx, h) = All-after xs ys h

  All-take : (n : ℕ) (xs : List ℕ) → All P xs → All P (take n xs)
  All-take zero xs h = tt
  All-take (suc n) [] h = tt
  All-take (suc n) (x ∷ xs) (hx, h) = (hx, All-take n xs h)

IsPlain-All : (x : List ℕ) → All IsNameChar x → All IsPlain x
IsPlain-All [] h = tt
IsPlain-All (c ∷ x) (hc, h) = (hc.1, IsPlain-All x h)

long_ne : (s t : List ℕ) → length t < length s → s ≢ t
long_ne s t h e = let l = ap length e in omega (arith, l)

-- The component that the text goes into gets longer and stays plain.
widened-IsSafe : (front x h : List ℕ) → IsInfix x → IsSafe (front ++ h) → IsSafe ((front ++ x) ++ h)
widened-IsSafe front x h (plain, len) (a, b, d, all) =
    let l1 = length-append (front ++ x) h in
    let l2 = length-append front x in
    (
      long_ne ((front ++ x) ++ h) [] (omega arith),
      long_ne ((front ++ x) ++ h) (b'.' ∷ []) (omega arith),
      long_ne ((front ++ x) ++ h) (b'.' ∷ b'.' ∷ []) (omega arith),
      All-append IsPlain (front ++ x) h
          (All-append IsPlain front x (All-before IsPlain front h all) (IsPlain-All x plain))
          (All-after IsPlain front h all),
    )

-- What stands before the first slash, and the components after it.
split_head :
    (q : List ℕ)
    → (h : List ℕ) × (t : List (List ℕ)) × ((front : List ℕ)
        → split_from front q ≡ (front ++ h) ∷ t)
split_head [] = ([], [], λ front. ap (λ (s : List ℕ). s ∷ []) (sym (append_nil front)))
split_head (c ∷ q) = elim (Bool-cases (c == b'/')) [
  | inl e ↦ (
    [],
    split_from [] q,
    λ front. rw e (ap (λ (s : List ℕ). s ∷ split_from [] q) (sym (append_nil front))),
  )
  | inr e ↦
      let (h, t, k) = split_head q in
      (
        c ∷ h,
        t,
        λ front.
            rw e (k (front ++ c ∷ []) ∙ ap (λ (s : List ℕ). s ∷ t) (append_assoc front (c ∷ []) h)),
      )
]

split_name_chars :
    (front x q : List ℕ) → All IsNameChar x → split_from front (x ++ q) ≡ split_from (front ++ x) q
split_name_chars front [] q h = ap (λ (s : List ℕ). split_from s q) (sym (append_nil front))
split_name_chars front (c ∷ x) q (hc, h) =
    let e : (c == b'/') ≡ false = ground arith in
    rw e (
      split_name_chars (front ++ c ∷ []) x q h
      ∙ ap (λ (s : List ℕ). split_from s q) (append_assoc front (c ∷ []) x))

-- Text put anywhere into a safe name leaves it safe, if it is long enough and keeps to characters that
-- may stand in a component.
inserted-IsSafe :
    (front p x q : List ℕ)
    → IsInfix x
    → All IsSafe (split_from front (p ++ q))
    → All IsSafe (split_from front (p ++ (x ++ q)))
inserted-IsSafe front [] x q i safe =
    let (h, t, k) = split_head q in
    let e = split_name_chars front x q i.0 ∙ k (front ++ x) in
    let k0 = k front in
    let both : All IsSafe ((front ++ h) ∷ t) = rw k0 at safe in
    rw e (widened-IsSafe front x h i both.0, both.1)
inserted-IsSafe front (c ∷ p) x q i safe = elim (Bool-cases (c == b'/')) [
  | inl e ↦
      let both : All IsSafe (front ∷ split_from [] (p ++ q)) = rw e at safe in
      rw e (both.0, inserted-IsSafe [] p x q i both.1)
  | inr e ↦ rw e (inserted-IsSafe (front ++ c ∷ []) p x q i (rw e at safe))
]

digit-IsNameChar : (d : ℕ) → d < 10 → IsNameChar (b'0' + d)
digit-IsNameChar d h = ((λ e. omega arith), ((λ e. omega arith), (λ e. omega arith)))

digits-All : (fuel n : ℕ) → All IsNameChar (digits fuel n)
unfolding digits
digits-All zero n = tt
digits-All (suc fuel) n = elim (dec_lt n 10) [
  | yes h ↦ let e : ltb n 10 ≡ true = ground arith in rw e (digit-IsNameChar n h, tt)
  | no h ↦
      let e : ltb n 10 ≡ false = ground arith in
      rw e (
        All-append IsNameChar (digits fuel (n / 10)) ((b'0' + n % 10) ∷ [])
          (digits-All fuel (n / 10)) (digit-IsNameChar (n % 10) (omega arith), tt))
]

replicate-All : (n c : ℕ) → IsNameChar c → All IsNameChar (replicate n c)
replicate-All zero c h = tt
replicate-All (suc n) c h = (h, replicate-All n c h)

padded-All : (w n : ℕ) → All IsNameChar (padded w n)
padded-All w n =
    All-append IsNameChar (replicate (w - length (digits 10 n)) b'0') (digits 10 n)
      (replicate-All (w - length (digits 10 n)) b'0' (digit-IsNameChar 0 (omega arith)))
      (digits-All 10 n)

with_padded : (w n : ℕ) (rest : List ℕ) → All IsNameChar rest → All IsNameChar (padded w n ++ rest)
with_padded w n rest h = All-append IsNameChar (padded w n) rest (padded-All w n) h

with_year : (y : ℤ) (rest : List ℕ) → All IsNameChar rest → All IsNameChar (padded_int 4 y ++ rest)
with_year (pos n) rest h = with_padded 4 n rest h
with_year (negsuc n) rest h = (ground arith, with_padded 3 (suc n) rest h)

cnfl-All : All IsNameChar cnfl
cnfl-All = ground arith

sync_conflict-All : All IsNameChar sync_conflict
sync_conflict-All = ground arith

cnfl-long : (rest : List ℕ) → 3 ≤ length (cnfl ++ rest)
cnfl-long rest = omega arith

sync_conflict-long : (rest : List ℕ) → 3 ≤ length (sync_conflict ++ rest)
sync_conflict-long rest = omega arith

suffix_of-IsInfix :
    (c : Civil) (tag : List ℕ) (compact : Bool)
    → All IsNameChar tag
    → IsInfix (suffix_of c tag compact)
suffix_of-IsInfix c tag true h =
    let tail = with_padded 2 c.h _ (with_padded 2 c.mi (padded 2 c.s) (padded-All 2 c.s)) in
    (All-append IsNameChar cnfl _ cnfl-All tail, cnfl-long _)
suffix_of-IsInfix c tag false h =
    let dash : IsNameChar b'-' = ground arith in
    let tagged : All IsNameChar (b'-' ∷ take 7 tag) = (dash, All-take IsNameChar 7 tag h) in
    let time = with_padded 2 c.h _ (with_padded 2 c.mi _ (with_padded 2 c.s _ tagged)) in
    let date = with_year c.y _ (with_padded 2 c.mo _ (with_padded 2 c.d _ (dash, time))) in
    (All-append IsNameChar sync_conflict _ sync_conflict-All date, sync_conflict-long _)

written : (full : Bool) (x out : List ℕ) → (if full then none else some x) ≡ some out → out ≡ x
written true x out h = absurd (cc)
written false x out h = sym (cc)

-- The name under which the losing copy of a safe name is kept is safe, at any time, in either form, if
-- the tag has no slash, colon or backslash.
pub sync_make_conflict_name-path_name_safe :
    (size : ℕ) (name : List ℕ) (now_s : ℤ) (tag : List ℕ) (compact : Bool) (out : List ℕ)
    → path_name_safe (some name) ≡ true
    → All IsNameChar tag
    → sync_make_conflict_name size name now_s tag compact ≡ some out
    → path_name_safe (some out) ≡ true
unfolding sync_make_conflict_name
sync_make_conflict_name-path_name_safe size name now_s tag compact out safe h e =
    let stem = stem_of name in
    let suffix = suffix_of (civil_from_unix now_s) tag compact in
    let l : out ≡ take stem name ++ (suffix ++ drop stem name) =
      written (leb size (length name + length suffix)) _ out e in
    let whole = take_append_drop stem name in
    let parts = (path_name_safe_iff name).0.0 safe in
    let parts2 : All IsSafe (components (take stem name ++ drop stem name)) = rw whole parts in
    (path_name_safe_iff out).0.1 (
      rw l (
        inserted-IsSafe [] (take stem name) suffix (drop stem name)
          (suffix_of-IsInfix (civil_from_unix now_s) tag compact h) parts2))
