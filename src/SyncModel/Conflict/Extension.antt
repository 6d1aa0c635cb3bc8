-- ===== src/SyncModel/Conflict/Extension.antt =====
-- Where the suffix of a conflict copy is put into the name.
use amisync.Common.{
  ℕ, ◌+◌, ◌≡◌, ◌≢◌, refl, sym, ap, ◌∙◌, Bool, true, false, Option, none, some, List, [], ◌∷◌, ◌++◌,
  length, take, drop, All, if◌then◌else◌, leb, ◌==◌, arith, append_assoc, append_nil, length-append,
  take-append, drop-append,
}
use amisync.Common.Int.{ℤ}
use amisync.SyncModel.Conflict.{
  civil_from_unix, suffix_of, last_index, base_of, stem_of, after, stem_at, sync_make_conflict_name,
}

-- A directory with its slash, and an extension with its dot, or neither.
abbrev pub directory : Option (List ℕ) → List ℕ
directory none = []
directory (some d) = d ++ b'/' ∷ []

abbrev pub extension : Option (List ℕ) → List ℕ
extension none = []
extension (some e) = b'.' ∷ e

-- The stem has no slash, the extension neither a slash nor a dot; without an extension the stem has no
-- dot either.
abbrev pub IsFile : List ℕ → Option (List ℕ) → Type 0
IsFile stem none = All (λ c. c ≢ b'/') stem × All (λ c. c ≢ b'.') stem
IsFile stem (some e) = All (λ c. c ≢ b'/') stem × All (λ c. c ≢ b'/') e × All (λ c. c ≢ b'.') e

last_index-none : (c : ℕ) (s : List ℕ) → All (λ x. x ≢ c) s → last_index c s ≡ none
unfolding last_index
last_index-none c [] h = refl
last_index-none c (x ∷ s) (hx, h) =
    let r = last_index-none c s h in let e : (x == c) ≡ false = ground arith in rw (r, e) refl

last_index-append :
    (c : ℕ) (xs ys : List ℕ) → All (λ x. x ≢ c) ys → last_index c (xs ++ c ∷ ys) ≡ some (length xs)
unfolding last_index
last_index-append c [] ys h =
    let r = last_index-none c ys h in let e : (c == c) ≡ true = ground arith in rw (r, e) refl
last_index-append c (x ∷ xs) ys h = let r = last_index-append c xs ys h in rw r refl

All-append : (P : ℕ → Type 0) (xs ys : List ℕ) → All P xs → All P ys → All P (xs ++ ys)
All-append P [] ys h k = k
All-append P (x ∷ xs) ys (hx, h) k = (hx, All-append P xs ys h k)

base_lem :
    (dir : Option (List ℕ)) (s : List ℕ)
    → All (λ c. c ≢ b'/') s
    → base_of (directory dir ++ s) ≡ length (directory dir)
base_lem none s h = ap after (last_index-none b'/' s h)
base_lem (some d) s h =
    ap base_of (append_assoc d (b'/' ∷ []) s)
    ∙ ap after (last_index-append b'/' d s h)
    ∙ sym (length-append d (b'/' ∷ []))

file-IsInner :
    (stem : List ℕ) (ext : Option (List ℕ))
    → IsFile stem ext
    → All (λ c. c ≢ b'/') (stem ++ extension ext)
file-IsInner stem none (h, k) = rw (append_nil stem) h
file-IsInner stem (some e) (h, k, l) =
    All-append (λ c. c ≢ b'/') stem (b'.' ∷ e) h ((λ q. omega arith), k)

-- The last dot of a file's name.
dot_lem :
    (base : ℕ) (stem : List ℕ) (ext : Option (List ℕ))
    → IsFile stem ext
    → stem_at base (base + length (stem ++ extension ext)) (last_index b'.' (stem ++ extension ext))
      ≡ base + length stem
dot_lem base stem none (h, k) =
    rw (append_nil stem) (ap (stem_at base (base + length stem)) (last_index-none b'.' stem k))
dot_lem base stem (some e) (h, k, l) =
    ap (stem_at base (base + length (stem ++ b'.' ∷ e))) (last_index-append b'.' stem e l)

stem_lem :
    (dir : Option (List ℕ)) (stem : List ℕ) (ext : Option (List ℕ))
    → IsFile stem ext
    → stem_of (directory dir ++ (stem ++ extension ext)) ≡ length (directory dir ++ stem)
stem_lem dir stem ext f =
    let p = directory dir in
    let r = stem ++ extension ext in
    let d = drop-append p r (length p) refl in
    ap (λ (b : ℕ). stem_at b (length (p ++ r)) (last_index b'.' (drop b (p ++ r))))
      (base_lem dir r (file-IsInner stem ext f))
    ∙ ap (λ (s : List ℕ). stem_at (length p) (length (p ++ r)) (last_index b'.' s)) d
    ∙ ap (λ (n : ℕ). stem_at (length p) n (last_index b'.' r)) (length-append p r)
    ∙ dot_lem (length p) stem ext f
    ∙ sym (length-append p stem)

-- For a name that is a directory or none, then a stem without slashes, then an extension without
-- slashes or further dots or none (in which case the stem has no dot), the suffix is put between the
-- stem and the extension, in the same directory; the name is refused exactly when the result and its
-- NUL would not fit.
pub sync_make_conflict_name_lem :
    (size : ℕ) (dir : Option (List ℕ)) (stem : List ℕ) (ext : Option (List ℕ)) (now_s : ℤ)
    (tag : List ℕ) (compact : Bool)
    → IsFile stem ext
    → sync_make_conflict_name size (directory dir ++ (stem ++ extension ext)) now_s tag compact ≡ (
        if leb size (
          length (directory dir ++ (stem ++ extension ext))
          + length (suffix_of (civil_from_unix now_s) tag compact))
        then none
        else some (
            (directory dir ++ stem)
            ++ (suffix_of (civil_from_unix now_s) tag compact ++ extension ext)))
unfolding sync_make_conflict_name
sync_make_conflict_name_lem size dir stem ext now_s tag compact f =
    let front = directory dir ++ stem in
    let e = extension ext in
    let suffix = suffix_of (civil_from_unix now_s) tag compact in
    let whole = append_assoc (directory dir) stem e in
    let n = stem_lem dir stem ext f in
    let t : take (length front) (front ++ e) ≡ front = take-append front e (length front) refl in
    let d : drop (length front) (front ++ e) ≡ e = drop-append front e (length front) refl in
    let name = directory dir ++ (stem ++ e) in
    let full = leb size (length name + length suffix) in
    ap (λ (k : ℕ). if full then none else some (take k name ++ (suffix ++ drop k name))) n
    ∙ ap
        (λ (s : List ℕ).
          if full then none else some (take (length front) s ++ (suffix ++ drop (length front) s)))
        (sym whole)
    ∙ ap
        (λ (s : List ℕ).
          if full then none else some (s ++ (suffix ++ drop (length front) (front ++ e))))
        t
    ∙ ap (λ (s : List ℕ). if full then none else some (front ++ (suffix ++ s))) d
