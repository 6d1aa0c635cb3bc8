-- ===== src/Ignore/Parsed.antt =====
-- What reading a text does to a set of patterns.
use amisync.Common.{
  ℕ, ◌≤◌, ◌<◌, ◌≡◌, ◌≢◌, inl, inr, refl, sym, ap, ◌∙◌, Bool, true, false, ◌||◌, Option, none, some,
  List, [], ◌∷◌, ◌++◌, length, drop, All, arith, if◌then◌else◌, leb, ◌==◌, Bool-cases, append_assoc,
  append_nil, length-append,
}
use amisync.Ignore.{
  IgnorePattern, IgnoreSet, has_byte, add_pattern, pattern_line, directive, read_line, parse_line,
  parse_loop, ignore_parse, trim_cr, skip_flags, skip_blanks, leads, less_first, is_comment,
}

-- A pattern fits its buffer, and one that is matched by components has no slash.
abbrev pub IsPattern : IgnorePattern → Type 0
IsPattern p =
    (0 < length p.glob) × (length p.glob < 128) × (p.has_slash ≡ false → All (λ c. c ≢ b'/') p.glob)

abbrev pub HoldsPatterns : IgnoreSet → Type 0
HoldsPatterns set = (length set.pats ≤ 48) × All IsPattern set.pats

-- The set stays well formed, its patterns stay where they are, and no count of dropped lines is lost.
abbrev pub Extends : IgnoreSet → IgnoreSet → Type 0
Extends set next =
    (HoldsPatterns set → HoldsPatterns next)
    × ((more : List IgnorePattern) × (next.pats ≡ set.pats ++ more))
    × (set.dropped ≤ next.dropped)

pub Extends-refl : (set : IgnoreSet) → Extends set set
Extends-refl set = (λ h. h, ([], sym (append_nil set.pats)), omega arith)

Extends-trans : (a b c : IgnoreSet) → Extends a b → Extends b c → Extends a c
Extends-trans a b c (f, (m, e), l) (g, (n, k), r) = (
  λ h. g (f h),
  (m ++ n, k ∙ ap (λ (x : List IgnorePattern). x ++ n) e ∙ append_assoc a.pats m n),
  omega arith,
)

has_byte-false : (c : ℕ) (s : List ℕ) → has_byte c s ≡ false → All (λ x. x ≢ c) s
unfolding has_byte
has_byte-false c [] h = tt
has_byte-false c (x ∷ s) h = ((λ e. ground arith), has_byte-false c s (ground arith))

All-snoc :
    (ps : List IgnorePattern) (p : IgnorePattern)
    → All IsPattern ps
    → IsPattern p
    → All IsPattern (ps ++ p ∷ [])
All-snoc [] p h k = (k, tt)
All-snoc (q ∷ ps) p (hq, h) k = (hq, All-snoc ps p h k)

slash_free :
    (rooted : Bool) (glob : List ℕ)
    → rooted || has_byte b'/' glob ≡ false
    → All (λ c. c ≢ b'/') glob
slash_free true glob h = cc
slash_free false glob h = has_byte-false b'/' glob h

add_pattern-Extends :
    (set : IgnoreSet) (glob : List ℕ) (negate rooted : Bool)
    → Extends set (add_pattern set glob negate rooted)
unfolding add_pattern
add_pattern-Extends set glob negate rooted = elim (Bool-cases (length glob == 0)) [
  | inl e ↦ rw e (Extends-refl set)
  | inr e ↦ elim (Bool-cases (leb 128 (length glob) || leb 48 (length set.pats))) [
    | inl k ↦ rw (e, k) (λ h. h, ([], sym (append_nil set.pats)), omega arith)
    | inr k ↦
        let pat : IgnorePattern = record {
          glob = glob;
          negate = negate;
          has_slash = rooted || has_byte b'/' glob;
        } in
        let l = length-append set.pats (pat ∷ []) in
        let short : length glob < 128 = ground arith in
        let room : length set.pats < 48 = ground arith in
        let some_glob : 0 < length glob = ground arith in
        rw (e, k)
          (
            (λ h. (
              omega (arith, l),
              All-snoc set.pats pat h.1 (some_glob, short, λ z. slash_free rooted glob z),
            )),
            (pat ∷ [], refl),
            omega arith,
          )
  ]
]

-- What the loader of an include adds, it adds at the end as well.
abbrev pub Loads : Option (List ℕ → IgnoreSet → IgnoreSet) → Type 0
Loads none = Unit {0}
Loads (some inc) = (name : List ℕ) (set : IgnoreSet) → Extends set (inc name set)

if_Extends :
    (set : IgnoreSet) (b : Bool) (x y : IgnoreSet)
    → Extends set x
    → Extends set y
    → Extends set (if b then x else y)
if_Extends set true x y h k = h
if_Extends set false x y h k = k

directive-Extends :
    (inc : Option (List ℕ → IgnoreSet → IgnoreSet)) (set : IgnoreSet) (line : List ℕ)
    → Loads inc
    → Extends set (directive inc set line)
unfolding directive
directive-Extends none set line h = Extends-refl set
directive-Extends (some f) set line h =
    if_Extends set _ _ _
      (if_Extends set _ _ _ (h (skip_blanks (drop 8 line)) set) (Extends-refl set))
      (Extends-refl set)

pattern_line-Extends : (set : IgnoreSet) (line : List ℕ) → Extends set (pattern_line set line)
unfolding pattern_line
pattern_line-Extends set line =
    let negate = leads b'!' line in
    let body = skip_flags (less_first negate line) in
    let rooted = leads b'/' body in add_pattern-Extends set (less_first rooted body) negate rooted

read_line-Extends :
    (inc : Option (List ℕ → IgnoreSet → IgnoreSet)) (set : IgnoreSet) (line : List ℕ)
    → Loads inc
    → Extends set (read_line inc set line)
unfolding read_line
read_line-Extends inc set line h = if_Extends set (length line == 0) set _ (Extends-refl set) (
    if_Extends set (is_comment line) set _ (Extends-refl set) (
      if_Extends set (leads b'#' line) _ _ (directive-Extends inc set line h)
        (pattern_line-Extends set line)))

parse_loop-Extends :
    (inc : Option (List ℕ → IgnoreSet → IgnoreSet)) (set : IgnoreSet) (line text : List ℕ)
    → Loads inc
    → Extends set (parse_loop inc set line text)
unfolding parse_loop parse_line
parse_loop-Extends inc set line [] h = read_line-Extends inc set (trim_cr line) h
parse_loop-Extends inc set line (c ∷ text) h =
    let next = if c == 10 then parse_line inc set line else set in
    let now =
      if_Extends set (c == 10) (parse_line inc set line) set
        (read_line-Extends inc set (trim_cr line) h) (Extends-refl set) in
    Extends-trans set next (parse_loop inc set line (c ∷ text)) now
      (parse_loop-Extends inc next (if c == 10 then [] else line ++ c ∷ []) text h)

pub ignore_parse-Loads :
    (inc : Option (List ℕ → IgnoreSet → IgnoreSet)) (set : IgnoreSet) (text : List ℕ)
    → Loads inc
    → Extends set (ignore_parse inc set text)
unfolding ignore_parse
ignore_parse-Loads inc set text h = parse_loop-Extends inc set [] text h
