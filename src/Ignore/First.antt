-- ===== src/Ignore/First.antt =====
-- Which names a set ignores: the first pattern that hits decides.
use amisync.Common.{
  ℕ, ◌≡◌, ◌↔◌, ◌⊎◌, inl, inr, refl, ap, Bool, true, false, ◌&&◌, ◌||◌, List, [], ◌∷◌, ◌++◌, All,
  arith, if◌then◌else◌, ◌==◌, Bool-cases, append_assoc, append_nil,
}
use amisync.PathSafe.Components.{split_from, components}
use amisync.Ignore.Glob.{glob_match}
use amisync.Ignore.{
  IgnorePattern, IgnoreSet, glob_match_prefix, ancestor_loop, match_path, segment_loop,
  match_segment, hits, match_loop, ignore_match,
}

abbrev pub SomeOf : (List ℕ → Type 0) → List (List ℕ) → Type 0
SomeOf P [] = ⊥
SomeOf P (s ∷ cs) = P s ⊎ SomeOf P cs

-- A pattern with a slash hits the path or a directory above it, one without hits a component.
abbrev pub Hits : IgnorePattern → List ℕ → Type 0
Hits pat path =
    if pat.has_slash
    then ((glob_match pat.glob path ≡ true)
        ⊎ ((dir : List ℕ) × (rest : List ℕ) × (path ≡ dir ++ b'/' ∷ rest)
            × (glob_match_prefix pat.glob dir ≡ true)))
    else SomeOf (λ seg. glob_match_prefix pat.glob seg ≡ true) (components path)

-- The set ignores a path when the first of its patterns that hits is not negated.
abbrev pub Ignores : IgnoreSet → List ℕ → Type 0
Ignores set path =
    (before : List IgnorePattern) × (pat : IgnorePattern) × (after : List IgnorePattern) × (set.pats
      ≡ before ++ pat ∷ after)
    × All (λ p. ¬ Hits p path) before
    × Hits pat path
    × (pat.negate ≡ false)

both_true : (b : Bool) → (if b then true else true) ≡ true
both_true true = refl
both_true false = refl

or_true : (a : Bool) → a || true ≡ true
or_true true = refl
or_true false = refl

segment_loop→SomeOf :
    (glob seg p : List ℕ)
    → segment_loop glob seg p ≡ true
    → SomeOf (λ s. glob_match_prefix glob s ≡ true) (split_from seg p)
unfolding segment_loop
segment_loop→SomeOf glob seg [] h = inl h
segment_loop→SomeOf glob seg (c ∷ p) h = elim (Bool-cases (c == b'/')) [
  | inr e ↦ rw e (segment_loop→SomeOf glob (seg ++ c ∷ []) p (rw e at h))
  | inl e ↦ elim (Bool-cases (glob_match_prefix glob seg)) [
    | inl k ↦ rw e (inl k)
    | inr k ↦ rw e (inr (segment_loop→SomeOf glob [] p (rw (e, k) at h)))
  ]
]

SomeOf→segment_loop :
    (glob seg p : List ℕ)
    → SomeOf (λ s. glob_match_prefix glob s ≡ true) (split_from seg p)
    → segment_loop glob seg p ≡ true
unfolding segment_loop
SomeOf→segment_loop glob seg [] (inl h) = h
SomeOf→segment_loop glob seg [] (inr h) = absurd h
SomeOf→segment_loop glob seg (c ∷ p) h = elim (Bool-cases (c == b'/')) [
  | inr e ↦ rw e (SomeOf→segment_loop glob (seg ++ c ∷ []) p (rw e at h))
  | inl e ↦
      let k : SomeOf (λ s. glob_match_prefix glob s ≡ true) (seg ∷ split_from [] p) = rw e at h in
      elim k [
        | inl a ↦ rw (e, a) refl
        | inr b ↦
            let r = SomeOf→segment_loop glob [] p b in
            rw (e, r) (both_true (glob_match_prefix glob seg))
      ]
]

abbrev Above : List ℕ → List ℕ → List ℕ → Type 0
Above glob front p =
    (dir : List ℕ) × (rest : List ℕ) × (p ≡ dir ++ b'/' ∷ rest)
    × (glob_match_prefix glob (front ++ dir) ≡ true)

ancestor_loop→Above :
    (glob front p : List ℕ) → ancestor_loop glob front p ≡ true → Above glob front p
unfolding ancestor_loop
ancestor_loop→Above glob front [] h = cc
ancestor_loop→Above glob front (c ∷ p) h =
    elim (Bool-cases ((c == b'/') && glob_match_prefix glob front)) [
      | inl e ↦
          let slash : c ≡ b'/' = ground arith in
          let hit : glob_match_prefix glob front ≡ true = ground arith in
          ([], p, ap (λ (x : ℕ). x ∷ p) slash, rw (append_nil front) hit)
      | inr e ↦
          let (dir, rest, k, m) = ancestor_loop→Above glob (front ++ c ∷ []) p (rw e at h) in
          (c ∷ dir, rest, ap (◌∷◌ c) k, rw (← append_assoc front (c ∷ []) dir) m)
    ]

Above→ancestor_loop :
    (glob front p : List ℕ) → Above glob front p → ancestor_loop glob front p ≡ true
unfolding ancestor_loop
Above→ancestor_loop glob front [] ([], rest, k, m) = cc
Above→ancestor_loop glob front [] (x ∷ dir, rest, k, m) = cc
Above→ancestor_loop glob front (c ∷ p) ([], rest, k, m) =
    let slash : c ≡ b'/' = cc in
    let hit : glob_match_prefix glob front ≡ true = rw (append_nil front) at m in
    rw (slash, hit) refl
Above→ancestor_loop glob front (c ∷ p) (x ∷ dir, rest, k, m) =
    let ec : c ≡ x = cc in
    let ep : p ≡ dir ++ b'/' ∷ rest = cc in
    let r =
      Above→ancestor_loop glob (front ++ c ∷ []) p
        (dir, rest, ep, rw (append_assoc front (c ∷ []) dir, ec) m) in
    rw r (or_true ((c == b'/') && glob_match_prefix glob front))

match_path_iff :
    (glob path : List ℕ)
    → (match_path glob path ≡ true) ↔ (
        (glob_match glob path ≡ true)
        ⊎ ((dir : List ℕ) × (rest : List ℕ) × (path ≡ dir ++ b'/' ∷ rest)
            × (glob_match_prefix glob dir ≡ true)))
unfolding match_path
match_path_iff glob path = (
  (λ h. elim (Bool-cases (glob_match glob path)) [
    | inl e ↦ inl e
    | inr e ↦ inr (ancestor_loop→Above glob [] path (rw e at h))
  ]),
  (λ k. elim k [
    | inl e ↦ rw e refl
    | inr a ↦ let r = Above→ancestor_loop glob [] path a in rw r (or_true (glob_match glob path))
  ]),
)

match_segment_iff :
    (glob path : List ℕ)
    → (match_segment glob path ≡ true)
      ↔ SomeOf (λ seg. glob_match_prefix glob seg ≡ true) (components path)
unfolding match_segment
match_segment_iff glob path = (segment_loop→SomeOf glob [] path, SomeOf→segment_loop glob [] path)

hits_by :
    (slash : Bool) (glob path : List ℕ)
    → ((if slash then match_path glob path else match_segment glob path) ≡ true) ↔ (
        if slash
        then ((glob_match glob path ≡ true)
            ⊎ ((dir : List ℕ) × (rest : List ℕ) × (path ≡ dir ++ b'/' ∷ rest)
                × (glob_match_prefix glob dir ≡ true)))
        else SomeOf (λ seg. glob_match_prefix glob seg ≡ true) (components path))
hits_by true glob path = match_path_iff glob path
hits_by false glob path = match_segment_iff glob path

hits_iff : (pat : IgnorePattern) (path : List ℕ) → (hits pat path ≡ true) ↔ Hits pat path
unfolding hits
hits_iff pat path = hits_by pat.has_slash pat.glob path

abbrev First : List IgnorePattern → List ℕ → Type 0
First pats path =
    (before : List IgnorePattern) × (pat : IgnorePattern) × (after : List IgnorePattern) × (pats
      ≡ before ++ pat ∷ after)
    × All (λ p. ¬ Hits p path) before
    × Hits pat path
    × (pat.negate ≡ false)

match_loop→First :
    (pats : List IgnorePattern) (path : List ℕ) → match_loop pats path ≡ true → First pats path
unfolding match_loop
match_loop→First [] path h = cc
match_loop→First (pat ∷ pats) path h = elim (Bool-cases (hits pat path)) [
  | inl e ↦ elim (Bool-cases pat.negate) [
    | inl n ↦ let k : false ≡ true = rw (e, n) at h in absurd (cc)
    | inr n ↦ ([], pat, pats, refl, tt, (hits_iff pat path).0 e, n)
  ]
  | inr e ↦
      let (before, p, after, k, none_before, hit, n) = match_loop→First pats path (rw e at h) in
      let miss : ¬ Hits pat path = λ m. let f = (hits_iff pat path).1 m in absurd (cc) in
      (pat ∷ before, p, after, ap (◌∷◌ pat) k, (miss, none_before), hit, n)
]

First→match_loop :
    (pats : List IgnorePattern) (path : List ℕ) → First pats path → match_loop pats path ≡ true
unfolding match_loop
First→match_loop [] path ([], pat, after, k, m, hit, n) = cc
First→match_loop [] path (x ∷ before, pat, after, k, m, hit, n) = cc
First→match_loop (q ∷ pats) path ([], pat, after, k, m, hit, n) =
    let e : q ≡ pat = cc in let f = (hits_iff pat path).1 hit in rw (e, f, n) refl
First→match_loop (q ∷ pats) path (x ∷ before, pat, after, k, (mx, m), hit, n) =
    let e : q ≡ x = cc in
    let er : pats ≡ before ++ pat ∷ after = cc in
    let r = First→match_loop pats path (before, pat, after, er, m, hit, n) in
    elim (Bool-cases (hits q path)) [
      | inl f ↦ absurd (mx ((hits_iff x path).0 (rw e at f)))
      | inr f ↦ rw f r
    ]

-- A path is ignored exactly when the first pattern that hits it is not negated. A pattern with a slash
-- hits a path that it matches, or matches up to a slash; one without hits a path of which it matches a
-- component.
pub ignore_match_iff :
    (set : IgnoreSet) (path : List ℕ) → (ignore_match set path ≡ true) ↔ Ignores set path
unfolding ignore_match
ignore_match_iff set path = (match_loop→First set.pats path, First→match_loop set.pats path)
