-- ===== src/Ignore/Glob.antt =====
-- The matcher of src/ignore.c: glob_rec with its step budget, and glob_match. A pattern and a text are
-- the lists of their bytes; the NUL at their ends is the end of the list.
pub mod Fuel
pub mod Items
pub mod Classes
pub mod Stretch
pub mod Decides
use amisync.Common.{
  ℕ, zero, suc, ◌+◌, ◌-◌, Bool, true, false, ◌&&◌, ◌||◌, not, Option, none, some, List, [], ◌∷◌,
  length, if◌then◌else◌, ltb, leb, ◌==◌,
}

abbrev pub glob_budget : ℕ
glob_budget = 200000

abbrev pub lc : ℕ → ℕ
lc c = if leb b'A' c && leb c b'Z' then c - b'A' + b'a' else c

-- The end of the text, or a slash.
abbrev pub at_stop : List ℕ → Bool
at_stop [] = true
at_stop (c ∷ s) = c == b'/'

abbrev pub rest_of : List ℕ → List ℕ
rest_of [] = []
rest_of (c ∷ s) = s

-- sc: the first character in lower case, where there is one.
abbrev pub first_lc : List ℕ → ℕ
first_lc [] = 0
first_lc (c ∷ s) = lc c

-- The NUL at the end of the text equals no byte of a pattern.
abbrev pub same_first : ℕ → List ℕ → Bool
same_first c [] = false
same_first c (x ∷ s) = lc c == lc x

abbrev pub is_end : List ℕ → Bool
is_end [] = true
is_end (c ∷ s) = false

abbrev pub in_range : ℕ → ℕ → ℕ → Bool
in_range sc a b = leb (lc a) sc && leb sc (lc b)

-- The members of a class up to its `]`, and the pattern behind it; `none` if there is no `]`.
unfoldable pub members_loop : ℕ → Bool → List ℕ → Option (Bool × List ℕ)
members_loop sc matched [] = none
members_loop sc matched (c ∷ []) = if c == b']' then some (matched, []) else none
members_loop sc matched (c ∷ d ∷ []) =
    let next = members_loop sc (matched || (sc == lc c)) (d ∷ []) in
    if c == b']' then some (matched, d ∷ []) else next
members_loop sc matched (c ∷ d ∷ e ∷ q) =
    let range = members_loop sc (matched || in_range sc c e) q in
    let next = members_loop sc (matched || (sc == lc c)) (d ∷ e ∷ q) in
    if c == b']'
    then some (matched, d ∷ e ∷ q)
    else if (d == b'-') && not (e == b']')
    then range
    else next

abbrev pub is_neg : List ℕ → Bool
is_neg [] = false
is_neg (c ∷ q) = (c == b'!') || (c == b'^')

abbrev pub class_start : List ℕ → List ℕ
class_start q = if is_neg q then rest_of q else q

-- The pattern behind a class that takes the character; `none` where the match fails.
abbrev pub class_result : Bool → Option (Bool × List ℕ) → Option (List ℕ)
class_result neg none = none
class_result neg (some (matched, q)) =
    if matched then (if neg then none else some q) else (if neg then some q else none)

unfoldable pub match_class : List ℕ → ℕ → Option (List ℕ)
unfolding members_loop
match_class q sc = class_result (is_neg q) (members_loop sc false (class_start q))

-- The pattern behind a second star, less a slash.
abbrev pub drop_slash : List ℕ → List ℕ
drop_slash [] = []
drop_slash (c ∷ p) = if c == b'/' then p else c ∷ p

abbrev pub second_star : List ℕ → Option (List ℕ)
second_star [] = none
second_star (c ∷ p) = if c == b'*' then some (drop_slash p) else none

-- if (--*budget <= 0) return 0; otherwise the rest of the call. The budget stops at 0 here, where the
-- code goes below it.
abbrev pub enter : (ℕ → Bool × ℕ) → ℕ → Bool × ℕ
enter run budget = if leb budget 1 then (false, budget - 1) else run (budget - 1)

-- After a try of a wildcard: a match ends the loop, and so does the end of the text it may take.
abbrev pub try_next : Bool → Bool × ℕ → (ℕ → Bool × ℕ) → Bool × ℕ
try_next stop (true, budget) next = (true, budget)
try_next true (false, budget) next = (false, budget)
try_next false (false, budget) next = next budget

-- The loop of a wildcard over the text: `**` goes on past slashes.
unfoldable pub star_loop : Bool → (List ℕ → ℕ → Bool × ℕ) → List ℕ → ℕ → Bool × ℕ
star_loop deep rec [] budget = rec [] budget
star_loop deep rec (c ∷ s) budget =
    try_next (not deep && (c == b'/')) (rec (c ∷ s) budget) (λ left. star_loop deep rec s left)

abbrev pub after_class : (List ℕ → Bool × ℕ) → Option (List ℕ) → ℕ → Bool × ℕ
after_class go none budget = (false, budget)
after_class go (some p) budget = go p

-- Behind a star: q is the pattern after a second one.
abbrev pub after_star :
    (List ℕ → List ℕ → ℕ → Bool × ℕ) → List ℕ → List ℕ → ℕ → Option (List ℕ) → Bool × ℕ
after_star go p s budget none = star_loop false (λ t left. enter (go p t) left) s budget
after_star go p s budget (some q) =
    if is_end q then (true, budget) else star_loop true (λ t left. enter (go q t) left) s budget

-- One round of the loop over the pattern c ∷ p; `go` is the rest of the loop, which the recursive calls
-- run as well.
abbrev pub glob_step : (List ℕ → List ℕ → ℕ → Bool × ℕ) → ℕ → List ℕ → List ℕ → ℕ → Bool × ℕ
glob_step go c p s budget =
    if c == b'*'
    then after_star go p s budget (second_star p)
    else if c == b'?'
    then (if at_stop s then (false, budget) else go p (rest_of s) budget)
    else if c == b'['
    then (if at_stop s
        then (false, budget)
        else after_class (λ q. go q (rest_of s) budget) (match_class p (first_lc s)) budget)
    else if same_first c s
    then go p (rest_of s) budget
    else (false, budget)

-- The loop. Each round and each call takes at least one byte of the pattern. `stuck` stands for running
-- out of fuel, which the code has none of.
unfoldable pub glob_loop : Bool × ℕ → ℕ → List ℕ → List ℕ → ℕ → Bool × ℕ
unfolding star_loop match_class
glob_loop stuck zero p s budget = stuck
glob_loop stuck (suc fuel) [] s budget = (is_end s, budget)
glob_loop stuck (suc fuel) (c ∷ p) s budget =
    glob_step (λ q t left. glob_loop stuck fuel q t left) c p s budget

unfoldable pub glob_rec : List ℕ → List ℕ → ℕ → Bool × ℕ
unfolding glob_loop
glob_rec p s budget = enter (glob_loop (false, 0) (length p + 1) p s) budget

unfoldable pub glob_match : List ℕ → List ℕ → Bool
unfolding glob_rec
glob_match p s = (glob_rec p s glob_budget).0
