-- ===== src/Ignore/Glob/Items.antt =====
-- What a pattern means, without the matcher: a list of items, and the texts that they take.
use amisync.Common.{
  ℕ, zero, suc, ◌+◌, ◌≤◌, ◌≡◌, ◌≢◌, ◌⊎◌, Bool, true, false, ◌&&◌, not, Option, none, some, List, [],
  ◌∷◌, ◌++◌, length, All, if◌then◌else◌, ◌==◌,
}
use amisync.Ignore.Glob.{lc, is_neg, class_start, drop_slash}

pub data Member : Type 0 where
  single : ℕ → Member
  range : ℕ → ℕ → Member

pub data Item : Type 0 where
  literal : ℕ → Item
  one : Item
  star : Item
  deep_star : Item
  class : Bool → List Member → Item
  malformed : Item

abbrev pub with_member : Member → Option (List Member × List ℕ) → Option (List Member × List ℕ)
with_member m none = none
with_member m (some (ms, q)) = some (m ∷ ms, q)

-- The members up to the `]`, and what follows it.
unfoldable pub members : List ℕ → Option (List Member × List ℕ)
members [] = none
members (c ∷ []) = if c == b']' then some ([], []) else none
members (c ∷ d ∷ []) =
    let next = with_member (single c) (members (d ∷ [])) in
    if c == b']' then some ([], d ∷ []) else next
members (c ∷ d ∷ e ∷ q) =
    let ranged = with_member (range c e) (members q) in
    let next = with_member (single c) (members (d ∷ e ∷ q)) in
    if c == b']'
    then some ([], d ∷ e ∷ q)
    else if (d == b'-') && not (e == b']')
    then ranged
    else next

-- The first item of a pattern, and what follows it. A slash behind a double star belongs to it.
abbrev pub star_item : List ℕ → Item × List ℕ
star_item [] = (star, [])
star_item (c ∷ p) = if c == b'*' then (deep_star, drop_slash p) else (star, c ∷ p)

abbrev pub class_item : Bool → Option (List Member × List ℕ) → Item × List ℕ
class_item neg none = (malformed, [])
class_item neg (some (ms, q)) = (class neg ms, q)

abbrev pub item : ℕ → List ℕ → Item × List ℕ
item c p =
    if c == b'*'
    then star_item p
    else if c == b'?'
    then (one, p)
    else if c == b'['
    then class_item (is_neg p) (members (class_start p))
    else (literal c, p)

abbrev pub then_items : Item × List ℕ → (List ℕ → List Item) → List Item
then_items (i, q) more = i ∷ more q

-- The items of a pattern; a pattern has at most as many as it has bytes.
unfoldable pub items_of : ℕ → List ℕ → List Item
unfolding members
items_of zero p = []
items_of (suc fuel) [] = []
items_of (suc fuel) (c ∷ p) = then_items (item c p) (λ q. items_of fuel q)

unfoldable pub items : List ℕ → List Item
unfolding items_of
items p = items_of (length p + 1) p

-- A member takes characters without regard to case.
abbrev pub Takes : Member → ℕ → Type 0
Takes (single c) sc = sc ≡ lc c
Takes (range a b) sc = (lc a ≤ sc) × (sc ≤ lc b)

abbrev pub AnyTakes : List Member → ℕ → Type 0
AnyTakes [] sc = ⊥
AnyTakes (m ∷ ms) sc = Takes m sc ⊎ AnyTakes ms sc

abbrev pub InClass : Bool → List Member → ℕ → Type 0
InClass false ms sc = AnyTakes ms sc
InClass true ms sc = ¬ AnyTakes ms sc

-- One character, with a property.
abbrev pub Single : (ℕ → Type 0) → List ℕ → Type 0
Single P u = (x : ℕ) × (u ≡ x ∷ []) × P x

-- What an item takes.
abbrev pub Part : Item → List ℕ → Type 0
Part (literal c) u = Single (λ x. lc c ≡ lc x) u
Part one u = Single (λ x. x ≢ b'/') u
Part star u = All (λ x. x ≢ b'/') u
Part deep_star u = Unit {0}
Part (class neg ms) u = Single (λ x. (x ≢ b'/') × InClass neg ms (lc x)) u
Part malformed u = ⊥

-- A text matches when it falls into parts that the items take, one after the other.
abbrev pub Matches : List Item → List ℕ → Type 0
Matches [] s = s ≡ []
Matches (i ∷ is) s = (u : List ℕ) × (t : List ℕ) × (s ≡ u ++ t) × Part i u × Matches is t
