-- ===== src/FoldState/Forget/Removal.antt =====
-- Tables as relations between names and slots, and what a swap-remove does to one.
use amisync.Common.{
  ℕ, zero, suc, ◌<◌, ◌≡◌, ◌≢◌, ◌↔◌, refl, sym, ap, ◌∙◌, inl, inr, Bool, true, false, some, List,
  arith, Bool-cases, Option-cases, if◌then◌else◌, ◌==◌, bytes_eq_refl,
}
use amisync.Common.Arrays.{store}
use amisync.FoldState.Table.{FileSlot, name_is, is_named}
use amisync.FoldState.Table.Chain.{last_where}
use amisync.FoldState.Table.Kept.{Names, at_slot, found-lt, found_own}
use amisync.FoldState.Forget.{vacated}

-- Every slot in use has a name, and no two have the same.
pub record Distinct (slots : ℕ → FileSlot) (n : ℕ) : Type 0 where
  pub named : (i : ℕ) → i < n → (own : List ℕ) × ((slots i).name ≡ some own)
  pub once : (i j : ℕ) → i < n → j < n → (slots i).name ≡ (slots j).name → i ≡ j

-- Slot s is in the table under the name k.
abbrev pub At : (ℕ → FileSlot) → ℕ → List ℕ → FileSlot → Type 0
At slots n k s = (j : ℕ) × (j < n) × (slots j ≡ s) × (s.name ≡ some k)

last_where-some :
    (p : ℕ → Bool) (n i : ℕ) → i < n → p i ≡ true → (j : ℕ) × (last_where p n ≡ some j)
unfolding last_where
last_where-some p zero i h e = absurd (omega arith)
last_where-some p (suc n) i h e = elim (Bool-cases (p n)) [
  | inl k ↦ (n, rw k refl)
  | inr k ↦
      let ne : (i == n) ≡ false = elim (Bool-cases (i == n)) [
        | inl same ↦ let f : i ≡ n = ground arith in cc (ap p f, e, k)
        | inr other ↦ other
      ] in
      let (j, f) = last_where-some p n i (ground arith) e in (j, rw k f)
]

-- The slot of a name is the one that is found by it.
pub found_slot :
    (slots : ℕ → FileSlot) (n i : ℕ) (k : List ℕ)
    → Distinct slots n
    → i < n
    → (slots i).name ≡ some k
    → last_where (λ j. is_named k (slots j)) n ≡ some i
found_slot slots n i k d h e =
    let p : is_named k (slots i) ≡ true = ap (name_is k) e ∙ bytes_eq_refl k in
    let (j, f) = last_where-some (λ j. is_named k (slots j)) n i h p in
    let same : j ≡ i = d.once j i (found-lt slots n j k f) h (found_own slots n j k f ∙ sym e) in
    f ∙ ap some same

pub Distinct-Names : (slots : ℕ → FileSlot) (n : ℕ) → Distinct slots n → Names slots n
Distinct-Names slots n d i h =
    let (own, e) = d.named i h in (own, e, found_slot slots n i own d h e)

some_inj {ℓ} : {A : Type ℓ} (a b : A) → some a ≡ some b → a ≡ b
some_inj a b e = cc

pub Names-Distinct : (slots : ℕ → FileSlot) (n : ℕ) → Names slots n → Distinct slots n
Names-Distinct slots n x = record {
  named = λ i h. (let (own, e, f) = x i h in (own, e));
  once = λ i j h k e.
      (let (a, ea, fa) = x i h in
        let (b, eb, fb) = x j k in
        let same : a ≡ b = some_inj a b (sym ea ∙ e ∙ eb) in
        some_inj i j (sym fa ∙ ap (λ t. last_where (λ m. is_named t (slots m)) n) same ∙ fb));
}

entry_At :
    (slots : ℕ → FileSlot) (n : ℕ) (k : List ℕ) (s : FileSlot)
    → at_slot slots (last_where (λ j. is_named k (slots j)) n) ≡ some s
    → At slots n k s
entry_At slots n k s e = elim (Option-cases (last_where (λ j. is_named k (slots j)) n)) [
  | inl f ↦ cc (e, ap (at_slot slots) f)
  | inr (j, f) ↦
      let g : slots j ≡ s = some_inj (slots j) s (sym (ap (at_slot slots) f) ∙ e) in
      (j, found-lt slots n j k f, g, ap (λ t. t.name) (sym g) ∙ found_own slots n j k f)
]

-- An entry of the table is the slot that stands in it under the name.
pub entry_iff :
    (slots : ℕ → FileSlot) (n : ℕ) (k : List ℕ) (s : FileSlot)
    → Distinct slots n
    → (at_slot slots (last_where (λ j. is_named k (slots j)) n) ≡ some s) ↔ At slots n k s
entry_iff slots n k s d = (
  entry_At slots n k s,
  λ (j, h, e, f).
      ap (at_slot slots) (found_slot slots n j k d h (ap (λ t. t.name) e ∙ f)) ∙ ap some e,
)

-- The slots after a swap-remove of slot i, among n + 1.
abbrev pub swapped : (ℕ → FileSlot) → ℕ → ℕ → ℕ → FileSlot
swapped slots i last = store (store slots i (slots last)) last (vacated (slots last))

-- Where a slot below the tail came from.
abbrev pub came_from : ℕ → ℕ → ℕ → ℕ
came_from i last j = if j == i then last else j

swapped_from :
    (slots : ℕ → FileSlot) (i last j : ℕ)
    → j < last
    → swapped slots i last j ≡ slots (came_from i last j)
swapped_from slots i last j h =
    let ne : (j == last) ≡ false = ground arith in
    elim (Bool-cases (j == i)) [ inl e ↦ rw (ne, e) refl | inr e ↦ rw (ne, e) refl ]

pub swapped_below :
    (slots : ℕ → FileSlot) (i last j : ℕ) → j < i → j < last → swapped slots i last j ≡ slots j
swapped_below slots i last j h k = swapped_from slots i last j k ∙ ap slots (ground arith)

pub swapped-Distinct :
    (slots : ℕ → FileSlot) (i last : ℕ)
    → Distinct slots (suc last)
    → Distinct (swapped slots i last) last
swapped-Distinct slots i last d = record {
  named = λ j h.
      (let (own, e) = d.named (came_from i last j) (ground arith) in
        (own, ap (λ t. t.name) (swapped_from slots i last j h) ∙ e));
  once = λ j k h l e.
      (let f = d.once (came_from i last j) (came_from i last k) (ground arith) (ground arith) (
          sym (ap (λ t. t.name) (swapped_from slots i last j h))
          ∙ e
          ∙ ap (λ t. t.name) (swapped_from slots i last k l)) in
        ground (arith, f));
}

-- Slots after the swap were there before, and not in the hole.
pub swapped_old :
    (slots : ℕ → FileSlot) (i last : ℕ) (k : List ℕ) (s : FileSlot)
    → At (swapped slots i last) last k s
    → (j : ℕ) × (j < suc last) × (j ≢ i) × (slots j ≡ s) × (s.name ≡ some k)
swapped_old slots i last k s (j, h, e, f) = (
  came_from i last j,
  ground arith,
  (λ g. ground arith),
  sym (swapped_from slots i last j h) ∙ e,
  f,
)

-- A slot other than the hole is still there.
pub swapped_kept :
    (slots : ℕ → FileSlot) (i last : ℕ) (k : List ℕ) (s : FileSlot)
    → i < suc last
    → (a : At slots (suc last) k s) → a.0 ≢ i
    → At (swapped slots i last) last k s
swapped_kept slots i last k s il (j, h, e, f) ne = elim (Bool-cases (j == last)) [
  | inl t ↦
      (i, ground arith, swapped_from slots i last i (ground arith) ∙ ap slots (ground arith) ∙ e, f)
  | inr t ↦
      (j, ground arith, swapped_from slots i last j (ground arith) ∙ ap slots (ground arith) ∙ e, f)
]
