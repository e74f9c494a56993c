-- ===== src/Table/Laws.antt =====
-- The loops over a table do to its list of entries what the finite maps do.
use libe.Common.{
  Bool-cases, List, [], ap, arith, get_or, inl, inr, length, length-set, none, refl, set, some, suc,
  take, zero, ℕ, ◌+◌, ◌-◌, ◌<◌, ◌∙◌, ◌∷◌, ◌≡◌, ◌≤◌,
}
use native.Mathlib.Nat.{suc-le-suc_iff}
use libe.Table.{Slot, move_up, named, search_slots, empty_slot}
use libe.Table.Entries.{insert, erase, lookup}

pub search_slots-le : (name : List ℕ) (n : ℕ) (slots : List Slot) → search_slots name n slots ≤ n
unfolding search_slots
search_slots-le name zero slots = omega arith
search_slots-le name (suc n) [] = omega arith
search_slots-le name (suc n) (s ∷ slots) = ground (arith, search_slots-le name n slots)

module _ (name key : List ℕ) where
  abbrev slot : Slot
  slot = record { id = take 16 name; key = take 32 key }

  pub take-set_found :
      (n : ℕ) (slots : List Slot)
      → n ≤ length slots
      → search_slots name n slots < n
      → take n (set slots (search_slots name n slots) slot) ≡ insert name key (take n slots)
  unfolding search_slots insert
  take-set_found zero slots h lt = absurd (omega arith)
  take-set_found (suc n) [] h lt = absurd (omega arith)
  take-set_found (suc n) (s ∷ slots) h lt = elim (Bool-cases (named name s)) [
    | inl hit ↦ rw hit
    | inr miss ↦
        rw miss
          (ap (◌∷◌ s) (take-set_found n slots (omega arith) (suc-le-suc_iff.0 (rw miss at lt))))
  ]

  pub take-set_new :
      (n : ℕ) (slots : List Slot)
      → n < length slots
      → search_slots name n slots ≡ n
      → take (suc n) (set slots n slot) ≡ insert name key (take n slots)
  unfolding search_slots insert
  take-set_new zero [] h e = absurd (omega arith)
  take-set_new zero (s ∷ slots) h e = refl
  take-set_new (suc n) [] h e = absurd (omega arith)
  take-set_new (suc n) (s ∷ slots) h e = elim (Bool-cases (named name s)) [
    | inl hit ↦ absurd (ground arith)
    | inr miss ↦ rw miss (ap (◌∷◌ s) (take-set_new n slots (omega arith) (ground arith)))
  ]

move_up-cons :
    (r j : ℕ) (s : Slot) (slots : List Slot)
    → move_up r (suc (suc j)) (s ∷ slots) ≡ s ∷ move_up r (suc j) slots
unfolding move_up
move_up-cons zero j s slots = refl
move_up-cons (suc r) j s slots =
    let up : suc (suc j) + 1 ≡ suc (suc (suc j)) = omega arith in
    let down : suc (suc j) - 1 ≡ suc j = omega arith in
    let up' : suc j + 1 ≡ suc (suc j) = omega arith in
    let down' : suc j - 1 ≡ j = omega arith in
    rw (up, down, up', down')
      (move_up-cons r (suc j) s (set slots j (get_or slots (suc j) empty_slot)))

take-move_up :
    (r : ℕ) (s : Slot) (slots : List Slot)
    → r ≤ length slots
    → take r (move_up r 1 (s ∷ slots)) ≡ take r slots
unfolding move_up
take-move_up zero s slots h = refl
take-move_up (suc r) s [] h = absurd (omega arith)
take-move_up (suc r) s (x ∷ slots) h =
    rw (move_up-cons r 0 x (x ∷ slots)) (ap (◌∷◌ x) (take-move_up r x slots (omega arith)))

pub length-move_up : (r j : ℕ) (slots : List Slot) → length (move_up r j slots) ≡ length slots
unfolding move_up
length-move_up zero j slots = refl
length-move_up (suc r) j slots =
    length-move_up r (j + 1) _ ∙ length-set slots (j - 1) (get_or slots j empty_slot)

-- Moving the slots behind the one found up by one leaves it out.
take-move_up_found :
    (name : List ℕ) (n : ℕ) (slots : List Slot)
    → n ≤ length slots
    → search_slots name n slots < n
    → take
        (n - 1)
        (move_up (n - (search_slots name n slots + 1)) (search_slots name n slots + 1) slots)
      ≡ erase name (take n slots)
unfolding search_slots erase
take-move_up_found name zero slots h lt = absurd (omega arith)
take-move_up_found name (suc zero) [] h lt = absurd (omega arith)
take-move_up_found name (suc zero) (s ∷ slots) h lt = elim (Bool-cases (named name s)) [
  | inl hit ↦ rw hit
  | inr miss ↦ absurd (omega (arith, suc-le-suc_iff.0 (rw miss at lt)))
]
take-move_up_found name (suc (suc m)) [] h lt = absurd (omega arith)
take-move_up_found name (suc (suc m)) (s ∷ slots) h lt = elim (Bool-cases (named name s)) [
  | inl hit ↦
      let last : suc (suc m) - 1 ≡ suc m = omega arith in
      rw (hit, last) (take-move_up (suc m) s slots (omega arith))
  | inr miss ↦
      let k = search_slots name (suc m) slots in
      let last : suc (suc m) - 1 ≡ suc m = omega arith in
      let last' : suc m - 1 ≡ m = omega arith in
      let rounds : suc (suc m) - (suc k + 1) ≡ suc m - suc k = omega arith in
      let from : suc k + 1 ≡ suc (suc k) = omega arith in
      let from' : k + 1 ≡ suc k = omega arith in
      let ih =
        take-move_up_found name (suc m) slots (omega arith) (suc-le-suc_iff.0 (rw miss at lt)) in
      rw (miss, last, rounds, from, move_up-cons (suc m - suc k) k s slots)
        (ap (◌∷◌ s) (rw (last', from') at ih))
]

pub take-set_behind :
    (n : ℕ) (slots : List Slot) (i : ℕ) (s : Slot) → n ≤ i → take n (set slots i s) ≡ take n slots
take-set_behind zero slots i s h = refl
take-set_behind (suc n) [] i s h = refl
take-set_behind (suc n) (x ∷ slots) zero s h = absurd (omega arith)
take-set_behind (suc n) (x ∷ slots) (suc i) s h =
    ap (◌∷◌ x) (take-set_behind n slots i s (omega arith))

move_up-add :
    (a b j : ℕ) (slots : List Slot)
    → move_up (a + b) j slots ≡ move_up b (j + a) (move_up a j slots)
unfolding move_up
move_up-add zero b j slots =
    let e : 0 + b ≡ b = omega arith in let e' : j + 0 ≡ j = omega arith in rw (e, e')
move_up-add (suc a) b j slots =
    let e : suc a + b ≡ suc (a + b) = omega arith in
    let e' : j + suc a ≡ j + 1 + a = omega arith in rw (e, e') (move_up-add a b (j + 1) _)

take-move_up_behind :
    (b j n : ℕ) (slots : List Slot) → n + 1 ≤ j → take n (move_up b j slots) ≡ take n slots
unfolding move_up
take-move_up_behind zero j n slots h = refl
take-move_up_behind (suc b) j n slots h =
    take-move_up_behind b (j + 1) n _ (omega arith)
    ∙ take-set_behind n slots (j - 1) _ (omega arith)

-- Nor does it matter how much farther the loop goes.
pub take-move_up_past :
    (name : List ℕ) (n limit : ℕ) (slots : List Slot)
    → n ≤ length slots
    → n ≤ limit
    → search_slots name n slots < n
    → take
        (n - 1)
        (move_up (limit - (search_slots name n slots + 1)) (search_slots name n slots + 1) slots)
      ≡ erase name (take n slots)
take-move_up_past name n limit slots h past lt =
    let k = search_slots name n slots + 1 in
    let rounds : limit - k ≡ n - k + (limit - n) = omega arith in
    rw (rounds, move_up-add (n - k) (limit - n) k slots)
      (take-move_up_behind (limit - n) (k + (n - k)) (n - 1) (move_up (n - k) k slots) (omega arith)
        ∙ take-move_up_found name n slots h lt)

-- A shorter search that still reaches the slot found finds it.
pub search_slots-shorter :
    (name : List ℕ) (m n : ℕ) (slots : List Slot)
    → m ≤ n
    → search_slots name n slots < m
    → search_slots name m slots ≡ search_slots name n slots
unfolding search_slots
search_slots-shorter name zero n slots h lt = absurd (omega arith)
search_slots-shorter name (suc m) zero slots h lt = absurd (omega arith)
search_slots-shorter name (suc m) (suc n) [] h lt = absurd (omega arith)
search_slots-shorter name (suc m) (suc n) (s ∷ slots) h lt = elim (Bool-cases (named name s)) [
  | inl hit ↦ rw hit
  | inr miss ↦ rw miss (
      ap suc (search_slots-shorter name m n slots (omega arith) (suc-le-suc_iff.0 (rw miss at lt))))
]

-- `find` reports `count` exactly for a name that no entry has.
pub lookup-search_slots :
    (name : List ℕ) (n : ℕ) (slots : List Slot)
    → n ≤ length slots
    → search_slots name n slots < n
    → lookup name (take n slots) ≡ some (get_or slots (search_slots name n slots) empty_slot).key
unfolding search_slots lookup
lookup-search_slots name zero slots h lt = absurd (omega arith)
lookup-search_slots name (suc n) [] h lt = absurd (omega arith)
lookup-search_slots name (suc n) (s ∷ slots) h lt = elim (Bool-cases (named name s)) [
  | inl hit ↦ rw hit
  | inr miss ↦
      rw miss (lookup-search_slots name n slots (omega arith) (suc-le-suc_iff.0 (rw miss at lt)))
]

pub lookup-none :
    (name : List ℕ) (n : ℕ) (slots : List Slot)
    → n ≤ length slots
    → search_slots name n slots ≡ n
    → lookup name (take n slots) ≡ none
unfolding search_slots lookup
lookup-none name zero slots h e = refl
lookup-none name (suc n) [] h e = absurd (omega arith)
lookup-none name (suc n) (s ∷ slots) h e = elim (Bool-cases (named name s)) [
  | inl hit ↦ absurd (ground arith)
  | inr miss ↦ rw miss (lookup-none name n slots (omega arith) (ground arith))
]
