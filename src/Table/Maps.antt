-- ===== src/Table/Maps.antt =====
-- Lists of entries as finite maps: what `insert` and `erase` do to `lookup`.
use libe.Common.{
  Bool, Bool-cases, List, [], ap, arith, false, if◌then◌else◌, inl, inr, length, none, refl, some,
  suc, sym, take, take_all, true, zero, ℕ, ◌∙◌, ◌∷◌, ◌≡◌,
}
use libe.Common.Int.{is_zero}
use libe.Common.Memory.{memcmp, memcmp_self, memcmp_sound}
use libe.Table.{Slot, named}
use libe.Table.Entries.{lookup, insert, Absent, Distinct, erase}

-- Two names that the stores take for the same: their first 16 bytes agree.
unfoldable pub same_name : List ℕ → List ℕ → Bool
same_name a b = is_zero (memcmp (take 16 a) (take 16 b))

take-take {ℓ} : {A : Type ℓ} (n : ℕ) (xs : List A) → take n (take n xs) ≡ take n xs
take-take zero xs = refl
take-take (suc n) [] = refl
take-take (suc n) (x ∷ xs) = ap (◌∷◌ x) (take-take n xs)

named_sound : (name : List ℕ) (s : Slot) → named name s ≡ true → s.id ≡ take 16 name
unfolding named
named_sound name s h = memcmp_sound s.id (take 16 name) h

named_self : (name : List ℕ) (s : Slot) → s.id ≡ take 16 name → named name s ≡ true
unfolding named
named_self name s e = rw (e, memcmp_self (take 16 name))

same_name_sound : (a b : List ℕ) → same_name a b ≡ true → take 16 a ≡ take 16 b
unfolding same_name
same_name_sound a b h = memcmp_sound (take 16 a) (take 16 b) h

-- A slot that was stored under a name answers to the names that are the same.
named-stored :
    (name other key : List ℕ)
    → named other (record { id = take 16 name; key = key }) ≡ same_name name other
unfolding named same_name
named-stored name other key = refl

-- A name that equals a slot's name answers as the slot does.
named-hit :
    (name other : List ℕ) (s : Slot) → named name s ≡ true → named other s ≡ same_name name other
unfolding named same_name
named-hit name other s h = rw (named_sound name s h)

-- Two names that are the same are answered alike.
exclusive :
    (name other : List ℕ) (s : Slot)
    → named name s ≡ false
    → named other s ≡ true
    → same_name name other ≡ false
exclusive name other s miss hit = elim (Bool-cases (same_name name other)) [
  | inl same ↦
      cc (named_self name s (named_sound other s hit ∙ sym (same_name_sound name other same)))
  | inr differ ↦ differ
]

pub lookup-insert :
    (name key other : List ℕ) (l : List Slot)
    → lookup other (insert name key l)
      ≡ (if same_name name other then some (take 32 key) else lookup other l)
unfolding lookup insert
lookup-insert name key other [] = rw (named-stored name other (take 32 key))
lookup-insert name key other (s ∷ l) = elim (Bool-cases (named name s)) [
  | inl hit ↦
      rw (hit, named-hit name other s hit, named-stored name other (take 32 key)) (ground arith)
  | inr miss ↦ rw miss (ground (arith, lookup-insert name key other l, exclusive name other s miss))
]

-- An absent name has no key, and stays absent when entries are left out.
lookup-Absent : (name : List ℕ) (l : List Slot) → Absent name l → lookup name l ≡ none
unfolding lookup
lookup-Absent name [] h = refl
lookup-Absent name (s ∷ l) h = rw h.0 (lookup-Absent name l h.1)

Absent-insert :
    (name key other : List ℕ) (l : List Slot)
    → same_name name other ≡ false
    → Absent other l
    → Absent other (insert name key l)
unfolding insert
Absent-insert name key other [] differ h = (named-stored name other (take 32 key) ∙ differ, tt)
Absent-insert name key other (s ∷ l) differ h = elim (Bool-cases (named name s)) [
  | inl hit ↦ rw hit (named-stored name other (take 32 key) ∙ differ, h.1)
  | inr miss ↦ rw miss (h.0, Absent-insert name key other l differ h.1)
]

Absent-erase : (name other : List ℕ) (l : List Slot) → Absent other l → Absent other (erase name l)
unfolding erase
Absent-erase name other [] h = tt
Absent-erase name other (s ∷ l) h = elim (Bool-cases (named name s)) [
  | inl hit ↦ rw hit h.1
  | inr miss ↦ rw miss (h.0, Absent-erase name other l h.1)
]

Absent-same : (a b : List ℕ) (l : List Slot) → take 16 a ≡ take 16 b → Absent a l → Absent b l
unfolding named
Absent-same a b [] e h = tt
Absent-same a b (s ∷ l) e h = (rw (← e) h.0, Absent-same a b l e h.1)

-- A slot that does not answer to a name has another name.
other_name :
    (name : List ℕ) (s : Slot)
    → length s.id ≡ 16
    → named name s ≡ false
    → same_name name s.id ≡ false
other_name name s n miss = elim (Bool-cases (same_name name s.id)) [
  | inl same ↦
      cc (named_self name s (sym (same_name_sound name s.id same ∙ take_all 16 s.id (omega arith))))
  | inr differ ↦ differ
]

pub lookup-erase :
    (name other : List ℕ) (l : List Slot)
    → Distinct l
    → lookup other (erase name l) ≡ (if same_name name other then none else lookup other l)
unfolding lookup erase
lookup-erase name other [] d = ground arith
lookup-erase name other (s ∷ l) d = elim (Bool-cases (named name s)) [
  | inl hit ↦
      rw (hit, named-hit name other s hit)
        (elim (Bool-cases (same_name name other)) [
          | inl same ↦ rw same (
              lookup-Absent other l (
                Absent-same s.id other l
                  (ap (take 16) (named_sound name s hit)
                    ∙ (take-take 16 name ∙ same_name_sound name other same))
                  d.1))
          | inr differ ↦ rw differ
        ])
  | inr miss ↦ rw miss (ground (arith, lookup-erase name other l d.2, exclusive name other s miss))
]

pub Distinct-insert :
    (name key : List ℕ) (l : List Slot)
    → length (take 16 name) ≡ 16
    → Distinct l
    → Distinct (insert name key l)
unfolding insert
Distinct-insert name key [] n d = (n, tt, tt)
Distinct-insert name key (s ∷ l) n d = elim (Bool-cases (named name s)) [
  | inl hit ↦ rw hit (n, rw (← named_sound name s hit) d.1, d.2)
  | inr miss ↦ rw miss (
    d.0,
    Absent-insert name key s.id l (other_name name s d.0 miss) d.1,
    Distinct-insert name key l n d.2,
  )
]

pub Distinct-erase : (name : List ℕ) (l : List Slot) → Distinct l → Distinct (erase name l)
unfolding erase
Distinct-erase name [] d = tt
Distinct-erase name (s ∷ l) d = elim (Bool-cases (named name s)) [
  | inl hit ↦ rw hit d.2
  | inr miss ↦ rw miss (d.0, Absent-erase name s.id l d.1, Distinct-erase name l d.2)
]
