-- ===== src/Disk/Kept.antt =====
-- The slots of a table that src/e4c_store_file.c and src/e4c_pk_store_file.c keep to their sizes
-- while they store and remove.
use libe.Common.{
  Bool-cases, List, [], arith, get_or, inl, inr, leb, length, length-set, length-take, ltb, refl,
  some, some_injective, suc, zero, ℕ, ◌+◌, ◌-◌, ◌∙◌, ◌∷◌, ◌≡◌, ◌≤◌,
}
use mathlib.Core.Path.{subst}
use libe.Table.{Slot, Table, capacity, empty_slot, find, move_up, put, remove}
use libe.Table.Laws.{length-move_up}
use libe.Disk.Rows.{AllSized, AllSized-set, IsSizedTable}

AllSized-get_or :
    (slots : List Slot) (i : ℕ)
    → AllSized slots
    → (length (get_or slots i empty_slot).id ≡ 16) × (length (get_or slots i empty_slot).key ≡ 32)
AllSized-get_or [] i v = (refl, refl)
AllSized-get_or (s ∷ slots) zero v = (v.0, v.1)
AllSized-get_or (s ∷ slots) (suc i) v = AllSized-get_or slots i v.2

AllSized-move_up :
    (rounds j : ℕ) (slots : List Slot) → AllSized slots → AllSized (move_up rounds j slots)
unfolding move_up
AllSized-move_up zero j slots v = v
AllSized-move_up (suc rounds) j slots v =
    let moved = AllSized-get_or slots j v in
    AllSized-move_up rounds (j + 1) _ (AllSized-set slots (j - 1) _ moved.0 moved.1 v)

-- Storing a name and a key that are long enough keeps the sizes.
pub put-IsSizedTable :
    (t t' : Table) (name key : List ℕ)
    → 16 ≤ length name
    → 32 ≤ length key
    → put t name key ≡ some t'
    → IsSizedTable t
    → IsSizedTable t'
unfolding put
put-IsSizedTable t t' name key n m done v =
    let i = find t name in
    elim (Bool-cases (leb capacity i)) [
      | inl full ↦ cc (rw full at done)
      | inr room ↦ subst IsSizedTable (some_injective (rw room at done)) (record {
        count = ground (arith, v.count);
        array = length-set _ _ _ ∙ v.array;
        sized =
            AllSized-set t.slots i _ (omega (arith, length-take 16 name))
              (omega (arith, length-take 32 key)) v.sized;
      })
    ]

-- So does removing, whatever the limit of the loop is.
pub remove-IsSizedTable :
    (t t' : Table) (limit : ℕ) (name : List ℕ)
    → remove t limit name ≡ some t'
    → IsSizedTable t
    → IsSizedTable t'
unfolding remove
remove-IsSizedTable t t' limit name done v =
    let i = find t name in
    elim (Bool-cases (ltb i t.count)) [
      | inr absent ↦ cc (rw absent at done)
      | inl there ↦
          let moved = move_up (limit - (i + 1)) (i + 1) t.slots in
          subst IsSizedTable (some_injective (rw there at done)) (record {
            count = omega (arith, v.count);
            array = length-set moved _ _ ∙ (length-move_up (limit - (i + 1)) _ _ ∙ v.array);
            sized =
                AllSized-set moved t.count empty_slot refl refl
                  (AllSized-move_up (limit - (i + 1)) (i + 1) t.slots v.sized);
          })
    ]
