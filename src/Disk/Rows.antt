-- ===== src/Disk/Rows.antt =====
-- What src/e4c_store_file.c and src/e4c_pk_store_file.c write, they read.
use libe.Common.{
  Bool, Bool-cases, List, Option, [], arith, drop, drop_front, false, inl, inr, leb, length,
  length-append, length-take, le→ltb, ltb, overwrite, refl, replicate, set, some, suc, take,
  take_all, take_front, true, zero, ℕ, ◌%◌, ◌*◌, ◌++◌, ◌+◌, ◌/◌, ◌==◌, ◌^◌, ◌∷◌, ◌≡◌, ◌≤◌,
}
use libe.Common.Memory.{c_string}
use mathlib.Core.List.{append_assoc, append-nil}
use libe.Protocol.{result_ok}
use libe.Table.{Slot, Table, empty_slot}
use libe.Table.Entries.{entries}
use libe.Disk.{contents, rows, table_image, read_rows, read_table, write_back}

-- The slots have names of 16 bytes and keys of 32.
abbrev pub AllSized : List Slot → Type 0
AllSized [] = Unit
AllSized (s ∷ slots) = (length s.id ≡ 16) × (length s.key ≡ 32) × AllSized slots

-- The array has its length, and the count does not go beyond the last slot.
pub record IsSizedTable (t : Table) : Type 0 where
  pub count : t.count ≤ 100
  pub array : length t.slots ≡ 100
  pub sized : AllSized t.slots

pub AllSized-replicate : (n : ℕ) → AllSized (replicate n empty_slot)
AllSized-replicate zero = tt
AllSized-replicate (suc n) = (refl, refl, AllSized-replicate n)

AllSized-drop : (n : ℕ) (slots : List Slot) → AllSized slots → AllSized (drop n slots)
AllSized-drop zero slots v = v
AllSized-drop (suc n) [] v = tt
AllSized-drop (suc n) (s ∷ slots) v = AllSized-drop n slots v.2

pub AllSized-set :
    (slots : List Slot) (i : ℕ) (s : Slot)
    → length s.id ≡ 16
    → length s.key ≡ 32
    → AllSized slots
    → AllSized (set slots i s)
AllSized-set [] i s e f v = tt
AllSized-set (t ∷ slots) zero s e f v = (e, f, v.2)
AllSized-set (t ∷ slots) (suc i) s e f v = (v.0, v.1, AllSized-set slots i s e f v.2)

drop_all {ℓ} : {A : Type ℓ} (n : ℕ) (xs : List A) → length xs ≤ n → drop n xs ≡ []
drop_all zero [] h = refl
drop_all zero (x ∷ xs) h = absurd (omega arith)
drop_all (suc n) [] h = refl
drop_all (suc n) (x ∷ xs) h = drop_all n xs (omega arith)

-- A whole buffer is filled from the front of what follows.
pub filled :
    (n : ℕ) (src dst rest : List ℕ)
    → length src ≡ n
    → length dst ≡ n
    → (overwrite (take n (src ++ rest)) dst ≡ src)
      × (drop n (src ++ rest) ≡ rest)
      × (ltb (length (src ++ rest)) n ≡ false)
filled n src dst rest e f =
    let a = length-append src rest in
    let long : n ≤ length (src ++ rest) = omega (arith, e, a) in
    (
      rw (take_front n src rest e, drop_all (length src) dst (omega arith)) (append-nil src),
      drop_front n src rest e,
      le→ltb (length (src ++ rest)) n long,
    )

read_rows-rows :
    (n : ℕ) (slots into : List Slot) (tail : List ℕ)
    → n ≤ length slots
    → n ≤ length into
    → AllSized slots
    → AllSized into
    → read_rows n (rows n slots ++ tail) into ≡ (true, take n slots ++ drop n into, tail)
unfolding read_rows rows
read_rows-rows zero slots into tail h g v w = refl
read_rows-rows (suc n) [] into tail h g v w = absurd (omega arith)
read_rows-rows (suc n) (s ∷ slots) [] tail h g v w = absurd (omega arith)
read_rows-rows (suc n) (s ∷ slots) (t ∷ into) tail h g v w =
    let ih = read_rows-rows n slots into tail (omega arith) (omega arith) v.2 w.2 in
    let later = rows n slots ++ tail in
    let shape : (s.id ++ (s.key ++ rows n slots)) ++ tail ≡ s.id ++ (s.key ++ later) =
      rw (append_assoc, append_assoc) in
    let name = filled 16 s.id t.id (s.key ++ later) v.0 w.0 in
    let key = filled 32 s.key t.key later v.1 w.1 in
    rw (shape, name.0, name.1, name.2, key.0, key.1, key.2, ih)

-- The table that reading another one into it leaves.
abbrev pub table_over : Table → Table → Table
table_over t into = record {
  count = t.count;
  slots = take t.count t.slots ++ drop t.count into.slots;
}

pub read_table-table_image :
    (t into : Table) (tail : List ℕ)
    → IsSizedTable t
    → IsSizedTable into
    → read_table into (table_image t ++ tail) ≡ (true, table_over t into, tail)
unfolding read_table
read_table-table_image t into tail v w =
    let count : t.count % 2 ^ 8 + t.count / 2 ^ 8 * 2 ^ 8 ≡ t.count = omega arith in
    let few : ltb 100 t.count ≡ false = le→ltb 100 t.count v.count in
    let there =
      read_rows-rows t.count t.slots into.slots tail (omega (arith, v.count, v.array))
        (omega (arith, v.count, w.array)) v.sized w.sized in
    let two : ltb (length (table_image t ++ tail)) 2 ≡ false = ground arith in
    rw (count, two, few, there)

pub entries-table_over : (t into : Table) → IsSizedTable t → entries (table_over t into) ≡ entries t
entries-table_over t into v =
    take_front t.count (take t.count t.slots) (drop t.count into.slots)
      (omega (arith, length-take t.count t.slots, v.count, v.array))

-- Writing back reports OK exactly if the storage has a path, the file opens and all bytes are
-- taken, and then the file starts with them.
pub write_back-ok :
    (opens : Bool) (accepted : ℕ) (filepath all : List ℕ) (file : Option (List ℕ))
    → (write_back opens accepted filepath all file).0 ≡ result_ok
    → (tail : List ℕ) × ((write_back opens accepted filepath all file).1 ≡ some (all ++ tail))
unfolding write_back
write_back-ok opens accepted filepath all file e =
    elim (Bool-cases (length (c_string filepath) == 0)) [
      | inl no_path ↦ cc (rw no_path at e)
      | inr path ↦ elim (Bool-cases opens) [
        | inr shut ↦ cc (rw (path, shut) at e)
        | inl open_file ↦ elim (Bool-cases (leb (length all) accepted)) [
          | inr part ↦ cc (rw (path, open_file, part) at e)
          | inl whole ↦ (
            drop (length all) (contents file),
            rw (path, open_file, take_all accepted all (ground arith)),
          )
        ]
      ]
    ]
