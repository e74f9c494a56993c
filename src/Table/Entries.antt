-- ===== src/Table/Entries.antt =====
-- The list of entries that a table stands for, and lists of entries as finite maps.
use libe.Common.{List, Option, [], false, if◌then◌else◌, length, none, some, take, ℕ, ◌∷◌, ◌≡◌, ◌≤◌}
use libe.Table.{Slot, Table, capacity, named}

abbrev pub entries : Table → List Slot
entries t = take t.count t.slots

-- The key under a name: that of the first entry with it.
unfoldable pub lookup : List ℕ → List Slot → Option (List ℕ)
lookup name [] = none
lookup name (s ∷ l) = if named name s then some s.key else lookup name l

-- The entry with that name is replaced, or a new one is put last.
unfoldable pub insert : List ℕ → List ℕ → List Slot → List Slot
insert name key [] = record { id = take 16 name; key = take 32 key } ∷ []
insert name key (s ∷ l) =
    if named name s
    then record { id = take 16 name; key = take 32 key } ∷ l
    else s ∷ insert name key l

-- The first entry with that name is left out.
unfoldable pub erase : List ℕ → List Slot → List Slot
erase name [] = []
erase name (s ∷ l) = if named name s then l else s ∷ erase name l

-- No entry has that name.
abbrev pub Absent : List ℕ → List Slot → Type 0
Absent name [] = Unit
Absent name (s ∷ l) = (named name s ≡ false) × Absent name l

-- Names are 16 bytes long, and no two entries share one.
abbrev pub Distinct : List Slot → Type 0
Distinct [] = Unit
Distinct (s ∷ l) = (length s.id ≡ 16) × Absent s.id l × Distinct l

pub record IsTable (t : Table) : Type 0 where
  pub within : t.count ≤ capacity
  pub full_array : length t.slots ≡ capacity
  pub distinct : Distinct (entries t)
