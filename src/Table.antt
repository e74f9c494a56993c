-- ===== src/Table.antt =====
-- The tables of keys in the storage structs: `topics` with `topiccount`, `devices` with
-- `devicecount`. The four stores (e4c_store_mem.c, e4c_store_file.c, e4c_pk_store_mem.c,
-- e4c_pk_store_file.c) search, extend and shrink them by the same loops.
pub mod Entries
pub mod Laws
pub mod Refinement
pub mod Maps
pub mod Stale
use libe.Common.{
  Bool, List, Option, [], get_or, if◌then◌else◌, leb, ltb, none, replicate, set, some, suc, take,
  zero, ℕ, ◌%◌, ◌+◌, ◌-◌, ◌==◌, ◌^◌, ◌∷◌,
}
use libe.Common.Int.{is_zero}
use libe.Common.Memory.{memcmp}

-- topic_key and device_key: 16 bytes of name, 32 bytes of key.
pub record Slot : Type 0 where
  pub id : List ℕ
  pub key : List ℕ

-- ZERO of a slot
abbrev pub empty_slot : Slot
empty_slot = record { id = replicate 16 0; key = replicate 32 0 }

-- E4_TOPICS_MAX and E4_DEVICES_MAX
abbrev pub capacity : ℕ
capacity = 100

pub record Table : Type 0 where
  pub count : ℕ
  pub slots : List Slot

abbrev pub empty : Table
empty = record { count = 0; slots = replicate capacity empty_slot }

-- memcmp(slots[i].id, name, 16) == 0
unfoldable pub named : List ℕ → Slot → Bool
named name s = is_zero (memcmp s.id (take 16 name))

-- The search loop: the index of the first slot with that name, or `count`.
unfoldable pub search_slots : List ℕ → ℕ → List Slot → ℕ
search_slots name zero slots = 0
search_slots name (suc n) [] = suc n
search_slots name (suc n) (s ∷ slots) =
    let rest = suc (search_slots name n slots) in if named name s then 0 else rest

unfoldable pub find : Table → List ℕ → ℕ
unfolding search_slots
find t name = search_slots name t.count t.slots

-- memcpy of name and key into slot i; a new slot is counted in the uint16_t. `none`: no space.
unfoldable pub put : Table → List ℕ → List ℕ → Option Table
unfolding find
put t name key =
    let i = find t name in
    if leb capacity i
    then none
    else some (record {
      count = if i == t.count then (t.count + 1) % 2 ^ 16 else t.count;
      slots = set t.slots i (record { id = take 16 name; key = take 32 key });
    })

-- for (; j < end; j++) memcpy(&slots[j - 1], &slots[j]), with end - j rounds left
unfoldable pub move_up : ℕ → ℕ → List Slot → List Slot
move_up zero j slots = slots
move_up (suc rounds) j slots =
    move_up rounds (j + 1) (set slots (j - 1) (get_or slots j empty_slot))

-- `limit` bounds the loop that moves the slots up. The slot that is zeroed is the one at the old
-- count; with 100 slots in use it lies behind the array, and the caller says what is there.
unfoldable pub remove : Table → ℕ → List ℕ → Option Table
unfolding find move_up
remove t limit name =
    let i = find t name in
    if ltb i t.count
    then some (record {
      count = t.count - 1;
      slots = set (move_up (limit - (i + 1)) (i + 1) t.slots) t.count empty_slot;
    })
    else none
