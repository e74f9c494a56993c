-- ===== src/Table/Refinement.antt =====
-- The operations on a table refine those on its list of entries.
use libe.Common.{
  List, arith, false, get_or, inl, inr, leb, length, length-set, length-take, ltb, none, set, some,
  some_injective, suc, sym, take, true, ℕ, ◌%◌, ◌+◌, ◌-◌, ◌<◌, ◌==◌, ◌^◌, ◌∙◌, ◌≡◌, ◌≤◌, ◌⊎◌,
}
use mathlib.Core.Logic.{◌↔◌}
use mathlib.Core.Path.{subst}
use native.Mathlib.Decide.{dec_lt}
use libe.Table.{Table, put, find, capacity, empty_slot, move_up, remove}
use libe.Table.Entries.{entries, IsTable, insert, lookup, erase}
use libe.Table.Laws.{
  lookup-none, lookup-search_slots, search_slots-le, length-move_up, take-move_up_past,
  take-set_behind, take-set_found, take-set_new,
}
use libe.Table.Maps.{Distinct-erase, Distinct-insert}

sixteen : (name : List ℕ) → 16 ≤ length name → length (take 16 name) ≡ 16
sixteen name h = omega (arith, length-take 16 name)

module _ (t : Table) (v : IsTable t) where
  pub find-le : (name : List ℕ) → find t name ≤ t.count
  unfolding find
  find-le name = search_slots-le name t.count t.slots

  -- The lookup of a name by index and its lookup in the list of entries agree.
  pub find_hit :
      (name : List ℕ)
      → find t name < t.count
      → lookup name (entries t) ≡ some (get_or t.slots (find t name) empty_slot).key
  unfolding find
  find_hit name lt =
      lookup-search_slots name t.count t.slots (omega (arith, v.within, v.full_array)) lt

  pub find_miss : (name : List ℕ) → find t name ≡ t.count → lookup name (entries t) ≡ none
  unfolding find
  find_miss name e = lookup-none name t.count t.slots (omega (arith, v.within, v.full_array)) e

  -- The table that storing leaves where the name is found, and where it is new.
  put_found :
      (name key : List ℕ)
      → find t name < t.count
      → put t name key
        ≡ some (record t {
          slots = set t.slots (find t name) (record { id = take 16 name; key = take 32 key });
        })
  unfolding put
  put_found name key lt =
      let room : leb capacity (find t name) ≡ false = ground (arith, v.within) in
      let old : (find t name == t.count) ≡ false = ground arith in rw (room, old)

  put_new :
      (name key : List ℕ)
      → find t name ≡ t.count
      → t.count < capacity
      → put t name key
        ≡ some (record {
          count = suc t.count;
          slots = set t.slots t.count (record { id = take 16 name; key = take 32 key });
        })
  unfolding put
  put_new name key e lt =
      let room : leb capacity t.count ≡ false = ground arith in
      let new : (t.count == t.count) ≡ true = ground arith in
      let more : (t.count + 1) % 2 ^ 16 ≡ suc t.count = omega arith in rw (e, room, new, more)

  put_full :
      (name key : List ℕ) → find t name ≡ t.count → t.count ≡ capacity → put t name key ≡ none
  unfolding put
  put_full name key e full = rw (e, full)

  -- Where the search of a name ends.
  places :
      (name : List ℕ)
      → (find t name < t.count)
        ⊎ ((find t name ≡ t.count) × (t.count < capacity)
            ⊎ (find t name ≡ t.count) × (t.count ≡ capacity))
  places name = elim (dec_lt (find t name) t.count) [
    | yes lt ↦ inl lt
    | no ge ↦ elim (dec_lt t.count capacity) [
      | yes room ↦ inr (inl (omega (arith, find-le name), room))
      | no full ↦ inr (inr (omega (arith, find-le name), omega (arith, v.within)))
    ]
  ]

  -- Storing a key under a name inserts it in the list of entries.
  pub put-entries :
      (name key : List ℕ) (t' : Table)
      → 16 ≤ length name
      → put t name key ≡ some t'
      → IsTable t' × (entries t' ≡ insert name key (entries t))
  unfolding find
  put-entries name key t' n e =
      let Kept = λ (x : Table). IsTable x × (entries x ≡ insert name key (entries t)) in
      let distinct = Distinct-insert name key (entries t) (sixteen name n) v.distinct in
      elim (places name) [
        | inl lt ↦
            let same =
              take-set_found name key t.count t.slots (omega (arith, v.within, v.full_array)) lt in
            subst Kept (some_injective (sym (put_found name key lt) ∙ e)) (
              record {
                within = v.within;
                full_array = length-set _ _ _ ∙ v.full_array;
                distinct = rw same distinct;
              },
              same,
            )
        | inr (inl (at, room)) ↦
            let same = take-set_new name key t.count t.slots (omega (arith, v.full_array)) at in
            subst Kept (some_injective (sym (put_new name key at room) ∙ e)) (
              record {
                within = room;
                full_array = length-set _ _ _ ∙ v.full_array;
                distinct = rw same distinct;
              },
              same,
            )
        | inr (inr (at, full)) ↦ cc (put_full name key at full)
      ]

  -- Storing fails exactly if the name is new and all slots are in use.
  pub put-eq-none :
      (name key : List ℕ)
      → (put t name key ≡ none) ↔ ((t.count ≡ capacity) × (lookup name (entries t) ≡ none))
  put-eq-none name key = elim (places name) [
    | inl lt ↦ (λ e. cc (put_found name key lt, e), λ h. cc (find_hit name lt, h.1))
    | inr (inl (at, room)) ↦
        (λ e. cc (put_new name key at room, e), λ h. absurd (omega (arith, h.0)))
    | inr (inr (at, full)) ↦ (λ e. (full, find_miss name at), λ h. put_full name key at full)
  ]

  pub remove_found :
      (limit : ℕ) (name : List ℕ)
      → find t name < t.count
      → remove t limit name
        ≡ some (record {
          count = t.count - 1;
          slots =
              set
                (move_up (limit - (find t name + 1)) (find t name + 1) t.slots)
                t.count
                empty_slot;
        })
  unfolding remove
  remove_found limit name lt = let hit : ltb (find t name) t.count ≡ true = ground arith in rw hit

  remove_missing : (limit : ℕ) (name : List ℕ) → find t name ≡ t.count → remove t limit name ≡ none
  unfolding remove
  remove_missing limit name e =
      let miss : ltb (find t name) t.count ≡ false = ground arith in rw miss

  -- Removing a name with at least the count as the limit leaves its entry out of the list of
  -- entries.
  pub remove-entries :
      (limit : ℕ) (name : List ℕ) (t' : Table)
      → t.count ≤ limit
      → remove t limit name ≡ some t'
      → IsTable t' × (entries t' ≡ erase name (entries t))
  unfolding find
  remove-entries limit name t' past e =
      let Kept = λ (x : Table). IsTable x × (entries x ≡ erase name (entries t)) in
      elim (dec_lt (find t name) t.count) [
        | yes lt ↦
            let same =
              take-set_behind (t.count - 1)
                (move_up (limit - (find t name + 1)) (find t name + 1) t.slots) t.count empty_slot
                (omega arith)
              ∙ take-move_up_past name t.count limit t.slots (omega (arith, v.within, v.full_array))
                  past lt in
            subst Kept (some_injective (sym (remove_found limit name lt) ∙ e)) (
              record {
                within = omega (arith, v.within);
                full_array =
                    length-set _ _ _
                    ∙ (length-move_up (limit - (find t name + 1)) _ _ ∙ v.full_array);
                distinct = rw same (Distinct-erase name (entries t) v.distinct);
              },
              same,
            )
        | no ge ↦ cc (remove_missing limit name (omega (arith, find-le name)))
      ]

  -- Removing fails exactly if no entry has the name.
  pub remove-eq-none :
      (limit : ℕ) (name : List ℕ) → (remove t limit name ≡ none) ↔ (lookup name (entries t) ≡ none)
  remove-eq-none limit name = elim (dec_lt (find t name) t.count) [
    | yes lt ↦ (λ e. cc (remove_found limit name lt, e), λ h. cc (find_hit name lt, h))
    | no ge ↦
        let e : find t name ≡ t.count = omega (arith, find-le name) in
        (λ _. find_miss name e, λ _. remove_missing limit name e)
  ]
