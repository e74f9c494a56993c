-- ===== src/Table/Stale.antt =====
-- The loop that removes a slot, with a limit that is too low.
use libe.Common.{List, arith, refl, set, some, sym, ℕ, ◌+◌, ◌-◌, ◌<◌, ◌∙◌, ◌≡◌, ◌≤◌}
use libe.Table.{Table, find, remove, move_up, empty_slot}
use libe.Table.Entries.{IsTable, entries, lookup}
use libe.Table.Laws.{search_slots-shorter, lookup-search_slots, take-set_behind}
use libe.Table.Refinement.{remove_found, find_hit}

module _ (t : Table) (v : IsTable t) where
  -- Removing a name that is found before the last slot, with a limit that does not reach behind
  -- the slot found, drops the last slot instead: the name keeps its key.
  pub remove-stale :
      (limit : ℕ) (name : List ℕ)
      → find t name + 1 < t.count
      → limit ≤ find t name + 1
      → (t' : Table) × ((remove t limit name ≡ some t')
          × (t'.count ≡ t.count - 1)
          × (lookup name (entries t') ≡ lookup name (entries t)))
  unfolding find move_up
  remove-stale limit name inner low =
      let none_left : limit - (find t name + 1) ≡ 0 = omega arith in
      let lt : find t name < t.count = omega arith in
      let at =
        search_slots-shorter name (t.count - 1) t.count t.slots (omega arith) (omega arith) in
      let shorter =
        lookup-search_slots name (t.count - 1) t.slots (omega (arith, v.within, v.full_array))
          (omega (arith, at)) in
      (
        record { count = t.count - 1; slots = set t.slots t.count empty_slot },
        (
          remove_found t v limit name lt ∙ rw none_left,
          refl,
          rw (take-set_behind (t.count - 1) t.slots t.count empty_slot (omega arith))
              (shorter ∙ rw at (sym (find_hit t v name lt))),
        ),
      )
