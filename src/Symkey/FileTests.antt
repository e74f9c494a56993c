-- ===== src/Symkey/FileTests.antt =====
-- src/e4c_store_file.c at concrete inputs.
use libe.Common.{
  Bool, List, Option, [], arith, false, none, refl, replicate, some, suc, true, zero, ℕ, ◌==◌, ◌∷◌,
  ◌≡◌, ◌≤◌,
}
use libe.Common.Int.{pos}
use libe.Common.Memory.{memcmp, c_string}
use libe.Fixtures.{a_table-IsTable, hash_of_t, a_table, same_state}
use libe.Protocol.{error_persistence_error, result_ok}
use libe.Table.{Slot, Table, find, move_up, named, put, remove, search_slots, empty}
use libe.Table.Entries.{Absent, Distinct, IsTable, entries}
use libe.Symkey.MemStore.{behind, Symkey}
use libe.Disk.Rows.{AllSized-replicate}
use libe.Disk.{Filed, rows, write_back}
use libe.Symkey.MemStore.Keys.{key_of}
use libe.Symkey.FileStore.Saved.{IsSaved}
use libe.Symkey.FileStore.History.{
  AllSucceed, Operation, after_all, apply, apply_all, keying, load-apply_all, removing, setting,
  resetting,
}
use libe.Symkey.FileStore.Persistence.{remove_topic-full}
use libe.Symkey.FileStore.{
  configure_storage, image, load, sync, synced, set_topic_key, remove_topic, set_idkey,
  reset_topics,
}
use libe.Symkey.FileStore.Roundtrip.{IsSized, load-sync, configure_storage_lem}

abbrev path_f : List ℕ
path_f = b'f' ∷ 0 ∷ []

abbrev filed : Symkey
filed = record {
  id = replicate 16 9;
  key = replicate 32 8;
  table = a_table;
  filepath = b'f' ∷ replicate 255 0;
  ctrltopic = replicate 16 0;
}

abbrev fresh : Symkey
fresh = record {
  id = replicate 16 0;
  key = replicate 32 0;
  table = empty;
  filepath = replicate 256 0;
  ctrltopic = replicate 16 0;
}

filed-IsSized : IsSized filed
filed-IsSized = record {
  id = refl;
  key = refl;
  table = record { count = omega arith; array = refl; sized = (refl, refl, AllSized-replicate 99) };
}

fresh-IsSized : IsSized fresh
fresh-IsSized = record {
  id = refl;
  key = refl;
  table = record { count = omega arith; array = refl; sized = AllSized-replicate 100 };
}

abbrev disk : List ℕ → Option (List ℕ)
disk name = (sync true 102 filed (some (1 ∷ 2 ∷ 3 ∷ []))).1

load-sync_example :
    let (code, r') = load same_state disk fresh (some path_f) in
    ((sync true 102 filed (some (1 ∷ 2 ∷ 3 ∷ []))).0 ≡ result_ok)
    × (code ≡ result_ok)
    × (r'.id ≡ replicate 16 9)
    × (r'.key ≡ replicate 32 8)
    × (entries r'.table ≡ entries a_table)
unfolding image rows c_string
load-sync_example =
    load-sync filed filed-IsSized same_state disk fresh (some path_f) (some (1 ∷ 2 ∷ 3 ∷ [])) 102
      fresh-IsSized refl (omega arith) refl

configure_storage_lem_example :
    let (r, s') = configure_storage fresh (b'f' ∷ 0 ∷ []) in
    (r ≡ pos 1) × (c_string s'.filepath ≡ b'f' ∷ [])
configure_storage_lem_example = configure_storage_lem fresh (b'f' ∷ []) [] (refl, tt)

abbrev on_disk : Filed Symkey
on_disk = record { store = filed; file = none; syncs = 0 }

abbrev always : ℕ → Bool
always n = true

abbrev room : ℕ → ℕ
room n = 1000

abbrev new_hash : List ℕ
new_hash = replicate 16 5

abbrev new_key : List ℕ
new_key = replicate 32 4

-- As many topics as there is room for, each with a hash of its own.
abbrev numbered : ℕ → List Slot
numbered zero = []
numbered (suc n) = record { id = n ∷ replicate 15 0; key = replicate 32 1 } ∷ numbered n

numbered-Absent : (k n : ℕ) → n ≤ k → Absent (k ∷ replicate 15 0) (numbered n)
unfolding named memcmp
numbered-Absent k zero h = tt
numbered-Absent k (suc n) h =
    let differ : (n == k) ≡ false = ground arith in
    (ground arith, numbered-Absent k n (omega arith))

numbered-Distinct : (n : ℕ) → Distinct (numbered n)
numbered-Distinct zero = tt
numbered-Distinct (suc n) = (refl, numbered-Absent n n (omega arith), numbered-Distinct n)

abbrev full_table : Table
full_table = record { count = 100; slots = numbered 100 }

full_table-IsTable : IsTable full_table
full_table-IsTable = record {
  within = omega arith;
  full_array = refl;
  distinct = numbered-Distinct 100;
}

abbrev full_disk : Filed Symkey
full_disk = record on_disk { store = record filed { table = full_table } }

abbrev last_hash : List ℕ
last_hash = 99 ∷ replicate 15 0

remove_topic-full_example :
    let (r, f') = remove_topic always room full_disk last_hash in
    (r ≡ error_persistence_error)
    × (f'.file ≡ none)
    × (key_of f'.store last_hash ≡ none)
    × (c_string f'.store.filepath ≡ [])
unfolding find search_slots named memcmp
remove_topic-full_example =
    remove_topic-full always room full_disk last_hash full_table-IsTable refl (omega arith)

abbrev saved_disk : Filed Symkey
saved_disk = record { store = filed; file = some (image filed); syncs = 0 }

saved_disk-IsSaved : IsSaved saved_disk
unfolding image rows
saved_disk-IsSaved = record {
  sized = filed-IsSized;
  table = a_table-IsTable;
  saved = (filed, [], refl, filed-IsSized, refl);
}

-- A new topic, a new key of the device, a topic less, none at all, and the new topic again.
abbrev operations : List Operation
operations =
    setting new_hash new_key
    ∷ keying (replicate 32 7)
    ∷ removing hash_of_t
    ∷ resetting
    ∷ setting new_hash new_key
    ∷ []

operations_succeed : AllSucceed always room saved_disk operations
unfolding apply set_topic_key set_idkey put remove_topic reset_topics remove move_up find
    search_slots named memcmp synced sync write_back image rows c_string behind
operations_succeed = (
  (omega arith, omega arith, refl),
  (omega arith, (refl, (refl, ((omega arith, omega arith, refl), tt)))),
)

load-apply_all_example :
    let f' = apply_all always room saved_disk operations in
    let (code, r') = load same_state (λ name. f'.file) fresh (some path_f) in
    (code ≡ result_ok)
    × ((hash : List ℕ) → key_of r' hash ≡ after_all operations (key_of filed) hash)
load-apply_all_example =
    load-apply_all always room same_state
      (λ name. (apply_all always room saved_disk operations).file) fresh (some path_f) saved_disk
      operations fresh-IsSized saved_disk-IsSaved operations_succeed refl
