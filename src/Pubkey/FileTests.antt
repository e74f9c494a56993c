-- ===== src/Pubkey/FileTests.antt =====
-- src/e4c_pk_store_file.c at concrete inputs.
use libe.Common.{Bool, List, Option, [], arith, none, refl, replicate, some, true, ℕ, ◌∷◌, ◌≡◌}
use libe.Common.Memory.{c_string, memcmp}
use libe.Fixtures.{a_table, a_table-IsTable, same_state, xor_curves}
use libe.Protocol.{result_ok}
use libe.Table.{empty, find, move_up, named, put, remove, search_slots}
use libe.Table.Entries.{entries}
use libe.Disk.{Filed, rows, write_back}
use libe.Disk.Rows.{AllSized-replicate}
use libe.Pubkey.Clients.{two_devices, two_devices-IsTable}
use libe.Pubkey.MemStore.{Pubkey, behind_devices, behind_topics}
use libe.Pubkey.MemStore.Secret.{IsAgreed}
use libe.Pubkey.FileStore.{image, load, sync}
use libe.Pubkey.FileStore.Agreed.{load-IsAgreed}
use libe.Pubkey.FileStore.Operations.{
  remove_device, remove_topic, reset_devices, reset_topics, set_device_key, set_topic_key, synced,
}
use libe.Pubkey.FileStore.Saved.{IsPkSaved}
use libe.Pubkey.FileStore.History.{
  AllPkSucceed, PkOperation, contents_of, load-pk_apply_all, pk_after_all, pk_apply, pk_apply_all,
  removing_device, removing_topic, resetting_devices, setting_device, setting_topic,
}
use libe.Pubkey.FileStore.Roundtrip.{IsSized, load-pk_sync}

abbrev path_f : List ℕ
path_f = b'f' ∷ 0 ∷ []

abbrev filed : Pubkey
filed = record {
  id = replicate 16 9;
  privkey = replicate 64 5;
  pubkey = replicate 32 6;
  c2key = replicate 32 4;
  c2sharedkey = replicate 32 0;
  devices = two_devices;
  topics = a_table;
  filepath = b'f' ∷ replicate 255 0;
  ctrltopic = replicate 16 0;
}

abbrev fresh : Pubkey
fresh = record {
  id = replicate 16 0;
  privkey = replicate 64 0;
  pubkey = replicate 32 0;
  c2key = replicate 32 0;
  c2sharedkey = replicate 32 0;
  devices = empty;
  topics = empty;
  filepath = replicate 256 0;
  ctrltopic = replicate 16 0;
}

filed-IsSized : IsSized filed
filed-IsSized = record {
  id = refl;
  privkey = refl;
  pubkey = refl;
  c2key = refl;
  topics = record {
    count = omega arith;
    array = refl;
    sized = (refl, refl, AllSized-replicate 99);
  };
  devices = record {
    count = omega arith;
    array = refl;
    sized = (refl, refl, (refl, refl, AllSized-replicate 98));
  };
}

fresh-IsSized : IsSized fresh
fresh-IsSized = record {
  id = refl;
  privkey = refl;
  pubkey = refl;
  c2key = refl;
  topics = record { count = omega arith; array = refl; sized = AllSized-replicate 100 };
  devices = record { count = omega arith; array = refl; sized = AllSized-replicate 100 };
}

abbrev old : Option (List ℕ)
old = some (1 ∷ 2 ∷ 3 ∷ [])

abbrev disk : List ℕ → Option (List ℕ)
disk name = (sync true 400 filed old).1

load-pk_sync_example :
    let (code, r') = load same_state xor_curves disk fresh (some path_f) in
    ((sync true 400 filed old).0 ≡ result_ok)
    × (code ≡ result_ok)
    × (r'.id ≡ replicate 16 9)
    × (r'.privkey ≡ replicate 64 5)
    × (r'.pubkey ≡ replicate 32 6)
    × (r'.c2key ≡ replicate 32 4)
    × (entries r'.topics ≡ entries a_table)
    × (entries r'.devices ≡ entries two_devices)
    × IsAgreed same_state xor_curves r'
unfolding image rows c_string
load-pk_sync_example =
    load-pk_sync filed filed-IsSized same_state xor_curves disk fresh (some path_f) old 400
      fresh-IsSized refl (omega arith) refl

load-IsAgreed_example :
    IsAgreed same_state xor_curves (load same_state xor_curves disk fresh (some path_f)).1
load-IsAgreed_example =
    load-IsAgreed same_state xor_curves disk fresh (some path_f) load-pk_sync_example.1

abbrev on_disk : Filed Pubkey
on_disk = record { store = filed; file = none; syncs = 0 }

abbrev always : ℕ → Bool
always n = true

abbrev room : ℕ → ℕ
room n = 1000

abbrev new_id : List ℕ
new_id = replicate 16 3

abbrev new_key : List ℕ
new_key = replicate 32 2

abbrev saved_disk : Filed Pubkey
saved_disk = record { store = filed; file = some (image filed); syncs = 0 }

saved_disk-IsPkSaved : IsPkSaved saved_disk
unfolding image rows
saved_disk-IsPkSaved = record {
  in_order = record {
    sized = filed-IsSized;
    topics = a_table-IsTable;
    devices = two_devices-IsTable;
  };
  tail = [];
  saved = refl;
}

-- A new topic, a device less, a new device, a topic less, and then none of either.
abbrev operations : List PkOperation
operations =
    setting_topic new_id new_key
    ∷ removing_device (replicate 16 9)
    ∷ setting_device new_id new_key
    ∷ removing_topic new_id
    ∷ resetting_devices
    ∷ []

operations_succeed : AllPkSucceed always room saved_disk operations
unfolding pk_apply set_topic_key set_device_key put remove_topic remove_device reset_topics
    reset_devices remove move_up find search_slots named memcmp synced sync write_back image rows
    c_string behind_topics behind_devices
operations_succeed = (
  (omega arith, omega arith, refl),
  ((omega arith, omega arith, refl), ((omega arith, omega arith, refl), (refl, (refl, tt)))),
)

load-pk_apply_all_example :
    let f' = pk_apply_all always room saved_disk operations in
    let (code, r') = load same_state xor_curves (λ name. f'.file) fresh (some path_f) in
    (code ≡ result_ok) × (contents_of r' ≡ pk_after_all operations (contents_of filed))
load-pk_apply_all_example =
    load-pk_apply_all always room same_state xor_curves
      (λ name. (pk_apply_all always room saved_disk operations).file) fresh (some path_f) saved_disk
      operations fresh-IsSized saved_disk-IsPkSaved operations_succeed refl
