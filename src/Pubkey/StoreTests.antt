-- ===== src/Pubkey/StoreTests.antt =====
-- src/e4c_pk_store_mem.c at concrete inputs.
use libe.Common.{List, arith, if◌then◌else◌, none, replicate, ℕ, ◌≡◌, ◌≢◌, ◌⊎◌}
use libe.Pubkey.Clients.{two_devices-IsTable, one_device-IsTable, a_client, small_client}
use libe.Common.Memory.{memcmp}
use libe.Pubkey.MemStore.{remove_device}
use libe.Table.{find, named, search_slots}
use libe.Table.Entries.{IsTable}
use libe.Protocol.{result_ok, error_devicepk_missing}
use libe.Pubkey.MemStore.Devices.{pubkey_of, remove_device-keeps_pubkey, remove_device-pubkey_of}
use libe.Table.Maps.{same_name}

remove_device-pubkey_of_example :
    let (r, s') = remove_device small_client (replicate 16 9) in
    IsTable s'.devices
    × (((r ≡ result_ok)
          × (pubkey_of small_client (replicate 16 9) ≢ none)
          × ((other : List ℕ)
              → pubkey_of s' other ≡ (
                  if same_name (replicate 16 9) other then none else pubkey_of small_client other)))
        ⊎ ((r ≡ error_devicepk_missing)
            × (s' ≡ small_client)
            × (pubkey_of small_client (replicate 16 9) ≡ none)))
remove_device-pubkey_of_example =
    remove_device-pubkey_of small_client one_device-IsTable (replicate 16 9) (omega arith)

remove_device-keeps_pubkey_example :
    let (r, s') = remove_device a_client (replicate 16 9) in
    (r ≡ result_ok)
    × (s'.devices.count ≡ 1)
    × (pubkey_of s' (replicate 16 9) ≡ pubkey_of a_client (replicate 16 9))
unfolding find search_slots named memcmp
remove_device-keeps_pubkey_example =
    remove_device-keeps_pubkey a_client two_devices-IsTable (replicate 16 9) (omega arith)
      (omega arith)
