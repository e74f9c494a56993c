-- ===== src/Pubkey/FileStore/Operations.antt =====
-- src/e4c_pk_store_file.c: the operations of src/e4pkcclient.c on a storage with its file.
use libe.Common.{Bool, List, Option, [], if◌then◌else◌, none, some, take, ℕ, ◌+◌, ◌==◌}
use libe.Common.Int.{ℤ}
use libe.Protocol.{
  result_ok, error_persistence_error, error_topickey_missing, error_devicepk_missing,
}
use libe.Table.{empty, put, remove}
use libe.Util.{zerocheck}
use libe.Disk.{Filed}
use libe.Pubkey.Curves.{Curves}
use libe.Pubkey.MemStore.{
  Pubkey, behind_topics, behind_devices, e4c_pubkey_c2sharedsecret_derivestore,
}
use libe.Pubkey.FileStore.{sync}
use libe.Pubkey.MemStore

unfoldable pub get_id : Filed Pubkey → List ℕ
get_id f = f.store.id

unfoldable pub get_idseckey : Filed Pubkey → ℤ × List ℕ
get_idseckey f = (result_ok, f.store.privkey)

unfoldable pub get_idpubkey : Filed Pubkey → ℤ × List ℕ
get_idpubkey f = (result_ok, f.store.pubkey)

unfoldable pub get_idseckey_cached : Filed Pubkey → Option (List ℕ)
get_idseckey_cached f = some f.store.privkey

unfoldable pub get_idpubkey_cached : Filed Pubkey → Option (List ℕ)
get_idpubkey_cached f = some f.store.pubkey

unfoldable get_c2_pubkey : Filed Pubkey → ℤ × List ℕ
get_c2_pubkey f =
    if zerocheck f.store.c2key == 0
    then (error_persistence_error, [])
    else (result_ok, f.store.c2key)

unfoldable get_c2_pubkey_cached : Filed Pubkey → Option (List ℕ)
get_c2_pubkey_cached f = if zerocheck f.store.c2key == 0 then none else some f.store.c2key

unfoldable set_c2sharedsecret : Filed Pubkey → List ℕ → ℤ × Filed Pubkey
set_c2sharedsecret f key =
    (result_ok, record f { store = record f.store { c2sharedkey = take 32 key } })

unfoldable pub get_c2sharedsecret : Filed Pubkey → ℤ × List ℕ
get_c2sharedsecret f =
    if zerocheck f.store.c2sharedkey == 0
    then (error_persistence_error, [])
    else (result_ok, f.store.c2sharedkey)

unfoldable get_c2sharedsecret_cached : Filed Pubkey → Option (List ℕ)
get_c2sharedsecret_cached f =
    if zerocheck f.store.c2sharedkey == 0 then none else some f.store.c2sharedkey

unfoldable pub gettopickey : Filed Pubkey → ℤ → Option (List ℕ)
unfolding MemStore.gettopickey
gettopickey f index = MemStore.gettopickey f.store index

unfoldable pub getdevicekey : Filed Pubkey → ℤ → Option (List ℕ)
unfolding MemStore.getdevicekey
getdevicekey f index = MemStore.getdevicekey f.store index

unfoldable pub getdeviceindex : Filed Pubkey → List ℕ → ℤ
unfolding MemStore.getdeviceindex
getdeviceindex f id = MemStore.getdeviceindex f.store id

module _ (keccak_f1600 : List ℕ → List ℕ) where
  unfoldable set_id : Filed Pubkey → List ℕ → ℤ × Filed Pubkey
  unfolding MemStore.set_id
  set_id f id = let (r, s) = MemStore.set_id keccak_f1600 f.store id in (r, record f { store = s })

  unfoldable pub gettopicindex : Filed Pubkey → List ℕ → ℤ
  unfolding MemStore.gettopicindex
  gettopicindex f topic = MemStore.gettopicindex keccak_f1600 f.store topic

  unfoldable pub is_device_ctrltopic : Filed Pubkey → List ℕ → ℤ
  unfolding MemStore.is_device_ctrltopic
  is_device_ctrltopic f topic = MemStore.is_device_ctrltopic keccak_f1600 f.store topic

-- The outcome of a sync depends on how many there were before it: whether the file opens, and the
-- bytes that are accepted.
module _ (opens : ℕ → Bool) (accepted : ℕ → ℕ) where
  -- The storage s is written to the file of f.
  unfoldable pub synced : Filed Pubkey → Pubkey → ℤ × Filed Pubkey
  unfolding sync
  synced f s =
      let (r, file) = sync (opens f.syncs) (accepted f.syncs) s f.file in
      (r, record { store = s; file = file; syncs = f.syncs + 1 })

  unfoldable pub set_topic_key : Filed Pubkey → List ℕ → List ℕ → ℤ × Filed Pubkey
  unfolding synced
  set_topic_key f topic_hash key = elim (put f.store.topics topic_hash key) [
    | none ↦ (error_topickey_missing, f)
    | some topics ↦ synced f (record f.store { topics = topics })
  ]

  unfoldable pub remove_topic : Filed Pubkey → List ℕ → ℤ × Filed Pubkey
  unfolding synced behind_topics
  remove_topic f topic_hash = elim (remove f.store.topics f.store.topics.count topic_hash) [
    | none ↦ (error_topickey_missing, f)
    | some topics ↦ synced f (record f.store { topics = topics; filepath = behind_topics f.store })
  ]

  -- The code of the sync is dropped here and in the operations below that report OK.
  unfoldable pub reset_topics : Filed Pubkey → ℤ × Filed Pubkey
  unfolding synced
  reset_topics f = (result_ok, (synced f (record f.store { topics = empty })).1)

  unfoldable set_idpubkey : Filed Pubkey → List ℕ → ℤ × Filed Pubkey
  unfolding synced
  set_idpubkey f pubkey = (result_ok, (synced f (record f.store { pubkey = take 32 pubkey })).1)

  unfoldable pub set_device_key : Filed Pubkey → List ℕ → List ℕ → ℤ × Filed Pubkey
  unfolding synced
  set_device_key f id pubkey = elim (put f.store.devices id pubkey) [
    | none ↦ (error_devicepk_missing, f)
    | some devices ↦ synced f (record f.store { devices = devices })
  ]

  -- The loop that moves the devices up is bounded by the count of the topics.
  unfoldable pub remove_device : Filed Pubkey → List ℕ → ℤ × Filed Pubkey
  unfolding synced behind_devices
  remove_device f id = elim (remove f.store.devices f.store.topics.count id) [
    | none ↦ (error_devicepk_missing, f)
    | some devices ↦
        synced f (record f.store { devices = devices; topics = behind_devices f.store })
  ]

  unfoldable pub reset_devices : Filed Pubkey → ℤ × Filed Pubkey
  unfolding synced
  reset_devices f = (result_ok, (synced f (record f.store { devices = empty })).1)

  module _ (keccak_f1600 : List ℕ → List ℕ) (cv : Curves) where
    -- The shared secret of a storage that was synced.
    unfoldable derived : Filed Pubkey → Filed Pubkey
    derived f = record f {
      store = (e4c_pubkey_c2sharedsecret_derivestore keccak_f1600 cv f.store).1;
    }

    unfoldable pub set_idseckey : Filed Pubkey → List ℕ → ℤ × Filed Pubkey
    unfolding synced derived
    set_idseckey f key =
        let f' = (synced f (record f.store { privkey = take 64 key })).1 in
        (result_ok, if zerocheck f'.store.c2key == 0 then f' else derived f')

    unfoldable set_c2_pubkey : Filed Pubkey → List ℕ → ℤ × Filed Pubkey
    unfolding synced derived
    set_c2_pubkey f key =
        let f' = (synced f (record f.store { c2key = take 32 key })).1 in
        (result_ok, if zerocheck f'.store.privkey == 0 then f' else derived f')
