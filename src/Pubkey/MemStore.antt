-- ===== src/Pubkey/MemStore.antt =====
-- src/e4c_pk_store_mem.c: the storage of the public-key variant in memory, with the struct of
-- include/e4/internal/e4c_pk_store_file.h. The permutation of SHA-3 and the operations on curves
-- are parameters.
pub mod Secret
pub mod Identity
pub mod Devices
pub mod Instance
use libe.Common.{
  List, Option, [], get_or, if◌then◌else◌, leb, none, not, replicate, set, some, take, ℕ, ◌+◌, ◌==◌,
}
use libe.Common.Int.{ℤ, pos, negsuc, is_zero}
use libe.Common.Memory.{memcmp}
use libe.Protocol.{
  result_ok, ctrltopic_len, error_persistence_error, error_topickey_missing, topichash_len,
  error_devicepk_missing,
}
use libe.Table.{Table, empty, capacity, empty_slot, find, put, remove}
use libe.Util.{zeroize, zerocheck, e4c_derive_control_topic, e4c_derive_topichash}
use libe.Pubkey.Curves.{Curves}
use libe.Pubkey.Client.{e4c_pubkey_c2sharedsecret_derive}

-- `devices` with `devicecount` and `topics` with `topiccount` are the tables. In the struct the
-- array of the topics stands right behind that of the devices, and `filepath` behind it.
pub record Pubkey : Type 0 where
  pub id : List ℕ
  pub privkey : List ℕ
  pub pubkey : List ℕ
  pub c2key : List ℕ
  pub c2sharedkey : List ℕ
  pub devices : Table
  pub topics : Table
  pub filepath : List ℕ
  pub ctrltopic : List ℕ

-- Five fields are left as they were: pubkey, c2key, c2sharedkey, and the devices with their count.
unfoldable init : Pubkey → ℤ × Pubkey
init s = (
  result_ok,
  record s {
    id = replicate 16 0;
    privkey = replicate 64 0;
    topics = empty;
    filepath = replicate 256 0;
    ctrltopic = replicate 16 0;
  },
)

unfoldable sync : Pubkey → ℤ
sync s = result_ok

unfoldable pub get_id : Pubkey → List ℕ
get_id s = s.id

unfoldable pub get_idseckey : Pubkey → ℤ × List ℕ
get_idseckey s = (result_ok, s.privkey)

unfoldable pub get_idpubkey : Pubkey → ℤ × List ℕ
get_idpubkey s = (result_ok, s.pubkey)

unfoldable pub get_idseckey_cached : Pubkey → Option (List ℕ)
get_idseckey_cached s = some s.privkey

unfoldable pub get_idpubkey_cached : Pubkey → Option (List ℕ)
get_idpubkey_cached s = some s.pubkey

unfoldable set_idpubkey : Pubkey → List ℕ → ℤ × Pubkey
set_idpubkey s pubkey = (result_ok, record s { pubkey = take 32 pubkey })

unfoldable pub get_c2_pubkey : Pubkey → ℤ × List ℕ
get_c2_pubkey s =
    if zerocheck s.c2key == 0 then (error_persistence_error, []) else (result_ok, s.c2key)

unfoldable pub set_c2sharedsecret : Pubkey → List ℕ → ℤ × Pubkey
set_c2sharedsecret s key = (result_ok, record s { c2sharedkey = take 32 key })

unfoldable pub get_c2sharedsecret : Pubkey → ℤ × List ℕ
get_c2sharedsecret s =
    if zerocheck s.c2sharedkey == 0
    then (error_persistence_error, [])
    else (result_ok, s.c2sharedkey)

-- The key at an index of a table.
unfoldable key_at : Table → ℤ → Option (List ℕ)
key_at t (pos index) =
    if leb t.count index then none else some (take 32 (get_or t.slots index empty_slot).key)
key_at t (negsuc _) = none

unfoldable pub gettopickey : Pubkey → ℤ → Option (List ℕ)
unfolding key_at
gettopickey s index = key_at s.topics index

unfoldable pub getdevicekey : Pubkey → ℤ → Option (List ℕ)
unfolding key_at
getdevicekey s index = key_at s.devices index

unfoldable pub getdeviceindex : Pubkey → List ℕ → ℤ
getdeviceindex s id =
    let i = find s.devices id in if leb s.devices.count i then error_devicepk_missing else pos i

unfoldable pub set_topic_key : Pubkey → List ℕ → List ℕ → ℤ × Pubkey
unfolding sync
set_topic_key s topic_hash key = elim (put s.topics topic_hash key) [
  | none ↦ (error_topickey_missing, s)
  | some topics ↦ let s' = record s { topics = topics } in (sync s', s')
]

-- ZERO(topic_keys[store->topiccount]) with all 100 slots in use clears the 48 bytes behind the
-- array, which are the first of `filepath`.
unfoldable pub behind_topics : Pubkey → List ℕ
behind_topics s = if leb capacity s.topics.count then zeroize s.filepath 48 else s.filepath

unfoldable pub remove_topic : Pubkey → List ℕ → ℤ × Pubkey
unfolding sync behind_topics
remove_topic s topic_hash = elim (remove s.topics s.topics.count topic_hash) [
  | none ↦ (error_topickey_missing, s)
  | some topics ↦ let s' = record s { topics = topics; filepath = behind_topics s } in (sync s', s')
]

unfoldable pub reset_topics : Pubkey → ℤ × Pubkey
reset_topics s = (result_ok, record s { topics = empty })

unfoldable pub set_device_key : Pubkey → List ℕ → List ℕ → ℤ × Pubkey
unfolding sync
set_device_key s id pubkey = elim (put s.devices id pubkey) [
  | none ↦ (error_devicepk_missing, s)
  | some devices ↦ let s' = record s { devices = devices } in (sync s', s')
]

-- ZERO(devicekeys[store->devicecount]) with all 100 slots in use clears the 48 bytes behind the
-- array, which are the first of `topics`.
unfoldable pub behind_devices : Pubkey → Table
behind_devices s =
    if leb capacity s.devices.count
    then record s.topics { slots = set s.topics.slots 0 empty_slot }
    else s.topics

-- The loop that moves the devices up is bounded by the count of the topics.
unfoldable pub remove_device : Pubkey → List ℕ → ℤ × Pubkey
unfolding sync behind_devices
remove_device s id = elim (remove s.devices s.topics.count id) [
  | none ↦ (error_devicepk_missing, s)
  | some devices ↦
      let s' = record s { devices = devices; topics = behind_devices s } in (sync s', s')
]

unfoldable pub reset_devices : Pubkey → ℤ × Pubkey
reset_devices s = (result_ok, record s { devices = empty })

module _ (keccak_f1600 : List ℕ → List ℕ) where
  -- From the control topic on.
  unfoldable pub set_id_topic : Pubkey → List ℕ → ℤ × List ℕ → ℤ × Pubkey
  set_id_topic s id (r, controltopic) =
      let (r', hash) = e4c_derive_topichash keccak_f1600 topichash_len controltopic in
      if not (is_zero r)
      then (r, s)
      else if not (is_zero r')
      then (r', record s { ctrltopic = replicate 16 0 })
      else (result_ok, record s { ctrltopic = hash; id = take 16 id })

  unfoldable pub set_id : Pubkey → List ℕ → ℤ × Pubkey
  unfolding set_id_topic
  set_id s id =
      set_id_topic s id
        (e4c_derive_control_topic (replicate (ctrltopic_len + 1) 0) (ctrltopic_len + 1) id)

  unfoldable pub gettopicindex : Pubkey → List ℕ → ℤ
  gettopicindex s topic =
      let (r, hash) = e4c_derive_topichash keccak_f1600 topichash_len topic in
      let i = find s.topics hash in
      if not (is_zero r)
      then error_persistence_error
      else if leb s.topics.count i
      then error_topickey_missing
      else pos i

  unfoldable pub is_device_ctrltopic : Pubkey → List ℕ → ℤ
  is_device_ctrltopic s topic =
      let (r, hash) = e4c_derive_topichash keccak_f1600 topichash_len topic in
      if not (is_zero r) then error_persistence_error else memcmp s.ctrltopic hash

  module _ (cv : Curves) where
    unfoldable pub store_derived : Pubkey → ℤ × List ℕ → ℤ × Pubkey
    unfolding set_c2sharedsecret
    store_derived s (r, sharedkey) =
        if not (is_zero r) then (r, s) else set_c2sharedsecret s sharedkey

    unfoldable pub e4c_pubkey_c2sharedsecret_derivestore : Pubkey → ℤ × Pubkey
    unfolding store_derived get_c2_pubkey get_idseckey
    e4c_pubkey_c2sharedsecret_derivestore s =
        store_derived s
          (e4c_pubkey_c2sharedsecret_derive keccak_f1600 cv (get_c2_pubkey s) (get_idseckey s))

    -- The code of the derivation is dropped.
    unfoldable pub set_idseckey : Pubkey → List ℕ → ℤ × Pubkey
    unfolding e4c_pubkey_c2sharedsecret_derivestore
    set_idseckey s key =
        let s' = record s { privkey = take 64 key } in
        if zerocheck s'.c2key == 0
        then (result_ok, s')
        else (result_ok, (e4c_pubkey_c2sharedsecret_derivestore s').1)

    unfoldable pub e4c_set_c2_pubkey : Pubkey → List ℕ → ℤ × Pubkey
    unfolding e4c_pubkey_c2sharedsecret_derivestore
    e4c_set_c2_pubkey s key =
        let s' = record s { c2key = take 32 key } in
        if zerocheck s'.privkey == 0
        then (result_ok, s')
        else (result_ok, (e4c_pubkey_c2sharedsecret_derivestore s').1)
