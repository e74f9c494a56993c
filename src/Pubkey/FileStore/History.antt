-- ===== src/Pubkey/FileStore/History.antt =====
-- src/e4c_pk_store_file.c: any sequence of operations on the topics and the devices, and the load
-- that follows.
use libe.Common.{
  Bool, List, Option, [], ap, ap₂, if◌then◌else◌, length, none, refl, some, take, ℕ, ◌<◌, ◌∙◌, ◌∷◌,
  ◌≡◌, ◌≤◌,
}
use mathlib.Core.Path.{fun_ext}
use libe.Protocol.{result_ok}
use libe.Table.{capacity, empty}
use libe.Table.Entries.{entries, lookup}
use libe.Table.Maps.{same_name}
use libe.Disk.{Filed, contents, path_or_default}
use libe.Pubkey.MemStore.{Pubkey}
use libe.Pubkey.FileStore.Operations.{
  remove_device, remove_topic, reset_devices, reset_topics, set_device_key, set_topic_key, synced,
}
use libe.Pubkey.FileStore.Saved.{
  IsPkSaved, set_topic_key-IsPkSaved, remove_device-IsPkSaved, remove_topic-IsPkSaved,
  reset_devices-IsPkSaved, reset_topics-IsPkSaved, set_device_key-IsPkSaved,
}
use libe.Pubkey.Curves.{Curves}
use libe.Pubkey.FileStore.Roundtrip.{IsSized, load-pk_image}
use libe.Common.Memory.{c_string}
use libe.Pubkey.FileStore.{configure_storage, load}

-- What a command asks of the topics and of the devices.
pub data PkOperation : Type 0 where
  setting_topic setting_device : List ℕ → List ℕ → PkOperation
  removing_topic removing_device : List ℕ → PkOperation
  resetting_topics resetting_devices : PkOperation

-- The specification: a storage is a map from hashes to keys, and one from ids to public keys.
abbrev Keys : Type 0
Keys = List ℕ → Option (List ℕ)

abbrev Contents : Type 0
Contents = Keys × Keys

abbrev pub contents_of : Pubkey → Contents
contents_of s = (λ hash. lookup hash (entries s.topics), λ id. lookup id (entries s.devices))

abbrev changed : List ℕ → Option (List ℕ) → Keys → Keys
changed name value k other = if same_name name other then value else k other

unfoldable pub pk_after : PkOperation → Contents → Contents
pk_after (setting_topic hash key) (topics, devices) =
    (changed hash (some (take 32 key)) topics, devices)
pk_after (setting_device id pubkey) (topics, devices) =
    (topics, changed id (some (take 32 pubkey)) devices)
pk_after (removing_topic hash) (topics, devices) = (changed hash none topics, devices)
pk_after (removing_device id) (topics, devices) = (topics, changed id none devices)
pk_after resetting_topics (topics, devices) = (λ hash. none, devices)
pk_after resetting_devices (topics, devices) = (topics, λ id. none)

unfoldable pub pk_after_all : List PkOperation → Contents → Contents
pk_after_all [] k = k
pk_after_all (op ∷ ops) k = pk_after_all ops (pk_after op k)

new_topics :
    (s s' : Pubkey) (topics : Keys)
    → ((hash : List ℕ) → lookup hash (entries s'.topics) ≡ topics hash)
    → s'.devices ≡ s.devices
    → contents_of s' ≡ (topics, (contents_of s).1)
new_topics s s' topics keys same =
    ap₂ (λ (a b : Keys). (a, b)) (fun_ext keys) (fun_ext (λ id. rw same))

new_devices :
    (s s' : Pubkey) (devices : Keys)
    → ((id : List ℕ) → lookup id (entries s'.devices) ≡ devices id)
    → s'.topics ≡ s.topics
    → contents_of s' ≡ ((contents_of s).0, devices)
new_devices s s' devices keys same =
    ap₂ (λ (a b : Keys). (a, b)) (fun_ext (λ hash. rw same)) (fun_ext keys)

module _ (opens : ℕ → Bool) (accepted : ℕ → ℕ) where
  unfoldable pub pk_apply : Filed Pubkey → PkOperation → Filed Pubkey
  pk_apply f (setting_topic hash key) = (set_topic_key opens accepted f hash key).1
  pk_apply f (setting_device id pubkey) = (set_device_key opens accepted f id pubkey).1
  pk_apply f (removing_topic hash) = (remove_topic opens accepted f hash).1
  pk_apply f (removing_device id) = (remove_device opens accepted f id).1
  pk_apply f resetting_topics = (reset_topics opens accepted f).1
  pk_apply f resetting_devices = (reset_devices opens accepted f).1

  unfoldable pub pk_apply_all : Filed Pubkey → List PkOperation → Filed Pubkey
  pk_apply_all f [] = f
  pk_apply_all f (op ∷ ops) = pk_apply_all (pk_apply f op) ops

  -- The operation has arguments of the right sizes and reports OK, or, where it drops the result of
  -- its sync, the sync does. A device is removed while there are at least as many topics as devices,
  -- and fewer devices than there is room for.
  abbrev pub PkSucceeds : Filed Pubkey → PkOperation → Type 0
  PkSucceeds f (setting_topic hash key) =
      (16 ≤ length hash)
      × (32 ≤ length key)
      × ((set_topic_key opens accepted f hash key).0 ≡ result_ok)
  PkSucceeds f (setting_device id pubkey) =
      (16 ≤ length id)
      × (32 ≤ length pubkey)
      × ((set_device_key opens accepted f id pubkey).0 ≡ result_ok)
  PkSucceeds f (removing_topic hash) = (remove_topic opens accepted f hash).0 ≡ result_ok
  PkSucceeds f (removing_device id) =
      (f.store.devices.count ≤ f.store.topics.count)
      × (f.store.devices.count < capacity)
      × ((remove_device opens accepted f id).0 ≡ result_ok)
  PkSucceeds f resetting_topics =
      (synced opens accepted f (record f.store { topics = empty })).0 ≡ result_ok
  PkSucceeds f resetting_devices =
      (synced opens accepted f (record f.store { devices = empty })).0 ≡ result_ok

  abbrev pub AllPkSucceed : Filed Pubkey → List PkOperation → Type 0
  AllPkSucceed f [] = Unit
  AllPkSucceed f (op ∷ ops) = PkSucceeds f op × AllPkSucceed (pk_apply f op) ops

  -- One operation: its effect on the two maps.
  pk_apply-IsPkSaved :
      (f : Filed Pubkey) (op : PkOperation)
      → IsPkSaved f
      → PkSucceeds f op
      → IsPkSaved (pk_apply f op)
        × (contents_of (pk_apply f op).store ≡ pk_after op (contents_of f.store))
  unfolding pk_apply pk_after
  pk_apply-IsPkSaved f (setting_topic hash key) h (n, m, ok) =
      let (saved, keys, same) =
        set_topic_key-IsPkSaved opens accepted f h.in_order hash key n m ok in
      (saved, new_topics f.store (pk_apply f (setting_topic hash key)).store _ keys same)
  pk_apply-IsPkSaved f (setting_device id pubkey) h (n, m, ok) =
      let (saved, keys, same) =
        set_device_key-IsPkSaved opens accepted f h.in_order id pubkey n m ok in
      (saved, new_devices f.store (pk_apply f (setting_device id pubkey)).store _ keys same)
  pk_apply-IsPkSaved f (removing_topic hash) h ok =
      let (saved, keys, same) = remove_topic-IsPkSaved opens accepted f h.in_order hash ok in
      (saved, new_topics f.store (pk_apply f (removing_topic hash)).store _ keys same)
  pk_apply-IsPkSaved f (removing_device id) h (as_many, room, ok) =
      let (saved, keys, same) =
        remove_device-IsPkSaved opens accepted f h.in_order id as_many room ok in
      (saved, new_devices f.store (pk_apply f (removing_device id)).store _ keys same)
  pk_apply-IsPkSaved f resetting_topics h ok =
      let (saved, keys, same) = reset_topics-IsPkSaved opens accepted f h.in_order ok in
      (saved, new_topics f.store (pk_apply f resetting_topics).store _ keys same)
  pk_apply-IsPkSaved f resetting_devices h ok =
      let (saved, keys, same) = reset_devices-IsPkSaved opens accepted f h.in_order ok in
      (saved, new_devices f.store (pk_apply f resetting_devices).store _ keys same)

  pk_apply_all-IsPkSaved :
      (ops : List PkOperation) (f : Filed Pubkey)
      → IsPkSaved f
      → AllPkSucceed f ops
      → IsPkSaved (pk_apply_all f ops)
        × (contents_of (pk_apply_all f ops).store ≡ pk_after_all ops (contents_of f.store))
  unfolding pk_apply_all pk_after_all
  pk_apply_all-IsPkSaved [] f h done = (h, refl)
  pk_apply_all-IsPkSaved (op ∷ ops) f h (ok, rest) =
      let (saved, step) = pk_apply-IsPkSaved f op h ok in
      let (end, contents) = pk_apply_all-IsPkSaved ops (pk_apply f op) saved rest in
      (end, contents ∙ ap (pk_after_all ops) step)

  -- A storage whose file holds it goes through any sequence of setting, removing and resetting topic
  -- keys and the public keys of devices, removing a device only while there are at least as many
  -- topics as devices and fewer devices than there is room for. If each operation reports OK, and so do
  -- the syncs whose result is dropped, then a storage that loads the file reports OK and has, for every
  -- topic and every device, the key that the specification gives, in which a storage is two maps.
  pub load-pk_apply_all :
      (keccak_f1600 : List ℕ → List ℕ) (cv : Curves) (files : List ℕ → Option (List ℕ)) (r : Pubkey)
      (path : Option (List ℕ)) (f : Filed Pubkey) (ops : List PkOperation)
      → IsSized r
      → IsPkSaved f
      → AllPkSucceed f ops
      → files (c_string (configure_storage r (path_or_default path)).1.filepath)
        ≡ (pk_apply_all f ops).file
      → let (code, r') = load keccak_f1600 cv files r path in
        (code ≡ result_ok) × (contents_of r' ≡ pk_after_all ops (contents_of f.store))
  load-pk_apply_all keccak_f1600 cv files r path f ops w h done same =
      let (end, contents) = pk_apply_all-IsPkSaved ops f h done in
      let s = (pk_apply_all f ops).store in
      let r' = (load keccak_f1600 cv files r path).1 in
      let (code, id, privkey, pubkey, c2key, topics, devices) =
        load-pk_image s end.in_order.sized keccak_f1600 cv files r path end.tail w
          (same ∙ end.saved) in
      let loaded : contents_of r' ≡ contents_of s =
        ap₂ (λ (a b : Keys). (a, b)) (fun_ext (λ hash. rw topics)) (fun_ext (λ id. rw devices)) in
      (code, loaded ∙ contents)
