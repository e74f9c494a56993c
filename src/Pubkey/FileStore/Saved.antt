-- ===== src/Pubkey/FileStore/Saved.antt =====
-- src/e4c_pk_store_file.c: an operation that reports OK leaves the topics and the devices of the
-- storage in the file.
use libe.Common.{
  Bool, List, Option, Option-cases, arith, false, if◌then◌else◌, inl, inr, leb, length, none, refl,
  some, take, ℕ, ◌++◌, ◌<◌, ◌≡◌, ◌≤◌,
}
use libe.Protocol.{result_ok}
use libe.Table.{Table, capacity, empty, put, remove}
use libe.Table.Entries.{IsTable, entries, lookup}
use libe.Table.Maps.{lookup-erase, lookup-insert, same_name}
use libe.Table.Refinement.{put-entries, remove-entries}
use libe.Disk.{Filed}
use libe.Disk.Kept.{put-IsSizedTable, remove-IsSizedTable}
use libe.Disk.Rows.{AllSized-replicate, IsSizedTable, write_back-ok}
use libe.Pubkey.MemStore.{Pubkey, behind_devices, behind_topics}
use libe.Pubkey.FileStore.{image, sync}
use libe.Pubkey.FileStore.Operations.{
  remove_device, remove_topic, reset_devices, reset_topics, set_device_key, set_topic_key, synced,
}
use libe.Pubkey.FileStore.Roundtrip.{IsSized}

-- A storage in order.
pub record InOrder (s : Pubkey) : Type 0 where
  pub sized : IsSized s
  pub topics : IsTable s.topics
  pub devices : IsTable s.devices

-- The file begins with what the storage writes.
pub record IsPkSaved (f : Filed Pubkey) : Type 0 where
  pub in_order : InOrder f.store
  pub tail : List ℕ
  pub saved : f.file ≡ some (image f.store ++ tail)

-- The key under a name after it was set, or removed, and every other as it was.
abbrev pub Changed : Table → Table → List ℕ → Option (List ℕ) → Type 0
Changed t t' name value =
    (other : List ℕ)
    → lookup other (entries t') ≡ (if same_name name other then value else lookup other (entries t))

-- A table of a storage in order.
abbrev IsKept : Table → Type 0
IsKept t = IsSizedTable t × IsTable t

put-IsKept :
    (t t' : Table) (name key : List ℕ)
    → 16 ≤ length name
    → 32 ≤ length key
    → IsKept t
    → put t name key ≡ some t'
    → IsKept t' × Changed t t' name (some (take 32 key))
put-IsKept t t' name key n m (sized, v) done =
    let (in_order, inserted) = put-entries t v name key t' n done in
    (
      (put-IsSizedTable t t' name key n m done sized, in_order),
      λ other. rw inserted (lookup-insert name key other (entries t)),
    )

remove-IsKept :
    (t t' : Table) (limit : ℕ) (name : List ℕ)
    → t.count ≤ limit
    → IsKept t
    → remove t limit name ≡ some t'
    → IsKept t' × Changed t t' name none
remove-IsKept t t' limit name past (sized, v) done =
    let (in_order, erased) = remove-entries t v limit name t' past done in
    (
      (remove-IsSizedTable t t' limit name done sized, in_order),
      λ other. rw erased (lookup-erase name other (entries t) v.distinct),
    )

empty-IsKept : IsKept empty × ((other : List ℕ) → lookup other (entries empty) ≡ none)
unfolding lookup
empty-IsKept = (
  (
    record { count = omega arith; array = refl; sized = AllSized-replicate 100 },
    record { within = omega arith; full_array = refl; distinct = tt },
  ),
  λ other. refl,
)

with_topics :
    (s : Pubkey) (topics : Table) (filepath : List ℕ)
    → InOrder s
    → IsKept topics
    → InOrder (record s { topics = topics; filepath = filepath })
with_topics s topics filepath h (sized, v) = record {
  sized = record {
    id = h.sized.id;
    privkey = h.sized.privkey;
    pubkey = h.sized.pubkey;
    c2key = h.sized.c2key;
    topics = sized;
    devices = h.sized.devices;
  };
  topics = v;
  devices = h.devices;
}

with_devices :
    (s : Pubkey) (devices : Table)
    → InOrder s
    → IsKept devices
    → InOrder (record s { devices = devices })
with_devices s devices h (sized, v) = record {
  sized = record {
    id = h.sized.id;
    privkey = h.sized.privkey;
    pubkey = h.sized.pubkey;
    c2key = h.sized.c2key;
    topics = h.sized.topics;
    devices = sized;
  };
  topics = h.topics;
  devices = v;
}

module _ (opens : ℕ → Bool) (accepted : ℕ → ℕ) (f : Filed Pubkey) where
  synced-IsPkSaved :
      (s : Pubkey)
      → InOrder s
      → (synced opens accepted f s).0 ≡ result_ok
      → IsPkSaved (synced opens accepted f s).1
  unfolding synced sync
  synced-IsPkSaved s h ok =
      let (tail, written) =
        write_back-ok (opens f.syncs) (accepted f.syncs) s.filepath (image s) f.file ok in
      record { in_order = h; tail = tail; saved = written }

  module _ (h : InOrder f.store) where
    pub set_topic_key-IsPkSaved :
        (hash key : List ℕ)
        → 16 ≤ length hash
        → 32 ≤ length key
        → let (code, f') = set_topic_key opens accepted f hash key in
          code ≡ result_ok
          → IsPkSaved f'
            × Changed f.store.topics f'.store.topics hash (some (take 32 key))
            × (f'.store.devices ≡ f.store.devices)
    unfolding set_topic_key synced
    set_topic_key-IsPkSaved hash key n m ok = elim (Option-cases (put f.store.topics hash key)) [
      | inl full ↦ cc (rw (full, set_topic_key) at ok)
      | inr (topics, done) ↦
          let (kept, changed) =
            put-IsKept f.store.topics topics hash key n m (h.sized.topics, h.topics) done in
          let s' = with_topics f.store topics f.store.filepath h kept in
          rw (done, set_topic_key)
            (synced-IsPkSaved _ s' (rw (done, set_topic_key) at ok), changed, refl)
    ]

    pub set_device_key-IsPkSaved :
        (id pubkey : List ℕ)
        → 16 ≤ length id
        → 32 ≤ length pubkey
        → let (code, f') = set_device_key opens accepted f id pubkey in
          code ≡ result_ok
          → IsPkSaved f'
            × Changed f.store.devices f'.store.devices id (some (take 32 pubkey))
            × (f'.store.topics ≡ f.store.topics)
    unfolding set_device_key synced
    set_device_key-IsPkSaved id pubkey n m ok =
        elim (Option-cases (put f.store.devices id pubkey)) [
          | inl full ↦ cc (rw (full, set_device_key) at ok)
          | inr (devices, done) ↦
              let (kept, changed) =
                put-IsKept f.store.devices devices id pubkey n m (h.sized.devices, h.devices)
                  done in
              let s' = with_devices f.store devices h kept in
              rw (done, set_device_key)
                (synced-IsPkSaved _ s' (rw (done, set_device_key) at ok), changed, refl)
        ]

    pub remove_topic-IsPkSaved :
        (hash : List ℕ)
        → let (code, f') = remove_topic opens accepted f hash in
          code ≡ result_ok
          → IsPkSaved f'
            × Changed f.store.topics f'.store.topics hash none
            × (f'.store.devices ≡ f.store.devices)
    unfolding remove_topic synced
    remove_topic-IsPkSaved hash ok =
        let t = f.store.topics in
        elim (Option-cases (remove t t.count hash)) [
          | inl absent ↦ cc (rw (absent, remove_topic) at ok)
          | inr (topics, done) ↦
              let (kept, changed) =
                remove-IsKept t topics t.count hash (omega arith) (h.sized.topics, h.topics) done in
              let s' = with_topics f.store topics (behind_topics f.store) h kept in
              rw (done, remove_topic)
                (synced-IsPkSaved _ s' (rw (done, remove_topic) at ok), changed, refl)
        ]

    -- Here there are at least as many topics as devices, and not all devices are in use.
    pub remove_device-IsPkSaved :
        (id : List ℕ)
        → f.store.devices.count ≤ f.store.topics.count
        → f.store.devices.count < capacity
        → let (code, f') = remove_device opens accepted f id in
          code ≡ result_ok
          → IsPkSaved f'
            × Changed f.store.devices f'.store.devices id none
            × (f'.store.topics ≡ f.store.topics)
    unfolding remove_device synced behind_devices
    remove_device-IsPkSaved id as_many room ok =
        let t = f.store.devices in
        let not_full : leb capacity t.count ≡ false = ground arith in
        elim (Option-cases (remove t f.store.topics.count id)) [
          | inl absent ↦ cc (rw (absent, remove_device) at ok)
          | inr (devices, done) ↦
              let (kept, changed) =
                remove-IsKept t devices f.store.topics.count id as_many (h.sized.devices, h.devices)
                  done in
              let s' = with_devices f.store devices h kept in
              rw (done, remove_device, not_full)
                (synced-IsPkSaved _ s' (rw (done, remove_device, not_full) at ok), changed, refl)
        ]

    pub reset_topics-IsPkSaved :
        (synced opens accepted f (record f.store { topics = empty })).0 ≡ result_ok
        → let f' = (reset_topics opens accepted f).1 in
          IsPkSaved f'
          × ((other : List ℕ) → lookup other (entries f'.store.topics) ≡ none)
          × (f'.store.devices ≡ f.store.devices)
    unfolding reset_topics synced
    reset_topics-IsPkSaved ok =
        let s' = with_topics f.store empty f.store.filepath h empty-IsKept.0 in
        (synced-IsPkSaved _ s' ok, empty-IsKept.1, refl)

    pub reset_devices-IsPkSaved :
        (synced opens accepted f (record f.store { devices = empty })).0 ≡ result_ok
        → let f' = (reset_devices opens accepted f).1 in
          IsPkSaved f'
          × ((other : List ℕ) → lookup other (entries f'.store.devices) ≡ none)
          × (f'.store.topics ≡ f.store.topics)
    unfolding reset_devices synced
    reset_devices-IsPkSaved ok =
        let s' = with_devices f.store empty h empty-IsKept.0 in
        (synced-IsPkSaved _ s' ok, empty-IsKept.1, refl)
