-- ===== src/Symkey/FileStore/Instance.antt =====
-- src/e4c_store_file.c as the storage of src/e4symclient.c.
use libe.Common.{
  Bool, Bool-cases, List, Option-cases, arith, inl, inr, length, length-take, ltb, some, ℕ, ◌≡◌,
}
use libe.Common.Int.{pos}
use libe.Table.{put, remove}
use libe.Table.Entries.{IsTable}
use libe.Table.Refinement.{put-entries, remove-entries}
use libe.Disk.{Filed}
use libe.Disk.Kept.{put-IsSizedTable, remove-IsSizedTable}
use libe.Symkey.Storage.{SymStorage}
use libe.Symkey.MemStore.{Symkey}
use libe.Symkey.FileStore.{
  get_idkey, gettopicindex, gettopickey, is_device_ctrltopic, remove_topic, reset_topics, set_idkey,
  set_topic_key, synced,
}
use libe.Symkey.FileStore.Roundtrip.{IsSized}
use libe.Symkey.MemStore.Instance

-- The arrays of the struct have their sizes, and the table is in order.
abbrev IsFiled : Filed Symkey → Type 0
IsFiled f = IsSized f.store × IsTable f.store.table

set_idkey-IsFiled :
    (f : Filed Symkey) (key : List ℕ) → length key ≡ 32 → IsFiled f → IsFiled (set_idkey f key).1
unfolding set_idkey
set_idkey-IsFiled f key n v =
    (record { id = v.0.id; key = omega (arith, length-take 32 key); table = v.0.table }, v.1)

module _ (opens : ℕ → Bool) (accepted : ℕ → ℕ) where
  set_topic_key-IsFiled :
      (f : Filed Symkey) (hash key : List ℕ)
      → length hash ≡ 16
      → length key ≡ 32
      → IsFiled f
      → IsFiled (set_topic_key opens accepted f hash key).1
  unfolding set_topic_key synced
  set_topic_key-IsFiled f hash key n m v = elim (Option-cases (put f.store.table hash key)) [
    | inl full ↦ rw (full, set_topic_key) v
    | inr (table, done) ↦
        rw (done, set_topic_key)
          (
            record {
              id = v.0.id;
              key = v.0.key;
              table =
                  put-IsSizedTable f.store.table table hash key (omega arith) (omega arith) done
                    v.0.table;
            },
            (put-entries f.store.table v.1 hash key table (omega arith) done).0,
          )
  ]

  remove_topic-IsFiled :
      (f : Filed Symkey) (hash : List ℕ)
      → length hash ≡ 16
      → IsFiled f
      → IsFiled (remove_topic opens accepted f hash).1
  unfolding remove_topic synced
  remove_topic-IsFiled f hash n v =
      elim (Option-cases (remove f.store.table f.store.table.count hash)) [
        | inl absent ↦ rw (absent, remove_topic) v
        | inr (table, done) ↦
            rw (done, remove_topic)
              (
                record {
                  id = v.0.id;
                  key = v.0.key;
                  table =
                      remove-IsSizedTable f.store.table table f.store.table.count hash done
                        v.0.table;
                },
                (remove-entries f.store.table v.1 f.store.table.count hash table (omega arith)
                    done).0,
              )
      ]

  reset_topics-IsFiled : (f : Filed Symkey) → IsFiled f → IsFiled (reset_topics opens accepted f).1
  unfolding reset_topics synced
  reset_topics-IsFiled f v = elim (Bool-cases (ltb 0 f.store.table.count)) [
    | inl some_topics ↦ rw some_topics (
      record {
        id = v.0.id;
        key = v.0.key;
        table = record { count = omega arith; array = v.0.table.array; sized = v.0.table.sized };
      },
      record { within = omega arith; full_array = v.1.full_array; distinct = tt },
    )
    | inr no_topics ↦ rw no_topics v
  ]

  module _ (keccak_f1600 : List ℕ → List ℕ) where
    gettopickey-gettopicindex :
        (f : Filed Symkey) (topic : List ℕ) (i : ℕ)
        → IsFiled f
        → gettopicindex keccak_f1600 f topic ≡ pos i
        → (key : List ℕ) × (gettopickey f (pos i) ≡ some key)
    unfolding gettopickey gettopicindex
    gettopickey-gettopicindex f topic i v e =
        Instance.gettopickey-gettopicindex keccak_f1600 f.store topic i v.1 e

    abbrev file_store : SymStorage
    file_store = record {
      Store = Filed Symkey;
      IsStore = IsFiled;
      gettopicindex = gettopicindex keccak_f1600;
      gettopickey = gettopickey;
      is_device_ctrltopic = is_device_ctrltopic keccak_f1600;
      get_idkey = get_idkey;
      set_idkey = set_idkey;
      set_topic_key = set_topic_key opens accepted;
      remove_topic = remove_topic opens accepted;
      reset_topics = reset_topics opens accepted;
      gettopickey-gettopicindex = gettopickey-gettopicindex;
      set_idkey-IsStore = set_idkey-IsFiled;
      set_topic_key-IsStore = set_topic_key-IsFiled;
      remove_topic-IsStore = remove_topic-IsFiled;
      reset_topics-IsStore = reset_topics-IsFiled;
    }
