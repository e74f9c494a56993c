-- ===== src/Symkey/FileStore/Saved.antt =====
-- src/e4c_store_file.c: an operation that reports OK leaves the topics of the storage in the file.
use libe.Common.{
  Bool, Bool-cases, List, Option, Option-cases, arith, if◌then◌else◌, inl, inr, length, ltb, none,
  refl, some, take, ℕ, ◌++◌, ◌∙◌, ◌≡◌, ◌≤◌,
}
use libe.Protocol.{result_ok}
use libe.Table.{put, remove}
use libe.Table.Entries.{IsTable, lookup, entries}
use libe.Table.Maps.{same_name, lookup-erase, lookup-insert}
use libe.Disk.{Filed, path_or_default}
use libe.Disk.Rows.{write_back-ok}
use libe.Symkey.MemStore.{Symkey, behind}
use libe.Symkey.MemStore.Keys.{key_of}
use libe.Symkey.FileStore.{
  cleared, image, remove_topic, reset_topics, set_topic_key, sync, synced, configure_storage, load,
}
use libe.Symkey.FileStore.Roundtrip.{IsSized, load-image}
use libe.Common.Memory.{c_string}
use libe.Disk.Kept.{put-IsSizedTable, remove-IsSizedTable}
use libe.Table.Refinement.{put-entries, remove-entries}

-- The file holds the topics of the storage, from its start.
pub record IsSaved (f : Filed Symkey) : Type 0 where
  pub sized : IsSized f.store
  pub table : IsTable f.store.table
  pub saved :
      (s : Symkey) × (tail : List ℕ) × (f.file ≡ some (image s ++ tail))
      × IsSized s
      × (s.table ≡ f.store.table)

module _ (opens : ℕ → Bool) (accepted : ℕ → ℕ) where
  synced-IsSaved :
      (f : Filed Symkey) (s : Symkey)
      → IsSized s
      → IsTable s.table
      → (synced opens accepted f s).0 ≡ result_ok
      → IsSaved (synced opens accepted f s).1
  unfolding synced sync
  synced-IsSaved f s v t ok =
      let (tail, written) =
        write_back-ok (opens f.syncs) (accepted f.syncs) s.filepath (image s) f.file ok in
      record { sized = v; table = t; saved = (s, tail, written, v, refl) }

  cleared-IsSized : (s : Symkey) → IsSized s → IsSized (cleared s)
  cleared-IsSized s v = record {
    id = v.id;
    key = v.key;
    table = record {
      count = ground (arith, v.table.count);
      array = v.table.array;
      sized = v.table.sized;
    };
  }

  cleared-IsTable :
      (s : Symkey)
      → IsTable s.table
      → IsTable (cleared s).table × ((other : List ℕ) → key_of (cleared s) other ≡ none)
  unfolding lookup
  cleared-IsTable s t = elim (Bool-cases (ltb 0 s.table.count)) [
    | inl some_topics ↦
        rw some_topics
          (record { within = omega arith; full_array = t.full_array; distinct = tt }, λ other. refl)
    | inr no_topics ↦
        let zero_count : s.table.count ≡ 0 = ground arith in
        rw no_topics (t, λ other. rw zero_count)
  ]

  module _ (f : Filed Symkey) (v : IsSized f.store) (t : IsTable f.store.table) where
    pub set_topic_key-IsSaved :
        (hash key : List ℕ)
        → 16 ≤ length hash
        → 32 ≤ length key
        → let (code, f') = set_topic_key opens accepted f hash key in
          code ≡ result_ok
          → IsSaved f'
            × ((other : List ℕ)
                → key_of f'.store other
                  ≡ (if same_name hash other then some (take 32 key) else key_of f.store other))
    unfolding set_topic_key synced
    set_topic_key-IsSaved hash key n m ok = elim (Option-cases (put f.store.table hash key)) [
      | inl full ↦ cc (rw (full, set_topic_key) at ok)
      | inr (table, done) ↦
          let s : Symkey = record f.store { table = table } in
          let sized : IsSized s = record {
            id = v.id;
            key = v.key;
            table = put-IsSizedTable f.store.table table hash key n m done v.table;
          } in
          let (in_order, inserted) = put-entries f.store.table t hash key table n done in
          rw (done, set_topic_key)
            (
              synced-IsSaved f s sized in_order (rw (done, set_topic_key) at ok),
              λ other. rw inserted (lookup-insert hash key other (entries f.store.table)),
            )
    ]

    pub remove_topic-IsSaved :
        (hash : List ℕ)
        → let (code, f') = remove_topic opens accepted f hash in
          code ≡ result_ok
          → IsSaved f'
            × ((other : List ℕ)
                → key_of f'.store other
                  ≡ (if same_name hash other then none else key_of f.store other))
    unfolding remove_topic synced
    remove_topic-IsSaved hash ok =
        elim (Option-cases (remove f.store.table f.store.table.count hash)) [
          | inl absent ↦ cc (rw (absent, remove_topic) at ok)
          | inr (table, done) ↦
              let s : Symkey = record f.store {
                table = table;
                filepath = behind f.store.table f.store.filepath;
              } in
              let sized : IsSized s = record {
                id = v.id;
                key = v.key;
                table =
                    remove-IsSizedTable f.store.table table f.store.table.count hash done v.table;
              } in
              let (in_order, erased) =
                remove-entries f.store.table t f.store.table.count hash table (omega arith) done in
              rw (done, remove_topic)
                (
                  synced-IsSaved f s sized in_order (rw (done, remove_topic) at ok),
                  λ other. rw erased (lookup-erase hash other (entries f.store.table) t.distinct),
                )
        ]

    pub reset_topics-IsSaved :
        (synced opens accepted f (cleared f.store)).0 ≡ result_ok
        → let f' = (reset_topics opens accepted f).1 in
          IsSaved f' × ((other : List ℕ) → key_of f'.store other ≡ none)
    unfolding reset_topics synced
    reset_topics-IsSaved ok =
        let (in_order, gone) = cleared-IsTable f.store t in
        (synced-IsSaved f (cleared f.store) (cleared-IsSized f.store v) in_order ok, gone)

-- Loading the file gives the keys of the storage.
pub load_saved :
    (keccak_f1600 : List ℕ → List ℕ) (f : Filed Symkey) (files : List ℕ → Option (List ℕ))
    (r : Symkey) (path : Option (List ℕ))
    → IsSaved f
    → IsSized r
    → files (c_string (configure_storage r (path_or_default path)).1.filepath) ≡ f.file
    → let (code, r') = load keccak_f1600 files r path in
      (code ≡ result_ok) × ((other : List ℕ) → key_of r' other ≡ key_of f.store other)
load_saved keccak_f1600 f files r path h w same =
    let (s, tail, written, sized, topics) = h.saved in
    let (code, id, key, kept) =
      load-image s sized keccak_f1600 files r path tail w (same ∙ written) in
    (code, λ other. rw (kept, topics))
