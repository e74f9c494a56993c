-- ===== src/Symkey/FileStore/Persistence.antt =====
-- src/e4c_store_file.c: what the operations that report OK leave in the file.
use libe.Common.{
  Bool, List, Option, Option-cases, [], arith, if◌then◌else◌, inl, inr, leb, length, none, refl,
  some, take, true, ℕ, ◌<◌, ◌∙◌, ◌∷◌, ◌≡◌, ◌≤◌,
}
use libe.Common.Memory.{c_string, memcmp_self}
use libe.Protocol.{result_ok, error_persistence_error}
use libe.Table.{remove, capacity, find}
use libe.Table.Entries.{entries, IsTable, erase, lookup}
use libe.Table.Maps.{same_name, lookup-erase}
use libe.Util.{zeroize}
use libe.Symkey.MemStore.{slot_size, Symkey, behind}
use libe.Disk.{write_back, Filed, path_or_default}
use libe.Symkey.FileStore.{sync, configure_storage, load, remove_topic, set_topic_key, synced}
use libe.Table.Refinement.{remove_found, remove-entries}
use libe.Symkey.MemStore.Keys.{key_of}
use libe.Symkey.FileStore.Saved.{load_saved, remove_topic-IsSaved, set_topic_key-IsSaved}
use libe.Symkey.FileStore.Roundtrip.{IsSized}

-- A fresh storage that is given the path of the file.
module _ (keccak_f1600 : List ℕ → List ℕ) (opens : ℕ → Bool) (accepted : ℕ → ℕ) (f : Filed Symkey)
    (v : IsSized f.store) (t : IsTable f.store.table) (files : List ℕ → Option (List ℕ))
    (r : Symkey) (path : Option (List ℕ)) (w : IsSized r) where
  -- Once setting a key for the hash of a topic has reported OK, loading the file gives a storage with
  -- that key under the hash, and the keys that were there under every other.
  load-set_topic_key :
      (hash key : List ℕ)
      → 16 ≤ length hash
      → 32 ≤ length key
      → (set_topic_key opens accepted f hash key).0 ≡ result_ok
      → files (c_string (configure_storage r (path_or_default path)).1.filepath)
        ≡ (set_topic_key opens accepted f hash key).1.file
      → let (code, r') = load keccak_f1600 files r path in
        (code ≡ result_ok)
        × ((other : List ℕ)
            → key_of r' other
              ≡ (if same_name hash other then some (take 32 key) else key_of f.store other))
  load-set_topic_key hash key n m ok same =
      let (saved, keys) = set_topic_key-IsSaved opens accepted f v t hash key n m ok in
      let (code, loaded) = load_saved keccak_f1600 _ files r path saved w same in
      (code, λ other. loaded other ∙ keys other)

  -- Once removing a topic has reported OK, loading the file gives a storage without a key for it and
  -- with the keys that were there for every other.
  load-remove_topic :
      (hash : List ℕ)
      → (remove_topic opens accepted f hash).0 ≡ result_ok
      → files (c_string (configure_storage r (path_or_default path)).1.filepath)
        ≡ (remove_topic opens accepted f hash).1.file
      → let (code, r') = load keccak_f1600 files r path in
        (code ≡ result_ok)
        × ((other : List ℕ)
            → key_of r' other ≡ (if same_name hash other then none else key_of f.store other))
  load-remove_topic hash ok same =
      let (saved, keys) = remove_topic-IsSaved opens accepted f v t hash ok in
      let (code, loaded) = load_saved keccak_f1600 _ files r path saved w same in
      (code, λ other. loaded other ∙ keys other)

c_string-zeroize : (v : List ℕ) → c_string (zeroize v slot_size) ≡ []
unfolding c_string zeroize
c_string-zeroize [] = refl
c_string-zeroize (x ∷ v) = refl

-- Removing one of 100 topics reports an error and leaves the file as it was, although the storage in
-- memory has no key for it any more; and the storage has lost the path of its file.
pub remove_topic-full :
    (opens : ℕ → Bool) (accepted : ℕ → ℕ) (f : Filed Symkey) (hash : List ℕ)
    → IsTable f.store.table
    → f.store.table.count ≡ capacity
    → find f.store.table hash < capacity
    → let (r, f') = remove_topic opens accepted f hash in
      (r ≡ error_persistence_error)
      × (f'.file ≡ f.file)
      × (key_of f'.store hash ≡ none)
      × (c_string f'.store.filepath ≡ [])
unfolding remove_topic synced sync write_back behind same_name
remove_topic-full opens accepted f hash t full there =
    let s = f.store in
    elim (Option-cases (remove s.table s.table.count hash)) [
      | inl absent ↦ cc (remove_found s.table t s.table.count hash (omega arith), absent)
      | inr (table, done) ↦
          let all : leb capacity s.table.count ≡ true = ground arith in
          let left = remove-entries s.table t s.table.count hash table (omega arith) done in
          let self : same_name hash hash ≡ true = rw (same_name, memcmp_self (take 16 hash)) in
          let erased = lookup-erase hash hash (entries s.table) t.distinct in
          let gone : lookup hash (erase hash (entries s.table)) ≡ none = rw self at erased in
          rw
            (remove_topic, done, synced, sync, write_back, all, c_string-zeroize s.filepath, left.1)
            (refl, refl, gone, refl)
    ]
