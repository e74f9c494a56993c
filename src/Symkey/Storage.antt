-- ===== src/Symkey/Storage.antt =====
-- What src/e4symclient.c asks of a storage (include/e4/storage.h). A function that fills a buffer
-- returns it; one that changes the storage returns the result code and the storage.
use libe.Common.{List, Option, length, some, ℕ, ◌≡◌}
use libe.Common.Int.{ℤ, pos}

pub record SymStorage : Type 1 where
  pub Store : Type 0
  -- what a storage that is in order satisfies
  pub IsStore : Store → Type 0
  pub gettopicindex : Store → List ℕ → ℤ
  -- the key at an index; `none` is E4_ERROR_TOPICKEY_MISSING, which leaves the buffer as it was
  pub gettopickey : Store → ℤ → Option (List ℕ)
  pub is_device_ctrltopic : Store → List ℕ → ℤ
  pub get_idkey : Store → List ℕ
  pub set_idkey : Store → List ℕ → ℤ × Store
  pub set_topic_key : Store → List ℕ → List ℕ → ℤ × Store
  pub remove_topic : Store → List ℕ → ℤ × Store
  pub reset_topics : Store → ℤ × Store
  -- an index that was found has a key
  pub gettopickey-gettopicindex :
      (s : Store) (topic : List ℕ) (i : ℕ)
      → IsStore s
      → gettopicindex s topic ≡ pos i
      → (key : List ℕ) × (gettopickey s (pos i) ≡ some key)
  -- the commands of a control message keep the storage in order
  pub set_idkey-IsStore :
      (s : Store) (key : List ℕ) → length key ≡ 32 → IsStore s → IsStore (set_idkey s key).1
  pub set_topic_key-IsStore :
      (s : Store) (hash key : List ℕ)
      → length hash ≡ 16
      → length key ≡ 32
      → IsStore s
      → IsStore (set_topic_key s hash key).1
  pub remove_topic-IsStore :
      (s : Store) (hash : List ℕ) → length hash ≡ 16 → IsStore s → IsStore (remove_topic s hash).1
  pub reset_topics-IsStore : (s : Store) → IsStore s → IsStore (reset_topics s).1
