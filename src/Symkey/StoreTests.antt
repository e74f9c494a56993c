-- ===== src/Symkey/StoreTests.antt =====
-- src/e4c_store_mem.c at concrete inputs.
use libe.Common.{List, arith, if◌then◌else◌, none, replicate, some, take, ℕ, ◌≡◌, ◌≢◌, ◌⊎◌}
use libe.Protocol.{result_ok, error_topickey_missing}
use libe.Symkey.MemStore.{remove_topic, set_topic_key}
use libe.Symkey.MemStore.Instance.{topic_hash, topic_key, topic_key-key_of}
use libe.Fixtures.{a_store, a_topic, hash_of_t, a_table, a_table-IsTable, same_state}
use libe.Table.Entries.{IsTable}
use libe.Symkey.MemStore.Keys.{key_of, remove_topic-key_of, set_topic_key-key_of}
use libe.Table.Maps.{same_name}
use mathlib.Core.Option

abbrev another_hash : List ℕ
another_hash = replicate 16 5

set_topic_key-key_of_example :
    let (r, s') = set_topic_key a_store another_hash (replicate 32 4) in
    IsTable s'.table
    × (((r ≡ result_ok)
          × ((other : List ℕ)
              → key_of s' other ≡ (
                  if same_name another_hash other
                  then some (replicate 32 4)
                  else key_of a_store other)))
        ⊎ ((r ≡ error_topickey_missing)
            × (s' ≡ a_store)
            × (a_table.count ≡ 100)
            × (key_of a_store another_hash ≡ none)))
set_topic_key-key_of_example =
    set_topic_key-key_of a_store a_table-IsTable another_hash (replicate 32 4) (omega arith)

remove_topic-key_of_example :
    let (r, s') = remove_topic a_store hash_of_t in
    IsTable s'.table
    × (((r ≡ result_ok)
          × (key_of a_store hash_of_t ≢ none)
          × ((other : List ℕ)
              → key_of s' other
                ≡ (if same_name hash_of_t other then none else key_of a_store other)))
        ⊎ ((r ≡ error_topickey_missing) × (s' ≡ a_store) × (key_of a_store hash_of_t ≡ none)))
remove_topic-key_of_example = remove_topic-key_of a_store a_table-IsTable hash_of_t

topic_key-key_of_example :
    topic_key same_state a_store a_topic
    ≡ Option.map (take 32) (key_of a_store (topic_hash same_state a_topic))
topic_key-key_of_example = topic_key-key_of same_state a_store a_topic a_table-IsTable
