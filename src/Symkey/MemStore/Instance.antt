-- ===== src/Symkey/MemStore/Instance.antt =====
-- src/e4c_store_mem.c as the storage of src/e4symclient.c.
use libe.Common.{
  List, Option, arith, false, inl, inr, leb, length, none, some, sym, take, true, ℕ, ◌∙◌, ◌≡◌, ◌⊎◌,
}
use libe.Table.{find}
use libe.Common.Int.{pos}
use native.Mathlib.Decide.{dec_lt}
use libe.Table.Entries.{IsTable}
use libe.Symkey.Storage.{SymStorage}
use libe.Symkey.MemStore.{
  Symkey, set_topic_key, remove_topic, reset_topics, gettopicindex, gettopickey,
  is_device_ctrltopic, get_idkey, set_idkey,
}
use libe.Symkey.MemStore.Keys.{
  remove_topic-key_of, reset_topics-key_of, set_topic_key-key_of, key_of,
}
use libe.Common.Memory.{c_string}
use libe.Util.Names.{e4c_derive_topichash_lem}
use libe.Protocol.{error_topickey_missing}
use libe.Table.Refinement.{find-le, find_hit, find_miss}
use libe.Crypto.Sha3.{sha3_256_trunc}
use mathlib.Core.Option

module _ (keccak_f1600 : List ℕ → List ℕ) where
  abbrev pub topic_hash : List ℕ → List ℕ
  topic_hash topic = sha3_256_trunc keccak_f1600 16 (c_string topic)

  -- What the client does to get the key of a topic: the index, and the key there.
  abbrev pub topic_key : Symkey → List ℕ → Option (List ℕ)
  topic_key s topic = gettopickey s (gettopicindex keccak_f1600 s topic)

  gettopicindex-cases :
      (s : Symkey) (topic : List ℕ)
      → IsTable s.table
      → ((key : List ℕ) × (key_of s (topic_hash topic) ≡ some key)
          × (gettopicindex keccak_f1600 s topic ≡ pos (find s.table (topic_hash topic)))
          × (gettopickey s (pos (find s.table (topic_hash topic))) ≡ some (take 32 key)))
        ⊎ ((key_of s (topic_hash topic) ≡ none)
            × (gettopicindex keccak_f1600 s topic ≡ error_topickey_missing))
  unfolding gettopicindex gettopickey
  gettopicindex-cases s topic v =
      let h = topic_hash topic in
      let derived = e4c_derive_topichash_lem keccak_f1600 topic in
      elim (dec_lt (find s.table h) s.table.count) [
        | yes lt ↦
            let hit : leb s.table.count (find s.table h) ≡ false = ground arith in
            inl (_, find_hit s.table v h lt, rw (derived, hit), rw hit)
        | no ge ↦
            let e : find s.table h ≡ s.table.count = omega (arith, find-le s.table v h) in
            let miss : leb s.table.count (find s.table h) ≡ true = ground arith in
            inr (find_miss s.table v h e, rw (derived, miss))
      ]

  -- The key that the client gets for a topic is the one that the map has under the hash of the
  -- topic, if there is one, and else there is none.
  pub topic_key-key_of :
      (s : Symkey) (topic : List ℕ)
      → IsTable s.table
      → topic_key s topic ≡ Option.map (take 32) (key_of s (topic_hash topic))
  unfolding gettopickey
  topic_key-key_of s topic v = elim (gettopicindex-cases s topic v) [
    | inl (key, has, at, gives) ↦ rw (has, at, gives)
    | inr (has_none, at) ↦ rw (has_none, at, gettopickey)
  ]

  pub gettopickey-gettopicindex :
      (s : Symkey) (topic : List ℕ) (i : ℕ)
      → IsTable s.table
      → gettopicindex keccak_f1600 s topic ≡ pos i
      → (key : List ℕ) × (gettopickey s (pos i) ≡ some key)
  gettopickey-gettopicindex s topic i v e = elim (gettopicindex-cases s topic v) [
    | inl (key, _, at, gives) ↦ (take 32 key, rw (sym e ∙ at) gives)
    | inr (_, at) ↦ cc
  ]

  pub set_idkey-IsTable :
      (s : Symkey) (key : List ℕ)
      → length key ≡ 32
      → IsTable s.table
      → IsTable (set_idkey s key).1.table
  unfolding set_idkey
  set_idkey-IsTable s key n v = v

  pub set_topic_key-IsTable :
      (s : Symkey) (hash key : List ℕ)
      → length hash ≡ 16
      → length key ≡ 32
      → IsTable s.table
      → IsTable (set_topic_key s hash key).1.table
  set_topic_key-IsTable s hash key n m v = (set_topic_key-key_of s v hash key (omega arith)).0

  abbrev pub mem_store : SymStorage
  mem_store = record {
    Store = Symkey;
    IsStore = λ s. IsTable s.table;
    gettopicindex = gettopicindex keccak_f1600;
    gettopickey = gettopickey;
    is_device_ctrltopic = is_device_ctrltopic keccak_f1600;
    get_idkey = get_idkey;
    set_idkey = set_idkey;
    set_topic_key = set_topic_key;
    remove_topic = remove_topic;
    reset_topics = reset_topics;
    gettopickey-gettopicindex = gettopickey-gettopicindex;
    set_idkey-IsStore = set_idkey-IsTable;
    set_topic_key-IsStore = set_topic_key-IsTable;
    remove_topic-IsStore = λ s hash n v. (remove_topic-key_of s v hash).0;
    reset_topics-IsStore = λ s v. (reset_topics-key_of s v).0;
  }
