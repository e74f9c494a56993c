-- ===== src/Symkey/MemStore/Keys.antt =====
-- src/e4c_store_mem.c: the topic keys as a finite map.
use libe.Common.{
  Bool-cases, List, Option, Option-cases, arith, if◌then◌else◌, inl, inr, length, ltb, none, refl,
  some, take, ℕ, ◌≡◌, ◌≢◌, ◌≤◌, ◌⊎◌,
}
use libe.Protocol.{result_ok, error_topickey_missing}
use libe.Table.{capacity, put, remove}
use libe.Table.Entries.{entries, IsTable, lookup}
use libe.Table.Maps.{same_name, lookup-erase, lookup-insert}
use libe.Table.Refinement.{put-entries, put-eq-none, remove-entries, remove-eq-none}
use libe.Symkey.MemStore.{Symkey, set_topic_key, remove_topic, reset_topics}

-- The key that the storage has under the hash of a topic.
abbrev pub key_of : Symkey → List ℕ → Option (List ℕ)
key_of s hash = lookup hash (entries s.table)

module _ (s : Symkey) (v : IsTable s.table) where
  -- Setting a key for a hash of 16 bytes either succeeds, and then the storage has the key under
  -- that hash and what it had under every other; or it fails and the storage is as it was, which
  -- happens exactly if the hash is new and 100 topics have keys. The table stays in order.
  pub set_topic_key-key_of :
      (hash key : List ℕ)
      → 16 ≤ length hash
      → let (r, s') = set_topic_key s hash key in
        IsTable s'.table
        × (((r ≡ result_ok)
              × ((other : List ℕ)
                  → key_of s' other
                    ≡ (if same_name hash other then some (take 32 key) else key_of s other)))
            ⊎ ((r ≡ error_topickey_missing)
                × (s' ≡ s)
                × (s.table.count ≡ capacity)
                × (key_of s hash ≡ none)))
  unfolding set_topic_key
  set_topic_key-key_of hash key n = elim (Option-cases (put s.table hash key)) [
    | inl full ↦
        let h = (put-eq-none s.table v hash key).0 full in
        rw (full, set_topic_key) (v, inr (refl, refl, h.0, h.1))
    | inr (t, done) ↦
        let h = put-entries s.table v hash key t n done in
        rw (done, set_topic_key)
          (h.0, inl (refl, λ other. rw h.1 (lookup-insert hash key other (entries s.table))))
  ]

  -- Removing the key under a hash succeeds if the storage has one, and then the storage has no key
  -- under it and what it had under every other; and it fails if the storage has none, and then the
  -- storage is as it was. The table stays in order.
  pub remove_topic-key_of :
      (hash : List ℕ)
      → let (r, s') = remove_topic s hash in
        IsTable s'.table
        × (((r ≡ result_ok)
              × (key_of s hash ≢ none)
              × ((other : List ℕ)
                  → key_of s' other ≡ (if same_name hash other then none else key_of s other)))
            ⊎ ((r ≡ error_topickey_missing) × (s' ≡ s) × (key_of s hash ≡ none)))
  unfolding remove_topic
  remove_topic-key_of hash = elim (Option-cases (remove s.table s.table.count hash)) [
    | inl absent ↦
        rw (absent, remove_topic)
          (v, inr (refl, refl, (remove-eq-none s.table v s.table.count hash).0 absent))
    | inr (t, done) ↦
        let h = remove-entries s.table v s.table.count hash t (omega arith) done in
        let present : key_of s hash ≢ none =
          λ gone. cc ((remove-eq-none s.table v s.table.count hash).1 gone, done) in
        rw (done, remove_topic)
          (
            h.0,
            inl (
              refl,
              present,
              λ other. rw h.1 (lookup-erase hash other (entries s.table) v.distinct),
            ),
          )
  ]

  -- After a reset there is no key under any hash.
  pub reset_topics-key_of :
      let (r, s') = reset_topics s in
      IsTable s'.table × (r ≡ result_ok) × ((hash : List ℕ) → key_of s' hash ≡ none)
  unfolding reset_topics lookup
  reset_topics-key_of = elim (Bool-cases (ltb 0 s.table.count)) [
    | inl some_topics ↦ rw some_topics (
      record { within = omega arith; full_array = v.full_array; distinct = tt },
      refl,
      λ hash. refl,
    )
    | inr no_topics ↦
        let zero_count : s.table.count ≡ 0 = ground arith in
        rw no_topics (v, refl, λ hash. rw zero_count)
  ]
