-- ===== src/Pubkey/MemStore/Devices.antt =====
-- src/e4c_pk_store_mem.c: the public keys of the other devices as a finite map.
use libe.Common.{
  List, Option, Option-cases, if◌then◌else◌, inl, inr, length, none, refl, some, take, ℕ, ◌+◌, ◌-◌,
  ◌<◌, ◌≡◌, ◌≢◌, ◌≤◌, ◌⊎◌,
}
use libe.Protocol.{result_ok, error_devicepk_missing}
use libe.Table.{capacity, put, remove, find}
use libe.Table.Entries.{entries, IsTable, lookup}
use libe.Table.Maps.{same_name, lookup-insert, lookup-erase}
use libe.Table.Refinement.{put-entries, put-eq-none, remove-entries, remove-eq-none}
use libe.Table.Stale.{remove-stale}
use libe.Pubkey.MemStore.{Pubkey, set_device_key, remove_device}

-- The public key that the storage has for the id of a device.
abbrev pub pubkey_of : Pubkey → List ℕ → Option (List ℕ)
pubkey_of s id = lookup id (entries s.devices)

module _ (s : Pubkey) (v : IsTable s.devices) where
  -- Setting the public key of a device with an id of 16 bytes either succeeds, and then the
  -- storage has the key for that id and what it had for every other; or it fails and the storage
  -- is as it was, which happens exactly if the id is new and 100 devices have keys.
  set_device_key-pubkey_of :
      (id pubkey : List ℕ)
      → 16 ≤ length id
      → let (r, s') = set_device_key s id pubkey in
        IsTable s'.devices
        × (((r ≡ result_ok)
              × ((other : List ℕ)
                  → pubkey_of s' other
                    ≡ (if same_name id other then some (take 32 pubkey) else pubkey_of s other)))
            ⊎ ((r ≡ error_devicepk_missing)
                × (s' ≡ s)
                × (s.devices.count ≡ capacity)
                × (pubkey_of s id ≡ none)))
  unfolding set_device_key
  set_device_key-pubkey_of id pubkey n = elim (Option-cases (put s.devices id pubkey)) [
    | inl full ↦
        let h = (put-eq-none s.devices v id pubkey).0 full in
        rw (full, set_device_key) (v, inr (refl, refl, h.0, h.1))
    | inr (t, done) ↦
        let h = put-entries s.devices v id pubkey t n done in
        rw (done, set_device_key)
          (h.0, inl (refl, λ other. rw h.1 (lookup-insert id pubkey other (entries s.devices))))
  ]

  -- Removing a device while there are at least as many topics as devices succeeds if the storage has a
  -- public key for the id, and then it has none for the id and what it had for every other; and it
  -- fails if the storage has none, and then the storage is as it was. The table stays in order.
  pub remove_device-pubkey_of :
      (id : List ℕ)
      → s.devices.count ≤ s.topics.count
      → let (r, s') = remove_device s id in
        IsTable s'.devices
        × (((r ≡ result_ok)
              × (pubkey_of s id ≢ none)
              × ((other : List ℕ)
                  → pubkey_of s' other ≡ (if same_name id other then none else pubkey_of s other)))
            ⊎ ((r ≡ error_devicepk_missing) × (s' ≡ s) × (pubkey_of s id ≡ none)))
  unfolding remove_device
  remove_device-pubkey_of id as_many = elim (Option-cases (remove s.devices s.topics.count id)) [
    | inl absent ↦
        rw (absent, remove_device)
          (v, inr (refl, refl, (remove-eq-none s.devices v s.topics.count id).0 absent))
    | inr (t, done) ↦
        let h = remove-entries s.devices v s.topics.count id t as_many done in
        let present : pubkey_of s id ≢ none =
          λ gone. cc ((remove-eq-none s.devices v s.topics.count id).1 gone, done) in
        rw (done, remove_device)
          (
            h.0,
            inl (
              refl,
              present,
              λ other. rw h.1 (lookup-erase id other (entries s.devices) v.distinct),
            ),
          )
  ]

  -- Removing a device that is not the last one, while the count of the topics does not go beyond
  -- its place, reports OK, keeps the public key of the device, and counts one device less.
  pub remove_device-keeps_pubkey :
      (id : List ℕ)
      → find s.devices id + 1 < s.devices.count
      → s.topics.count ≤ find s.devices id + 1
      → let (r, s') = remove_device s id in
        (r ≡ result_ok)
        × (s'.devices.count ≡ s.devices.count - 1)
        × (pubkey_of s' id ≡ pubkey_of s id)
  unfolding remove_device
  remove_device-keeps_pubkey id inner few =
      let (t, (done, count, same)) = remove-stale s.devices v s.topics.count id inner few in
      rw (done, remove_device) (refl, count, same)
