-- ===== src/Pubkey/FileStore/Persistence.antt =====
-- src/e4c_pk_store_file.c: what the operations that report OK leave in the file.
use libe.Common.{
  Bool, List, Option, Option-cases, if◌then◌else◌, inl, inr, length, some, take, ℕ, ◌≡◌, ◌≤◌,
}
use libe.Common.Memory.{c_string}
use libe.Protocol.{result_ok}
use libe.Table.{put}
use libe.Table.Entries.{entries, IsTable}
use libe.Table.Maps.{same_name, lookup-insert}
use libe.Table.Refinement.{put-entries}
use libe.Disk.{Filed, path_or_default}
use libe.Disk.Kept.{put-IsSizedTable}
use libe.Pubkey.Curves.{Curves}
use libe.Pubkey.MemStore.{Pubkey}
use libe.Pubkey.MemStore.Devices.{pubkey_of}
use libe.Pubkey.FileStore.{configure_storage, load}
use libe.Pubkey.FileStore.Operations.{set_device_key, synced}
use libe.Pubkey.FileStore.Roundtrip.{IsSized, load_pk_written}

-- A fresh storage that is given the path of the file.
module _ (keccak_f1600 : List ℕ → List ℕ) (cv : Curves) (opens : ℕ → Bool) (accepted : ℕ → ℕ)
    (f : Filed Pubkey) (v : IsSized f.store) (files : List ℕ → Option (List ℕ)) (r : Pubkey)
    (path : Option (List ℕ)) (w : IsSized r) where
  -- Once storing the public key of a device has reported OK, loading the file gives a storage with
  -- that key for the device, the public keys that were there for every other device, the topics that
  -- were there, and the private key that was there.
  load-set_device_key :
      (id pubkey : List ℕ)
      → IsTable f.store.devices
      → 16 ≤ length id
      → 32 ≤ length pubkey
      → (set_device_key opens accepted f id pubkey).0 ≡ result_ok
      → files (c_string (configure_storage r (path_or_default path)).1.filepath)
        ≡ (set_device_key opens accepted f id pubkey).1.file
      → let (code, r') = load keccak_f1600 cv files r path in
        (code ≡ result_ok)
        × ((other : List ℕ)
            → pubkey_of r' other
              ≡ (if same_name id other then some (take 32 pubkey) else pubkey_of f.store other))
        × (entries r'.topics ≡ entries f.store.topics)
        × (r'.privkey ≡ f.store.privkey)
  unfolding set_device_key synced
  load-set_device_key id pubkey t n m ok same =
      elim (Option-cases (put f.store.devices id pubkey)) [
        | inl full ↦ cc (rw (full, set_device_key) at ok)
        | inr (devices, done) ↦
            let s : Pubkey = record f.store { devices = devices } in
            let sized : IsSized s = record {
              id = v.id;
              privkey = v.privkey;
              pubkey = v.pubkey;
              c2key = v.c2key;
              topics = v.topics;
              devices = put-IsSizedTable f.store.devices devices id pubkey n m done v.devices;
            } in
            let (code, own, privkey, idpubkey, c2key, topics, there) =
              load_pk_written s sized keccak_f1600 cv files r path f.file (opens f.syncs)
                (accepted f.syncs) w (rw (done, set_device_key) at ok)
                (rw (done, set_device_key) at same) in
            (
              code,
              λ other.
                  rw (there, (put-entries f.store.devices t id pubkey devices n done).1)
                    (lookup-insert id pubkey other (entries f.store.devices)),
              topics,
              privkey,
            )
      ]
