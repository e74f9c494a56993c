-- ===== src/Pubkey/FileStore/Roundtrip.antt =====
-- src/e4c_pk_store_file.c: what e4c_pubkey_sync writes, e4c_pubkey_load reads.
use libe.Common.{
  Bool, List, Option, ap, arith, false, leb, length, ltb, refl, replicate, some, true, ℕ, ◌++◌,
  ◌==◌, ◌∙◌, ◌≡◌, ◌≤◌,
}
use libe.Protocol.{result_ok}
use mathlib.Core.List.{append_assoc}
use libe.Common.Int.{ℤ}
use libe.Common.Memory.{memcmp, c_string}
use libe.Table.Entries.{entries}
use libe.Pubkey.Curves.{Curves}
use libe.Pubkey.FileStore.{
  load, load_opened, sync, image, configure_storage, load_content, load_keys, load_named,
  load_tables,
}
use libe.Disk.{path_or_default, write_back, table_image}
use libe.Disk.Rows.{
  IsSizedTable, read_table-table_image, table_over, filled, write_back-ok, entries-table_over,
}
use libe.Pubkey.MemStore.{Pubkey}
use libe.Util.Names.{c_string-e4c_derive_control_topic}
use libe.Util.{e4c_derive_control_topic, e4c_derive_topichash}
use libe.Pubkey.MemStore.Secret.{IsAgreed}
use libe.Pubkey.FileStore.Agreed.{load-IsAgreed, load_secret-IsAgreed}

-- The arrays of the struct have their lengths, and the counts do not go beyond the last slot.
pub record IsSized (s : Pubkey) : Type 0 where
  pub id : length s.id ≡ 16
  pub privkey : length s.privkey ≡ 64
  pub pubkey : length s.pubkey ≡ 32
  pub c2key : length s.c2key ≡ 32
  pub topics : IsSizedTable s.topics
  pub devices : IsSizedTable s.devices

-- What reading the file of a storage leaves.
abbrev reloaded : Pubkey → Pubkey → List ℕ → Pubkey
reloaded s r hash = record r {
  id = s.id;
  privkey = s.privkey;
  pubkey = s.pubkey;
  c2key = s.c2key;
  topics = table_over s.topics r.topics;
  devices = table_over s.devices r.devices;
  ctrltopic = hash;
}

module _ (s : Pubkey) (v : IsSized s) where
  load_tables-table_image :
      (r : Pubkey) (tail : List ℕ)
      → IsSizedTable r.topics
      → IsSizedTable r.devices
      → load_tables r (table_image s.topics ++ (table_image s.devices ++ tail)) ≡ (
        result_ok,
        record r {
          topics = table_over s.topics r.topics;
          devices = table_over s.devices r.devices;
        },
      )
  unfolding load_tables
  load_tables-table_image r tail w w' = rw (
    read_table-table_image s.topics r.topics (table_image s.devices ++ tail) v.topics w,
    read_table-table_image s.devices r.devices tail v.devices w',
  )

  load_keys-image :
      (r : Pubkey) (tail : List ℕ)
      → IsSized r
      → load_keys r (
          s.privkey
          ++ (s.pubkey ++ (s.c2key ++ (table_image s.topics ++ (table_image s.devices ++ tail)))))
        ≡ (
          result_ok,
          record r {
            privkey = s.privkey;
            pubkey = s.pubkey;
            c2key = s.c2key;
            topics = table_over s.topics r.topics;
            devices = table_over s.devices r.devices;
          },
        )
  unfolding load_keys
  load_keys-image r tail w =
      let tables = table_image s.topics ++ (table_image s.devices ++ tail) in
      let c2key = filled 32 s.c2key r.c2key tables v.c2key w.c2key in
      let pubkey = filled 32 s.pubkey r.pubkey (s.c2key ++ tables) v.pubkey w.pubkey in
      let privkey =
        filled 64 s.privkey r.privkey (s.pubkey ++ (s.c2key ++ tables)) v.privkey w.privkey in
      let keys : Pubkey = record r { privkey = s.privkey; pubkey = s.pubkey; c2key = s.c2key } in
      rw (privkey.0, privkey.1, privkey.2, pubkey.0, pubkey.1, pubkey.2, c2key.0, c2key.1, c2key.2)
        (load_tables-table_image keys tail w.topics w.devices)

  module _ (keccak_f1600 : List ℕ → List ℕ) where
    load_content-image :
        (r : Pubkey) (tail : List ℕ)
        → IsSized r
        → let controltopic = (e4c_derive_control_topic (replicate 36 0) 36 s.id).1 in
          let hash = (e4c_derive_topichash keccak_f1600 16 controltopic).1 in
          load_content keccak_f1600 r (image s ++ tail) ≡ (result_ok, reloaded s r hash)
    unfolding load_content load_named image memcmp
    load_content-image r tail w =
        let keys =
          s.privkey ++ (s.pubkey ++ (s.c2key ++ (table_image s.topics ++ table_image s.devices))) in
        let later =
          s.privkey
          ++ (s.pubkey ++ (s.c2key ++ (table_image s.topics ++ (table_image s.devices ++ tail)))) in
        let shape : (s.id ++ keys) ++ tail ≡ s.id ++ later =
          rw (append_assoc, append_assoc, append_assoc, append_assoc, append_assoc) in
        let topic = e4c_derive_control_topic (replicate 36 0) 36 s.id in
        let derived : topic ≡ (result_ok, topic.1) =
          ap (λ (code : ℤ). (code, topic.1))
            (c_string-e4c_derive_control_topic (replicate 36 0) 36 s.id (omega arith)).0 in
        let hash = (e4c_derive_topichash keccak_f1600 16 topic.1).1 in
        let id = filled 16 s.id r.id later v.id w.id in
        let four : ltb (length (image s ++ tail)) 4 ≡ false = ground arith in
        let named : IsSized (record r { id = s.id; ctrltopic = hash }) = record {
          id = v.id;
          privkey = w.privkey;
          pubkey = w.pubkey;
          c2key = w.c2key;
          topics = w.topics;
          devices = w.devices;
        } in
        rw (four, shape, id.0, id.1, id.2, derived)
          (load_keys-image (record r { id = s.id; ctrltopic = hash }) tail named)

    module _ (cv : Curves) where
      -- A file that begins with what a storage writes is loaded, and then has its contents.
      pub load-pk_image :
          (files : List ℕ → Option (List ℕ)) (r : Pubkey) (path : Option (List ℕ)) (tail : List ℕ)
          → IsSized r
          → files (c_string (configure_storage r (path_or_default path)).1.filepath)
            ≡ some (image s ++ tail)
          → let (code, r') = load keccak_f1600 cv files r path in
            (code ≡ result_ok)
            × (r'.id ≡ s.id)
            × (r'.privkey ≡ s.privkey)
            × (r'.pubkey ≡ s.pubkey)
            × (r'.c2key ≡ s.c2key)
            × (entries r'.topics ≡ entries s.topics)
            × (entries r'.devices ≡ entries s.devices)
      unfolding load load_opened
      load-pk_image files r path tail w same =
          let r1 = (configure_storage r (path_or_default path)).1 in
          let w1 : IsSized r1 = record {
            id = w.id;
            privkey = w.privkey;
            pubkey = w.pubkey;
            c2key = w.c2key;
            topics = w.topics;
            devices = w.devices;
          } in
          let content = load_content-image r1 tail w1 in
          let topic = (e4c_derive_control_topic (replicate 36 0) 36 s.id).1 in
          let hash = (e4c_derive_topichash keccak_f1600 16 topic).1 in
          let (key, secret, agreed) = load_secret-IsAgreed keccak_f1600 cv (reloaded s r1 hash) in
          rw (same, content, secret)
            (
              refl,
              refl,
              refl,
              refl,
              refl,
              entries-table_over s.topics r.topics v.topics,
              entries-table_over s.devices r.devices v.devices,
            )

      pub load_pk_written :
          (files : List ℕ → Option (List ℕ)) (r : Pubkey) (path old : Option (List ℕ))
          (opens : Bool) (accepted : ℕ)
          → IsSized r
          → (sync opens accepted s old).0 ≡ result_ok
          → files (c_string (configure_storage r (path_or_default path)).1.filepath)
            ≡ (sync opens accepted s old).1
          → let (code, r') = load keccak_f1600 cv files r path in
            (code ≡ result_ok)
            × (r'.id ≡ s.id)
            × (r'.privkey ≡ s.privkey)
            × (r'.pubkey ≡ s.pubkey)
            × (r'.c2key ≡ s.c2key)
            × (entries r'.topics ≡ entries s.topics)
            × (entries r'.devices ≡ entries s.devices)
      unfolding sync
      load_pk_written files r path old opens accepted w done same =
          let (tail, written) = write_back-ok opens accepted s.filepath (image s) old done in
          load-pk_image files r path tail w (same ∙ written)

      -- A sync that takes every byte, over whatever was in the file, reports OK, and a storage that
      -- then loads the file reports OK and has the id, the keys, the topics with their keys and the
      -- devices with their public keys of the storage that was synced, and the shared secret of its
      -- keys unless the private key or the key of the server is zero. The arrays of both storages have their sizes, the first has a path, and the
      -- path of the second names the file that was written.
      pub load-pk_sync :
          (files : List ℕ → Option (List ℕ)) (r : Pubkey) (path old : Option (List ℕ))
          (accepted : ℕ)
          → IsSized r
          → (length (c_string s.filepath) == 0) ≡ false
          → length (image s) ≤ accepted
          → files (c_string (configure_storage r (path_or_default path)).1.filepath)
            ≡ (sync true accepted s old).1
          → let (code, r') = load keccak_f1600 cv files r path in
            ((sync true accepted s old).0 ≡ result_ok)
            × (code ≡ result_ok)
            × (r'.id ≡ s.id)
            × (r'.privkey ≡ s.privkey)
            × (r'.pubkey ≡ s.pubkey)
            × (r'.c2key ≡ s.c2key)
            × (entries r'.topics ≡ entries s.topics)
            × (entries r'.devices ≡ entries s.devices)
            × IsAgreed keccak_f1600 cv r'
      unfolding sync write_back
      load-pk_sync files r path old accepted w has_path room same =
          let reached : leb (length (image s)) accepted ≡ true = ground arith in
          let done : (sync true accepted s old).0 ≡ result_ok = rw (has_path, reached) in
          let (code, id, privkey, pubkey, c2key, topics, devices) =
            load_pk_written files r path old true accepted w done same in
          (
            done,
            code,
            id,
            privkey,
            pubkey,
            c2key,
            topics,
            devices,
            load-IsAgreed keccak_f1600 cv files r path code,
          )
