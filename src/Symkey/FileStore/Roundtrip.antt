-- ===== src/Symkey/FileStore/Roundtrip.antt =====
-- src/e4c_store_file.c: what e4c_symkey_sync writes, e4c_symkey_load reads.
use libe.Common.{
  Bool, List, Option, ap, arith, false, leb, length, ltb, refl, replicate, some, take, true, ℕ,
  ◌++◌, ◌==◌, ◌∙◌, ◌∷◌, ◌≡◌, ◌≤◌,
}
use libe.Common.Int.{ℤ, pos}
use libe.Common.Memory.{memcmp, c_string}
use mathlib.Core.List.{append_assoc}
use libe.Util.Names.{NoZero, c_string-e4c_derive_control_topic, c_string_append}
use libe.Util.Strings.{c_string-strlcpy}
use libe.Table.Entries.{entries}
use libe.Symkey.MemStore.{Symkey}
use libe.Symkey.FileStore.{configure_storage, image, load, load_content, load_key, load_table, sync}
use libe.Disk.{path_or_default, table_image, write_back}
use libe.Disk.Rows.{
  IsSizedTable, entries-table_over, filled, read_table-table_image, table_over, write_back-ok,
}
use libe.Protocol.{result_ok}
use libe.Util.{e4c_derive_topichash, e4c_derive_control_topic}

-- The arrays of the struct have their lengths, and the count does not go beyond the last slot.
pub record IsSized (s : Symkey) : Type 0 where
  pub id : length s.id ≡ 16
  pub key : length s.key ≡ 32
  pub table : IsSizedTable s.table

-- The storage that a load of what a storage wrote leaves.
abbrev reloaded : Symkey → Symkey → List ℕ → Symkey
reloaded s r hash = record {
  id = s.id;
  key = s.key;
  table = table_over s.table r.table;
  filepath = r.filepath;
  ctrltopic = hash;
}

module _ (s : Symkey) (v : IsSized s) (keccak_f1600 : List ℕ → List ℕ) where
  load_table-table_image :
      (r : Symkey) (tail : List ℕ)
      → IsSizedTable r.table
      → load_table r (table_image s.table ++ tail)
        ≡ (result_ok, record r { table = table_over s.table r.table })
  unfolding load_table
  load_table-table_image r tail w = rw (read_table-table_image s.table r.table tail v.table w)

  load_key-image :
      (r : Symkey) (controltopic tail : List ℕ)
      → length r.key ≡ 32
      → IsSizedTable r.table
      → load_key keccak_f1600 r (s.key ++ (table_image s.table ++ tail)) (result_ok, controltopic)
        ≡ (
          result_ok,
          record r {
            key = s.key;
            table = table_over s.table r.table;
            ctrltopic = (e4c_derive_topichash keccak_f1600 16 controltopic).1;
          },
        )
  unfolding load_key
  load_key-image r controltopic tail n w =
      let key = filled 32 s.key r.key (table_image s.table ++ tail) v.key n in
      let hash = (e4c_derive_topichash keccak_f1600 16 controltopic).1 in
      rw (key.0, key.1, key.2)
        (load_table-table_image (record r { key = s.key; ctrltopic = hash }) tail w)

  load_content-image :
      (r : Symkey) (tail : List ℕ)
      → IsSized r
      → let controltopic = (e4c_derive_control_topic (replicate 36 0) 36 s.id).1 in
        let hash = (e4c_derive_topichash keccak_f1600 16 controltopic).1 in
        load_content keccak_f1600 r (image s ++ tail) ≡ (result_ok, reloaded s r hash)
  unfolding load_content image memcmp
  load_content-image r tail w =
      let rest = s.key ++ (table_image s.table ++ tail) in
      let shape : (s.id ++ (s.key ++ table_image s.table)) ++ tail ≡ s.id ++ rest =
        rw (append_assoc, append_assoc) in
      let topic = e4c_derive_control_topic (replicate 36 0) 36 s.id in
      let derived : topic ≡ (result_ok, topic.1) =
        ap (λ (code : ℤ). (code, topic.1))
          (c_string-e4c_derive_control_topic (replicate 36 0) 36 s.id (omega arith)).0 in
      let id = filled 16 s.id r.id rest v.id w.id in
      let four : ltb (length (image s ++ tail)) 4 ≡ false = ground arith in
      rw (four, shape, id.0, id.1, id.2, derived)
        (load_key-image (record r { id = s.id }) topic.1 tail w.key w.table)

  -- A file that begins with what a storage writes is loaded, and then has its contents.
  pub load-image :
      (files : List ℕ → Option (List ℕ)) (r : Symkey) (path : Option (List ℕ)) (tail : List ℕ)
      → IsSized r
      → files (c_string (configure_storage r (path_or_default path)).1.filepath)
        ≡ some (image s ++ tail)
      → let (code, r') = load keccak_f1600 files r path in
        (code ≡ result_ok)
        × (r'.id ≡ s.id)
        × (r'.key ≡ s.key)
        × (entries r'.table ≡ entries s.table)
  unfolding load
  load-image files r path tail w same =
      let r1 = (configure_storage r (path_or_default path)).1 in
      let w1 : IsSized r1 = record { id = w.id; key = w.key; table = w.table } in
      rw (same, load_content-image r1 tail w1)
        (refl, refl, refl, entries-table_over s.table r.table v.table)

  load_written :
      (files : List ℕ → Option (List ℕ)) (r : Symkey) (path old : Option (List ℕ)) (opens : Bool)
      (accepted : ℕ)
      → IsSized r
      → (sync opens accepted s old).0 ≡ result_ok
      → files (c_string (configure_storage r (path_or_default path)).1.filepath)
        ≡ (sync opens accepted s old).1
      → let (code, r') = load keccak_f1600 files r path in
        (code ≡ result_ok)
        × (r'.id ≡ s.id)
        × (r'.key ≡ s.key)
        × (entries r'.table ≡ entries s.table)
  unfolding sync
  load_written files r path old opens accepted w done same =
      let (tail, written) = write_back-ok opens accepted s.filepath (image s) old done in
      load-image files r path tail w (same ∙ written)

  -- A storage whose sync reaches the end of what it writes, over whatever was in the file, reports
  -- OK, and a storage that then loads that file reports OK and has the id, the key and the topics
  -- with their keys of the storage that was synced. The arrays of both storages have their sizes,
  -- the first has a path, and the path of the second names the file that was written.
  pub load-sync :
      (files : List ℕ → Option (List ℕ)) (r : Symkey) (path old : Option (List ℕ)) (accepted : ℕ)
      → IsSized r
      → (length (c_string s.filepath) == 0) ≡ false
      → length (image s) ≤ accepted
      → files (c_string (configure_storage r (path_or_default path)).1.filepath)
        ≡ (sync true accepted s old).1
      → let (code, r') = load keccak_f1600 files r path in
        ((sync true accepted s old).0 ≡ result_ok)
        × (code ≡ result_ok)
        × (r'.id ≡ s.id)
        × (r'.key ≡ s.key)
        × (entries r'.table ≡ entries s.table)
  unfolding sync write_back
  load-sync files r path old accepted w has_path room same =
      let reached : leb (length (image s)) accepted ≡ true = ground arith in
      let done : (sync true accepted s old).0 ≡ result_ok = rw (has_path, reached) in
      let (code, id, key, topics) = load_written files r path old true accepted w done same in
      (done, code, id, key, topics)

-- Configuring the file of a storage by a terminated path keeps the front of the path that fits
-- 255 bytes with its zero, and reports failure whatever the path is.
pub configure_storage_lem :
    (s : Symkey) (path tail : List ℕ)
    → NoZero path
    → let (r, s') = configure_storage s (path ++ 0 ∷ tail) in
      (r ≡ pos 1) × (c_string s'.filepath ≡ take 254 path)
unfolding configure_storage
configure_storage_lem s path tail h =
    let copied = c_string-strlcpy s.filepath path tail 255 h (omega arith) in
    let fails : leb (length path) (length path) ≡ true = ground arith in
    rw (copied.0, c_string_append path tail h, fails) (refl, copied.1)
