-- ===== src/Symkey/FileStore.antt =====
-- src/e4c_store_file.c: the storage of the symmetric variant that is kept in a file, with the
-- struct of src/e4c_store_mem.c and the reader and writer of Disk.antt. The lookups and set_id are
-- word for word those of src/e4c_store_mem.c.
pub mod Roundtrip
pub mod Saved
pub mod Persistence
pub mod History
pub mod Instance
use libe.Common.{
  Bool, List, Option, [], drop, if◌then◌else◌, length, ltb, none, not, overwrite, replicate, some,
  take, ℕ, ◌++◌, ◌+◌, ◌∷◌,
}
use libe.Common.Int.{ℤ, is_zero}
use libe.Common.Memory.{c_string, memcmp}
use libe.Protocol.{
  result_ok, error_persistence_error, error_topickey_missing, ctrltopic_len, topichash_len,
}
use libe.Table.{put, remove, empty}
use libe.Util.{e4c_derive_control_topic, e4c_derive_topichash}
use libe.Disk.{Filed, configured, path_or_default, read_table, table_image, write_back}
use libe.Symkey.MemStore.{Symkey, behind}
use libe.Symkey.MemStore.Instance.{topic_hash}
use libe.Crypto.Keccak.{keccak_f1600}
use libe.Symkey.MemStore

-- E4V1_MAGIC
abbrev pub e4v1_magic : List ℕ
e4v1_magic = b'E' ∷ b'4' ∷ b'1' ∷ b'P' ∷ []

unfoldable init : Symkey → ℤ × Symkey
init s = (
  result_ok,
  record {
    id = replicate 16 0;
    key = replicate 32 0;
    table = empty;
    filepath = replicate 256 0;
    ctrltopic = replicate 16 0;
  },
)

unfoldable pub configure_storage : Symkey → List ℕ → ℤ × Symkey
unfolding configured
configure_storage s path =
    let (r, filepath) = configured s.filepath path in (r, record s { filepath = filepath })

-- What the calls of `write` put into the file one after another.
unfoldable pub image : Symkey → List ℕ
image s = e4v1_magic ++ (s.id ++ (s.key ++ table_image s.table))

unfoldable pub sync : Bool → ℕ → Symkey → Option (List ℕ) → ℤ × Option (List ℕ)
unfolding image write_back
sync opens accepted s file = write_back opens accepted s.filepath (image s) file

-- From the count of the topics on.
unfoldable pub load_table : Symkey → List ℕ → ℤ × Symkey
unfolding read_table
load_table s rest =
    let (ok, table, rest') = read_table s.table rest in
    (if ok then result_ok else error_persistence_error, record s { table = table })

module _ (keccak_f1600 : List ℕ → List ℕ) where
  -- From the control topic on.
  unfoldable pub load_key : Symkey → List ℕ → ℤ × List ℕ → ℤ × Symkey
  unfolding load_table
  load_key s rest (r, controltopic) =
      let hash = (e4c_derive_topichash keccak_f1600 topichash_len controltopic).1 in
      let s' = record s { ctrltopic = hash; key = overwrite (take 32 rest) s.key } in
      if not (is_zero r)
      then (error_persistence_error, s)
      else if ltb (length rest) 32
      then (error_persistence_error, s')
      else load_table s' (drop 32 rest)

  -- From the first read on.
  unfoldable pub load_content : Symkey → List ℕ → ℤ × Symkey
  unfolding load_key
  load_content s file =
      let rest = drop 4 file in
      let s' = record s { id = overwrite (take 16 rest) s.id } in
      if ltb (length file) 4
      then (error_persistence_error, s)
      else if not (is_zero (memcmp (take 4 file) e4v1_magic))
      then (error_persistence_error, s)
      else if ltb (length rest) 16
      then (error_persistence_error, s')
      else load_key s' (drop 16 rest)
          (e4c_derive_control_topic (replicate (ctrltopic_len + 1) 0) (ctrltopic_len + 1) s'.id)

  unfoldable load_opened : Symkey → Option (List ℕ) → ℤ × Symkey
  unfolding load_content
  load_opened s none = (error_persistence_error, s)
  load_opened s (some file) = load_content s file

  -- `files` gives the file that a path names, if it can be opened for reading.
  unfoldable pub load : (List ℕ → Option (List ℕ)) → Symkey → Option (List ℕ) → ℤ × Symkey
  unfolding load_opened configure_storage
  load files s path =
      let s' = (configure_storage s (path_or_default path)).1 in
      load_opened s' (files (c_string s'.filepath))

  unfoldable set_id : Filed Symkey → List ℕ → ℤ × Filed Symkey
  unfolding MemStore.set_id
  set_id f id = let (r, s) = MemStore.set_id keccak_f1600 f.store id in (r, record f { store = s })

  unfoldable pub gettopicindex : Filed Symkey → List ℕ → ℤ
  unfolding MemStore.gettopicindex
  gettopicindex f topic = MemStore.gettopicindex keccak_f1600 f.store topic

  unfoldable pub is_device_ctrltopic : Filed Symkey → List ℕ → ℤ
  unfolding MemStore.is_device_ctrltopic
  is_device_ctrltopic f topic = MemStore.is_device_ctrltopic keccak_f1600 f.store topic

unfoldable pub gettopickey : Filed Symkey → ℤ → Option (List ℕ)
unfolding MemStore.gettopickey
gettopickey f index = MemStore.gettopickey f.store index

unfoldable get_id : Filed Symkey → List ℕ
get_id f = f.store.id

unfoldable pub get_idkey : Filed Symkey → List ℕ
get_idkey f = f.store.key

-- The key in memory changes, the file does not.
unfoldable pub set_idkey : Filed Symkey → List ℕ → ℤ × Filed Symkey
set_idkey f key = (result_ok, record f { store = record f.store { key = take 32 key } })

-- The assignments of e4c_symkey_reset_topics.
abbrev pub cleared : Symkey → Symkey
cleared s =
    let count = if ltb 0 s.table.count then 0 else s.table.count in
    record s { table = record s.table { count = count } }

-- The operations that write the storage back. The outcome of a sync depends on how many there were
-- before it: whether the file opens, and the bytes that are accepted.
module _ (opens : ℕ → Bool) (accepted : ℕ → ℕ) where
  -- The storage s is written to the file of f.
  unfoldable pub synced : Filed Symkey → Symkey → ℤ × Filed Symkey
  unfolding sync
  synced f s =
      let (r, file) = sync (opens f.syncs) (accepted f.syncs) s f.file in
      (r, record { store = s; file = file; syncs = f.syncs + 1 })

  unfoldable pub set_topic_key : Filed Symkey → List ℕ → List ℕ → ℤ × Filed Symkey
  unfolding synced
  set_topic_key f topic_hash key = elim (put f.store.table topic_hash key) [
    | none ↦ (error_topickey_missing, f)
    | some table ↦ synced f (record f.store { table = table })
  ]

  unfoldable pub remove_topic : Filed Symkey → List ℕ → ℤ × Filed Symkey
  unfolding synced behind
  remove_topic f topic_hash = elim (remove f.store.table f.store.table.count topic_hash) [
    | none ↦ (error_topickey_missing, f)
    | some table ↦
        synced f
          (record f.store { table = table; filepath = behind f.store.table f.store.filepath })
  ]

  -- The code of the sync is dropped.
  unfoldable pub reset_topics : Filed Symkey → ℤ × Filed Symkey
  unfolding synced
  reset_topics f = (result_ok, (synced f (cleared f.store)).1)
