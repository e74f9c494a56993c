-- ===== src/Pubkey/FileStore.antt =====
-- src/e4c_pk_store_file.c: the storage of the public-key variant that is kept in a file, with the
-- struct of src/e4c_pk_store_mem.c and the reader and writer of Disk.antt. The lookups and set_id
-- are word for word those of src/e4c_pk_store_mem.c.
pub mod Operations
pub mod Roundtrip
pub mod Saved
pub mod History
pub mod Agreed
pub mod Persistence
pub mod Instance
use libe.Common.{
  Bool, List, Option, [], drop, if◌then◌else◌, length, ltb, none, not, overwrite, replicate, some,
  take, ℕ, ◌++◌, ◌+◌, ◌==◌, ◌||◌, ◌∷◌,
}
use libe.Common.Int.{ℤ, is_zero}
use libe.Common.Memory.{c_string, memcmp}
use libe.Protocol.{result_ok, error_persistence_error, ctrltopic_len, topichash_len}
use libe.Table.{empty}
use libe.Util.{e4c_derive_control_topic, e4c_derive_topichash, zerocheck}
use libe.Disk.{configured, path_or_default, read_table, table_image, write_back}
use libe.Pubkey.Curves.{Curves}
use libe.Pubkey.MemStore.{Pubkey, e4c_pubkey_c2sharedsecret_derivestore}

-- E4V2_MAGIC
abbrev pub e4v2_magic : List ℕ
e4v2_magic = b'E' ∷ b'4' ∷ b'2' ∷ b'P' ∷ []

-- The whole struct is cleared.
unfoldable init : Pubkey → ℤ × Pubkey
init s = (
  result_ok,
  record {
    id = replicate 16 0;
    privkey = replicate 64 0;
    pubkey = replicate 32 0;
    c2key = replicate 32 0;
    c2sharedkey = replicate 32 0;
    devices = empty;
    topics = empty;
    filepath = replicate 256 0;
    ctrltopic = replicate 16 0;
  },
)

unfoldable pub configure_storage : Pubkey → List ℕ → ℤ × Pubkey
unfolding configured
configure_storage s path =
    let (r, filepath) = configured s.filepath path in (r, record s { filepath = filepath })

-- What the calls of `write` put into the file one after another.
unfoldable pub image : Pubkey → List ℕ
image s =
    e4v2_magic
    ++ (s.id
        ++ (s.privkey
            ++ (s.pubkey ++ (s.c2key ++ (table_image s.topics ++ table_image s.devices)))))

unfoldable pub sync : Bool → ℕ → Pubkey → Option (List ℕ) → ℤ × Option (List ℕ)
unfolding image write_back
sync opens accepted s file = write_back opens accepted s.filepath (image s) file

-- From the count of the topics on, as far as the file is read.
unfoldable pub load_tables : Pubkey → List ℕ → ℤ × Pubkey
unfolding read_table
load_tables s rest =
    let (ok, topics, rest') = read_table s.topics rest in
    let (ok', devices, rest'') = read_table s.devices rest' in
    if not ok then (error_persistence_error, record s { topics = topics }) else (
      if ok' then result_ok else error_persistence_error,
      record s { topics = topics; devices = devices },
    )

-- From the key material on.
unfoldable pub load_keys : Pubkey → List ℕ → ℤ × Pubkey
unfolding load_tables
load_keys s rest =
    let s1 = record s { privkey = overwrite (take 64 rest) s.privkey } in
    let rest1 = drop 64 rest in
    let s2 = record s1 { pubkey = overwrite (take 32 rest1) s.pubkey } in
    let rest2 = drop 32 rest1 in
    let s3 = record s2 { c2key = overwrite (take 32 rest2) s.c2key } in
    if ltb (length rest) 64
    then (error_persistence_error, s1)
    else if ltb (length rest1) 32
    then (error_persistence_error, s2)
    else if ltb (length rest2) 32
    then (error_persistence_error, s3)
    else load_tables s3 (drop 32 rest2)

module _ (keccak_f1600 : List ℕ → List ℕ) where
  -- From the control topic on.
  unfoldable pub load_named : Pubkey → List ℕ → ℤ × List ℕ → ℤ × Pubkey
  unfolding load_keys
  load_named s rest (r, controltopic) =
      let hash = (e4c_derive_topichash keccak_f1600 topichash_len controltopic).1 in
      if not (is_zero r)
      then (error_persistence_error, s)
      else load_keys (record s { ctrltopic = hash }) rest

  -- From the first read on.
  unfoldable pub load_content : Pubkey → List ℕ → ℤ × Pubkey
  unfolding load_named
  load_content s file =
      let rest = drop 4 file in
      let s' = record s { id = overwrite (take 16 rest) s.id } in
      if ltb (length file) 4
      then (error_persistence_error, s)
      else if not (is_zero (memcmp (take 4 file) e4v2_magic))
      then (error_persistence_error, s)
      else if ltb (length rest) 16
      then (error_persistence_error, s')
      else load_named s' (drop 16 rest)
          (e4c_derive_control_topic (replicate (ctrltopic_len + 1) 0) (ctrltopic_len + 1) s'.id)

  module _ (cv : Curves) where
    -- After the file is closed.
    unfoldable pub load_secret : Pubkey → Pubkey
    load_secret s =
        let s' = record s { c2sharedkey = replicate 32 0 } in
        if (zerocheck s'.c2key == 0) || (zerocheck s'.privkey == 0)
        then s'
        else (e4c_pubkey_c2sharedsecret_derivestore keccak_f1600 cv s').1

    unfoldable pub load_opened : Pubkey → Option (List ℕ) → ℤ × Pubkey
    unfolding load_content
    load_opened s none = (error_persistence_error, s)
    load_opened s (some file) =
        let (r, s') = load_content s file in
        if is_zero r then (result_ok, load_secret s') else (r, s')

    -- `files` gives the file that a path names, if it can be opened for reading.
    unfoldable pub load : (List ℕ → Option (List ℕ)) → Pubkey → Option (List ℕ) → ℤ × Pubkey
    unfolding load_opened configure_storage
    load files s path =
        let s' = (configure_storage s (path_or_default path)).1 in
        load_opened s' (files (c_string s'.filepath))
