-- ===== src/Symkey/MemStore.antt =====
-- src/e4c_store_mem.c: the storage of the symmetric variant in memory, with the struct of
-- include/e4/internal/e4c_sym_store_file.h. The permutation of SHA-3 is a parameter.
pub mod Keys
pub mod Identity
pub mod Instance
use libe.Common.{
  List, Option, get_or, if◌then◌else◌, leb, ltb, none, not, replicate, some, take, ℕ, ◌+◌,
}
use libe.Common.Int.{ℤ, pos, negsuc, is_zero}
use libe.Common.Memory.{memcmp}
use libe.Protocol.{
  result_ok, ctrltopic_len, error_persistence_error, error_topickey_missing, topichash_len,
}
use libe.Table.{Table, empty, capacity, empty_slot, find, put, remove}
use libe.Util.{zeroize, e4c_derive_control_topic, e4c_derive_topichash}

-- `topics` with `topiccount` is the table; `filepath` stands right behind it in the struct.
pub record Symkey : Type 0 where
  pub id : List ℕ
  pub key : List ℕ
  pub table : Table
  pub filepath : List ℕ
  pub ctrltopic : List ℕ

abbrev pub slot_size : ℕ
slot_size = 48

-- ZERO(topic_keys[store->topiccount]) with all 100 slots in use clears the 48 bytes behind the
-- array, which are the first of `filepath`.
unfoldable pub behind : Table → List ℕ → List ℕ
behind t filepath = if leb capacity t.count then zeroize filepath slot_size else filepath

unfoldable init : Symkey → ℤ × Symkey
init s = (
  result_ok,
  record {
    id = replicate 16 0;
    key = replicate 32 0;
    table = empty;
    filepath = replicate 256 0;
    ctrltopic = replicate 16 0;
  },
)

unfoldable sync : Symkey → ℤ
sync s = result_ok

unfoldable pub set_idkey : Symkey → List ℕ → ℤ × Symkey
set_idkey s key = (result_ok, record s { key = take 32 key })

unfoldable pub get_idkey : Symkey → List ℕ
get_idkey s = s.key

unfoldable get_id : Symkey → List ℕ
get_id s = s.id

unfoldable pub gettopickey : Symkey → ℤ → Option (List ℕ)
gettopickey s (pos index) =
    if leb s.table.count index
    then none
    else some (take 32 (get_or s.table.slots index empty_slot).key)
gettopickey s (negsuc _) = none

unfoldable pub set_topic_key : Symkey → List ℕ → List ℕ → ℤ × Symkey
unfolding sync
set_topic_key s topic_hash key = elim (put s.table topic_hash key) [
  | none ↦ (error_topickey_missing, s)
  | some table ↦ let s' = record s { table = table } in (sync s', s')
]

unfoldable pub remove_topic : Symkey → List ℕ → ℤ × Symkey
unfolding sync behind
remove_topic s topic_hash = elim (remove s.table s.table.count topic_hash) [
  | none ↦ (error_topickey_missing, s)
  | some table ↦
      let s' = record s { table = table; filepath = behind s.table s.filepath } in (sync s', s')
]

unfoldable pub reset_topics : Symkey → ℤ × Symkey
reset_topics s =
    let count = if ltb 0 s.table.count then 0 else s.table.count in
    (result_ok, record s { table = record s.table { count = count } })

module _ (keccak_f1600 : List ℕ → List ℕ) where
  -- From the control topic on.
  pub set_id_topic : Symkey → List ℕ → ℤ × List ℕ → ℤ × Symkey
  set_id_topic s id (r, controltopic) =
      let (r', hash) = e4c_derive_topichash keccak_f1600 topichash_len controltopic in
      if not (is_zero r)
      then (r, s)
      else if not (is_zero r')
      then (r', record s { ctrltopic = replicate 16 0 })
      else (result_ok, record s { ctrltopic = hash; id = take 16 id })

  unfoldable pub set_id : Symkey → List ℕ → ℤ × Symkey
  unfolding set_id_topic
  set_id s id =
      set_id_topic s id
        (e4c_derive_control_topic (replicate (ctrltopic_len + 1) 0) (ctrltopic_len + 1) id)

  unfoldable pub gettopicindex : Symkey → List ℕ → ℤ
  gettopicindex s topic =
      let (r, hash) = e4c_derive_topichash keccak_f1600 topichash_len topic in
      let i = find s.table hash in
      if not (is_zero r)
      then error_persistence_error
      else if leb s.table.count i
      then error_topickey_missing
      else pos i

  unfoldable pub is_device_ctrltopic : Symkey → List ℕ → ℤ
  is_device_ctrltopic s topic =
      let (r, hash) = e4c_derive_topichash keccak_f1600 topichash_len topic in
      if not (is_zero r) then error_persistence_error else memcmp s.ctrltopic hash
