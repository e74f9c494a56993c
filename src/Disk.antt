-- ===== src/Disk.antt =====
-- The files of src/e4c_store_file.c and src/e4c_pk_store_file.c, which read and write alike. A file
-- is the list of its bytes, `none` if it does not exist; whether it can be opened for writing
-- (`opens`) and how many bytes `write` takes before it fails (`accepted`) are arguments. A uint16_t
-- is stored with its low byte first.
pub mod Rows
pub mod Kept
use libe.Common.{
  Bool, List, Option, [], drop, false, get_or, if◌then◌else◌, leb, length, ltb, none, not,
  overwrite, some, suc, take, true, zero, ℕ, ◌%◌, ◌*◌, ◌++◌, ◌+◌, ◌/◌, ◌==◌, ◌^◌, ◌∷◌,
}
use libe.Common.Int.{ℤ, pos}
use libe.Common.Memory.{c_string}
use libe.Protocol.{result_ok, error_persistence_error}
use libe.Table.{Slot, Table, capacity}
use libe.Util.{strlcpy}

-- E4_MAX_PATH
abbrev pub max_path : ℕ
max_path = 255

-- The code and the path that configuring a storage leaves.
unfoldable pub configured : List ℕ → List ℕ → ℤ × List ℕ
configured filepath path =
    let (copied_bytes, filepath') = strlcpy filepath path max_path in
    (if leb copied_bytes (length (c_string path)) then pos 1 else result_ok, filepath')

-- "/tmp/persistence.e4p"
abbrev default_path : List ℕ
default_path =
    b'/' ∷ b't' ∷ b'm' ∷ b'p' ∷ b'/' ∷ b'p' ∷ b'e' ∷ b'r' ∷ b's' ∷ b'i' ∷ b's' ∷ b't' ∷ b'e' ∷ b'n'
    ∷ b'c' ∷ b'e' ∷ b'.' ∷ b'e' ∷ b'4' ∷ b'p' ∷ 0 ∷ []

abbrev pub path_or_default : Option (List ℕ) → List ℕ
path_or_default none = default_path
path_or_default (some path) = path

abbrev pub le16 : ℕ → List ℕ
le16 n = n % 2 ^ 8 ∷ n / 2 ^ 8 ∷ []

-- The uint16_t in two bytes.
abbrev pub of_le16 : List ℕ → ℕ
of_le16 v = get_or v 0 0 + get_or v 1 0 * 2 ^ 8

-- The loop that writes the slots in use.
unfoldable pub rows : ℕ → List Slot → List ℕ
rows zero slots = []
rows (suc n) [] = []
rows (suc n) (s ∷ slots) = s.id ++ (s.key ++ rows n slots)

-- A count and its slots.
abbrev pub table_image : Table → List ℕ
table_image t = le16 t.count ++ rows t.count t.slots

abbrev pub contents : Option (List ℕ) → List ℕ
contents none = []
contents (some file) = file

-- What the calls of `write` put into the file one after another. The file is opened without
-- O_TRUNC: bytes behind what is written stay.
unfoldable pub write_back : Bool → ℕ → List ℕ → List ℕ → Option (List ℕ) → ℤ × Option (List ℕ)
write_back opens accepted filepath all file =
    if length (c_string filepath) == 0
    then (error_persistence_error, file)
    else if not opens
    then (error_persistence_error, file)
    else (
      if leb (length all) accepted then result_ok else error_persistence_error,
      some (overwrite (take accepted all) (contents file)),
    )

-- The loop that reads the slots, from the bytes left in the file: whether they were enough, the
-- slots and the bytes that are left then.
unfoldable pub read_rows : ℕ → List ℕ → List Slot → Bool × List Slot × List ℕ
read_rows zero rest slots = (true, slots, rest)
read_rows (suc n) rest [] = (false, [], rest)
read_rows (suc n) rest (slot ∷ slots) =
    let with_id = record slot { id = overwrite (take 16 rest) slot.id } in
    let rest' = drop 16 rest in
    let full = record with_id { key = overwrite (take 32 rest') slot.key } in
    let (ok, slots', rest'') = read_rows n (drop 32 rest') slots in
    if ltb (length rest) 16
    then (false, with_id ∷ slots, [])
    else if ltb (length rest') 32
    then (false, full ∷ slots, [])
    else (ok, full ∷ slots', rest'')

-- The count, then the slots. A count that is too large is refused after it was stored.
unfoldable pub read_table : Table → List ℕ → Bool × Table × List ℕ
read_table t rest =
    let count = of_le16 (overwrite (take 2 rest) (le16 t.count)) in
    let counted = record t { count = count } in
    let (ok, slots, rest') = read_rows count (drop 2 rest) t.slots in
    if ltb (length rest) 2
    then (false, counted, [])
    else if ltb capacity count
    then (false, counted, [])
    else (ok, record { count = count; slots = slots }, rest')

-- A storage with the file that it writes to, and how often it has been written to.
pub record Filed (S : Type 0) : Type 0 where
  pub store : S
  pub file : Option (List ℕ)
  pub syncs : ℕ
