-- ===== src/Util.antt =====
-- src/e4util.c and src/strlcpy.c: names of clients and topics, hexadecimal text, zeroing.
pub mod Names
pub mod Hex
pub mod Zero
pub mod Strings
mod Tests
use libe.Common.{
  Bool, List, Option, [], bit_or, false, if◌then◌else◌, leb, length, ltb, none, not, overwrite,
  some, suc, take, true, zero, ℕ, ◌%◌, ◌&&◌, ◌*◌, ◌++◌, ◌+◌, ◌-◌, ◌/◌, ◌==◌, ◌^◌, ◌||◌, ◌∷◌,
}
use libe.Common.Int.{ℤ, pos, negsuc}
use libe.Common.Memory.{c_string, snprintf, hex2}
use libe.Crypto.Sha3.{sha3_256_trunc}
use libe.Protocol.{id_len, ctrltopic_len, topichash_len}

-- zeroize(v, n)
unfoldable pub zeroize : List ℕ → ℕ → List ℕ
zeroize v zero = v
zeroize [] (suc n) = []
zeroize (x ∷ v) (suc n) = 0 ∷ zeroize v n

-- The bytes or-ed together, from a sum so far.
unfoldable pub zerocheck_from : ℕ → List ℕ → ℕ
zerocheck_from sum [] = sum
zerocheck_from sum (x ∷ v) = zerocheck_from (bit_or sum x) v

unfoldable pub zerocheck : List ℕ → ℕ
zerocheck v = zerocheck_from 0 v

-- The loop that prints the bytes of the client id, from byte i on.
pub print_id : List ℕ → ℕ → ℕ → List ℕ → List ℕ
print_id topic topiclen i [] = topic
print_id topic topiclen i (x ∷ id) =
    let adjust = 3 + 2 * i in
    print_id (snprintf topic adjust (topiclen - adjust) (hex2 x)) topiclen (i + 1) id

-- The result code, and the buffer as it is left.
pub e4c_derive_control_topic : List ℕ → ℕ → List ℕ → ℤ × List ℕ
e4c_derive_control_topic topic topiclen clientid =
    let named = snprintf topic 0 topiclen (b'e' ∷ b'4' ∷ b'/' ∷ []) in
    if ltb topiclen (ctrltopic_len + 1)
    then (pos (ctrltopic_len + 1), topic)
    else (pos 0, print_id named topiclen 0 (take id_len clientid))

module _ (keccak_f1600 : List ℕ → List ℕ) where
  -- The result code and, unless that is an error, the id.
  unfoldable e4c_derive_clientid : ℕ → List ℕ → ℤ × List ℕ
  e4c_derive_clientid clientidlen clientname =
      if clientidlen == id_len
      then (pos 0, sha3_256_trunc keccak_f1600 clientidlen clientname)
      else (pos id_len, [])

  -- `topic` points to a string in memory; it is hashed up to its terminating zero.
  unfoldable pub e4c_derive_topichash : ℕ → List ℕ → ℤ × List ℕ
  e4c_derive_topichash topichash_len topic =
      if topichash_len == id_len
      then (pos 0, sha3_256_trunc keccak_f1600 topichash_len (c_string topic))
      else (pos id_len, [])

pub from_hex : ℕ → ℤ
from_hex c =
    if leb b'0' c && leb c b'9'
    then pos (c - b'0')
    else if leb b'a' c && leb c b'f'
    then pos (c - b'a' + 10)
    else if leb b'A' c && leb c b'F'
    then pos (c - b'A' + 10)
    else negsuc 0

-- One round: a digit that is none ends the loop with 0; otherwise the byte is written and the
-- value returned is that of the rounds after it.
pub write_pair : ℤ → ℤ → Option (ℕ × List ℕ) → Option (ℕ × List ℕ)
write_pair (pos h1) (pos h2) none = none
write_pair (pos h1) (pos h2) (some (r, written)) = some (r, bit_or (h1 * 16) h2 % 2 ^ 8 ∷ written)
write_pair (pos h1) (negsuc _) next = some (0, [])
write_pair (negsuc _) h2 next = some (0, [])

-- The loop of e4c_hex_decode at index i, an int: the value returned and the bytes written, or
-- `none` where the index overflows.
pub decode_pairs : ℕ → List ℕ → Option (ℕ × List ℕ)
decode_pairs i [] = some (i, [])
decode_pairs i (a ∷ []) = some (0, [])
decode_pairs i (a ∷ b ∷ rest) =
    let next = if ltb (i + 2) (2 ^ 31) then decode_pairs (i + 2) rest else none in
    write_pair (from_hex a) (from_hex b) next

-- The value returned and the bytes written at `dst`.
pub e4c_hex_decode : ℕ → List ℕ → Option (ℕ × List ℕ)
e4c_hex_decode dst_len encoded =
    let encoded_len = length encoded in
    if encoded_len == 0 || not (encoded_len % 2 == 0)
    then some (0, [])
    else if ltb dst_len (encoded_len / 2)
    then some (0, [])
    else decode_pairs 0 encoded

-- The copying loop of strlcpy, with n - 1 bytes left and `src` at s: the bytes copied, and
-- whether the terminating zero was among them.
pub copy : ℕ → List ℕ → List ℕ × Bool
copy zero src = ([], false)
copy (suc n) [] = ([], false)
copy (suc n) (x ∷ src) =
    let rest = copy n src in if x == 0 then (0 ∷ [], true) else (x ∷ rest.0, rest.1)

-- The value returned and the destination. `src` is memory that holds a terminated string.
pub strlcpy : List ℕ → List ℕ → ℕ → ℕ × List ℕ
strlcpy dst src siz =
    let (copied, ended) = copy (siz - 1) src in
    let out = if ended then copied else copied ++ 0 ∷ [] in
    (length (c_string src), if siz == 0 then dst else overwrite out dst)
