-- ===== src/Fixtures.antt =====
-- A block cipher that xors the key onto the block, and a permutation that changes nothing: they
-- stand for src/crypto/aes256enc_ref.c and src/crypto/keccakf1600.c in the tests.
use libe.Common.{List, [], arith, if◌then◌else◌, refl, replicate, take, ℕ, ◌∙◌, ◌∷◌}
use libe.Table.{empty_slot, Table}
use libe.Common.Int.{is_zero}
use libe.Common.Memory.{memcmp}
use libe.Crypto.Cipher.{Cipher}
use libe.Crypto.Siv.Roundtrip.{length-xor_prefix}
use libe.Crypto.Siv.{xor_prefix}
use libe.Pubkey.Curves.{Curves}
use libe.Table.Entries.{IsTable}
use libe.Symkey.MemStore.{Symkey}

abbrev pub xor_cipher : Cipher
xor_cipher = record {
  enc_exp_key = take 16;
  encrypt_ecb = xor_prefix;
  length-encrypt_ecb = λ blk eky n. length-xor_prefix blk eky ∙ n;
}

abbrev pub same_state : List ℕ → List ℕ
same_state b = b

abbrev pub key_one : List ℕ
key_one = 1 ∷ 2 ∷ 3 ∷ 4 ∷ 5 ∷ replicate 27 6

abbrev pub hello : List ℕ
hello = b'h' ∷ b'e' ∷ b'l' ∷ b'l' ∷ b'o' ∷ []

-- A text of more than one block.
abbrev pub long_text : List ℕ
long_text = replicate 21 7

abbrev pub stamp : List ℕ
stamp = 1 ∷ 2 ∷ 3 ∷ 4 ∷ 0 ∷ 0 ∷ 0 ∷ 0 ∷ []

-- A topic "t" with its hash, a table with its key, and a control topic "c" with its hash.
abbrev pub a_topic : List ℕ
a_topic = b't' ∷ 0 ∷ []

abbrev pub hash_of_t : List ℕ
hash_of_t = b't' ∷ 6 ∷ replicate 14 0

abbrev pub a_table : Table
a_table = record {
  count = 1;
  slots = record { id = hash_of_t; key = key_one } ∷ replicate 99 empty_slot;
}

pub a_table-IsTable : IsTable a_table
a_table-IsTable = record { within = omega arith; full_array = refl; distinct = (refl, tt, tt) }

abbrev pub control_topic : List ℕ
control_topic = b'c' ∷ 0 ∷ []

abbrev pub hash_of_c : List ℕ
hash_of_c = b'c' ∷ 6 ∷ replicate 14 0

-- Signatures that xor the message onto a pattern, and a point that xors two keys.
abbrev pub xor_curves : Curves
xor_curves = record {
  ed25519_sign = λ message pubkey privkey. xor_prefix (replicate 64 3) message;
  ed25519_verify = λ signature message pubkey.
      if is_zero (memcmp signature (xor_prefix (replicate 64 3) message)) then 1 else 0;
  curve25519 = xor_prefix;
  xed25519_convert_ed2c_private = take 32;
  length-ed25519_sign = λ message pubkey privkey. length-xor_prefix (replicate 64 3) message;
}

abbrev pub a_store : Symkey
a_store = record {
  id = replicate 16 9;
  key = replicate 32 8;
  table = a_table;
  filepath = replicate 256 0;
  ctrltopic = replicate 16 0;
}
