-- ===== src/Pubkey/Clients.antt =====
-- Clients with src/e4c_pk_store_mem.c, for the tests, and what holds of them.
use libe.Common.{List, arith, false, refl, replicate, some, true, ℕ, ◌∷◌, ◌≡◌}
use libe.Common.Int.{pos, is_zero}
use libe.Common.Memory.{memcmp, c_string, memcmp_self}
use libe.Fixtures.{
  a_topic, hash_of_c, a_table, control_topic, xor_cipher, xor_curves, same_state, key_one,
}
use libe.Table.{Table, Slot, empty_slot, find, named, search_slots}
use libe.Table.Entries.{IsTable}
use libe.Util.{e4c_derive_topichash, zerocheck, zerocheck_from}
use libe.Crypto.Sha3.{sha3_256_trunc, sha3_final, sha3_init, sha3_update, absorb, sha3}
use libe.Symkey.Client.{chosen}
use libe.Pubkey.Client.{own_privkey, own_pubkey, topic_choice, found_key}
use libe.Pubkey.MemStore.{
  Pubkey, gettopicindex, gettopickey, is_device_ctrltopic, getdeviceindex, getdevicekey,
  get_c2sharedsecret, get_idpubkey_cached, get_idseckey_cached,
}
use libe.Pubkey.MemStore.Instance.{pk_mem_store}
use libe.Pubkey.Storage.{PkStorage}
use libe.Protocol.{result_ok}
use libe.Crypto.Siv.{xor_prefix}

abbrev own_slot : Slot
own_slot = record { id = replicate 16 9; key = replicate 32 6 }

abbrev other_slot : Slot
other_slot = record { id = replicate 16 7; key = replicate 32 1 }

abbrev pub two_devices : Table
two_devices = record { count = 2; slots = own_slot ∷ other_slot ∷ replicate 98 empty_slot }

abbrev one_device : Table
one_device = record { count = 1; slots = own_slot ∷ replicate 99 empty_slot }

pub two_devices-IsTable : IsTable two_devices
unfolding named memcmp
two_devices-IsTable = record {
  within = omega arith;
  full_array = refl;
  distinct = (refl, (refl, tt), (refl, tt, tt));
}

pub one_device-IsTable : IsTable one_device
one_device-IsTable = record { within = omega arith; full_array = refl; distinct = (refl, tt, tt) }

-- A client that knows its own public key and that of another device.
abbrev pub a_client : Pubkey
a_client = record {
  id = replicate 16 9;
  privkey = replicate 64 5;
  pubkey = replicate 32 6;
  c2key = replicate 32 0;
  c2sharedkey = replicate 32 8;
  devices = two_devices;
  topics = a_table;
  filepath = replicate 256 0;
  ctrltopic = hash_of_c;
}

abbrev pub small_client : Pubkey
small_client = record a_client { devices = one_device }

abbrev pub store : PkStorage
store = pk_mem_store same_state xor_curves

pub choose_a_key : topic_choice xor_cipher xor_curves store a_client a_topic ≡ chosen false key_one
unfolding topic_choice found_key gettopicindex gettopickey e4c_derive_topichash sha3_256_trunc sha3
    sha3_init absorb sha3_update sha3_final find search_slots named memcmp c_string
choose_a_key = refl

pub a_topic_not_control : is_zero (is_device_ctrltopic same_state a_client a_topic) ≡ false
unfolding is_device_ctrltopic e4c_derive_topichash sha3_256_trunc sha3 sha3_init absorb sha3_update
    sha3_final memcmp c_string
a_topic_not_control = refl

pub control_topic_control : is_zero (is_device_ctrltopic same_state a_client control_topic) ≡ true
unfolding is_device_ctrltopic e4c_derive_topichash sha3_256_trunc sha3 sha3_init absorb sha3_update
    sha3_final memcmp c_string
control_topic_control = refl

pub own_public : own_pubkey xor_cipher xor_curves store a_client ≡ (result_ok, replicate 32 6)
unfolding own_pubkey get_idpubkey_cached
own_public = refl

pub own_private :
    own_privkey xor_cipher xor_curves store a_client ≡ some (result_ok, replicate 64 5)
unfolding own_privkey get_idseckey_cached
own_private = refl

pub own_device : getdeviceindex a_client (replicate 16 9) ≡ pos 0
unfolding getdeviceindex find search_slots named memcmp
own_device = refl

pub own_device_key : getdevicekey a_client (pos 0) ≡ some (replicate 32 6)
unfolding getdevicekey
own_device_key = refl

pub shared : get_c2sharedsecret a_client ≡ (result_ok, replicate 32 8)
unfolding get_c2sharedsecret zerocheck zerocheck_from
shared = refl

pub verifies :
    (m : List ℕ)
    → xor_curves.ed25519_verify
        (xor_curves.ed25519_sign m (replicate 32 6) (replicate 64 5))
        m
        (replicate 32 6)
      ≡ 1
verifies m = rw (memcmp_self (xor_prefix (replicate 64 3) m))
