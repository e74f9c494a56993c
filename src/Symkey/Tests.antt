-- ===== src/Symkey/Tests.antt =====
-- src/e4symclient.c over src/e4c_store_mem.c at concrete inputs.
use libe.Common.{
  List, [], arith, bit_and, false, length, overwrite, refl, replicate, some, true, ℕ, ◌++◌, ◌<◌,
  ◌∷◌, ◌≡◌, ◌≢◌, ◌≤◌, ◌⊎◌,
}
use libe.Common.Int.{ℤ, is_zero}
use libe.Symkey.Session.{
  Received, receive, Commanded, Session, opens, done, Session-Authentic, Session-IsStore,
}
use libe.Symkey.Unprotect.Safety.{Authentic, unprotect-changes-Authentic}
use mathlib.Core.Logic.{◌↔◌}
use libe.Common.Memory.{memcmp, c_string}
use libe.Protocol.{result_ok, error_timestamp_in_future, error_timestamp_too_old, result_ok_control}
use libe.Table.{find, named, search_slots}
use libe.Symkey.MemStore.{
  Symkey, gettopicindex, gettopickey, reset_topics, get_idkey, is_device_ctrltopic,
}
use libe.Symkey.MemStore.Instance.{mem_store}
use libe.Symkey.Client.{
  chosen, written, opened, choose_key, found_key, check_timestamp, e4c_symkey_protect_message,
  control_result, read_timestamp, run_command, write_timestamp,
}
use libe.Fixtures.{
  a_store, a_topic, hash_of_c, a_table, control_topic, xor_cipher, same_state, key_one, hello,
  a_table-IsTable,
}
use libe.Util.{e4c_derive_topichash}
use libe.Symkey.Unprotect.{
  e4c_symkey_unprotect_message, finish_command, handle_decrypted, unprotect_pointers,
  unprotect_with,
}
use libe.Crypto.Sha3.{sha3_256_trunc, sha3_final, sha3_init, sha3_update, absorb, sha3}
use libe.Symkey.Unprotect.Roundtrip.{unprotect-command, unprotect-protect}
use libe.Symkey.Client.Time.{Within, check_timestamp_lem}
use libe.Symkey.Client.Protect.{e4c_symkey_protect_message-packet, packet, length-packet}
use libe.Crypto.Siv.{
  aes256_decrypt_siv, aes256_encrypt_siv, cmac_dbl, ctr_loop, process_last, shift_left, siv_cmac,
  siv_ctr, siv_tag, xor_prefix, chain, incr, process, refill,
}
use libe.Table.Entries.{IsTable}

-- The client finds the key of the topic.
choose_a_key : choose_key xor_cipher (mem_store same_state) a_store a_topic ≡ chosen false key_one
unfolding choose_key found_key gettopicindex gettopickey e4c_derive_topichash sha3_256_trunc sha3
    sha3_init absorb sha3_update sha3_final find search_slots named memcmp c_string
choose_a_key = refl

unprotect-protect_example :
    (out : List ℕ) × (e4c_symkey_protect_message xor_cipher
        (mem_store same_state)
        1600000000
        (some (replicate 30 0))
        100
        (some hello)
        5
        (some a_topic)
        (some a_store)
      ≡ some (written result_ok out 29))
    × (e4c_symkey_unprotect_message xor_cipher
          (mem_store same_state)
          0
          1600000100
          (some (replicate 8 0))
          8
          (some out)
          29
          (some a_topic)
          (some a_store)
        ≡ some (opened result_ok (hello ++ 0 ∷ 0 ∷ 0 ∷ []) 5 a_store))
unfolding check_timestamp
unprotect-protect_example =
    unprotect-protect xor_cipher (mem_store same_state) 1600000000 1600000100 0 100 8
      (replicate 30 0) (replicate 8 0) hello a_topic key_one false a_store a_store (omega arith)
      (omega arith) (omega arith) (omega arith) (omega arith) (omega arith) choose_a_key
      choose_a_key refl

e4c_symkey_protect_message-packet_example :
    e4c_symkey_protect_message xor_cipher
      (mem_store same_state)
      1600000000
      (some (replicate 30 0))
      29
      (some hello)
      5
      (some a_topic)
      (some a_store)
    ≡ some (
        written result_ok
          (overwrite (packet xor_cipher 1600000000 hello key_one) (replicate 30 0))
          29)
e4c_symkey_protect_message-packet_example =
    e4c_symkey_protect_message-packet xor_cipher (mem_store same_state) 1600000000 29
      (replicate 30 0) hello a_topic a_store false key_one (omega arith) (omega arith) (omega arith)
      choose_a_key

check_timestamp_lem_example :
    ((check_timestamp 0 1600000000 1600000600 ≡ result_ok)
      ↔ ((1600000000 < 946684800) ⊎ ((bit_and 0 1 ≢ 0) ⊎ Within 600 1600000600 1600000000)))
    × ((check_timestamp 0 1600000000 1600000600 ≡ error_timestamp_in_future)
        ↔ ((946684800 ≤ 1600000000) × (bit_and 0 1 ≡ 0) × (1600000600 < 1600000600)))
    × ((check_timestamp 0 1600000000 1600000600 ≡ error_timestamp_too_old)
        ↔ ((946684800 ≤ 1600000000) × (bit_and 0 1 ≡ 0) × (1600001200 < 1600000000)))
check_timestamp_lem_example = check_timestamp_lem 0 1600000000 1600000600

-- A device whose control topic is "c", and the command ResetTopics for it.
abbrev a_device : Symkey
a_device = record a_store { ctrltopic = hash_of_c }

abbrev reset_device : Symkey
reset_device = record a_device { table = record a_table { count = 0 } }

abbrev reset_command : List ℕ
reset_command = packet xor_cipher 1600000000 (1 ∷ []) (replicate 32 8)

a_command :
    e4c_symkey_unprotect_message xor_cipher
      (mem_store same_state)
      0
      1600000000
      (some (replicate 20 0))
      20
      (some reset_command)
      25
      (some control_topic)
      (some a_device)
    ≡ some (opened result_ok_control (1 ∷ replicate 19 0) 1 reset_device)
unfolding e4c_symkey_unprotect_message unprotect_pointers unprotect_with handle_decrypted
    finish_command run_command control_result check_timestamp read_timestamp write_timestamp packet
    choose_key found_key gettopicindex gettopickey is_device_ctrltopic get_idkey reset_topics
    e4c_derive_topichash sha3_256_trunc sha3 sha3_init absorb sha3_update sha3_final find
    search_slots named memcmp c_string aes256_encrypt_siv aes256_decrypt_siv siv_tag siv_cmac
    cmac_dbl shift_left chain process process_last xor_prefix siv_ctr ctr_loop refill incr
a_command = refl

unprotect-changes-Authentic_example :
    (reset_device ≡ a_device)
    ⊎ ((message : List ℕ) × (code : ℤ) × (is_zero
            (is_device_ctrltopic same_state a_device control_topic)
          ≡ true)
        × Authentic xor_cipher
            (mem_store same_state)
            0
            1600000000
            a_device
            reset_command
            25
            control_topic
            true
            (replicate 32 8)
            message
        × (1 ∷ replicate 19 0 ≡ overwrite message (replicate 20 0))
        × (1 ≡ length message)
        × (run_command xor_cipher (mem_store same_state) a_device (1 ∷ replicate 19 0) 1
            ≡ some (code, reset_device))
        × (result_ok_control ≡ control_result code))
unfolding get_idkey
unprotect-changes-Authentic_example =
    unprotect-changes-Authentic xor_cipher (mem_store same_state) 0 1600000000 20 25
      (replicate 20 0) reset_command control_topic a_device
      (omega (arith, length-packet xor_cipher 1600000000 (1 ∷ []) (replicate 32 8)))
      (omega (arith, length-packet xor_cipher 1600000000 (1 ∷ []) (replicate 32 8)))
      result_ok_control (1 ∷ replicate 19 0) 1 reset_device a_command

-- A message for the topic "t".
abbrev a_message : List ℕ
a_message = packet xor_cipher 1600000000 hello key_one

device_choice :
    choose_key xor_cipher (mem_store same_state) a_device control_topic
    ≡ chosen true (replicate 32 8)
unfolding choose_key found_key gettopicindex gettopickey is_device_ctrltopic get_idkey
    e4c_derive_topichash sha3_256_trunc sha3 sha3_init absorb sha3_update sha3_final find
    search_slots named memcmp c_string
device_choice = refl

unprotect-command_example :
    let out : List ℕ = 1 ∷ 0 ∷ [] in
    e4c_symkey_unprotect_message xor_cipher
      (mem_store same_state)
      0
      1600000000
      (some (0 ∷ 0 ∷ []))
      2
      (some reset_command)
      25
      (some control_topic)
      (some a_device)
    ≡ finish_command xor_cipher
        (mem_store same_state)
        out
        1
        (run_command xor_cipher (mem_store same_state) a_device out 1)
unfolding check_timestamp
unprotect-command_example =
    unprotect-command xor_cipher (mem_store same_state) 1600000000 1600000000 0 2 (0 ∷ 0 ∷ [])
      (1 ∷ []) control_topic (replicate 32 8) a_device (omega arith) (omega arith) (omega arith)
      (omega arith) device_choice refl

-- A client that receives the command.
abbrev a_received : Received
a_received = record {
  opts = 0;
  now = 1600000000;
  mptr = replicate 20 0;
  mmax = 20;
  cptr = reset_command;
  clen = 25;
  topic = control_topic;
  inside = omega (arith, length-packet xor_cipher 1600000000 (1 ∷ []) (replicate 32 8));
  small = omega (arith, length-packet xor_cipher 1600000000 (1 ∷ []) (replicate 32 8));
}

after_reset : Session xor_cipher (mem_store same_state) (a_received ∷ []) a_device reset_device
unfolding receive
after_reset = opens a_received result_ok_control (1 ∷ replicate 19 0) 1 a_command done

Session-Authentic_example :
    (reset_device ≡ a_device)
    ⊎ Commanded xor_cipher (mem_store same_state) (a_received ∷ []) a_device reset_device
Session-Authentic_example = Session-Authentic xor_cipher (mem_store same_state) after_reset

Session-IsStore_example : IsTable reset_device.table
Session-IsStore_example =
    Session-IsStore xor_cipher (mem_store same_state) after_reset a_table-IsTable
