-- ===== src/Pubkey/MessageTests.antt =====
-- src/e4pkcclient.c over src/e4c_pk_store_mem.c at concrete inputs.
use libe.Common.{
  List, [], arith, drop, false, length, overwrite, refl, replicate, some, take, true, ℕ, ◌++◌, ◌∷◌,
  ◌≡◌, ◌≢◌, ◌⊎◌,
}
use libe.Pubkey.Clients.{
  a_client, store, choose_a_key, a_topic_not_control, control_topic_control, own_public,
  own_private, own_device, own_device_key, shared, verifies,
}
use libe.Symkey.Client.Protect.{packet, length-packet}
use libe.Common.Int.{is_zero, ℤ}
use libe.Common.Memory.{memcmp, c_string}
use libe.Fixtures.{a_topic, control_topic, xor_cipher, xor_curves, same_state, hello, key_one}
use libe.Table.{empty}
use libe.Util.{e4c_derive_topichash, zerocheck, zerocheck_from}
use libe.Crypto.Sha3.{sha3_256_trunc, sha3_final, sha3_init, sha3_update, absorb, sha3}
use libe.Symkey.Client.{
  written, opened, protected_code, check_timestamp, control_result, read_timestamp, write_timestamp,
}
use libe.Pubkey.Client.{e4c_pubkey_protect_message, run_command}
use libe.Pubkey.Client.Protect.{
  pk_packet, e4c_pubkey_protect_message-pk_packet, e4c_pubkey_protect_message-ne-ok,
}
use libe.Pubkey.Unprotect.{
  e4c_pubkey_unprotect_message, control_gate, finish_command, gate, handle_decrypted,
  unprotect_with,
}
use libe.Pubkey.Unprotect.Roundtrip.{unprotect-pk_packet}
use libe.Pubkey.MemStore.{Pubkey, is_device_ctrltopic, get_id, get_c2sharedsecret, reset_topics}
use libe.Protocol.{error_internal, result_ok, result_ok_control}
use libe.Crypto.Siv.{
  xor_prefix, aes256_decrypt_siv, aes256_encrypt_siv, chain, cmac_dbl, ctr_loop, incr, process,
  process_last, refill, shift_left, siv_cmac, siv_ctr, siv_tag,
}
use libe.Pubkey.Unprotect.Authentic.{Sealed, unprotect-changes-Sealed}
use libe.Pubkey.Unprotect.Commands.{remove_pubkey-ignored, unprotect-pk_command}

e4c_pubkey_protect_message-pk_packet_example :
    e4c_pubkey_protect_message xor_cipher xor_curves store 1600000000
      (some (replicate 120 0))
      109
      (some 0)
      (some hello)
      5
      (some a_topic)
      (some a_client)
    ≡ some (
        written error_internal
          (overwrite
            (pk_packet xor_cipher xor_curves store 1600000000 a_client hello key_one
              (replicate 32 6)
              (replicate 64 5))
            (replicate 120 0))
          45)
unfolding get_id
e4c_pubkey_protect_message-pk_packet_example =
    e4c_pubkey_protect_message-pk_packet xor_cipher xor_curves store 1600000000 109 0
      (replicate 120 0) hello a_topic a_client false key_one (replicate 32 6) (replicate 64 5)
      (omega arith) (omega arith) (omega arith) refl choose_a_key own_public own_private

packet_protected :
    e4c_pubkey_protect_message xor_cipher xor_curves store 1600000000
      (some (replicate 120 0))
      109
      (some 0)
      (some hello)
      5
      (some a_topic)
      (some a_client)
    ≡ some (
        written error_internal
          (overwrite
            (pk_packet xor_cipher xor_curves store 1600000000 a_client hello key_one
              (replicate 32 6)
              (replicate 64 5))
            (replicate 120 0))
          45)
unfolding get_id
packet_protected =
    e4c_pubkey_protect_message-pk_packet xor_cipher xor_curves store 1600000000 109 0
      (replicate 120 0) hello a_topic a_client false key_one (replicate 32 6) (replicate 64 5)
      (omega arith) (omega arith) (omega arith) refl choose_a_key own_public own_private

e4c_pubkey_protect_message-ne-ok_example :
    protected_code (
      written error_internal
        (overwrite
          (pk_packet xor_cipher xor_curves store 1600000000 a_client hello key_one
            (replicate 32 6)
            (replicate 64 5))
          (replicate 120 0))
        45)
    ≢ result_ok
e4c_pubkey_protect_message-ne-ok_example =
    e4c_pubkey_protect_message-ne-ok xor_cipher xor_curves store 1600000000 109 5
      (some (replicate 120 0)) (some a_topic) (some 0) (some hello) (some a_client)
      (written error_internal
        (overwrite
          (pk_packet xor_cipher xor_curves store 1600000000 a_client hello key_one (replicate 32 6)
            (replicate 64 5))
          (replicate 120 0))
        45)
      packet_protected

unprotect-pk_packet_example :
    (out : List ℕ) × (e4c_pubkey_protect_message xor_cipher xor_curves store 1600000000
        (some (replicate 120 0))
        200
        (some 0)
        (some hello)
        5
        (some a_topic)
        (some a_client)
      ≡ some (written error_internal out 45))
    × (e4c_pubkey_unprotect_message xor_cipher xor_curves store 0 1600000100
          (some (replicate 8 0))
          8
          (some out)
          109
          (some a_topic)
          (some a_client)
        ≡ some (opened result_ok (hello ++ 0 ∷ 0 ∷ 0 ∷ []) 5 a_client))
unfolding check_timestamp get_id
unprotect-pk_packet_example =
    unprotect-pk_packet xor_cipher xor_curves store 1600000000 1600000100 0 200 8 0 0
      (replicate 120 0) (replicate 8 0) hello a_topic key_one (replicate 32 6) (replicate 64 5)
      false false a_client a_client (omega arith) (omega arith) (omega arith) (omega arith)
      (omega arith) (omega arith) refl choose_a_key own_public own_private a_topic_not_control
      choose_a_key own_device own_device_key verifies refl

abbrev a_packet : List ℕ
a_packet =
    pk_packet xor_cipher xor_curves store 1600000000 a_client hello key_one (replicate 32 6)
      (replicate 64 5)

abbrev reset_client : Pubkey
reset_client = record a_client { topics = empty }

reset_topics_command :
    e4c_pubkey_unprotect_message xor_cipher xor_curves store 0 1600000000
      (some (replicate 4 0))
      4
      (some (packet xor_cipher 1600000000 (1 ∷ []) (replicate 32 8)))
      25
      (some control_topic)
      (some a_client)
    ≡ some (opened result_ok_control (1 ∷ 0 ∷ 0 ∷ 0 ∷ []) 1 reset_client)
unfolding e4c_pubkey_unprotect_message gate control_gate unprotect_with handle_decrypted
    finish_command run_command control_result check_timestamp read_timestamp write_timestamp packet
    get_c2sharedsecret zerocheck zerocheck_from reset_topics is_device_ctrltopic
    e4c_derive_topichash sha3_256_trunc sha3 sha3_init absorb sha3_update sha3_final memcmp c_string
    aes256_encrypt_siv aes256_decrypt_siv siv_tag siv_cmac cmac_dbl shift_left chain process
    process_last xor_prefix siv_ctr ctr_loop refill incr
reset_topics_command = refl

unprotect-changes-Sealed_example :
    let cptr = packet xor_cipher 1600000000 (1 ∷ []) (replicate 32 8) in
    (reset_client ≡ a_client)
    ⊎ ((message : List ℕ) × (key : List ℕ) × (code : ℤ) × (is_zero
            (is_device_ctrltopic same_state a_client control_topic)
          ≡ true)
        × (get_c2sharedsecret a_client ≡ (result_ok, key))
        × Sealed xor_cipher xor_curves store 0 1600000000 cptr (take 17 (drop 8 cptr)) key message
        × (1 ∷ 0 ∷ 0 ∷ 0 ∷ [] ≡ overwrite message (replicate 4 0))
        × (1 ≡ length message)
        × (run_command xor_cipher xor_curves store a_client (1 ∷ 0 ∷ 0 ∷ 0 ∷ []) 1
            ≡ some (code, reset_client))
        × (result_ok_control ≡ control_result code))
unprotect-changes-Sealed_example =
    unprotect-changes-Sealed xor_cipher xor_curves store 0 1600000000 4 25 (replicate 4 0)
      (packet xor_cipher 1600000000 (1 ∷ []) (replicate 32 8)) control_topic a_client
      (omega (arith, length-packet xor_cipher 1600000000 (1 ∷ []) (replicate 32 8)))
      (omega (arith, length-packet xor_cipher 1600000000 (1 ∷ []) (replicate 32 8)))
      result_ok_control (1 ∷ 0 ∷ 0 ∷ 0 ∷ []) 1 reset_client reset_topics_command

unprotect-pk_command_example :
    let out : List ℕ = 5 ∷ 0 ∷ 0 ∷ [] in
    e4c_pubkey_unprotect_message xor_cipher xor_curves store 1 1500000000
      (some (replicate 3 0))
      3
      (some (packet xor_cipher 1600000000 (5 ∷ []) (replicate 32 8)))
      25
      (some control_topic)
      (some a_client)
    ≡ finish_command xor_cipher xor_curves store out 1
        (run_command xor_cipher xor_curves store a_client out 1)
unfolding check_timestamp
unprotect-pk_command_example =
    unprotect-pk_command xor_cipher xor_curves store 1600000000 1500000000 1 3 (replicate 3 0)
      (5 ∷ []) control_topic (replicate 32 8) a_client (omega arith) (omega arith) (omega arith)
      (omega arith) control_topic_control shared refl

remove_pubkey-ignored_example :
    e4c_pubkey_unprotect_message xor_cipher xor_curves store 0 1600000000
      (some (replicate 17 0))
      17
      (some (packet xor_cipher 1600000000 (4 ∷ replicate 16 7) (replicate 32 8)))
      41
      (some control_topic)
      (some a_client)
    ≡ some (opened result_ok_control (4 ∷ replicate 16 7) 17 a_client)
unfolding check_timestamp
remove_pubkey-ignored_example =
    remove_pubkey-ignored xor_cipher xor_curves store 1600000000 1600000000 0 17 (replicate 17 0)
      (replicate 16 7) control_topic (replicate 32 8) a_client (omega arith) refl (omega arith)
      (omega arith) control_topic_control shared refl
