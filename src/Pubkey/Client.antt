-- ===== src/Pubkey/Client.antt =====
-- src/e4pkcclient.c: e4c_pubkey_protect_message and the commands, on a system with a clock (`now`
-- is time(NULL)). Timestamps are written, read and checked as in src/e4symclient.c.
-- A pointer is an `Option`, NULL is `none`; a buffer is the list of the bytes that it points to.
-- `none` as a result is undefined behaviour of the C code, as in src/e4symclient.c.
pub mod Protect
use libe.Common.{
  List, Option, [], drop, false, get_or, if◌then◌else◌, length, ltb, none, not, overwrite, some,
  take, ℕ, ◌%◌, ◌++◌, ◌+◌, ◌==◌, ◌^◌, ◌||◌,
}
use libe.Common.Int.{ℤ, pos, negsuc, is_zero}
use libe.Crypto.Cipher.{Cipher}
use libe.Crypto.Siv.{aes256_encrypt_siv}
use libe.Crypto.Sha3.{sha3}
use libe.Protocol.{
  result_ok, error_ciphertext_too_short, error_internal, error_invalid_command,
  error_parameter_invalid, error_parameter_overflow, error_topickey_missing, id_len, key_len,
  timestamp_len, topichash_len, pk_eddsa_privkey_len, pk_eddsa_pubkey_len, pk_eddsa_sig_len,
  pk_topicmsghdr_len,
}
use libe.Symkey.Client.{
  Choice, chosen, missing, unreadable, Protected, refused, written, write_timestamp,
}
use libe.Pubkey.Curves.{Curves}
use libe.Pubkey.Storage.{PkStorage}

-- From what e4c_pubkey_get_c2_pubkey and e4c_pubkey_get_idseckey give: the hash of the point that
-- the key of the device and the key of the server share, or the code of the first failure.
unfoldable pub e4c_pubkey_c2sharedsecret_derive :
    (List ℕ → List ℕ) → Curves → ℤ × List ℕ → ℤ × List ℕ → ℤ × List ℕ
e4c_pubkey_c2sharedsecret_derive keccak_f1600 cv (r, c2pk) (r', deviceedsk) =
    let devicesk = cv.xed25519_convert_ed2c_private deviceedsk in
    if not (is_zero r)
    then (r, [])
    else if not (is_zero r')
    then (r', [])
    else (result_ok, sha3 keccak_f1600 (cv.curve25519 devicesk c2pk) key_len)

module _ (c : Cipher) (cv : Curves) (st : PkStorage) where
  open st use {Store}

  unfoldable pub found_key : Option (List ℕ) → Choice
  found_key none = unreadable
  found_key (some key) = chosen false key

  unfoldable pub topic_choice : Store → List ℕ → Choice
  topic_choice s topic = elim (st.gettopicindex s topic) [
    | pos i ↦ found_key (st.gettopickey s (pos i))
    | negsuc _ ↦ missing
  ]

  unfoldable pub own_pubkey : Store → ℤ × List ℕ
  own_pubkey s = elim (st.get_idpubkey_cached s) [
    | some pubkey ↦ (result_ok, pubkey)
    | none ↦ st.get_idpubkey s
  ]

  -- The buffer for a key that is not cached has the 32 bytes of a public key.
  unfoldable pub own_privkey : Store → Option (ℤ × List ℕ)
  own_privkey s = elim (st.get_idseckey_cached s) [
    | some privkey ↦ some (result_ok, privkey)
    | none ↦
        if ltb pk_eddsa_pubkey_len (length (st.get_idseckey s).1)
        then none
        else some (st.get_idseckey s)
  ]

  -- The signature, and the check of the length at the end.
  unfoldable pub sign_packet :
      List ℕ → List ℕ → ℕ → ℕ → ℤ × List ℕ → Option (ℤ × List ℕ) → Option Protected
  sign_packet cptr body clen clen_siv (r, pubkey) none =
      if not (is_zero r) then some (written r (overwrite body cptr) clen) else none
  sign_packet cptr body clen clen_siv (r, pubkey) (some (r', privkey)) =
      let out = overwrite (body ++ cv.ed25519_sign body pubkey privkey) cptr in
      let whole = clen == clen_siv + pk_eddsa_sig_len + timestamp_len + id_len in
      if not (is_zero r)
      then some (written r (overwrite body cptr) clen)
      else if not (is_zero r')
      then some (written r' (overwrite body cptr) clen)
      else if ltb (length cptr) (length body + pk_eddsa_sig_len)
      then none
      else some (written (if whole then result_ok else error_internal) out clen)

  -- Timestamp (8) | id (16) | IV (16) | Ciphertext (n): what is signed.
  unfoldable pub signed_part : ℕ → Store → List ℕ → List ℕ → List ℕ
  signed_part now s message key =
      let stamp = write_timestamp timestamp_len now in
      stamp ++ take id_len (st.get_id s) ++ (aes256_encrypt_siv c stamp message key).ct

  -- From the timestamp on.
  unfoldable pub protect_with : ℕ → List ℕ → List ℕ → ℕ → Store → Choice → Option Protected
  protect_with now cptr message mlen s missing = some (refused error_topickey_missing)
  protect_with now cptr message mlen s unreadable = none
  protect_with now cptr message mlen s (chosen control key) =
      let e = aes256_encrypt_siv c (write_timestamp timestamp_len now) message key in
      let body = signed_part now s message key in
      if ltb (length message) mlen || ltb (length cptr) (length body)
      then none
      else sign_packet cptr body (mlen + pk_topicmsghdr_len) e.ctlen (own_pubkey s) (own_privkey s)

  -- `clen` is the place for the length.
  unfoldable pub protect_pointers :
      ℕ
      → Option (List ℕ)
      → Option ℕ
      → Option (List ℕ)
      → ℕ
      → Option (List ℕ)
      → Option Store
      → Option Protected
  protect_pointers now (some cptr) (some clen) (some mptr) mlen (some topic) (some s) =
      protect_with now cptr (take mlen mptr) mlen s (topic_choice s topic)
  protect_pointers now cptr clen mptr mlen topic s = some (refused error_parameter_invalid)

  unfoldable pub e4c_pubkey_protect_message :
      ℕ
      → Option (List ℕ)
      → ℕ
      → Option ℕ
      → Option (List ℕ)
      → ℕ
      → Option (List ℕ)
      → Option Store
      → Option Protected
  e4c_pubkey_protect_message now cptr cmax clen mptr mlen topic s =
      if ltb cmax ((mlen + pk_topicmsghdr_len + pk_eddsa_sig_len) % 2 ^ 64)
      then some (refused error_ciphertext_too_short)
      else if ltb ((mlen + pk_topicmsghdr_len + pk_eddsa_sig_len) % 2 ^ 64) mlen
      then some (refused error_parameter_overflow)
      else protect_pointers now cptr clen mptr mlen topic s

  -- A command that reads n bytes of the buffer after the first.
  unfoldable pub reading : ℕ → List ℕ → ℤ × Store → Option (ℤ × Store)
  reading n mptr result = if ltb (length mptr) (1 + n) then none else some result

  -- The commands of a control message, in the buffer `mptr` of which `mlen` bytes are the message.
  -- RemoveTopic has no check of the length. RemovePubKey has one without a return, so that a
  -- well-formed command leaves the code that the lookup of the shared secret gave: OK.
  unfoldable pub run_command : Store → List ℕ → ℕ → Option (ℤ × Store)
  run_command s mptr mlen =
      let op = get_or mptr 0 0 in
      let invalid = some (error_invalid_command, s) in
      let arg = drop 1 mptr in
      if mlen == 0
      then invalid
      else if op == 0x00
      then reading 16 mptr (st.remove_topic s (take 16 arg))
      else if op == 0x01
      then (if not (mlen == 1) then invalid else some (st.reset_topics s))
      else if op == 0x02
      then (if not (mlen == 1 + pk_eddsa_privkey_len)
          then invalid
          else some (st.set_idseckey s (take 64 arg)))
      else if op == 0x03
      then (if not (mlen == 1 + key_len + topichash_len)
          then invalid
          else some (st.set_topic_key s (take 16 (drop (key_len + 1) mptr)) (take 32 arg)))
      else if op == 0x04
      then (if not (mlen == 1 + id_len)
          then reading 16 mptr (st.remove_device s (take 16 arg))
          else some (result_ok, s))
      else if op == 0x05
      then (if not (mlen == 1) then invalid else some (st.reset_devices s))
      else if op == 0x06
      then (if not (mlen == 1 + id_len + pk_eddsa_pubkey_len)
          then invalid
          else some
              (st.set_device_key s (take 16 (drop (1 + pk_eddsa_pubkey_len) mptr)) (take 32 arg)))
      else invalid
