-- ===== src/Pubkey/Unprotect.antt =====
-- src/e4pkcclient.c: e4c_pubkey_unprotect_message, on a system with a clock.
pub mod Handled
pub mod Safety
pub mod Authentic
pub mod Commands
pub mod Roundtrip
use libe.Common.{
  Bool, List, Option, bit_and, drop, false, if◌then◌else◌, length, ltb, none, not, overwrite, some,
  take, true, ℕ, ◌+◌, ◌-◌, ◌==◌, ◌||◌,
}
use libe.Common.Int.{ℤ, pos, negsuc, is_zero}
use libe.Crypto.Cipher.{Cipher}
use libe.Crypto.Siv.{Decrypted, aes256_decrypt_siv}
use libe.Symkey.Client.{
  Choice, chosen, missing, unreadable, Unprotected, refused, opened, check_timestamp,
  control_result, read_timestamp,
}
use libe.Pubkey.Curves.{Curves}
use libe.Pubkey.Storage.{PkStorage}
use libe.Pubkey.Client.{run_command, topic_choice}
use libe.Protocol.{
  error_ciphertext_too_short, error_devicepk_missing, error_invalid_tag, error_parameter_invalid,
  error_pk_sigverif_failed, error_topickey_missing, id_len, msghdr_len, pk_eddsa_sig_len,
  pk_topicmsghdr_len, result_ok, timestamp_len,
}

-- What is known before the decryption: the code of a refusal, or whether the topic is the control
-- topic, the key, and where in the message the payload is and how long it is.
pub data Gate : Type 0 where
  stopped : ℤ → Gate
  decrypting : Bool → List ℕ → ℕ → ℕ → Gate

module _ (c : Cipher) (cv : Curves) (st : PkStorage) where
  open st use {Store}

  -- E4_OPTION_IGNORE_MISSING_PUBKEY lets a message of an unknown device pass.
  unfoldable pub missing_pubkey : ℕ → ℤ
  missing_pubkey opts = if bit_and opts 2 == 0 then error_devicepk_missing else result_ok

  -- The signature stands behind the other clen - 64 bytes.
  unfoldable pub check_signature : List ℕ → ℕ → Option (List ℕ) → Option ℤ
  check_signature cptr clen none = none
  check_signature cptr clen (some sender_pk) =
      let size = clen - pk_eddsa_sig_len in
      let signature = take pk_eddsa_sig_len (drop size cptr) in
      if ltb (length cptr) clen
      then none
      else some (
          if cv.ed25519_verify signature (take size cptr) sender_pk == 1
          then result_ok
          else error_pk_sigverif_failed)

  unfoldable pub check_sender : ℕ → Store → List ℕ → ℕ → Option ℤ
  check_sender opts s cptr clen =
      if ltb (length cptr) (timestamp_len + id_len)
      then none
      else elim (st.getdeviceindex s (take id_len (drop timestamp_len cptr))) [
        | pos i ↦ check_signature cptr clen (st.getdevicekey s (pos i))
        | negsuc _ ↦ some (missing_pubkey opts)
      ]

  unfoldable pub topic_gate : ℕ → Option ℤ → Choice → Option Gate
  topic_gate clen none choice = none
  topic_gate clen (some r) missing =
      some (stopped (if is_zero r then error_topickey_missing else r))
  topic_gate clen (some r) unreadable = if is_zero r then none else some (stopped r)
  topic_gate clen (some r) (chosen control key) =
      let sivctoffset = id_len + timestamp_len in
      if is_zero r
      then some (decrypting false key sivctoffset (clen - sivctoffset - pk_eddsa_sig_len))
      else some (stopped r)

  unfoldable pub control_gate : ℕ → ℤ × List ℕ → Option Gate
  control_gate clen (r, key) =
      if not (is_zero r)
      then some (stopped r)
      else some (decrypting true key timestamp_len (clen - timestamp_len))

  -- Up to the timestamp: the checks of the length, of the sender and of the keys.
  unfoldable pub gate : ℕ → Store → ℕ → List ℕ → ℕ → List ℕ → Option Gate
  gate opts s mmax cptr clen topic =
      let overhead = pk_topicmsghdr_len + pk_eddsa_sig_len in
      if is_zero (st.is_device_ctrltopic s topic)
      then (if ltb clen msghdr_len || ltb mmax (clen - msghdr_len)
          then some (stopped error_ciphertext_too_short)
          else control_gate clen (st.get_c2sharedsecret s))
      else if ltb clen overhead || ltb mmax (clen - overhead)
      then some (stopped error_ciphertext_too_short)
      else topic_gate clen (check_sender opts s cptr clen) (topic_choice c cv st s topic)

  unfoldable pub finish_command : List ℕ → ℕ → Option (ℤ × Store) → Option (Unprotected Store)
  finish_command mptr mlen none = none
  finish_command mptr mlen (some (r, s)) = some (opened (control_result r) mptr mlen s)

  -- From the decryption on, which writes the plaintext to the buffer.
  unfoldable pub handle_decrypted :
      ℕ → ℕ → ℕ → Bool → Store → List ℕ → ℕ → Decrypted → Option (Unprotected Store)
  handle_decrypted proto_opts secs1970 tstamp control s mptr mmax d =
      let mptr' = overwrite d.pt mptr in
      let checked = check_timestamp proto_opts secs1970 tstamp in
      if ltb (length mptr) (length d.pt)
      then none
      else if not (is_zero d.status)
      then some (opened error_invalid_tag mptr' d.ptlen s)
      else if ltb mmax d.ptlen
      then some (opened error_ciphertext_too_short mptr' d.ptlen s)
      else if not (is_zero checked)
      then some (opened checked mptr' d.ptlen s)
      else if not control
      then some (opened result_ok mptr' d.ptlen s)
      else finish_command mptr' d.ptlen (run_command c cv st s mptr' d.ptlen)

  unfoldable pub unprotect_with :
      ℕ → ℕ → Store → List ℕ → ℕ → List ℕ → Option Gate → Option (Unprotected Store)
  unprotect_with opts now s mptr mmax cptr none = none
  unprotect_with opts now s mptr mmax cptr (some (stopped r)) = some (refused r)
  unprotect_with opts now s mptr mmax cptr (some (decrypting control key offset size)) =
      let stamp = take timestamp_len cptr in
      let d = aes256_decrypt_siv c stamp (take size (drop offset cptr)) key in
      if ltb (length cptr) (offset + size)
      then none
      else handle_decrypted opts now (read_timestamp stamp) control s mptr mmax d

  unfoldable pub e4c_pubkey_unprotect_message :
      ℕ
      → ℕ
      → Option (List ℕ)
      → ℕ
      → Option (List ℕ)
      → ℕ
      → Option (List ℕ)
      → Option Store
      → Option (Unprotected Store)
  e4c_pubkey_unprotect_message opts now (some mptr) mmax (some cptr) clen (some topic) (some s) =
      unprotect_with opts now s mptr mmax cptr (gate opts s mmax cptr clen topic)
  e4c_pubkey_unprotect_message opts now mptr mmax cptr clen topic s =
      some (refused error_parameter_invalid)
