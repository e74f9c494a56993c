-- ===== src/Symkey/Unprotect.antt =====
-- src/e4symclient.c: e4c_symkey_unprotect_message, on a system with a clock.
pub mod Defined
pub mod Handled
pub mod Safety
pub mod Roundtrip
use libe.Common.{
  Bool, List, Option, drop, if◌then◌else◌, length, ltb, none, not, overwrite, some, take, ℕ, ◌-◌,
  ◌||◌,
}
use libe.Common.Int.{ℤ, is_zero}
use libe.Crypto.Cipher.{Cipher}
use libe.Crypto.Siv.{Decrypted, aes256_decrypt_siv}
use libe.Symkey.Storage.{SymStorage}
use libe.Symkey.Client.{
  Choice, chosen, missing, unreadable, Unprotected, refused, opened, check_timestamp, choose_key,
  control_result, read_timestamp, run_command,
}
use libe.Protocol.{
  error_ciphertext_too_short, error_invalid_tag, error_parameter_invalid, error_topickey_missing,
  msghdr_len, result_ok, timestamp_len,
}

module _ (c : Cipher) (st : SymStorage) where
  open st use {Store}

  unfoldable pub finish_command : List ℕ → ℕ → Option (ℤ × Store) → Option (Unprotected Store)
  finish_command mptr mlen none = none
  finish_command mptr mlen (some (r, s)) = some (opened (control_result r) mptr mlen s)

  -- From the decryption on, which writes the plaintext to the buffer: the associated data and the
  -- rest of the ciphertext are given.
  unfoldable pub handle_decrypted :
      ℕ → ℕ → ℕ → Bool → Store → List ℕ → ℕ → Decrypted → Option (Unprotected Store)
  handle_decrypted proto_opts secs1970 tstamp control s mptr mmax d =
      let mptr' = overwrite d.pt mptr in
      let checked = check_timestamp proto_opts secs1970 tstamp in
      if ltb (length mptr) (length d.pt)
      then none
      else if not (is_zero d.status)
      then some (opened error_invalid_tag mptr' d.ptlen s)
      else if ltb mmax d.ptlen
      then some (opened error_ciphertext_too_short mptr' d.ptlen s)
      else if not (is_zero checked)
      then some (opened checked mptr' d.ptlen s)
      else if not control
      then some (opened result_ok mptr' d.ptlen s)
      else finish_command mptr' d.ptlen (run_command c st s mptr' d.ptlen)

  unfoldable pub unprotect_with :
      ℕ → ℕ → Store → List ℕ → ℕ → List ℕ → ℕ → Choice → Option (Unprotected Store)
  unprotect_with opts now s mptr mmax cptr clen missing = some (refused error_topickey_missing)
  unprotect_with opts now s mptr mmax cptr clen unreadable = none
  unprotect_with opts now s mptr mmax cptr clen (chosen control key) =
      let stamp = take timestamp_len cptr in
      let d =
        aes256_decrypt_siv c stamp (take (clen - timestamp_len) (drop timestamp_len cptr)) key in
      if ltb (length cptr) clen
      then none
      else handle_decrypted opts now (read_timestamp stamp) control s mptr mmax d

  unfoldable pub unprotect_pointers :
      ℕ
      → ℕ
      → Option (List ℕ)
      → ℕ
      → Option (List ℕ)
      → ℕ
      → Option (List ℕ)
      → Option Store
      → Option (Unprotected Store)
  unprotect_pointers opts now (some mptr) mmax (some cptr) clen (some topic) (some s) =
      unprotect_with opts now s mptr mmax cptr clen (choose_key c st s topic)
  unprotect_pointers opts now mptr mmax cptr clen topic s = some (refused error_parameter_invalid)

  unfoldable pub e4c_symkey_unprotect_message :
      ℕ
      → ℕ
      → Option (List ℕ)
      → ℕ
      → Option (List ℕ)
      → ℕ
      → Option (List ℕ)
      → Option Store
      → Option (Unprotected Store)
  e4c_symkey_unprotect_message opts now mptr mmax cptr clen topic s =
      if ltb clen msghdr_len || ltb mmax (clen - msghdr_len)
      then some (refused error_ciphertext_too_short)
      else unprotect_pointers opts now mptr mmax cptr clen topic s
