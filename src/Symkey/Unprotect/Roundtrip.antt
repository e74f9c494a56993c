-- ===== src/Symkey/Unprotect/Roundtrip.antt =====
-- src/e4symclient.c: what one client protects, another one with the same key unprotects.
use libe.Common.{
  Bool, List, [], arith, drop, drop_front, false, length, length-append, ltb, overwrite, some, take,
  take_front, true, ℕ, ◌++◌, ◌+◌, ◌-◌, ◌<◌, ◌^◌, ◌≡◌, ◌≤◌,
}
use mathlib.Core.List.{append_assoc, append-nil}
use libe.Common.Int.{pos}
use libe.Crypto.Cipher.{Cipher}
use libe.Symkey.Storage.{SymStorage}
use libe.Symkey.Client.{
  written, opened, chosen, check_timestamp, choose_key, e4c_symkey_protect_message, write_timestamp,
  run_command,
}
use libe.Symkey.Client.Protect.{length-packet, packet, e4c_symkey_protect_message-packet}
use libe.Symkey.Unprotect.{
  e4c_symkey_unprotect_message, handle_decrypted, unprotect_pointers, unprotect_with,
  finish_command,
}
use libe.Crypto.Siv.{aes256_decrypt_siv, aes256_encrypt_siv}
use libe.Crypto.Siv.Roundtrip.{aes256_decrypt_siv-aes256_encrypt_siv, length-aes256_encrypt_siv}
use libe.Symkey.Client.Time.{length-write_timestamp, read_timestamp-write_timestamp}
use libe.Protocol.{result_ok}

pub holds_all : (v : List ℕ) (n : ℕ) → n ≤ length v → ltb (length v) n ≡ false
holds_all v n h = ground arith

module _ (c : Cipher) where
  -- The decryption of a packet, however much of the buffer follows it.
  pub decrypt-packet :
      (now : ℕ) (message key rest : List ℕ)
      → length message + 24 < 2 ^ 64
      → let cptr = packet c now message key ++ rest in
        (take 8 cptr ≡ write_timestamp 8 now)
        × (aes256_decrypt_siv c (take 8 cptr) (take (length message + 24 - 8) (drop 8 cptr)) key
            ≡ record { status = pos 0; pt = message; ptlen = length message })
  unfolding packet
  decrypt-packet now message key rest small =
      let stamp = write_timestamp 8 now in
      let ct = (aes256_encrypt_siv c stamp message key).ct in
      let n : length ct ≡ length message + 24 - 8 =
        omega (arith, (length-aes256_encrypt_siv c stamp message key).0) in
      let stamped : take 8 ((stamp ++ ct) ++ rest) ≡ stamp =
        rw append_assoc (take_front 8 stamp (ct ++ rest) (length-write_timestamp 8 now)) in
      (
        stamped,
        rw
            (
              stamped,
              append_assoc,
              drop_front 8 stamp (ct ++ rest) (length-write_timestamp 8 now),
              take_front (length message + 24 - 8) ct rest n,
            )
            (aes256_decrypt_siv-aes256_encrypt_siv c stamp message key (omega arith)),
      )

module _ (c : Cipher) (st : SymStorage) where
  open st use {Store}

  -- A message that a client protects for a topic is unprotected, with status OK, by a client that
  -- has the same key for it as a topic key, has a buffer with room for the message, and accepts the timestamp
  -- of the sender's clock: it stands at the front of the buffer, with its length, and the
  -- storage of the receiver is unchanged. The sender has room for 24 bytes more than the message,
  -- in the buffer and by what it says, and neither that length nor its clock reaches 2^64.
  pub unprotect-protect :
      (now later opts cmax mmax : ℕ) (cptr mptr message topic key : List ℕ) (control : Bool)
      (s r : Store)
      → now < 2 ^ 64
      → length message + 24 < 2 ^ 64
      → length message + 24 ≤ cmax
      → length message + 24 ≤ length cptr
      → length message ≤ mmax
      → length message ≤ length mptr
      → choose_key c st s topic ≡ chosen control key
      → choose_key c st r topic ≡ chosen false key
      → check_timestamp opts later now ≡ result_ok
      → (out : List ℕ) × (e4c_symkey_protect_message c st now
            (some cptr)
            cmax
            (some message)
            (length message)
            (some topic)
            (some s)
          ≡ some (written result_ok out (length message + 24)))
        × (e4c_symkey_unprotect_message c st opts later
              (some mptr)
              mmax
              (some out)
              (length message + 24)
              (some topic)
              (some r)
            ≡ some (opened result_ok (overwrite message mptr) (length message) r))
  unfolding e4c_symkey_unprotect_message unprotect_pointers unprotect_with handle_decrypted
  unprotect-protect now later opts cmax mmax cptr mptr message topic key control s r time small room
        wide fits holds ks kr ok =
      let p = packet c now message key in
      let rest = drop (length p) cptr in
      let d = decrypt-packet c now message key rest small in
      let long : ltb (length message + 24) 24 ≡ false = ground arith in
      let fits' : ltb mmax (length message + 24 - 24) ≡ false = ground arith in
      let fits'' : ltb mmax (length message) ≡ false = ground arith in
      let inside : ltb (length mptr) (length message) ≡ false = ground arith in
      let whole : ltb (length (p ++ rest)) (length message + 24) ≡ false =
        holds_all (p ++ rest) _
          (omega (arith, length-append p rest, length-packet c now message key)) in
      (
        p ++ rest,
        e4c_symkey_protect_message-packet c st now cmax cptr message topic s control key small room
            wide ks,
        rw (
          long,
          fits',
          kr,
          whole,
          d.1,
          d.0,
          inside,
          read_timestamp-write_timestamp now time,
          fits'',
          ok,
        ),
      )

  -- A command of the server for a device, encrypted under the device's own key and sent on its control
  -- topic with a timestamp that the device accepts, is carried out if the device's buffer has room:
  -- the status and the storage are those of the command, which stands at the front of the buffer.
  -- Neither the clock of the sender nor the length of the packet reaches 2^64.
  pub unprotect-command :
      (now later opts mmax : ℕ) (mptr command topic key : List ℕ) (r : Store)
      → now < 2 ^ 64
      → length command + 24 < 2 ^ 64
      → length command ≤ mmax
      → length command ≤ length mptr
      → choose_key c st r topic ≡ chosen true key
      → check_timestamp opts later now ≡ result_ok
      → let out = overwrite command mptr in
        e4c_symkey_unprotect_message c st opts later
          (some mptr)
          mmax
          (some (packet c now command key))
          (length command + 24)
          (some topic)
          (some r)
        ≡ finish_command c st out (length command) (run_command c st r out (length command))
  unfolding e4c_symkey_unprotect_message unprotect_pointers unprotect_with handle_decrypted
  unprotect-command now later opts mmax mptr command topic key r time small fits holds kr ok =
      let d = decrypt-packet c now command key [] small in
      let whole = append-nil (packet c now command key) in
      let long : ltb (length command + 24) 24 ≡ false = ground arith in
      let fits' : ltb mmax (length command + 24 - 24) ≡ false = ground arith in
      let fits'' : ltb mmax (length command) ≡ false = ground arith in
      let inside : ltb (length mptr) (length command) ≡ false = ground arith in
      let given : ltb (length (packet c now command key)) (length command + 24) ≡ false =
        holds_all _ _ (omega (arith, length-packet c now command key)) in
      rw (
        long,
        fits',
        kr,
        given,
        rw whole at d.1,
        rw whole at d.0,
        inside,
        read_timestamp-write_timestamp now time,
        fits'',
        ok,
      )
