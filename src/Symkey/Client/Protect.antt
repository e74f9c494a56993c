-- ===== src/Symkey/Client/Protect.antt =====
-- src/e4symclient.c: e4c_symkey_protect_message when it is given what it asks for.
use libe.Common.{
  Bool, List, arith, false, length, length-append, ltb, overwrite, some, take_all, true, ℕ, ◌%◌,
  ◌++◌, ◌+◌, ◌<◌, ◌==◌, ◌^◌, ◌≡◌, ◌≤◌,
}
use libe.Crypto.Cipher.{Cipher}
use libe.Crypto.Siv.{aes256_encrypt_siv}
use libe.Symkey.Storage.{SymStorage}
use libe.Symkey.Client.{
  written, chosen, choose_key, e4c_symkey_protect_message, protect_pointers, protect_with,
  write_timestamp,
}
use libe.Crypto.Siv.Roundtrip.{length-aes256_encrypt_siv}
use libe.Symkey.Client.Time.{length-write_timestamp}
use libe.Protocol.{result_ok}

module _ (c : Cipher) where
  -- The packet for a message: the timestamp, then the encryption with it as associated data.
  unfoldable pub packet : ℕ → List ℕ → List ℕ → List ℕ
  packet now message key =
      let stamp = write_timestamp 8 now in stamp ++ (aes256_encrypt_siv c stamp message key).ct

  pub length-packet :
      (now : ℕ) (message key : List ℕ) → length (packet now message key) ≡ length message + 24
  unfolding packet
  length-packet now message key =
      let stamp = write_timestamp 8 now in
      omega (
        arith,
        length-append stamp (aes256_encrypt_siv c stamp message key).ct,
        length-write_timestamp 8 now,
        (length-aes256_encrypt_siv c stamp message key).0,
      )

module _ (c : Cipher) (st : SymStorage) where
  open st use {Store}

  module _ (now cmax : ℕ) (cptr message topic : List ℕ) (s : Store) where
    -- With room for 24 bytes more than the message, in the buffer and by what the caller says,
    -- no overflow, and a key for the topic, a message is protected: the status is OK, the length
    -- 24 more, and the packet stands at the front of the buffer.
    pub e4c_symkey_protect_message-packet :
        (control : Bool) (key : List ℕ)
        → length message + 24 < 2 ^ 64
        → length message + 24 ≤ cmax
        → length message + 24 ≤ length cptr
        → choose_key c st s topic ≡ chosen control key
        → e4c_symkey_protect_message c st now
            (some cptr)
            cmax
            (some message)
            (length message)
            (some topic)
            (some s)
          ≡ some
              (written result_ok (overwrite (packet c now message key) cptr) (length message + 24))
    unfolding e4c_symkey_protect_message protect_pointers protect_with packet
    e4c_symkey_protect_message-packet control key small room holds k =
        let fits : ltb cmax ((length message + 24) % 2 ^ 64) ≡ false = ground arith in
        let no_wrap : ltb ((length message + 24) % 2 ^ 64) (length message) ≡ false =
          ground arith in
        let stamp = write_timestamp 8 now in
        let clen = (length-aes256_encrypt_siv c stamp message key).1 in
        let sum : length message + 16 + 8 ≡ length message + 24 = omega arith in
        let inside : ltb (length cptr) (length message + 24) ≡ false = ground arith in
        let full : ltb (length message) (length message) ≡ false = ground arith in
        let whole : (length message + 24 == length message + 24) ≡ true = ground arith in
        rw (
          fits,
          no_wrap,
          k,
          take_all (length message) message (omega arith),
          clen,
          sum,
          full,
          inside,
          whole,
        )
