-- ===== src/Pubkey/Unprotect/Roundtrip.antt =====
-- src/e4pkcclient.c: what one client protects, another one with the same topic key unprotects.
use libe.Common.{
  Bool, List, arith, drop, drop_front, false, length, length-append, ltb, overwrite, some, take,
  take_all, take_front, ℕ, ◌++◌, ◌+◌, ◌-◌, ◌<◌, ◌^◌, ◌≡◌, ◌≤◌,
}
use mathlib.Core.List.{append_assoc}
use libe.Common.Int.{pos, is_zero}
use libe.Symkey.Client.{written, opened, chosen, check_timestamp, write_timestamp}
use libe.Pubkey.Client.{
  signed_part, topic_choice, e4c_pubkey_protect_message, own_privkey, own_pubkey,
}
use libe.Pubkey.Client.Protect.{pk_packet, length-signed_part, e4c_pubkey_protect_message-pk_packet}
use libe.Crypto.Siv.{aes256_decrypt_siv, aes256_encrypt_siv}
use libe.Pubkey.Curves.{Curves}
use libe.Pubkey.Storage.{PkStorage}
use libe.Crypto.Cipher.{Cipher}
use libe.Crypto.Siv.Roundtrip.{length-aes256_encrypt_siv, aes256_decrypt_siv-aes256_encrypt_siv}
use libe.Symkey.Client.Time.{length-write_timestamp, read_timestamp-write_timestamp}
use libe.Pubkey.Unprotect.{
  check_sender, topic_gate, check_signature, decrypting, e4c_pubkey_unprotect_message, gate,
  handle_decrypted, unprotect_with,
}
use libe.Symkey.Unprotect.Roundtrip.{holds_all}
use libe.Protocol.{result_ok, error_internal}

-- The three pieces in front of a tail, each by its place.
pieces :
    (stamp id ct tail : List ℕ) (n : ℕ)
    → length stamp ≡ 8
    → length id ≡ 16
    → length ct ≡ n
    → let cptr = stamp ++ id ++ ct ++ tail in
      (take 8 cptr ≡ stamp) × (take 16 (drop 8 cptr) ≡ id) × (take n (drop 24 cptr) ≡ ct)
pieces stamp id ct tail n e f g =
    let behind : length (stamp ++ id) ≡ 24 = omega (arith, length-append stamp id, e, f) in
    let front : ◌≡◌ {A = List ℕ} (stamp ++ id ++ ct ++ tail) (stamp ++ (id ++ (ct ++ tail))) =
      rw (append_assoc, append_assoc) in
    (
      rw front (take_front 8 stamp (id ++ (ct ++ tail)) e),
      rw (front, drop_front 8 stamp (id ++ (ct ++ tail)) e) (take_front 16 id (ct ++ tail) f),
      rw (append_assoc, drop_front 24 (stamp ++ id) (ct ++ tail) behind) (take_front n ct tail g),
    )

module _ (c : Cipher) (cv : Curves) (st : PkStorage) where
  open st use {Store}

  module _ (now : ℕ) (s : Store) (message key pubkey privkey rest : List ℕ)
      (named : length (st.get_id s) ≡ 16) where
    -- The signature and what it signs, however much of the buffer follows the packet.
    split-pk_packet :
        let cptr = pk_packet c cv st now s message key pubkey privkey ++ rest in
        let body = signed_part c cv st now s message key in
        let size = length message + 104 - 64 in
        (take size cptr ≡ body) × (take 64 (drop size cptr) ≡ cv.ed25519_sign body pubkey privkey)
    split-pk_packet =
        let body = signed_part c cv st now s message key in
        let sig = cv.ed25519_sign body pubkey privkey in
        let n : length body ≡ length message + 104 - 64 =
          omega (arith, length-signed_part c cv st now s message key named) in
        (
          rw append_assoc (take_front _ body (sig ++ rest) n),
          rw (append_assoc, drop_front _ body (sig ++ rest) n)
              (take_front 64 sig rest (cv.length-ed25519_sign body pubkey privkey)),
        )

    -- The three parts of what is signed.
    parts-pk_packet :
        length message + 104 < 2 ^ 64
        → let cptr = pk_packet c cv st now s message key pubkey privkey ++ rest in
          (length message + 104 ≤ length cptr)
          × (take 8 cptr ≡ write_timestamp 8 now)
          × (take 16 (drop 8 cptr) ≡ st.get_id s)
          × (aes256_decrypt_siv c
                (take 8 cptr)
                (take (length message + 104 - 24 - 64) (drop 24 cptr))
                key
              ≡ record { status = pos 0; pt = message; ptlen = length message })
    unfolding signed_part
    parts-pk_packet small =
        let stamp = write_timestamp 8 now in
        let siv = aes256_encrypt_siv c stamp message key in
        let sig = cv.ed25519_sign (signed_part c cv st now s message key) pubkey privkey in
        let id : take 16 (st.get_id s) ≡ st.get_id s = take_all 16 (st.get_id s) (omega arith) in
        let n : length siv.ct ≡ length message + 104 - 24 - 64 =
          omega (arith, (length-aes256_encrypt_siv c stamp message key).0) in
        let at =
          pieces stamp (st.get_id s) siv.ct (sig ++ rest) _ (length-write_timestamp 8 now) named
            n in
        let shape : pk_packet c cv st now s message key pubkey privkey ++ rest
            ≡ stamp ++ st.get_id s ++ siv.ct ++ (sig ++ rest) =
          rw (append_assoc, id) in
        (
          omega (
            arith,
            length-append (pk_packet c cv st now s message key pubkey privkey) rest,
            length-append (signed_part c cv st now s message key) sig,
            length-signed_part c cv st now s message key named,
            cv.length-ed25519_sign (signed_part c cv st now s message key) pubkey privkey,
          ),
          rw shape at.0,
          rw shape at.1,
          rw (shape, at.0, at.2)
              (aes256_decrypt_siv-aes256_encrypt_siv c stamp message key (omega arith)),
        )

    -- The receiver accepts the sender.
    sender-pk_packet :
        length message + 104 < 2 ^ 64
        → (opts i : ℕ) (r : Store) → st.getdeviceindex r (st.get_id s) ≡ pos i
        → st.getdevicekey r (pos i) ≡ some pubkey
        → ((m : List ℕ) → cv.ed25519_verify (cv.ed25519_sign m pubkey privkey) m pubkey ≡ 1)
        → let cptr = pk_packet c cv st now s message key pubkey privkey ++ rest in
          check_sender c cv st opts r cptr (length message + 104) ≡ some result_ok
    unfolding check_sender check_signature
    sender-pk_packet small opts i r device has verifies =
        let split = split-pk_packet in
        let (all, stamp, id, plain) = parts-pk_packet small in
        let cptr = pk_packet c cv st now s message key pubkey privkey ++ rest in
        let named' : ltb (length cptr) 24 ≡ false = holds_all cptr 24 (omega (arith, all)) in
        let whole : ltb (length cptr) (length message + 104) ≡ false = holds_all cptr _ all in
        rw (
          named', id, device, has, whole, split.0, split.1, verifies, check_sender, check_signature,
        )

    -- The checks before the decryption pass.
    gate-pk_packet :
        (opts mmax : ℕ) (topic : List ℕ) (r : Store) (control : Bool)
        → length message + 104 < 2 ^ 64
        → length message ≤ mmax
        → is_zero (st.is_device_ctrltopic r topic) ≡ false
        → topic_choice c cv st r topic ≡ chosen control key
        → let cptr = pk_packet c cv st now s message key pubkey privkey ++ rest in
          check_sender c cv st opts r cptr (length message + 104) ≡ some result_ok
          → gate c cv st opts r mmax cptr (length message + 104) topic
            ≡ some (decrypting false key 24 (length message + 104 - 24 - 64))
    unfolding gate topic_gate
    gate-pk_packet opts mmax topic r control small fits topical kr sender =
        let long : ltb (length message + 104) 104 ≡ false = ground arith in
        let room : ltb mmax (length message + 104 - 104) ≡ false = ground arith in
        rw (topical, long, room, sender, kr)

  -- A message that a client signs and encrypts for a topic is unprotected, with status OK, by a
  -- client that knows the sender's public key and the topic key, has a buffer with room for it, and
  -- accepts the timestamp of the sender's clock: it stands at the front of the buffer, with its
  -- length, and the storage of the receiver is unchanged. The sender reports an internal error and
  -- a length that leaves the signature out. The length that the receiver is told is
  -- that of the whole packet, and signatures under the sender's keys are taken to verify. The sender's storage is in
  -- order and gives the keys of the sender, the topic is not the control topic of the receiver,
  -- there is room for 104 bytes more than the message, in the buffer and by what the sender says, and neither that length nor the clock of
  -- the sender reaches 2^64.
  pub unprotect-pk_packet :
      (now later opts cmax mmax i clen : ℕ) (cptr mptr message topic key pubkey privkey : List ℕ)
      (control control' : Bool) (s r : Store)
      → now < 2 ^ 64
      → length message + 104 < 2 ^ 64
      → length message + 104 ≤ cmax
      → length message + 104 ≤ length cptr
      → length message ≤ mmax
      → length message ≤ length mptr
      → st.IsStore s
      → topic_choice c cv st s topic ≡ chosen control key
      → own_pubkey c cv st s ≡ (result_ok, pubkey)
      → own_privkey c cv st s ≡ some (result_ok, privkey)
      → is_zero (st.is_device_ctrltopic r topic) ≡ false
      → topic_choice c cv st r topic ≡ chosen control' key
      → st.getdeviceindex r (st.get_id s) ≡ pos i
      → st.getdevicekey r (pos i) ≡ some pubkey
      → ((m : List ℕ) → cv.ed25519_verify (cv.ed25519_sign m pubkey privkey) m pubkey ≡ 1)
      → check_timestamp opts later now ≡ result_ok
      → (out : List ℕ) × (e4c_pubkey_protect_message c cv st now
            (some cptr)
            cmax
            (some clen)
            (some message)
            (length message)
            (some topic)
            (some s)
          ≡ some (written error_internal out (length message + 40)))
        × (e4c_pubkey_unprotect_message c cv st opts later
              (some mptr)
              mmax
              (some out)
              (length message + 104)
              (some topic)
              (some r)
            ≡ some (opened result_ok (overwrite message mptr) (length message) r))
  unfolding e4c_pubkey_unprotect_message unprotect_with handle_decrypted
  unprotect-pk_packet now later opts cmax mmax i clen cptr mptr message topic key pubkey privkey
        control control' s r time small room wide fits holds ordered ks pk sk topical kr device has
        verifies ok =
      let p = pk_packet c cv st now s message key pubkey privkey in
      let rest = drop (length p) cptr in
      let named = st.length-get_id s ordered in
      let at = parts-pk_packet now s message key pubkey privkey rest named small in
      let sender =
        sender-pk_packet now s message key pubkey privkey rest named small opts i r device has
          verifies in
      let passed =
        gate-pk_packet now s message key pubkey privkey rest named opts mmax topic r control' small
          fits topical kr sender in
      let fits' : ltb mmax (length message) ≡ false = ground arith in
      let inside : ltb (length mptr) (length message) ≡ false = ground arith in
      let whole : ltb (length (p ++ rest)) (24 + (length message + 104 - 24 - 64)) ≡ false =
        holds_all (p ++ rest) _ (omega (arith, at.0)) in
      (
        p ++ rest,
        e4c_pubkey_protect_message-pk_packet c cv st now cmax clen cptr message topic s control key
            pubkey privkey small room wide named ks pk sk,
        rw (passed, whole, at.3, at.1, inside, read_timestamp-write_timestamp now time, fits', ok),
      )
