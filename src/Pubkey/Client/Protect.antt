-- ===== src/Pubkey/Client/Protect.antt =====
-- src/e4pkcclient.c: what e4c_pubkey_protect_message writes, and how it ends.
use libe.Common.{
  Bool, Bool-cases, List, Option, arith, false, inl, inr, length, length-append, length-take, ltb,
  none, overwrite, some, some_injective, take, take_all, ℕ, ◌%◌, ◌++◌, ◌+◌, ◌<◌, ◌==◌, ◌^◌, ◌≡◌,
  ◌≢◌, ◌≤◌,
}
use libe.Common.Int.{ℤ, is_zero}
use libe.Pubkey.Client.{
  e4c_pubkey_protect_message, own_privkey, own_pubkey, protect_pointers, protect_with, sign_packet,
  signed_part, topic_choice,
}
use mathlib.Core.Path.{subst}
use libe.Symkey.Client.{
  Protected, protected_code, written, chosen, missing, unreadable, Choice, write_timestamp,
}
use libe.Symkey.Client.Time.{length-write_timestamp}
use libe.Crypto.Siv.{aes256_encrypt_siv}
use libe.Crypto.Siv.Roundtrip.{length-aes256_encrypt_siv}
use libe.Pubkey.Curves.{Curves}
use libe.Pubkey.Storage.{PkStorage}
use libe.Crypto.Cipher.{Cipher}
use libe.Symkey.Unprotect.Roundtrip.{holds_all}
use libe.Protocol.{error_internal, result_ok}

nonzero : (r : ℤ) → is_zero r ≡ false → r ≢ result_ok
nonzero r failed ok = cc (ok, failed)

-- Another code than OK is returned.
abbrev NotOk : Protected → Type 0
NotOk p = protected_code p ≢ result_ok

module _ (c : Cipher) (cv : Curves) (st : PkStorage) where
  open st use {Store}

  -- The packet for a message: the timestamp, the id of the sender and the encryption, then the
  -- signature of all that.
  abbrev pub pk_packet : ℕ → Store → List ℕ → List ℕ → List ℕ → List ℕ → List ℕ
  pk_packet now s message key pubkey privkey =
      let body = signed_part c cv st now s message key in
      body ++ cv.ed25519_sign body pubkey privkey

  pub length-signed_part :
      (now : ℕ) (s : Store) (message key : List ℕ)
      → length (st.get_id s) ≡ 16
      → length (signed_part c cv st now s message key) ≡ length message + 40
  unfolding signed_part
  length-signed_part now s message key n =
      let stamp = write_timestamp 8 now in
      let ct = (aes256_encrypt_siv c stamp message key).ct in
      let front = take 16 (st.get_id s) in
      let whole : length ((stamp ++ front) ++ ct) ≡ length message + 40 = omega (
        arith,
        length-append (stamp ++ front) ct,
        length-append stamp front,
        length-take 16 (st.get_id s),
        n,
        length-write_timestamp 8 now,
        (length-aes256_encrypt_siv c stamp message key).0,
      ) in
      whole

  module _ (now cmax clen : ℕ) (cptr message topic : List ℕ) (s : Store) where
    -- With room for 104 bytes more than the message, in the buffer and by what the caller says, no
    -- overflow, a key for the topic, and an id of 16 bytes and keys of its own that the storage
    -- gives, the client writes the whole signed packet, but it reports
    -- an internal error and a length of 40 bytes more than the message, which leaves the
    -- signature out.
    pub e4c_pubkey_protect_message-pk_packet :
        (control : Bool) (key pubkey privkey : List ℕ)
        → length message + 104 < 2 ^ 64
        → length message + 104 ≤ cmax
        → length message + 104 ≤ length cptr
        → length (st.get_id s) ≡ 16
        → topic_choice c cv st s topic ≡ chosen control key
        → own_pubkey c cv st s ≡ (result_ok, pubkey)
        → own_privkey c cv st s ≡ some (result_ok, privkey)
        → e4c_pubkey_protect_message c cv st now
            (some cptr)
            cmax
            (some clen)
            (some message)
            (length message)
            (some topic)
            (some s)
          ≡ some (
              written error_internal
                (overwrite (pk_packet now s message key pubkey privkey) cptr)
                (length message + 40))
    unfolding e4c_pubkey_protect_message protect_pointers protect_with sign_packet
    e4c_pubkey_protect_message-pk_packet control key pubkey privkey small room wide named k pk sk =
        let total : length message + 40 + 64 ≡ length message + 104 = omega arith in
        let fits : ltb cmax ((length message + 104) % 2 ^ 64) ≡ false = ground arith in
        let no_wrap : ltb ((length message + 104) % 2 ^ 64) (length message) ≡ false =
          ground arith in
        let stamp = write_timestamp 8 now in
        let clen_siv = (length-aes256_encrypt_siv c stamp message key).1 in
        let body = signed_part c cv st now s message key in
        let full : ltb (length message) (length message) ≡ false = ground arith in
        let front : ltb (length cptr) (length body) ≡ false =
          holds_all cptr (length body)
            (omega (arith, wide, length-signed_part now s message key named)) in
        let back : ltb (length cptr) (length body + 64) ≡ false =
          holds_all cptr (length body + 64)
            (omega (arith, wide, length-signed_part now s message key named)) in
        let short : (length message + 40 == length message + 16 + 64 + 8 + 16) ≡ false =
          ground arith in
        rw (
          total,
          fits,
          no_wrap,
          k,
          take_all (length message) message (omega arith),
          full,
          front,
          pk,
          sk,
          back,
          clen_siv,
          short,
        )

  sign_packet-ne-ok :
      (cptr body : List ℕ) (clen clen_siv : ℕ) (own : ℤ × List ℕ) (private : Option (ℤ × List ℕ))
      (p : Protected)
      → clen < clen_siv + 88
      → sign_packet c cv st cptr body clen clen_siv own private ≡ some p
      → protected_code p ≢ result_ok
  unfolding sign_packet
  sign_packet-ne-ok cptr body clen clen_siv (r, pubkey) none p short e =
      elim (Bool-cases (is_zero r)) [
        | inl ok ↦ cc (rw ok at e)
        | inr failed ↦ subst NotOk (some_injective (rw failed at e)) (nonzero r failed)
      ]
  sign_packet-ne-ok cptr body clen clen_siv (r, pubkey) (some (r', privkey)) p short e =
      let part : (clen == clen_siv + 64 + 8 + 16) ≡ false = ground arith in
      elim (Bool-cases (is_zero r)) [
        | inl ok ↦ elim (Bool-cases (is_zero r')) [
          | inl ok' ↦ elim (Bool-cases (ltb (length cptr) (length body + 64))) [
            | inl past ↦ cc (rw (ok, ok', past) at e)
            | inr inside ↦ subst NotOk (some_injective (rw (part, ok, ok', inside) at e)) (λ h. cc)
          ]
          | inr failed ↦ subst NotOk (some_injective (rw (ok, failed) at e)) (nonzero r' failed)
        ]
        | inr failed ↦ subst NotOk (some_injective (rw failed at e)) (nonzero r failed)
      ]

  protect_with-ne-ok :
      (now mlen : ℕ) (cptr message : List ℕ) (s : Store) (choice : Choice) (p : Protected)
      → protect_with c cv st now cptr message mlen s choice ≡ some p
      → protected_code p ≢ result_ok
  unfolding protect_with
  protect_with-ne-ok now mlen cptr message s missing p e = subst NotOk (some_injective e) (λ h. cc)
  protect_with-ne-ok now mlen cptr message s unreadable p e = cc
  protect_with-ne-ok now mlen cptr message s (chosen control key) p e =
      let body = signed_part c cv st now s message key in
      let siv = aes256_encrypt_siv c (write_timestamp 8 now) message key in
      elim (Bool-cases (ltb (length message) mlen)) [
        | inl past ↦ cc (rw past at e)
        | inr full ↦ elim (Bool-cases (ltb (length cptr) (length body))) [
          | inl past ↦ cc (rw (full, past) at e)
          | inr inside ↦
              let all : mlen ≤ length message = ground arith in
              let longer : mlen + 40 < siv.ctlen + 88 =
                omega (
                  arith,
                  all,
                  (length-aes256_encrypt_siv c (write_timestamp 8 now) message key).1,
                ) in
              sign_packet-ne-ok cptr body (mlen + 40) siv.ctlen (own_pubkey c cv st s)
                (own_privkey c cv st s) p longer (rw (full, inside) at e)
        ]
      ]

  protect_pointers-ne-ok :
      (now mlen : ℕ) (cptr topic : Option (List ℕ)) (clen : Option ℕ) (mptr : Option (List ℕ))
      (s : Option Store) (p : Protected)
      → protect_pointers c cv st now cptr clen mptr mlen topic s ≡ some p
      → protected_code p ≢ result_ok
  unfolding protect_pointers
  protect_pointers-ne-ok now mlen (some cptr) (some topic) (some clen) (some message) (some s) p e =
      protect_with-ne-ok now mlen cptr (take mlen message) s (topic_choice c cv st s topic) p e
  protect_pointers-ne-ok now mlen none topic clen mptr s p e =
      subst NotOk (some_injective e) (λ h. cc)
  protect_pointers-ne-ok now mlen (some cptr) topic none mptr s p e =
      subst NotOk (some_injective e) (λ h. cc)
  protect_pointers-ne-ok now mlen (some cptr) none (some clen) none s p e =
      subst NotOk (some_injective e) (λ h. cc)
  protect_pointers-ne-ok now mlen (some cptr) none (some clen) (some message) s p e =
      subst NotOk (some_injective e) (λ h. cc)
  protect_pointers-ne-ok now mlen (some cptr) (some topic) (some clen) none s p e =
      subst NotOk (some_injective e) (λ h. cc)
  protect_pointers-ne-ok now mlen (some cptr) (some topic) (some clen) (some message) none p e =
      subst NotOk (some_injective e) (λ h. cc)

  -- Whatever the arguments are, NULL or not, the client does not return E4_RESULT_OK, wherever it
  -- returns.
  pub e4c_pubkey_protect_message-ne-ok :
      (now cmax mlen : ℕ) (cptr topic : Option (List ℕ)) (clen : Option ℕ) (mptr : Option (List ℕ))
      (s : Option Store) (p : Protected)
      → e4c_pubkey_protect_message c cv st now cptr cmax clen mptr mlen topic s ≡ some p
      → protected_code p ≢ result_ok
  unfolding e4c_pubkey_protect_message
  e4c_pubkey_protect_message-ne-ok now cmax mlen cptr topic clen mptr s p e =
      let size = (mlen + 104) % 2 ^ 64 in
      let total : mlen + 40 + 64 ≡ mlen + 104 = omega arith in
      elim (Bool-cases (ltb cmax size)) [
        | inl no_room ↦ subst NotOk (some_injective (rw (total, no_room) at e)) (λ h. cc)
        | inr room ↦ elim (Bool-cases (ltb size mlen)) [
          | inl wraps ↦ subst NotOk (some_injective (rw (total, room, wraps) at e)) (λ h. cc)
          | inr exact ↦
              protect_pointers-ne-ok now mlen cptr topic clen mptr s p
                (rw (total, room, exact) at e)
        ]
      ]
