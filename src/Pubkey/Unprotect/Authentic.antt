-- ===== src/Pubkey/Unprotect/Authentic.antt =====
-- src/e4pkcclient.c: an accepted message is authentic, and only authentic commands change the
-- storage.
use libe.Common.{
  Bool, List, Option, arith, drop, false, inl, inr, length, length-drop, length-take, ltb, none,
  overwrite, refl, some, take, true, ℕ, ◌+◌, ◌-◌, ◌<◌, ◌^◌, ◌∙◌, ◌≡◌, ◌≢◌, ◌≤◌, ◌⊎◌,
}
use libe.Common.Int.{ℤ, is_zero}
use libe.Symkey.Client.{opened, check_timestamp, control_result, read_timestamp}
use libe.Pubkey.Client.{run_command}
use libe.Pubkey.Unprotect.{
  Gate, stopped, decrypting, gate, e4c_pubkey_unprotect_message, unprotect_with,
}
use libe.Pubkey.Unprotect.Handled.{Handled, handle_decrypted-Handled}
use libe.Pubkey.Unprotect.Safety.{Passed, gate-Passed}
use libe.Crypto.Siv.{aes256_decrypt_siv, aes256_encrypt_siv}
use libe.Crypto.Siv.Roundtrip.{aes256_encrypt_siv-aes256_decrypt_siv, length-aes256_decrypt_siv}
use libe.Protocol.{result_ok}
use libe.Pubkey.Curves.{Curves}
use libe.Pubkey.Storage.{PkStorage}
use libe.Crypto.Cipher.{Cipher}
use libe.Symkey.Unprotect.Roundtrip.{holds_all}

module _ (c : Cipher) (cv : Curves) (st : PkStorage) where
  open st use {Store}

  -- A part of the message is the encryption of a plaintext under a key, and the timestamp of the
  -- message is accepted.
  abbrev pub Sealed : ℕ → ℕ → List ℕ → List ℕ → List ℕ → List ℕ → Type 0
  Sealed opts now cptr payload key message =
      ((aes256_encrypt_siv c (take 8 cptr) message key).ct ≡ payload)
      × (check_timestamp opts now (read_timestamp (take 8 cptr)) ≡ result_ok)

  module _ (opts now mmax clen : ℕ) (mptr cptr topic : List ℕ) (s : Store)
      (inside : clen ≤ length cptr) (small : length cptr < 2 ^ 64) where
    -- The part of the message that the checks before the decryption choose.
    length_payload :
        (control : Bool) (key : List ℕ) (offset size : ℕ)
        → Passed c cv st opts s cptr clen topic control key offset size
        → (length (take size (drop offset cptr)) ≡ size)
          × (16 ≤ size)
          × (offset + size ≤ length cptr)
    length_payload control key offset size passed =
        let a = length-take size (drop offset cptr) in
        let b = length-drop offset cptr in
        elim passed [
          | inl (_, _, _, long, at, n) ↦ (
            omega (arith, a, b, at, n),
            omega (arith, long, n),
            omega (arith, long, at, n, inside),
          )
          | inr (_, _, _, _, long, at, n) ↦ (
            omega (arith, a, b, at, n),
            omega (arith, long, n),
            omega (arith, long, at, n, inside),
          )
        ]

    unprotect_with-Handled :
        (g : Option Gate) (r : ℤ) (out : List ℕ) (mlen : ℕ) (s' : Store)
        → gate c cv st opts s mmax cptr clen topic ≡ g
        → unprotect_with c cv st opts now s mptr mmax cptr g ≡ some (opened r out mlen s')
        → ((r ≢ result_ok) × (s' ≡ s))
          ⊎ ((control : Bool) × (key : List ℕ) × (offset : ℕ) × (size : ℕ) × (message : List ℕ)
              × Passed c cv st opts s cptr clen topic control key offset size
              × Sealed opts now cptr (take size (drop offset cptr)) key message
              × (out ≡ overwrite message mptr)
              × (mlen ≡ length message)
              × Handled c cv st control s r out mlen s')
    unfolding unprotect_with
    unprotect_with-Handled none r out mlen s' k e = cc
    unprotect_with-Handled (some (stopped code)) r out mlen s' k e = cc
    unprotect_with-Handled (some (decrypting control key offset size)) r out mlen s' k e =
        let stamp = take 8 cptr in
        let ct = take size (drop offset cptr) in
        let passed = gate-Passed c cv st opts mmax clen s cptr topic control key offset size k in
        let n = length_payload control key offset size passed in
        let long : 16 ≤ length ct = omega (arith, n.0, n.1) in
        let short : length ct < 2 ^ 64 =
          omega (arith, length-take size (drop offset cptr), length-drop offset cptr, small) in
        let d = aes256_decrypt_siv c stamp ct key in
        let whole : ltb (length cptr) (offset + size) ≡ false =
          holds_all cptr (offset + size) n.2 in
        elim (handle_decrypted-Handled c cv st opts now (read_timestamp stamp) mmax control s mptr d
          r out mlen s' (rw whole at e)) [
            | inl failed ↦ inl failed
            | inr (tag, ok, front, count, handled) ↦ inr (
              control,
              key,
              offset,
              size,
              d.pt,
              passed,
              (aes256_encrypt_siv-aes256_decrypt_siv c stamp ct key long short tag, ok),
              front,
              count ∙ length-aes256_decrypt_siv c stamp ct key long short,
              handled,
            )
          ]

    -- Unprotecting leaves the storage as it is, or else the topic is the control topic of the
    -- device, the payload is the encryption, under the secret that the device shares with the
    -- server, of a command, with a timestamp in time, and the storage and the status are those of the
    -- command. The buffer of the message
    -- holds as many bytes as the length that is given, and fewer than 2^64.
    pub unprotect-changes-Sealed :
        (r : ℤ) (out : List ℕ) (mlen : ℕ) (s' : Store)
        → e4c_pubkey_unprotect_message c cv st opts now
            (some mptr)
            mmax
            (some cptr)
            clen
            (some topic)
            (some s)
          ≡ some (opened r out mlen s')
        → (s' ≡ s)
          ⊎ ((message : List ℕ) × (key : List ℕ) × (code : ℤ) × (is_zero
                  (st.is_device_ctrltopic s topic)
                ≡ true)
              × (st.get_c2sharedsecret s ≡ (result_ok, key))
              × Sealed opts now cptr (take (clen - 8) (drop 8 cptr)) key message
              × (out ≡ overwrite message mptr)
              × (mlen ≡ length message)
              × (run_command c cv st s out mlen ≡ some (code, s'))
              × (r ≡ control_result code))
    unfolding e4c_pubkey_unprotect_message
    unprotect-changes-Sealed r out mlen s' e =
        elim (unprotect_with-Handled (gate c cv st opts s mmax cptr clen topic) r out mlen s' refl
          e) [
            | inl failed ↦ inl failed.1
            | inr
                  (
                    control,
                    key,
                    offset,
                    size,
                    message,
                    passed,
                    sealed,
                    front,
                    count,
                    inl (_, _, same),
                  ) ↦
                inl same
            | inr
                  (
                    control,
                    key,
                    offset,
                    size,
                    message,
                    inr (no_control, _, _, _, _, _, _),
                    sealed,
                    front,
                    count,
                    inr (yes_control, _),
                  ) ↦
                cc
            | inr
                  (
                    control,
                    key,
                    offset,
                    size,
                    message,
                    inl (_, at_control, secret, _, at, n),
                    sealed,
                    front,
                    count,
                    inr (_, (code, ran, status)),
                  ) ↦
                inr (
                  message,
                  key,
                  code,
                  at_control,
                  secret,
                  rw (at, n) at sealed,
                  front,
                  count,
                  ran,
                  status,
                )
          ]
