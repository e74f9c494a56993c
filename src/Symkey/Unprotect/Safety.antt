-- ===== src/Symkey/Unprotect/Safety.antt =====
-- src/e4symclient.c: what a message must be before it is accepted or changes the storage.
use libe.Common.{
  Bool, Bool-cases, List, arith, drop, false, inl, inr, length, length-drop, length-take, ltb,
  overwrite, refl, some, take, true, ℕ, ◌-◌, ◌<◌, ◌^◌, ◌∙◌, ◌≡◌, ◌≢◌, ◌≤◌, ◌⊎◌,
}
use libe.Common.Int.{ℤ, is_zero}
use libe.Crypto.Cipher.{Cipher}
use libe.Symkey.Storage.{SymStorage}
use libe.Symkey.Client.{
  opened, chosen, missing, unreadable, Choice, check_timestamp, choose_key, control_result,
  read_timestamp, run_command,
}
use libe.Symkey.Unprotect.{e4c_symkey_unprotect_message, unprotect_pointers, unprotect_with}
use libe.Symkey.Unprotect.Handled.{Handled, choose_key-control, handle_decrypted-Handled}
use libe.Crypto.Siv.{aes256_decrypt_siv, aes256_encrypt_siv}
use libe.Crypto.Siv.Roundtrip.{aes256_encrypt_siv-aes256_decrypt_siv, length-aes256_decrypt_siv}
use libe.Protocol.{result_ok}

module _ (c : Cipher) (st : SymStorage) where
  open st use {Store}

  -- The message is the encryption, under a key chosen for the topic, of a plaintext, and its
  -- timestamp is accepted.
  abbrev pub Authentic : ℕ → ℕ → Store → List ℕ → ℕ → List ℕ → Bool → List ℕ → List ℕ → Type 0
  Authentic opts now s cptr clen topic control key message =
      (choose_key c st s topic ≡ chosen control key)
      × ((aes256_encrypt_siv c (take 8 cptr) message key).ct ≡ take (clen - 8) (drop 8 cptr))
      × (check_timestamp opts now (read_timestamp (take 8 cptr)) ≡ result_ok)

  module _ (opts now mmax clen : ℕ) (mptr cptr topic : List ℕ) (s : Store)
      (inside : clen ≤ length cptr) (small : length cptr < 2 ^ 64) where
    unprotect_with-Handled :
        (choice : Choice) (r : ℤ) (out : List ℕ) (mlen : ℕ) (s' : Store)
        → 24 ≤ clen
        → choose_key c st s topic ≡ choice
        → unprotect_with c st opts now s mptr mmax cptr clen choice ≡ some (opened r out mlen s')
        → ((r ≢ result_ok) × (s' ≡ s))
          ⊎ ((control : Bool) × (key : List ℕ) × (message : List ℕ) × Authentic opts now s cptr clen
                topic control key message
              × (out ≡ overwrite message mptr)
              × (mlen ≡ length message)
              × Handled c st control s r out mlen s')
    unfolding unprotect_with
    unprotect_with-Handled missing r out mlen s' long k e = cc
    unprotect_with-Handled unreadable r out mlen s' long k e = cc
    unprotect_with-Handled (chosen control key) r out mlen s' long k e =
        let stamp = take 8 cptr in
        let ct = take (clen - 8) (drop 8 cptr) in
        let n : length ct ≡ clen - 8 =
          omega (arith, length-take (clen - 8) (drop 8 cptr), length-drop 8 cptr, inside) in
        let d = aes256_decrypt_siv c stamp ct key in
        let whole : ltb (length cptr) clen ≡ false = ground arith in
        elim (handle_decrypted-Handled c st opts now (read_timestamp stamp) mmax control s mptr d r
          out mlen s' (rw whole at e)) [
            | inl failed ↦ inl failed
            | inr (tag, ok, front, count, handled) ↦ inr (
              control,
              key,
              d.pt,
              (
                k,
                aes256_encrypt_siv-aes256_decrypt_siv c stamp ct key (omega (arith, n, long))
                    (omega (arith, n, small, inside)) tag,
                ok,
              ),
              front,
              count
                  ∙ length-aes256_decrypt_siv c stamp ct key (omega (arith, n, long))
                      (omega (arith, n, small, inside)),
              handled,
            )
          ]

    unprotect-Handled :
        (r : ℤ) (out : List ℕ) (mlen : ℕ) (s' : Store)
        → e4c_symkey_unprotect_message c st opts now
            (some mptr)
            mmax
            (some cptr)
            clen
            (some topic)
            (some s)
          ≡ some (opened r out mlen s')
        → ((r ≢ result_ok) × (s' ≡ s))
          ⊎ ((control : Bool) × (key : List ℕ) × (message : List ℕ) × Authentic opts now s cptr clen
                topic control key message
              × (out ≡ overwrite message mptr)
              × (mlen ≡ length message)
              × Handled c st control s r out mlen s')
    unfolding e4c_symkey_unprotect_message unprotect_pointers
    unprotect-Handled r out mlen s' e = elim (Bool-cases (ltb clen 24)) [
      | inl short ↦ cc (rw short at e)
      | inr long ↦ elim (Bool-cases (ltb mmax (clen - 24))) [
        | inl small ↦ cc (rw (long, small) at e)
        | inr fits ↦
            unprotect_with-Handled (choose_key c st s topic) r out mlen s' (ground arith) refl
              (rw (long, fits) at e)
      ]
    ]

    -- Unprotecting leaves the storage as it is, or else the topic is the control topic of the
    -- device, the message is authentic under the device's own key and in time, and the storage
    -- and the status are those of the command that the plaintext holds. The buffer of the message
    -- holds as many bytes as the length that is given, and fewer than 2^64.
    pub unprotect-changes-Authentic :
        (r : ℤ) (out : List ℕ) (mlen : ℕ) (s' : Store)
        → e4c_symkey_unprotect_message c st opts now
            (some mptr)
            mmax
            (some cptr)
            clen
            (some topic)
            (some s)
          ≡ some (opened r out mlen s')
        → (s' ≡ s)
          ⊎ ((message : List ℕ) × (code : ℤ) × (is_zero (st.is_device_ctrltopic s topic) ≡ true)
              × Authentic opts now s cptr clen topic true (st.get_idkey s) message
              × (out ≡ overwrite message mptr)
              × (mlen ≡ length message)
              × (run_command c st s out mlen ≡ some (code, s'))
              × (r ≡ control_result code))
    unprotect-changes-Authentic r out mlen s' e = elim (unprotect-Handled r out mlen s' e) [
      | inl failed ↦ inl failed.1
      | inr (control, key, message, auth, front, count, inl (_, _, same)) ↦ inl same
      | inr (control, key, message, auth, front, count, inr (is_control, (code, ran, status))) ↦
          let own = choose_key-control c st s topic key (rw is_control at auth.0) in
          inr (message, code, own.1, rw own.0 (rw is_control at auth), front, count, ran, status)
    ]
