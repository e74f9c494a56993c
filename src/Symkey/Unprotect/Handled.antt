-- ===== src/Symkey/Unprotect/Handled.antt =====
-- src/e4symclient.c: the outcomes of a message after its decryption, case by case.
use libe.Common.{
  Bool, Bool-cases, List, Option, Option-cases, ap, arith, false, if◌then◌else◌, inl, inr, length,
  ltb, none, overwrite, some, suc, sym, true, zero, ℕ, ◌∙◌, ◌≡◌, ◌≢◌, ◌⊎◌,
}
use libe.Common.Int.{pos, negsuc, ℤ, is_zero, is_zero_sound}
use libe.Crypto.Cipher.{Cipher}
use libe.Symkey.Storage.{SymStorage}
use libe.Symkey.Client.{
  check_timestamp, control_result, opened, refused, run_command, Unprotected, Choice, choose_key,
  chosen, found_key, missing,
}
use libe.Crypto.Siv.{Decrypted}
use libe.Protocol.{result_ok, error_ciphertext_too_short, error_invalid_tag}
use libe.Symkey.Unprotect.{finish_command, handle_decrypted}

pub control_result-ne-ok : (r : ℤ) → control_result r ≢ result_ok
unfolding control_result
control_result-ne-ok (pos zero) = ground arith
control_result-ne-ok (pos (suc n)) = ground arith
control_result-ne-ok (negsuc n) = ground arith

pub opened-injective :
    {S : Type 0} (r r' : ℤ) (out out' : List ℕ) (mlen mlen' : ℕ) (s s' : S)
    → ◌≡◌ {A = Option (Unprotected S)} (some (opened r out mlen s)) (some (opened r' out' mlen' s'))
    → (r' ≡ r) × (out' ≡ out) × (mlen' ≡ mlen) × (s' ≡ s)
opened-injective r r' out out' mlen mlen' s s' e = (cc, cc, cc, cc)

module _ (c : Cipher) (st : SymStorage) where
  open st use {Store}

  -- What became of a message whose tag and timestamp are accepted.
  abbrev pub Handled : Bool → Store → ℤ → List ℕ → ℕ → Store → Type 0
  Handled control s r out mlen s' =
      ((control ≡ false) × (r ≡ result_ok) × (s' ≡ s))
      ⊎ ((control ≡ true)
          × ((code : ℤ) × (run_command c st s out mlen ≡ some (code, s'))
              × (r ≡ control_result code)))

  finish_command-Handled :
      (s : Store) (out : List ℕ) (mlen : ℕ) (r : ℤ) (out' : List ℕ) (mlen' : ℕ) (s' : Store)
      → finish_command c st out mlen (run_command c st s out mlen) ≡ some (opened r out' mlen' s')
      → (out' ≡ out)
        × (mlen' ≡ mlen)
        × ((code : ℤ) × (run_command c st s out mlen ≡ some (code, s')) × (r ≡ control_result code))
  unfolding finish_command
  finish_command-Handled s out mlen r out' mlen' s' e =
      elim (Option-cases (run_command c st s out mlen)) [
        | inl fault ↦ cc (rw fault at e)
        | inr ((code, s1), ran) ↦
            let i =
              opened-injective (control_result code) r out out' mlen mlen' s1 s' (rw ran at e) in
            (i.1, i.2, (code, ran ∙ ap (λ (x : Store). some (code, x)) (sym i.3), i.0))
      ]

  pub handle_decrypted-Handled :
      (opts now tstamp mmax : ℕ) (control : Bool) (s : Store) (mptr : List ℕ) (d : Decrypted)
      (r : ℤ) (out : List ℕ) (mlen : ℕ) (s' : Store)
      → handle_decrypted c st opts now tstamp control s mptr mmax d ≡ some (opened r out mlen s')
      → ((r ≢ result_ok) × (s' ≡ s))
        ⊎ ((is_zero d.status ≡ true)
            × (check_timestamp opts now tstamp ≡ result_ok)
            × (out ≡ overwrite d.pt mptr)
            × (mlen ≡ d.ptlen)
            × Handled control s r out mlen s')
  unfolding handle_decrypted
  handle_decrypted-Handled opts now tstamp mmax control s mptr d r out mlen s' e =
      let out1 = overwrite d.pt mptr in
      let checked = check_timestamp opts now tstamp in
      elim (Bool-cases (ltb (length mptr) (length d.pt))) [
        | inl past ↦ cc (rw past at e)
        | inr room ↦ elim (Bool-cases (is_zero d.status)) [
          | inr forged ↦
              let i =
                opened-injective error_invalid_tag r out1 out d.ptlen mlen s s'
                  (rw (room, forged) at e) in
              inl (λ ok. cc (sym i.0 ∙ ok), i.3)
          | inl tag ↦ elim (Bool-cases (ltb mmax d.ptlen)) [
            | inl large ↦
                let i =
                  opened-injective error_ciphertext_too_short r out1 out d.ptlen mlen s s'
                    (rw (room, tag, large) at e) in
                inl (λ ok. cc (sym i.0 ∙ ok), i.3)
            | inr fits ↦ elim (Bool-cases (is_zero checked)) [
              | inr late ↦
                  let i =
                    opened-injective checked r out1 out d.ptlen mlen s s'
                      (rw (room, tag, fits, late) at e) in
                  inl (λ ok. cc (ap is_zero (sym i.0 ∙ ok), late), i.3)
              | inl in_time ↦
                  let ok = is_zero_sound checked in_time in
                  elim (Bool-cases control) [
                    | inr topic ↦
                        let i =
                          opened-injective result_ok r out1 out d.ptlen mlen s s'
                            (rw (room, tag, fits, in_time, topic) at e) in
                        inr (tag, ok, i.1, i.2, inl (topic, i.0, i.3))
                    | inl command ↦
                        let i =
                          finish_command-Handled s out1 d.ptlen r out mlen s'
                            (rw (room, tag, fits, in_time, command) at e) in
                        inr (tag, ok, i.0, i.1, inr (command, rw (i.0, i.1) i.2))
                  ]
            ]
          ]
        ]
      ]

  finish_command-ne-refused :
      (out : List ℕ) (mlen : ℕ) (done : Option (ℤ × Store)) (r : ℤ)
      → finish_command c st out mlen done ≢ some (refused r)
  unfolding finish_command
  finish_command-ne-refused out mlen none r e = cc
  finish_command-ne-refused out mlen (some (code, s)) r e = cc

  -- From the decryption on, the buffer is written whatever the code is.
  pub handle_decrypted-ne-refused :
      (opts now tstamp mmax : ℕ) (control : Bool) (s : Store) (mptr : List ℕ) (d : Decrypted)
      (r : ℤ)
      → handle_decrypted c st opts now tstamp control s mptr mmax d ≢ some (refused r)
  unfolding handle_decrypted
  handle_decrypted-ne-refused opts now tstamp mmax control s mptr d r e =
      let out = overwrite d.pt mptr in
      let checked = check_timestamp opts now tstamp in
      elim (Bool-cases (ltb (length mptr) (length d.pt))) [
        | inl past ↦ cc (rw past at e)
        | inr room ↦ elim (Bool-cases (is_zero d.status)) [
          | inr forged ↦ cc (rw (room, forged) at e)
          | inl tag ↦ elim (Bool-cases (ltb mmax d.ptlen)) [
            | inl large ↦ cc (rw (room, tag, large) at e)
            | inr fits ↦ elim (Bool-cases (is_zero checked)) [
              | inr late ↦ cc (rw (room, tag, fits, late) at e)
              | inl in_time ↦ elim (Bool-cases control) [
                | inr topic ↦ cc (rw (room, tag, fits, in_time, topic) at e)
                | inl command ↦
                    finish_command-ne-refused out d.ptlen (run_command c st s out d.ptlen) r
                      (rw (room, tag, fits, in_time, command) at e)
              ]
            ]
          ]
        ]
      ]

  -- Only the control topic is answered with a control key, and that is the device's own.
  pub choose_key-control :
      (s : Store) (topic key : List ℕ)
      → choose_key c st s topic ≡ chosen true key
      → (st.get_idkey s ≡ key) × (is_zero (st.is_device_ctrltopic s topic) ≡ true)
  unfolding choose_key found_key
  choose_key-control s topic key e = go (st.gettopicindex s topic) e
    where
      found :
          (k : Option (List ℕ))
          → found_key c st k ≡ chosen true key
          → (st.get_idkey s ≡ key) × (is_zero (st.is_device_ctrltopic s topic) ≡ true)
      found none h = cc
      found (some k) h = cc

      go :
          (i : ℤ)
          → (let r : Choice = elim i [
            | pos i ↦ found_key c st (st.gettopickey s (pos i))
            | negsuc _ ↦
                if is_zero (st.is_device_ctrltopic s topic)
                then chosen true (st.get_idkey s)
                else missing
          ] in
              r)
            ≡ chosen true key
          → (st.get_idkey s ≡ key) × (is_zero (st.is_device_ctrltopic s topic) ≡ true)
      go (pos i) h = found (st.gettopickey s (pos i)) h
      go (negsuc n) h = ground arith
