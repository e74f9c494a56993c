-- ===== src/Pubkey/Unprotect/Handled.antt =====
-- src/e4pkcclient.c: the outcomes of a message after its decryption, case by case.
use libe.Common.{
  Bool, Bool-cases, List, Option, Option-cases, ap, false, inl, inr, length, ltb, none, overwrite,
  some, sym, true, ℕ, ◌∙◌, ◌≡◌, ◌≢◌, ◌⊎◌,
}
use libe.Common.Int.{ℤ, is_zero, is_zero, is_zero_sound}
use libe.Symkey.Client.{opened, refused, check_timestamp, control_result}
use libe.Crypto.Siv.{Decrypted}
use libe.Protocol.{result_ok, error_ciphertext_too_short, error_invalid_tag}
use libe.Pubkey.Client.{run_command}
use libe.Pubkey.Unprotect.{finish_command, handle_decrypted}
use libe.Pubkey.Curves.{Curves}
use libe.Pubkey.Storage.{PkStorage}
use libe.Symkey.Unprotect.Handled.{opened-injective}
use libe.Crypto.Cipher.{Cipher}

module _ (c : Cipher) (cv : Curves) (st : PkStorage) where
  open st use {Store}

  -- What became of a message whose tag and timestamp are accepted.
  abbrev pub Handled : Bool → Store → ℤ → List ℕ → ℕ → Store → Type 0
  Handled control s r out mlen s' =
      ((control ≡ false) × (r ≡ result_ok) × (s' ≡ s))
      ⊎ ((control ≡ true)
          × ((code : ℤ) × (run_command c cv st s out mlen ≡ some (code, s'))
              × (r ≡ control_result code)))

  finish_command-Handled :
      (s : Store) (out : List ℕ) (mlen : ℕ) (r : ℤ) (out' : List ℕ) (mlen' : ℕ) (s' : Store)
      → finish_command c cv st out mlen (run_command c cv st s out mlen)
        ≡ some (opened r out' mlen' s')
      → (out' ≡ out)
        × (mlen' ≡ mlen)
        × ((code : ℤ) × (run_command c cv st s out mlen ≡ some (code, s'))
            × (r ≡ control_result code))
  unfolding finish_command
  finish_command-Handled s out mlen r out' mlen' s' e =
      elim (Option-cases (run_command c cv st s out mlen)) [
        | inl fault ↦ cc (rw fault at e)
        | inr ((code, s1), ran) ↦
            let i =
              opened-injective (control_result code) r out out' mlen mlen' s1 s' (rw ran at e) in
            (i.1, i.2, (code, ran ∙ ap (λ (x : Store). some (code, x)) (sym i.3), i.0))
      ]

  pub handle_decrypted-Handled :
      (opts now tstamp mmax : ℕ) (control : Bool) (s : Store) (mptr : List ℕ) (d : Decrypted)
      (r : ℤ) (out : List ℕ) (mlen : ℕ) (s' : Store)
      → handle_decrypted c cv st opts now tstamp control s mptr mmax d ≡ some (opened r out mlen s')
      → ((r ≢ result_ok) × (s' ≡ s))
        ⊎ ((is_zero d.status ≡ true)
            × (check_timestamp opts now tstamp ≡ result_ok)
            × (out ≡ overwrite d.pt mptr)
            × (mlen ≡ d.ptlen)
            × Handled control s r out mlen s')
  unfolding handle_decrypted
  handle_decrypted-Handled opts now tstamp mmax control s mptr d r out mlen s' e =
      let out1 = overwrite d.pt mptr in
      let checked = check_timestamp opts now tstamp in
      elim (Bool-cases (ltb (length mptr) (length d.pt))) [
        | inl past ↦ cc (rw past at e)
        | inr room ↦ elim (Bool-cases (is_zero d.status)) [
          | inr forged ↦
              let i =
                opened-injective error_invalid_tag r out1 out d.ptlen mlen s s'
                  (rw (room, forged) at e) in
              inl (λ ok. cc (sym i.0 ∙ ok), i.3)
          | inl tag ↦ elim (Bool-cases (ltb mmax d.ptlen)) [
            | inl large ↦
                let i =
                  opened-injective error_ciphertext_too_short r out1 out d.ptlen mlen s s'
                    (rw (room, tag, large) at e) in
                inl (λ ok. cc (sym i.0 ∙ ok), i.3)
            | inr fits ↦ elim (Bool-cases (is_zero checked)) [
              | inr late ↦
                  let i =
                    opened-injective checked r out1 out d.ptlen mlen s s'
                      (rw (room, tag, fits, late) at e) in
                  inl (λ ok. cc (ap is_zero (sym i.0 ∙ ok), late), i.3)
              | inl in_time ↦
                  let ok = is_zero_sound checked in_time in
                  elim (Bool-cases control) [
                    | inr topic ↦
                        let i =
                          opened-injective result_ok r out1 out d.ptlen mlen s s'
                            (rw (room, tag, fits, in_time, topic) at e) in
                        inr (tag, ok, i.1, i.2, inl (topic, i.0, i.3))
                    | inl command ↦
                        let i =
                          finish_command-Handled s out1 d.ptlen r out mlen s'
                            (rw (room, tag, fits, in_time, command) at e) in
                        inr (tag, ok, i.0, i.1, inr (command, rw (i.0, i.1) i.2))
                  ]
            ]
          ]
        ]
      ]

  finish_command-ne-refused :
      (out : List ℕ) (mlen : ℕ) (done : Option (ℤ × Store)) (r : ℤ)
      → finish_command c cv st out mlen done ≢ some (refused r)
  unfolding finish_command
  finish_command-ne-refused out mlen none r e = cc
  finish_command-ne-refused out mlen (some (code, s)) r e = cc

  -- From the decryption on, the buffer is written whatever the code is.
  pub handle_decrypted-ne-refused :
      (opts now tstamp mmax : ℕ) (control : Bool) (s : Store) (mptr : List ℕ) (d : Decrypted)
      (r : ℤ)
      → handle_decrypted c cv st opts now tstamp control s mptr mmax d ≢ some (refused r)
  unfolding handle_decrypted
  handle_decrypted-ne-refused opts now tstamp mmax control s mptr d r e =
      let out = overwrite d.pt mptr in
      let checked = check_timestamp opts now tstamp in
      elim (Bool-cases (ltb (length mptr) (length d.pt))) [
        | inl past ↦ cc (rw past at e)
        | inr room ↦ elim (Bool-cases (is_zero d.status)) [
          | inr forged ↦ cc (rw (room, forged) at e)
          | inl tag ↦ elim (Bool-cases (ltb mmax d.ptlen)) [
            | inl large ↦ cc (rw (room, tag, large) at e)
            | inr fits ↦ elim (Bool-cases (is_zero checked)) [
              | inr late ↦ cc (rw (room, tag, fits, late) at e)
              | inl in_time ↦ elim (Bool-cases control) [
                | inr topic ↦ cc (rw (room, tag, fits, in_time, topic) at e)
                | inl command ↦
                    finish_command-ne-refused out d.ptlen (run_command c cv st s out d.ptlen) r
                      (rw (room, tag, fits, in_time, command) at e)
              ]
            ]
          ]
        ]
      ]
