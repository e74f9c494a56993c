-- ===== src/Pubkey/Unprotect/Commands.antt =====
-- src/e4pkcclient.c: commands of the server.
use libe.Common.{
  List, [], arith, false, length, ltb, overwrite, some, true, ℕ, ◌+◌, ◌-◌, ◌<◌, ◌^◌, ◌∷◌, ◌≡◌, ◌≤◌,
}
use mathlib.Core.List.{append-nil}
use libe.Common.Int.{is_zero, is_zero}
use libe.Symkey.Client.{opened, check_timestamp, control_result}
use libe.Symkey.Client.Protect.{packet, length-packet}
use libe.Symkey.Client.Time.{read_timestamp-write_timestamp}
use libe.Symkey.Unprotect.Roundtrip.{decrypt-packet, holds_all}
use libe.Pubkey.Client.{run_command}
use libe.Pubkey.Unprotect.{
  control_gate, gate, e4c_pubkey_unprotect_message, unprotect_with, handle_decrypted,
  finish_command,
}
use libe.Protocol.{result_ok, result_ok_control}
use libe.Pubkey.Curves.{Curves}
use libe.Pubkey.Storage.{PkStorage}
use libe.Crypto.Cipher.{Cipher}

module _ (c : Cipher) (cv : Curves) (st : PkStorage) where
  open st use {Store}

  -- A command of the server, encrypted under the secret that it shares with the device and sent on the
  -- control topic with a timestamp that the device accepts, is carried out if the device's buffer
  -- has room for it: the status and the storage are those of the command, which stands at the front of
  -- the buffer. Neither the clock of the sender nor the length of the packet reaches 2^64.
  pub unprotect-pk_command :
      (now later opts mmax : ℕ) (mptr command topic key : List ℕ) (r : Store)
      → now < 2 ^ 64
      → length command + 24 < 2 ^ 64
      → length command ≤ mmax
      → length command ≤ length mptr
      → is_zero (st.is_device_ctrltopic r topic) ≡ true
      → st.get_c2sharedsecret r ≡ (result_ok, key)
      → check_timestamp opts later now ≡ result_ok
      → let out = overwrite command mptr in
        e4c_pubkey_unprotect_message c cv st opts later
          (some mptr)
          mmax
          (some (packet c now command key))
          (length command + 24)
          (some topic)
          (some r)
        ≡ finish_command c cv st out (length command) (run_command c cv st r out (length command))
  unfolding e4c_pubkey_unprotect_message gate control_gate unprotect_with handle_decrypted
  unprotect-pk_command now later opts mmax mptr command topic key r time small fits holds at_control
        shared ok =
      let d = decrypt-packet c now command key [] small in
      let whole = append-nil (packet c now command key) in
      let long : ltb (length command + 24) 24 ≡ false = ground arith in
      let fits' : ltb mmax (length command + 24 - 24) ≡ false = ground arith in
      let fits'' : ltb mmax (length command) ≡ false = ground arith in
      let inside : ltb (length mptr) (length command) ≡ false = ground arith in
      let size : 8 + (length command + 24 - 8) ≡ length command + 24 = omega arith in
      let given : ltb (length (packet c now command key)) (length command + 24) ≡ false =
        holds_all _ _ (omega (arith, length-packet c now command key)) in
      rw (
        at_control,
        long,
        fits',
        shared,
        size,
        given,
        rw whole at d.1,
        rw whole at d.0,
        inside,
        read_timestamp-write_timestamp now time,
        fits'',
        ok,
      )

  -- The command to remove the public key of a device, sent as the protocol has it (one byte 4 and
  -- the 16 bytes of the id), encrypted under the secret that the server shares with the
  -- device, with a timestamp that the device accepts and room for it in the buffer, is answered with
  -- E4_RESULT_OK_CONTROL and leaves the storage as it was. The clock of the sender does not reach
  -- 2^64.
  pub remove_pubkey-ignored :
      (now later opts mmax : ℕ) (mptr id topic key : List ℕ) (r : Store)
      → now < 2 ^ 64
      → length id ≡ 16
      → 17 ≤ mmax
      → 17 ≤ length mptr
      → is_zero (st.is_device_ctrltopic r topic) ≡ true
      → st.get_c2sharedsecret r ≡ (result_ok, key)
      → check_timestamp opts later now ≡ result_ok
      → e4c_pubkey_unprotect_message c cv st opts later
          (some mptr)
          mmax
          (some (packet c now (4 ∷ id) key))
          41
          (some topic)
          (some r)
        ≡ some (opened result_ok_control (overwrite (4 ∷ id) mptr) 17 r)
  unfolding finish_command run_command control_result
  remove_pubkey-ignored now later opts mmax mptr id topic key r time sixteen room holds at_control
        shared ok =
      let n : length (4 ∷ id) ≡ 17 = omega (arith, sixteen) in
      let ran =
        unprotect-pk_command now later opts mmax mptr (4 ∷ id) topic key r time (omega (arith, n))
          (omega (arith, n)) (omega (arith, n, holds)) at_control shared ok in
      rw n at ran
