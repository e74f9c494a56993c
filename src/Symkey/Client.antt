-- ===== src/Symkey/Client.antt =====
-- src/e4symclient.c, as it is compiled for a system with a clock: `now` is time(NULL).
-- A pointer is an `Option`, NULL is `none`; a buffer is the list of the bytes that it points to.
-- `none` as a result is undefined behaviour of the C code: a read of a key that was never written,
-- or a read or a write past a buffer.
pub mod Time
pub mod Protect
use libe.Common.{
  Bool, List, Option, [], bit_and, drop, false, get_or, if◌then◌else◌, leb, length, ltb, none, not,
  overwrite, some, suc, take, true, zero, ℕ, ◌%◌, ◌*◌, ◌++◌, ◌+◌, ◌-◌, ◌/◌, ◌==◌, ◌^◌, ◌∷◌, ◌||◌,
  ◌≤◌,
}
use libe.Common.Int.{ℤ, pos, negsuc, is_zero}
use libe.Protocol.{
  result_ok, error_ciphertext_too_short, error_internal, error_invalid_command,
  error_parameter_invalid, error_parameter_overflow, error_timestamp_in_future,
  error_timestamp_too_old, error_topickey_missing, key_len, msghdr_len, result_ok_control,
  timestamp_len, topichash_len,
}
use libe.Crypto.Cipher.{Cipher}
use libe.Crypto.Siv.{aes256_encrypt_siv}
use libe.Symkey.Storage.{SymStorage}

-- The loop that writes the timestamp: n bytes, the lowest first.
unfoldable pub write_timestamp : ℕ → ℕ → List ℕ
write_timestamp zero time_now = []
write_timestamp (suc n) time_now = time_now % 2 ^ 8 ∷ write_timestamp n (time_now / 2 ^ 8)

-- The loop that reads it, from the last byte to the first, in a uint64_t.
unfoldable pub read_timestamp : List ℕ → ℕ
read_timestamp [] = 0
read_timestamp (x ∷ v) = (read_timestamp v * 2 ^ 8 % 2 ^ 64 + x) % 2 ^ 64

-- The checks of the timestamp of a message that is authentic.
unfoldable pub check_timestamp : ℕ → ℕ → ℕ → ℤ
check_timestamp proto_opts secs1970 tstamp =
    if ltb secs1970 946684800
    then result_ok
    else if not (bit_and proto_opts 1 == 0)
    then result_ok
    else if leb secs1970 tstamp
    then (if ltb 600 (tstamp - secs1970) then error_timestamp_in_future else result_ok)
    else if ltb 600 (secs1970 - tstamp)
    then error_timestamp_too_old
    else result_ok

-- r == 0 ? E4_RESULT_OK_CONTROL : r
unfoldable pub control_result : ℤ → ℤ
control_result r = if is_zero r then result_ok_control else r

-- A pointer that is not NULL points to a buffer of at least so many bytes.
abbrev pub Holds : Option (List ℕ) → ℕ → Type 0
Holds none n = Unit
Holds (some v) n = n ≤ length v

-- What is written if nothing is refused: the status, the buffer and the length.
pub data Protected : Type 0 where
  refused : ℤ → Protected
  written : ℤ → List ℕ → ℕ → Protected

pub data Unprotected (S : Type 0) : Type 0 where
  refused : ℤ → Unprotected S
  opened : ℤ → List ℕ → ℕ → S → Unprotected S

-- What the two functions return.
abbrev pub protected_code : Protected → ℤ
protected_code (refused r) = r
protected_code (written r out clen) = r

abbrev pub unprotected_code : {S : Type 0} → Unprotected S → ℤ
unprotected_code (refused r) = r
unprotected_code (opened r out mlen s) = r

-- The key for a topic, and whether it is the control topic.
pub data Choice : Type 0 where
  chosen : Bool → List ℕ → Choice
  missing unreadable : Choice

module _ (c : Cipher) (st : SymStorage) where
  open st use {Store}

  unfoldable pub found_key : Option (List ℕ) → Choice
  found_key none = unreadable
  found_key (some key) = chosen false key

  unfoldable pub choose_key : Store → List ℕ → Choice
  choose_key s topic = elim (st.gettopicindex s topic) [
    | pos i ↦ found_key (st.gettopickey s (pos i))
    | negsuc _ ↦
        if is_zero (st.is_device_ctrltopic s topic) then chosen true (st.get_idkey s) else missing
  ]

  -- From the timestamp on. The loop and the encryption write `clen` bytes.
  unfoldable pub protect_with : ℕ → List ℕ → List ℕ → ℕ → Choice → Option Protected
  protect_with now cptr message mlen missing = some (refused error_topickey_missing)
  protect_with now cptr message mlen unreadable = none
  protect_with now cptr message mlen (chosen control key) =
      let stamp = write_timestamp timestamp_len now in
      let e = aes256_encrypt_siv c stamp message key in
      let clen = e.ctlen + timestamp_len in
      if ltb (length message) mlen || ltb (length cptr) clen
      then none
      else some (
          written (if clen == mlen + msghdr_len then result_ok else error_internal)
            (overwrite (stamp ++ e.ct) cptr) clen)

  unfoldable pub protect_pointers :
      ℕ → Option (List ℕ) → Option (List ℕ) → ℕ → Option (List ℕ) → Option Store → Option Protected
  protect_pointers now (some cptr) (some mptr) mlen (some topic) (some s) =
      protect_with now cptr (take mlen mptr) mlen (choose_key s topic)
  protect_pointers now cptr mptr mlen topic s = some (refused error_parameter_invalid)

  pub e4c_symkey_protect_message :
      ℕ
      → Option (List ℕ)
      → ℕ
      → Option (List ℕ)
      → ℕ
      → Option (List ℕ)
      → Option Store
      → Option Protected
  e4c_symkey_protect_message now cptr cmax mptr mlen topic s =
      if ltb cmax ((mlen + msghdr_len) % 2 ^ 64)
      then some (refused error_ciphertext_too_short)
      else if ltb ((mlen + msghdr_len) % 2 ^ 64) mlen
      then some (refused error_parameter_overflow)
      else protect_pointers now cptr mptr mlen topic s

  -- The commands of a control message, in the buffer `mptr` of which `mlen` bytes are the message.
  -- RemoveTopic has no check of the length and reads 17 bytes of the buffer.
  unfoldable pub run_command : Store → List ℕ → ℕ → Option (ℤ × Store)
  run_command s mptr mlen =
      let op = get_or mptr 0 0 in
      if mlen == 0
      then some (error_invalid_command, s)
      else if op == 0x00
      then (if ltb (length mptr) 17 then none else some (st.remove_topic s (take 16 (drop 1 mptr))))
      else if op == 0x01
      then (if not (mlen == 1) then some (error_invalid_command, s) else some (st.reset_topics s))
      else if op == 0x02
      then (if not (mlen == 1 + key_len)
          then some (error_invalid_command, s)
          else some (st.set_idkey s (take 32 (drop 1 mptr))))
      else if op == 0x03
      then (if not (mlen == 1 + key_len + topichash_len)
          then some (error_invalid_command, s)
          else some
              (st.set_topic_key s (take 16 (drop (key_len + 1) mptr)) (take 32 (drop 1 mptr))))
      else some (error_invalid_command, s)
