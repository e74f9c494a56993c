-- ===== src/Symkey/Client/Time.antt =====
-- src/e4symclient.c: timestamps.
use libe.Common.{
  ap, arith, bit_and, length, refl, suc, zero, ℕ, ◌+◌, ◌/◌, ◌<◌, ◌^◌, ◌≡◌, ◌≢◌, ◌≤◌, ◌⊎◌,
}
use native.Mathlib.Nat.{pow-suc}
use mathlib.Core.Logic.{◌↔◌}
use libe.Symkey.Client.{write_timestamp, read_timestamp, check_timestamp}
use libe.Protocol.{result_ok, error_timestamp_in_future, error_timestamp_too_old}

pub length-write_timestamp : (n t : ℕ) → length (write_timestamp n t) ≡ n
unfolding write_timestamp
length-write_timestamp zero t = refl
length-write_timestamp (suc n) t = ap suc (length-write_timestamp n (t / 2 ^ 8))

read-write_steps : (n t : ℕ) → t < 2 ^ 64 → t < 256 ^ n → read_timestamp (write_timestamp n t) ≡ t
unfolding write_timestamp read_timestamp
read-write_steps zero t h lt = omega arith
read-write_steps (suc n) t h lt =
    let below : t / 2 ^ 8 < 256 ^ n = omega (arith, lt, pow-suc 256 n) in
    let ih = read-write_steps n (t / 2 ^ 8) (omega arith) below in omega (arith, ih, h)

-- A time that fits 64 bits is read back from the 8 bytes that are written for it.
pub read_timestamp-write_timestamp : (t : ℕ) → t < 2 ^ 64 → read_timestamp (write_timestamp 8 t) ≡ t
read_timestamp-write_timestamp t h = read-write_steps 8 t h h

abbrev pub Within : ℕ → ℕ → ℕ → Type 0
Within slack a b = (a ≤ b + slack) × (b ≤ a + slack)

-- A timestamp is accepted exactly if the clock stands before the year 2000, or the option to
-- ignore timestamps is set, or it lies within 600 seconds of the clock, on either side; it is
-- refused as in the future exactly if it is later than that and neither holds, and else as too old.
pub check_timestamp_lem :
    (proto_opts secs1970 tstamp : ℕ)
    → ((check_timestamp proto_opts secs1970 tstamp ≡ result_ok)
        ↔ ((secs1970 < 946684800) ⊎ ((bit_and proto_opts 1 ≢ 0) ⊎ Within 600 tstamp secs1970)))
      × ((check_timestamp proto_opts secs1970 tstamp ≡ error_timestamp_in_future)
          ↔ ((946684800 ≤ secs1970) × (bit_and proto_opts 1 ≡ 0) × (secs1970 + 600 < tstamp)))
      × ((check_timestamp proto_opts secs1970 tstamp ≡ error_timestamp_too_old)
          ↔ ((946684800 ≤ secs1970) × (bit_and proto_opts 1 ≡ 0) × (tstamp + 600 < secs1970)))
unfolding check_timestamp
check_timestamp_lem proto_opts secs1970 tstamp = (
  (λ e. ground arith, λ h. ground arith),
  (λ e. ground arith, λ h. ground arith),
  (λ e. ground arith, λ h. ground arith),
)
