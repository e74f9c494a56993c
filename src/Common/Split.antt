-- ===== src/Common/Split.antt =====
-- Exclusive and inclusive or of numbers that are put together from two parts.
use Prim.Native.Nat.{ℕ, zero, suc, ◌+◌, ◌*◌, ◌/◌, ◌%◌, ◌^◌, ◌<◌, ◌≤◌, bit_xor, bit_or, differ, max}
use mathlib.Core.Path.{◌≡◌, ◌∙◌}
use native.Mathlib.Omega.{arith}
use native.Mathlib.Nat.{mul_assoc, pow-suc}
use libe.Common.Xor.{bit_xor_step, differ-zero, differ_bits, zero-bit_xor}
use libe.Common.Or.{bit_or_step, zero-bit_or}

power : (a k : ℕ) → a * 2 ^ suc k ≡ a * 2 ^ k * 2
power a k = rw (pow-suc 2 k, mul_assoc)

-- The low k bits and the rest are xored apart from each other.
pub bit_xor-split :
    (k a b c d : ℕ)
    → b < 2 ^ k
    → d < 2 ^ k
    → (bit_xor (a * 2 ^ k + b) (c * 2 ^ k + d) ≡ bit_xor a c * 2 ^ k + bit_xor b d)
      × (bit_xor b d < 2 ^ k)
bit_xor-split zero a b c d h g =
    let b0 : b ≡ 0 = omega arith in
    let d0 : d ≡ 0 = omega arith in
    let a1 : a * 1 + 0 ≡ a = omega arith in
    let c1 : c * 1 + 0 ≡ c = omega arith in rw (b0, d0, a1, c1) (omega arith, omega arith)
bit_xor-split (suc k) a b c d h g =
    let p : 2 ^ suc k ≡ 2 ^ k * 2 = pow-suc 2 k in
    let ih = bit_xor-split k a (b / 2) c (d / 2) (omega (arith, p)) (omega (arith, p)) in
    let bits = differ_bits (b % 2) (d % 2) (omega arith) (omega arith) in
    let ha : (a * 2 ^ k * 2 + b) / 2 ≡ a * 2 ^ k + b / 2 = omega arith in
    let hc : (c * 2 ^ k * 2 + d) / 2 ≡ c * 2 ^ k + d / 2 = omega arith in
    let la : (a * 2 ^ k * 2 + b) % 2 ≡ b % 2 = omega arith in
    let lc : (c * 2 ^ k * 2 + d) % 2 ≡ d % 2 = omega arith in
    let whole = bit_xor_step (a * 2 ^ k * 2 + b) (c * 2 ^ k * 2 + d) in
    let low = bit_xor_step b d in
    let parts : bit_xor (a * 2 ^ k * 2 + b) (c * 2 ^ k * 2 + d)
        ≡ bit_xor (a * 2 ^ k + b / 2) (c * 2 ^ k + d / 2) * 2 + differ (b % 2) (d % 2) =
      rw (ha, hc, la, lc) at whole in
    (
      rw (power a k, power c k, power (bit_xor a c) k) (omega (arith, parts, low, ih.0)),
      omega (arith, p, low, ih.1, bits.0),
    )

pub bit_xor-lt : (k a b : ℕ) → a < 2 ^ k → b < 2 ^ k → bit_xor a b < 2 ^ k
bit_xor-lt k a b h g = (bit_xor-split k 0 a 0 b h g).1

bit_xor-zero_fuel : (n a : ℕ) → a ≤ n → bit_xor a 0 ≡ a
bit_xor-zero_fuel n zero h = zero-bit_xor 0
bit_xor-zero_fuel zero (suc a) h = absurd (omega arith)
bit_xor-zero_fuel (suc n) (suc a) h = omega (
  arith,
  bit_xor_step (suc a) 0,
  bit_xor-zero_fuel n (suc a / 2) (omega arith),
  differ-zero (suc a % 2),
)

pub bit_xor-zero : (a : ℕ) → bit_xor a 0 ≡ a
bit_xor-zero a = bit_xor-zero_fuel a a (omega arith)

-- Two parts that do not overlap are put together by either of the two.
pub bit_xor-apart : (k a b : ℕ) → b < 2 ^ k → bit_xor (a * 2 ^ k) b ≡ a * 2 ^ k + b
bit_xor-apart k a b h =
    let split = bit_xor-split k a 0 0 b (omega (arith, h)) h in
    let left : a * 2 ^ k + 0 ≡ a * 2 ^ k = omega arith in
    let right : 0 * 2 ^ k + b ≡ b = omega arith in
    rw (left, right, bit_xor-zero a, zero-bit_xor b) at split.0

pub bit_or-apart : (k a b : ℕ) → b < 2 ^ k → bit_or b (a * 2 ^ k) ≡ b + a * 2 ^ k
bit_or-apart zero a b h = let b0 : b ≡ 0 = omega arith in rw b0 (zero-bit_or (a * 1) ∙ omega arith)
bit_or-apart (suc k) a b h =
    let p : 2 ^ suc k ≡ 2 ^ k * 2 = pow-suc 2 k in
    let ih = bit_or-apart k a (b / 2) (omega (arith, p)) in
    let half : a * 2 ^ k * 2 / 2 ≡ a * 2 ^ k = omega arith in
    let even : a * 2 ^ k * 2 % 2 ≡ 0 = omega arith in
    let bit : max (b % 2) 0 ≡ b % 2 = omega arith in
    let whole = bit_or_step b (a * 2 ^ k * 2) in
    rw (power a k) (omega (arith, rw (half, even, bit, ih) at whole))
