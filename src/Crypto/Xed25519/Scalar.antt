-- ===== src/Crypto/Xed25519/Scalar.antt =====
-- src/crypto/xed25519.c: the clamping is that of RFC 7748.
use libe.Common.{
  List, [], arith, bit_and, bit_or, get_or, length, length-set, length-take, refl, set, suc, take,
  zero, ℕ, ◌%◌, ◌*◌, ◌+◌, ◌/◌, ◌<◌, ◌^◌, ◌∷◌, ◌≡◌,
}
use native.Mathlib.Nat.{mul_assoc, mul_comm, pow-suc}
use libe.Crypto.Siv.Counter.{IsBytes}
use libe.Common.Tabulate.{values_agree}
use libe.Crypto.Xed25519.{xed25519_convert_ed2c_private}

-- The number that bytes stand for, the lowest byte first.
abbrev pub little_endian : List ℕ → ℕ
little_endian [] = 0
little_endian (b ∷ v) = b + 256 * little_endian v

-- The scalar of X25519 that 32 bytes stand for: the three lowest bits and the two highest are
-- cleared, and then bit 254 is set.
abbrev pub decoded_scalar : List ℕ → ℕ
decoded_scalar v = little_endian v % 2 ^ 254 / 8 * 8 + 2 ^ 254

scaled : (k g : ℕ) → 256 ^ suc k * g ≡ 256 * (256 ^ k * g)
scaled k g = rw (pow-suc 256 k, mul_comm (256 ^ k) 256, mul_assoc 256 (256 ^ k) g)

-- The highest of so many bytes apart.
little_endian-take :
    (k : ℕ) (v : List ℕ)
    → k < length v
    → little_endian (take (suc k) v) ≡ little_endian (take k v) + 256 ^ k * get_or v k 0
little_endian-take k [] h = absurd (omega arith)
little_endian-take zero (x ∷ v) h = omega arith
little_endian-take (suc k) (x ∷ v) h =
    omega (arith, little_endian-take k v (omega arith), scaled k (get_or v k 0))

little_endian-lt : (k : ℕ) (v : List ℕ) → IsBytes v → little_endian (take k v) < 256 ^ k
little_endian-lt zero v h = omega arith
little_endian-lt (suc k) [] h = omega (arith, little_endian-lt k [] h, pow-suc 256 k)
little_endian-lt (suc k) (x ∷ v) h = omega (arith, little_endian-lt k v h.1, pow-suc 256 k, h.0)

take-set : (k : ℕ) (v : List ℕ) (x : ℕ) → take k (set v k x) ≡ take k v
take-set zero v x = refl
take-set (suc k) [] x = refl
take-set (suc k) (y ∷ v) x = rw (take-set k v x)

get_or-set : (k : ℕ) (v : List ℕ) (x : ℕ) → k < length v → get_or (set v k x) k 0 ≡ x
get_or-set k [] x h = absurd (omega arith)
get_or-set zero (y ∷ v) x h = refl
get_or-set (suc k) (y ∷ v) x h = get_or-set k v x (omega arith)

set-set : (k : ℕ) (v : List ℕ) (x y : ℕ) → set (set v k x) k y ≡ set v k y
set-set k [] x y = refl
set-set zero (z ∷ v) x y = refl
set-set (suc k) (z ∷ v) x y = rw (set-set k v x y)

-- The two ends of the scalar, for every byte.
lowest : (b : ℕ) → b < 256 → bit_and b 248 ≡ b / 8 * 8
lowest = values_agree (λ b. bit_and b 248) (λ b. b / 8 * 8) 256 refl

highest : (b : ℕ) → b < 256 → bit_or (bit_and b 127) 64 ≡ b % 64 + 64
highest = values_agree (λ b. bit_or (bit_and b 127) 64) (λ b. b % 64 + 64) 256 refl

get_or-lt : (k : ℕ) (v : List ℕ) → IsBytes v → get_or v k 0 < 256
get_or-lt k [] h = omega arith
get_or-lt zero (b ∷ v) h = h.0
get_or-lt (suc k) (b ∷ v) h = get_or-lt k v h.1

-- The number after the three writes.
clamped_value :
    (b low top : ℕ)
    → low < 256 ^ 30
    → top < 256
    → b < 256
    → b / 8 * 8 + 256 * (low + 256 ^ 30 * (top % 64 + 64))
      ≡ (b + 256 * (low + 256 ^ 30 * top)) % 2 ^ 254 / 8 * 8 + 2 ^ 254
clamped_value b low top h t s = omega arith

clamped_digest :
    (digest : List ℕ)
    → length digest ≡ 64
    → IsBytes digest
    → let low = set digest 0 (bit_and (get_or digest 0 0) 248) in
      let high = set low 31 (bit_and (get_or low 31 0) 127) in
      let clamped = set high 31 (bit_or (get_or high 31 0) 64) in
      (length (take 32 clamped) ≡ 32)
      × (little_endian (take 32 clamped) ≡ decoded_scalar (take 32 digest))
clamped_digest [] n h = absurd (omega arith)
clamped_digest (b ∷ v) n h =
    let top = get_or v 30 0 in
    let x = bit_and top 127 in
    let again = get_or-set 30 v x (omega (arith, n)) in
    let y = bit_or x 64 in
    let v' = set v 30 y in
    let long = length-set v 30 y in
    let value' = little_endian-take 30 v' (omega (arith, n, long)) in
    let value = little_endian-take 30 v (omega (arith, n)) in
    let written = get_or-set 30 v y (omega (arith, n)) in
    let under = take-set 30 v y in
    let top_byte = get_or-lt 30 v h.1 in
    rw (again, set-set 30 v x y)
      (
        omega (arith, length-take 31 v', long, n),
        rw (value', written, under, value, lowest b h.0, highest top top_byte)
            (clamped_value b (little_endian (take 30 v)) top (little_endian-lt 30 v h.1) top_byte
              h.0),
      )

-- The private key that an Ed25519 private key is converted to has 32 bytes, and stands for the scalar
-- that RFC 7748 decodes the first 32 bytes of the digest to. The digest has 64 bytes.
pub xed25519_convert_ed2c_private-decoded_scalar :
    (sha512 : List ℕ → List ℕ) (key : List ℕ)
    → length (sha512 (take 32 key)) ≡ 64
    → IsBytes (sha512 (take 32 key))
    → let scalar = xed25519_convert_ed2c_private sha512 key in
      (length scalar ≡ 32)
      × (little_endian scalar ≡ decoded_scalar (take 32 (sha512 (take 32 key))))
unfolding xed25519_convert_ed2c_private
xed25519_convert_ed2c_private-decoded_scalar sha512 key n h =
    clamped_digest (sha512 (take 32 key)) n h
