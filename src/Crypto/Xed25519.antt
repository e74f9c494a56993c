-- ===== src/Crypto/Xed25519.antt =====
-- src/crypto/xed25519.c: the private key of X25519 that an Ed25519 private key gives. SHA-512 is a
-- parameter: the digest that it writes.
pub mod Scalar
pub mod Tests
use libe.Common.{List, bit_and, bit_or, get_or, set, take, ℕ}

module _ (sha512 : List ℕ → List ℕ) where
  unfoldable pub xed25519_convert_ed2c_private : List ℕ → List ℕ
  xed25519_convert_ed2c_private ed25519_privkey =
      let hashedkey = sha512 (take 32 ed25519_privkey) in
      let low = set hashedkey 0 (bit_and (get_or hashedkey 0 0) 248) in
      let high = set low 31 (bit_and (get_or low 31 0) 127) in
      let clamped = set high 31 (bit_or (get_or high 31 0) 64) in take 32 clamped
