-- ===== src/Pubkey/Curves.antt =====
-- What the public-key variant asks of src/crypto/ed25519, src/crypto/curve25519 and
-- src/crypto/xed25519.c, with the interfaces of include/e4/crypto.
use libe.Common.{List, length, ℕ, ◌≡◌}

pub record Curves : Type 0 where
  -- the signature of a message under a public and a private key
  pub ed25519_sign : List ℕ → List ℕ → List ℕ → List ℕ
  -- 1 if a signature of a message verifies under a public key
  pub ed25519_verify : List ℕ → List ℕ → List ℕ → ℕ
  -- the point that a private key and a public key share
  pub curve25519 : List ℕ → List ℕ → List ℕ
  -- the X25519 private key of an Ed25519 private key
  pub xed25519_convert_ed2c_private : List ℕ → List ℕ
  pub length-ed25519_sign :
      (message pubkey privkey : List ℕ) → length (ed25519_sign message pubkey privkey) ≡ 64
