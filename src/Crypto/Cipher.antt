-- ===== src/Crypto/Cipher.antt =====
-- What src/crypto/aes_siv.c asks of the block cipher (include/e4/crypto/aes256enc.h).
use libe.Common.{ℕ, ◌≡◌, List, length}

pub record Cipher : Type 0 where
  -- aes256_enc_exp_key: from a 32-byte key to the round keys
  pub enc_exp_key : List ℕ → List ℕ
  -- aes256_encrypt_ecb: the block in place, with the round keys
  pub encrypt_ecb : List ℕ → List ℕ → List ℕ
  pub length-encrypt_ecb : (blk eky : List ℕ) → length blk ≡ 16 → length (encrypt_ecb blk eky) ≡ 16
