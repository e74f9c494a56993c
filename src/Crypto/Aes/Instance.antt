-- ===== src/Crypto/Aes/Instance.antt =====
-- src/crypto/aes256enc_ref.c as the block cipher of src/crypto/aes_siv.c.
use libe.Common.{List, length, refl, ℕ, ◌≡◌}
use libe.Crypto.Aes.{aes256_enc_exp_key, aes256_encrypt_ecb, put_block, put_u32}
use libe.Crypto.Cipher.{Cipher}

pub length-aes256_encrypt_ecb :
    (pt rk : List ℕ) → length pt ≡ 16 → length (aes256_encrypt_ecb pt rk) ≡ 16
unfolding aes256_encrypt_ecb put_block put_u32
length-aes256_encrypt_ecb pt rk n = refl

abbrev pub aes256 : Cipher
aes256 = record {
  enc_exp_key = aes256_enc_exp_key;
  encrypt_ecb = aes256_encrypt_ecb;
  length-encrypt_ecb = length-aes256_encrypt_ecb;
}
