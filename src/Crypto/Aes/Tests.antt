-- ===== src/Crypto/Aes/Tests.antt =====
-- src/crypto/aes256enc_ref.c at concrete inputs.
use libe.Common.{List, [], arith, refl, replicate, suc, zero, ℕ, ◌<◌, ◌∷◌, ◌≡◌}
use libe.Crypto.Aes.Expansion.{aes256-cipher, schedule}
use libe.Crypto.Siv.Counter.{All}
use libe.Crypto.Aes.Instance.{aes256}
use libe.Crypto.Siv.{
  aes256_encrypt_siv, chain, cmac_dbl, ctr_loop, incr, process, process_last, refill, shift_left,
  siv_cmac, siv_ctr, siv_tag, xor_prefix,
}
use libe.Crypto.Aes.Reference.{cipher}
use libe.Crypto.Aes.Rounds.{bytes_of, columns}
use libe.Crypto.Aes.{
  add_words, aes256_enc_exp_key, aes256_encrypt_ecb, expand, full_round, full_rounds, full_word,
  get_block, get_u32, last_round, last_word, put_block, put_u32, round_key, substituted, words,
}

-- The example of appendix C.3 of FIPS 197.
abbrev key : List ℕ
key =
    0x00 ∷ 0x01 ∷ 0x02 ∷ 0x03 ∷ 0x04 ∷ 0x05 ∷ 0x06 ∷ 0x07 ∷ 0x08 ∷ 0x09 ∷ 0x0a ∷ 0x0b ∷ 0x0c ∷ 0x0d
    ∷ 0x0e ∷ 0x0f ∷ 0x10 ∷ 0x11 ∷ 0x12 ∷ 0x13 ∷ 0x14 ∷ 0x15 ∷ 0x16 ∷ 0x17 ∷ 0x18 ∷ 0x19 ∷ 0x1a
    ∷ 0x1b ∷ 0x1c ∷ 0x1d ∷ 0x1e ∷ 0x1f ∷ []

abbrev plain : List ℕ
plain =
    0x00 ∷ 0x11 ∷ 0x22 ∷ 0x33 ∷ 0x44 ∷ 0x55 ∷ 0x66 ∷ 0x77 ∷ 0x88 ∷ 0x99 ∷ 0xaa ∷ 0xbb ∷ 0xcc ∷ 0xdd
    ∷ 0xee ∷ 0xff ∷ []

fips_197 :
    aes256_encrypt_ecb plain (aes256_enc_exp_key key)
    ≡ 0x8e ∷ 0xa2 ∷ 0xb7 ∷ 0xca ∷ 0x51 ∷ 0x67 ∷ 0x45 ∷ 0xbf ∷ 0xea ∷ 0xfc ∷ 0x49 ∷ 0x90 ∷ 0x4b
      ∷ 0x49 ∷ 0x60 ∷ 0x89 ∷ []
unfolding aes256_encrypt_ecb aes256_enc_exp_key expand get_block get_u32 words substituted round_key
    add_words full_rounds full_round full_word last_round last_word put_block put_u32
fips_197 = refl

All-replicate {ℓ κ} : {A : Type ℓ} (P : A → Type κ) (n : ℕ) (x : A) → P x → All P (replicate n x)
All-replicate P zero x p = tt
All-replicate P (suc n) x p = (p, All-replicate P n x p)

aes256-cipher_example :
    aes256_encrypt_ecb (replicate 16 9) (aes256_enc_exp_key (replicate 32 7))
    ≡ bytes_of (cipher (schedule (replicate 32 7)) (columns (replicate 16 9)))
aes256-cipher_example =
    aes256-cipher (replicate 16 9) (replicate 32 7)
      (All-replicate (λ b. b < 256) 16 9 (omega arith))
      (All-replicate (λ b. b < 256) 32 7 (omega arith))

-- The example of src/crypto/test_aes_siv.c.
abbrev test_key : List ℕ
test_key =
    0x00 ∷ 0x01 ∷ 0x02 ∷ 0x03 ∷ 0x04 ∷ 0x05 ∷ 0x06 ∷ 0x07 ∷ 0x08 ∷ 0x09 ∷ 0x0a ∷ 0x0b ∷ 0x0c ∷ 0x0d
    ∷ 0x0e ∷ 0x0f ∷ 0x0f ∷ 0x0e ∷ 0x0d ∷ 0x0c ∷ 0x0b ∷ 0x0a ∷ 0x09 ∷ 0x08 ∷ 0x07 ∷ 0x06 ∷ 0x05
    ∷ 0x04 ∷ 0x03 ∷ 0x02 ∷ 0x01 ∷ 0x00 ∷ []

abbrev test_ad : List ℕ
test_ad =
    0x10 ∷ 0x11 ∷ 0x12 ∷ 0x13 ∷ 0x14 ∷ 0x15 ∷ 0x16 ∷ 0x17 ∷ 0x18 ∷ 0x19 ∷ 0x1a ∷ 0x1b ∷ 0x1c ∷ 0x1d
    ∷ 0x1e ∷ 0x1f ∷ 0x20 ∷ 0x21 ∷ 0x22 ∷ 0x23 ∷ 0x24 ∷ 0x25 ∷ 0x26 ∷ 0x27 ∷ []

abbrev test_pt : List ℕ
test_pt =
    0x11 ∷ 0x22 ∷ 0x33 ∷ 0x44 ∷ 0x55 ∷ 0x66 ∷ 0x77 ∷ 0x88 ∷ 0x99 ∷ 0xaa ∷ 0xbb ∷ 0xcc ∷ 0xdd ∷ 0xee
    ∷ []

aes_siv_vector :
    (aes256_encrypt_siv aes256 test_ad test_pt test_key).ct
    ≡ 0xc4 ∷ 0xf1 ∷ 0xf8 ∷ 0x45 ∷ 0x64 ∷ 0xd0 ∷ 0xcd ∷ 0x14 ∷ 0x88 ∷ 0xd3 ∷ 0xc7 ∷ 0x0a ∷ 0xb5
      ∷ 0x82 ∷ 0xa4 ∷ 0x27 ∷ 0xbb ∷ 0xc9 ∷ 0x35 ∷ 0xb2 ∷ 0xd2 ∷ 0x8d ∷ 0x10 ∷ 0xd1 ∷ 0x9b ∷ 0x08
      ∷ 0x96 ∷ 0x38 ∷ 0x20 ∷ 0xba ∷ []
unfolding aes256_encrypt_siv siv_tag siv_cmac cmac_dbl shift_left chain process process_last
    xor_prefix siv_ctr ctr_loop refill incr aes256_encrypt_ecb aes256_enc_exp_key expand get_block
    get_u32 words substituted round_key add_words full_rounds full_round full_word last_round
    last_word put_block put_u32
aes_siv_vector = refl
