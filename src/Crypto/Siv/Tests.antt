-- ===== src/Crypto/Siv/Tests.antt =====
-- src/crypto/aes_siv.c at concrete inputs.
use libe.Common.{
  List, [], arith, bit_xor, get_or, if◌then◌else◌, leb, length, refl, replicate, set, ℕ, ◌%◌, ◌*◌,
  ◌/◌, ◌^◌, ◌∷◌, ◌≡◌,
}
use libe.Common.Memory.{memcmp}
use libe.Common.Int.{pos}
use libe.Crypto.Siv.{
  aes256_encrypt_siv, aes256_decrypt_siv, chain, cmac_dbl, ctr_loop, incr, masked, process,
  process_last, refill, shift_left, siv_cmac, siv_ctr, siv_tag, xor_prefix,
}
use libe.Crypto.Siv.Roundtrip.{
  aes256_decrypt_siv-aes256_encrypt_siv, aes256_encrypt_siv-aes256_decrypt_siv,
}
use libe.Fixtures.{xor_cipher, key_one, hello, long_text, stamp}
use libe.Crypto.Siv.Counter.{IsBytes, big_endian}
use libe.Crypto.Siv.Doubling.{cmac_dbl-big_endian}
use libe.Crypto.Siv.Stream.{siv_ctr-get_or, advance}

aes256_decrypt_siv-aes256_encrypt_siv_example :
    aes256_decrypt_siv xor_cipher stamp
      (aes256_encrypt_siv xor_cipher stamp long_text key_one).ct
      key_one
    ≡ record { status = pos 0; pt = long_text; ptlen = 21 }
aes256_decrypt_siv-aes256_encrypt_siv_example =
    aes256_decrypt_siv-aes256_encrypt_siv xor_cipher stamp long_text key_one (omega arith)

abbrev sealed_hello : List ℕ
sealed_hello = (aes256_encrypt_siv xor_cipher stamp hello key_one).ct

aes256_encrypt_siv-aes256_decrypt_siv_example :
    (aes256_encrypt_siv xor_cipher stamp
      (aes256_decrypt_siv xor_cipher stamp sealed_hello key_one).pt
      key_one).ct
    ≡ sealed_hello
unfolding aes256_encrypt_siv aes256_decrypt_siv siv_tag siv_cmac cmac_dbl shift_left chain process
    process_last xor_prefix siv_ctr ctr_loop refill incr memcmp
aes256_encrypt_siv-aes256_decrypt_siv_example =
    aes256_encrypt_siv-aes256_decrypt_siv xor_cipher stamp sealed_hello key_one (omega arith)
      (omega arith) refl

big_endian-three :
    (big_endian (0 ∷ 1 ∷ 255 ∷ []) ≡ 511) × ((incr (0 ∷ 1 ∷ 255 ∷ [])).0 ≡ 0 ∷ 2 ∷ 0 ∷ [])
unfolding incr
big_endian-three = (refl, refl)

siv_ctr-get_or_example :
    get_or (siv_ctr xor_cipher key_one long_text key_one) 18 0
    ≡ bit_xor
        (get_or long_text 18 0)
        (get_or (xor_cipher.encrypt_ecb (advance (18 / 16) (masked key_one)) key_one) (18 % 16) 0)
siv_ctr-get_or_example = siv_ctr-get_or xor_cipher key_one long_text key_one 18 (omega arith)

abbrev high_block : List ℕ
high_block = 200 ∷ replicate 15 1

cmac_dbl-big_endian_example :
    (w : List ℕ) × IsBytes w
    × (length w ≡ 16)
    × (big_endian w ≡ 2 * big_endian high_block % 2 ^ 128)
    × (cmac_dbl high_block
        ≡ set w 15
            (bit_xor (get_or w 15 0) (if leb (2 ^ 127) (big_endian high_block) then 0x87 else 0)))
cmac_dbl-big_endian_example = cmac_dbl-big_endian high_block (omega arith) refl
