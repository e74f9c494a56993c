-- ===== src/Crypto/Keccak/Tests.antt =====
-- src/crypto/keccakf1600.c at concrete inputs.
use libe.Common.{List, [], arith, refl, replicate, suc, zero, ℕ, ◌++◌, ◌<◌, ◌∷◌, ◌≡◌}
use libe.Crypto.Siv.Counter.{All}
use libe.Crypto.Keccak.{
  state_extract_bytes, state_xor_bytes, chi, copy_from_state, copy_to_state, extract_words,
  keccak_f1600, keccak_round, load64, load64_from, permuted, prepare_theta, rol, rounds_from,
  store64, store64_from, theta, words_from,
}
use libe.Crypto.Keccak.Reference.{reference_rounds}
use libe.Crypto.Keccak.Rounds.{keccak_f1600-reference_rounds}
use libe.Crypto.Keccak.Bytes.{state_extract_bytes-state_xor_bytes}
use libe.Crypto.Sha3.{absorb, sha3, sha3_final, sha3_init, sha3_update}

-- SHA3-256 of the empty text, from the test vectors of FIPS 202.
sha3_256_empty :
    sha3 permuted [] 32
    ≡ 0xa7 ∷ 0xff ∷ 0xc6 ∷ 0xf8 ∷ 0xbf ∷ 0x1e ∷ 0xd7 ∷ 0x66 ∷ 0x51 ∷ 0xc1 ∷ 0x47 ∷ 0x56 ∷ 0xa0
      ∷ 0x61 ∷ 0xd6 ∷ 0x62 ∷ 0xf5 ∷ 0x80 ∷ 0xff ∷ 0x4d ∷ 0xe4 ∷ 0x3b ∷ 0x49 ∷ 0xfa ∷ 0x82 ∷ 0xd8
      ∷ 0x0a ∷ 0x4b ∷ 0x80 ∷ 0xf8 ∷ 0x43 ∷ 0x4a ∷ []
unfolding sha3 sha3_final sha3_init sha3_update absorb permuted keccak_f1600 copy_from_state
    copy_to_state rounds_from keccak_round prepare_theta theta chi rol words_from load64 load64_from
    extract_words store64 store64_from
sha3_256_empty = refl

seventeen : All (λ b. b < 256) (replicate 17 9)
seventeen = nine 17
  where
    nine : (n : ℕ) → All (λ b. b < 256) (replicate n 9)
    nine zero = tt
    nine (suc n) = (omega arith, nine n)

abbrev a_state : List ℕ
a_state = 1 ∷ 0x8000000000000000 ∷ replicate 23 7

keccak_f1600-reference_rounds_example : keccak_f1600 a_state 24 ≡ reference_rounds 24 0 a_state
keccak_f1600-reference_rounds_example = keccak_f1600-reference_rounds a_state 12 refl (omega arith)

state_extract_bytes-state_xor_bytes_example :
    state_extract_bytes (state_xor_bytes (replicate 25 0) (replicate 17 9) 16) (replicate 20 1) 16
    ≡ replicate 16 9 ++ replicate 4 1
state_extract_bytes-state_xor_bytes_example =
    state_extract_bytes-state_xor_bytes 2 (replicate 17 9) (replicate 20 1) seventeen (omega arith)
      (omega arith)
