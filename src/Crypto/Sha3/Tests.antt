-- ===== src/Crypto/Sha3/Tests.antt =====
-- src/crypto/sha3.c at concrete inputs.
use libe.Common.{arith, refl, replicate, take, List, [], length, ℕ, ◌*◌, ◌++◌, ◌-◌, ◌∷◌, ◌≡◌}
use libe.Crypto.Keccak.{permuted}
use libe.Crypto.Sha3.{sha3}
use libe.Crypto.Sha3.Sponge.{absorb_blocks, join, padding, sha3-absorb_blocks}
use libe.Fixtures.{hello}

abbrev one_block : List (List ℕ)
one_block = replicate 136 1 ∷ []

sha3-absorb_blocks_example :
    sha3 permuted (join one_block ++ hello) 32
    ≡ take 32 (
        absorb_blocks permuted
          (replicate 200 0)
          (one_block ++ (hello ++ padding (200 - 2 * 32 - length hello)) ∷ []))
sha3-absorb_blocks_example =
    sha3-absorb_blocks permuted 32 one_block hello (omega arith) (refl, tt) (omega arith)
