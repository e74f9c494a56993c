-- ===== src/Crypto/Sha3.antt =====
-- src/crypto/sha3.c: the sponge, over the permutation that src/crypto/keccakf1600.c computes on
-- the 200 bytes of the state. `common_sha3_ctx` is set afresh by each call of sha3.
pub mod Streaming
pub mod Sponge
mod Tests
use libe.Common.{
  List, [], bit_xor, get_or, if◌then◌else◌, leb, replicate, set, suc, take, zero, ℕ, ◌*◌, ◌+◌, ◌-◌,
  ◌∷◌,
}

pub record Sha3Ctx : Type 0 where
  pub b : List ℕ
  pub pt : ℕ
  pub rsiz : ℕ
  pub mdlen : ℕ

unfoldable pub sha3_init : ℕ → Sha3Ctx
sha3_init mdlen = record { b = replicate 200 0; pt = 0; rsiz = 200 - 2 * mdlen; mdlen = mdlen }

abbrev pub xor_at : List ℕ → ℕ → ℕ → List ℕ
xor_at b i x = set b i (bit_xor (get_or b i 0) x)

module _ (keccak_f1600 : List ℕ → List ℕ) where
  -- One round of the loop of sha3_update.
  unfoldable pub absorb : Sha3Ctx → ℕ → Sha3Ctx
  absorb c x =
      let b = xor_at c.b c.pt x in
      if leb c.rsiz (c.pt + 1)
      then record c { b = keccak_f1600 b; pt = 0 }
      else record c { b = b; pt = c.pt + 1 }

  unfoldable pub sha3_update : Sha3Ctx → List ℕ → Sha3Ctx
  sha3_update c [] = c
  sha3_update c (x ∷ text) = sha3_update (absorb c x) text

  unfoldable pub sha3_final : Sha3Ctx → List ℕ
  sha3_final c = take c.mdlen (keccak_f1600 (xor_at (xor_at c.b c.pt 0x06) (c.rsiz - 1) 0x80))

  unfoldable pub sha3 : List ℕ → ℕ → List ℕ
  sha3 text mdlen = sha3_final (sha3_update (sha3_init mdlen) text)

  -- SHA3-256, of which the first `outputlen` bytes are kept.
  unfoldable pub sha3_256_trunc : ℕ → List ℕ → List ℕ
  sha3_256_trunc outputlen text = take outputlen (sha3 text 32)

  unfoldable shake_xof : Sha3Ctx → Sha3Ctx
  shake_xof c = record c {
    b = keccak_f1600 (xor_at (xor_at c.b c.pt 0x1f) (c.rsiz - 1) 0x80);
    pt = 0;
  }

  pub next_block : Sha3Ctx → Sha3Ctx
  next_block c = if leb c.rsiz c.pt then record c { b = keccak_f1600 c.b; pt = 0 } else c

  -- The bytes that come out, and the context that is left.
  pub shake_out : Sha3Ctx → ℕ → List ℕ × Sha3Ctx
  shake_out c zero = ([], c)
  shake_out c (suc len) =
      let c' = next_block c in
      let (out, c'') = shake_out (record c' { pt = c'.pt + 1 }) len in
      (get_or c'.b c'.pt 0 ∷ out, c'')
