-- ===== src/Crypto/Aes.antt =====
-- src/crypto/aes256enc_ref.c: the encryption of a block by AES-256 with tables. A uint32_t is a
-- number below 2^32, and `& 0xff` is `% 2^8`. The round keys are the list of the words rk[0], rk[1], ….
pub mod Tables
pub mod Substitution
pub mod Reference
pub mod Words
pub mod Columns
pub mod Rounds
pub mod Schedule
pub mod Expansion
pub mod Instance
mod Tests
use libe.Common.{
  List, [], drop, get_or, if◌then◌else◌, suc, zero, ℕ, ◌%◌, ◌*◌, ◌++◌, ◌+◌, ◌/◌, ◌==◌, ◌^◌, ◌∷◌,
}
use libe.Crypto.Keccak.{◌&◌, ◌⊕◌}
use libe.Crypto.Aes.Tables.{te0, te1, te2, te3}
use libe.Crypto.Aes.Substitution.{rcon, te4}

-- GETuint32_t
unfoldable pub get_u32 : List ℕ → ℕ
get_u32 pt = get_or pt 0 0 * 2 ^ 24 ⊕ get_or pt 1 0 * 2 ^ 16 ⊕ get_or pt 2 0 * 2 ^ 8 ⊕ get_or pt 3 0

-- PUTuint32_t
unfoldable pub put_u32 : ℕ → List ℕ
put_u32 st = st / 2 ^ 24 % 2 ^ 8 ∷ st / 2 ^ 16 % 2 ^ 8 ∷ st / 2 ^ 8 % 2 ^ 8 ∷ st % 2 ^ 8 ∷ []

-- Four words: s0, …, s3 or t0, …, t3.
pub record Block : Type 0 where
  pub s0 : ℕ
  pub s1 : ℕ
  pub s2 : ℕ
  pub s3 : ℕ

-- (Te4[w] & 0xff000000) ^ (Te4[x] & 0x00ff0000) ^ (Te4[y] & 0x0000ff00) ^ (Te4[z] & 0x000000ff)
unfoldable pub substituted : ℕ → ℕ → ℕ → ℕ → ℕ
substituted w x y z =
    (get_or te4 w 0 & 0xff000000)
    ⊕ (get_or te4 x 0 & 0x00ff0000)
    ⊕ (get_or te4 y 0 & 0x0000ff00)
    ⊕ (get_or te4 z 0 & 0x000000ff)

-- The loop of aes256_enc_exp_key on the last eight words, with so many rounds left, of which the
-- last stops half way: the words that it adds.
unfoldable pub expand : ℕ → ℕ → Block → Block → List ℕ
expand zero i low high = []
expand (suc n) i low high =
    let temp = high.s3 in
    let rk8 =
      low.s0
      ⊕ substituted (temp / 2 ^ 16 % 2 ^ 8) (temp / 2 ^ 8 % 2 ^ 8) (temp % 2 ^ 8) (temp / 2 ^ 24)
      ⊕ get_or rcon i 0 in
    let rk9 = low.s1 ⊕ rk8 in
    let rk10 = low.s2 ⊕ rk9 in
    let rk11 = low.s3 ⊕ rk10 in
    let rk12 =
      high.s0
      ⊕ substituted (rk11 / 2 ^ 24) (rk11 / 2 ^ 16 % 2 ^ 8) (rk11 / 2 ^ 8 % 2 ^ 8) (rk11 % 2 ^ 8) in
    let rk13 = high.s1 ⊕ rk12 in
    let rk14 = high.s2 ⊕ rk13 in
    let rk15 = high.s3 ⊕ rk14 in
    let rest =
      expand n (i + 1) (record { s0 = rk8; s1 = rk9; s2 = rk10; s3 = rk11 })
        (record { s0 = rk12; s1 = rk13; s2 = rk14; s3 = rk15 }) in
    rk8 ∷ rk9 ∷ rk10 ∷ rk11 ∷ (if i + 1 == 7 then [] else rk12 ∷ rk13 ∷ rk14 ∷ rk15 ∷ rest)

-- Four words of the key or of the block from a byte on.
unfoldable pub get_block : List ℕ → Block
get_block pt = record {
  s0 = get_u32 pt;
  s1 = get_u32 (drop 4 pt);
  s2 = get_u32 (drop 8 pt);
  s3 = get_u32 (drop 12 pt);
}

unfoldable pub words : Block → List ℕ
words s = s.s0 ∷ s.s1 ∷ s.s2 ∷ s.s3 ∷ []

unfoldable pub aes256_enc_exp_key : List ℕ → List ℕ
aes256_enc_exp_key cipher_key =
    let low = get_block cipher_key in
    let high = get_block (drop 16 cipher_key) in words low ++ (words high ++ expand 7 0 low high)

-- Four words of the round keys from one on.
unfoldable pub round_key : List ℕ → ℕ → Block
round_key rk i = record {
  s0 = get_or rk i 0;
  s1 = get_or rk (i + 1) 0;
  s2 = get_or rk (i + 2) 0;
  s3 = get_or rk (i + 3) 0;
}

-- s ^ rk
unfoldable pub add_words : Block → Block → Block
add_words s k = record { s0 = s.s0 ⊕ k.s0; s1 = s.s1 ⊕ k.s1; s2 = s.s2 ⊕ k.s2; s3 = s.s3 ⊕ k.s3 }

-- Te0[(w >> 24)] ^ Te1[(x >> 16) & 0xff] ^ Te2[(y >> 8) & 0xff] ^ Te3[(z)&0xff] ^ k
unfoldable pub full_word : ℕ → ℕ → ℕ → ℕ → ℕ → ℕ
full_word w x y z k =
    get_or te0 (w / 2 ^ 24) 0
    ⊕ get_or te1 (x / 2 ^ 16 % 2 ^ 8) 0
    ⊕ get_or te2 (y / 2 ^ 8 % 2 ^ 8) 0
    ⊕ get_or te3 (z % 2 ^ 8) 0
    ⊕ k

-- The four lines of a full round.
unfoldable pub full_round : Block → Block → Block
full_round s k = record {
  s0 = full_word s.s0 s.s1 s.s2 s.s3 k.s0;
  s1 = full_word s.s1 s.s2 s.s3 s.s0 k.s1;
  s2 = full_word s.s2 s.s3 s.s0 s.s1 k.s2;
  s3 = full_word s.s3 s.s0 s.s1 s.s2 k.s3;
}

-- The loop with r turns left: t0, …, t3 and the round keys that are left.
unfoldable pub full_rounds : ℕ → List ℕ → Block → Block × List ℕ
full_rounds zero rk s = (s, rk)
full_rounds (suc zero) rk s = (full_round s (round_key rk 4), drop 8 rk)
full_rounds (suc (suc r)) rk s =
    let t = full_round s (round_key rk 4) in
    full_rounds (suc r) (drop 8 rk) (full_round t (round_key rk 8))

unfoldable pub last_word : ℕ → ℕ → ℕ → ℕ → ℕ → ℕ
last_word w x y z k =
    substituted (w / 2 ^ 24) (x / 2 ^ 16 % 2 ^ 8) (y / 2 ^ 8 % 2 ^ 8) (z % 2 ^ 8) ⊕ k

unfoldable pub last_round : Block → Block → Block
last_round t k = record {
  s0 = last_word t.s0 t.s1 t.s2 t.s3 k.s0;
  s1 = last_word t.s1 t.s2 t.s3 t.s0 k.s1;
  s2 = last_word t.s2 t.s3 t.s0 t.s1 k.s2;
  s3 = last_word t.s3 t.s0 t.s1 t.s2 k.s3;
}

unfoldable pub put_block : Block → List ℕ
put_block s = put_u32 s.s0 ++ (put_u32 s.s1 ++ (put_u32 s.s2 ++ put_u32 s.s3))

unfoldable pub aes256_encrypt_ecb : List ℕ → List ℕ → List ℕ
aes256_encrypt_ecb pt rk =
    let (t, rk') = full_rounds 7 rk (add_words (get_block pt) (round_key rk 0)) in
    put_block (last_round t (round_key rk' 0))
