-- ===== src/Crypto/Aes/Expansion.antt =====
-- src/crypto/aes256enc_ref.c: the key schedule, and the encryption of a block under a key.
use libe.Common.{
  List, [], ap, arith, drop, false, if◌then◌else◌, map, refl, suc, true, zero, ℕ, ◌*◌, ◌++◌, ◌+◌,
  ◌<◌, ◌==◌, ◌∙◌, ◌∷◌, ◌≡◌,
}
use libe.Crypto.Aes.{expand, aes256_enc_exp_key, get_block, words, aes256_encrypt_ecb}
use libe.Crypto.Aes.Reference.{Columns, schedule_from, Quad, key_schedule, cipher}
use libe.Crypto.Aes.Words.{word, get_u32-word, IsQuad}
use libe.Crypto.Aes.Rounds.{
  All-drop, columns-IsColumns, IsColumns, block, columns, aes256_encrypt_ecb-cipher, bytes_of,
}
use libe.Crypto.Aes.Schedule.{
  at_eight, at_eight-Chain, at_eight-first, at_four, at_four-Chain, at_four-first, eight,
  schedule_from-at_eight, schedule_from-at_four, before,
}
use libe.Crypto.Siv.Counter.{All}

-- The words that expand puts out in one round, for blocks whose words are known.
expand_step :
    (m i : ℕ) (low high : Columns)
    → i < 10
    → IsColumns low
    → IsColumns high
    → let s : Columns = at_eight (i + 1) low high in
      let t : Columns = at_four high s in
      expand (suc m) i (block low) (block high)
      ≡ word s.c0
        ∷ word s.c1
        ∷ word s.c2
        ∷ word s.c3
        ∷ (if i + 1 == 7
            then []
            else word t.c0
              ∷ word t.c1
              ∷ word t.c2
              ∷ word t.c3
              ∷ expand m (i + 1) (block s) (block t))
unfolding expand
expand_step m i low high few v w =
    let s : Columns = at_eight (i + 1) low high in
    let c = at_eight-Chain i low high few v w in
    let d = at_four-Chain high s w c.sound in
    rw (
      at_eight-first i low high few v w,
      c.one,
      c.two,
      c.three,
      at_four-first high s w c.sound,
      d.one,
      d.two,
      d.three,
    )

schedule_from-zero : (i : ℕ) (w : List Quad) → schedule_from 0 i w ≡ []
unfolding schedule_from
schedule_from-zero i w = refl

expand-schedule_from :
    (m i : ℕ) (low high : Columns)
    → i + m ≡ 6
    → IsColumns low
    → IsColumns high
    → expand (suc m) i (block low) (block high)
      ≡ map word (schedule_from (8 * m + 4) (8 * (i + 1)) (eight low high))
expand-schedule_from zero i low high last v w =
    let stop : (i + 1 == 7) ≡ true = ground arith in
    expand_step 0 i low high (omega arith) v w
    ∙ rw (stop, schedule_from-at_eight 0 (i + 1) low high, schedule_from-zero _ _)
expand-schedule_from (suc m) i low high last v w =
    let s : Columns = at_eight (i + 1) low high in
    let t : Columns = at_four high s in
    let c = at_eight-Chain i low high (omega arith) v w in
    let d = at_four-Chain high s w c.sound in
    let on : (i + 1 == 7) ≡ false = ground arith in
    let n = 8 * m + 4 in
    let count : 8 * suc m + 4 ≡ suc (suc (suc (suc (suc (suc (suc (suc n))))))) = omega arith in
    let next : 8 * (i + 1) + 8 ≡ 8 * (i + 1 + 1) = omega arith in
    let ih = expand-schedule_from m (i + 1) s t (omega arith) c.sound d.sound in
    expand_step (suc m) i low high (omega arith) v w
    ∙ rw (
      on,
      count,
      schedule_from-at_eight (suc (suc (suc (suc n)))) (i + 1) low high,
      schedule_from-at_four n (i + 1) high s,
      next,
      ih,
    )

map-append : (xs ys : List Quad) → map word (xs ++ ys) ≡ map word xs ++ map word ys
map-append [] ys = refl
map-append (x ∷ xs) ys = ap (◌∷◌ (word x)) (map-append xs ys)

-- The two blocks of a key of 32 bytes.
abbrev upper : List ℕ → Columns
upper key = columns (drop 16 key)

aes256_enc_exp_key-key_schedule :
    (key : List ℕ)
    → All (λ b. b < 256) key
    → aes256_enc_exp_key key ≡ map word (key_schedule (eight (columns key) (upper key)))
unfolding aes256_enc_exp_key get_block words key_schedule
aes256_enc_exp_key-key_schedule key v =
    let low = columns-IsColumns key v in
    let high = columns-IsColumns (drop 16 key) (All-drop (λ b. b < 256) 16 key v) in
    rw (
      get_u32-word key low.c0,
      get_u32-word (drop 4 key) low.c1,
      get_u32-word (drop 8 key) low.c2,
      get_u32-word (drop 12 key) low.c3,
      get_u32-word (drop 16 key) high.c0,
      get_u32-word (drop 4 (drop 16 key)) high.c1,
      get_u32-word (drop 8 (drop 16 key)) high.c2,
      get_u32-word (drop 12 (drop 16 key)) high.c3,
      expand-schedule_from 6 0 (columns key) (upper key) refl low high,
    )

All-before :
    (s : Columns) (rest : List Quad) → IsColumns s → All IsQuad rest → All IsQuad (before s rest)
All-before s rest v w = (v.c0, (v.c1, (v.c2, (v.c3, w))))

schedule_from-IsQuad :
    (m i : ℕ) (low high : Columns)
    → i + m ≡ 6
    → IsColumns low
    → IsColumns high
    → All IsQuad (schedule_from (8 * m + 4) (8 * (i + 1)) (eight low high))
schedule_from-IsQuad zero i low high last v w =
    let c = at_eight-Chain i low high (omega arith) v w in
    rw (schedule_from-at_eight 0 (i + 1) low high, schedule_from-zero _ _)
      (All-before (at_eight (i + 1) low high) [] c.sound tt)
schedule_from-IsQuad (suc m) i low high last v w =
    let s : Columns = at_eight (i + 1) low high in
    let t : Columns = at_four high s in
    let c = at_eight-Chain i low high (omega arith) v w in
    let d = at_four-Chain high s w c.sound in
    let n = 8 * m + 4 in
    let count : 8 * suc m + 4 ≡ suc (suc (suc (suc (suc (suc (suc (suc n))))))) = omega arith in
    let next : 8 * (i + 1) + 8 ≡ 8 * (i + 1 + 1) = omega arith in
    let later = schedule_from n (8 * (i + 1 + 1)) (eight s t) in
    let ih = schedule_from-IsQuad m (i + 1) s t (omega arith) c.sound d.sound in
    rw
      (
        count,
        schedule_from-at_eight (suc (suc (suc (suc n)))) (i + 1) low high,
        schedule_from-at_four n (i + 1) high s,
        next,
      )
      (All-before s (before t later) c.sound (All-before t later d.sound ih))

-- The key schedule of a key of 32 bytes, by FIPS 197.
abbrev pub schedule : List ℕ → List Quad
schedule key = key_schedule (eight (columns key) (upper key))

-- A block of bytes under a key of bytes is encrypted to what the cipher of FIPS 197 makes of it, with
-- the key schedule that FIPS 197 makes of the key.
pub aes256-cipher :
    (pt key : List ℕ)
    → All (λ b. b < 256) pt
    → All (λ b. b < 256) key
    → aes256_encrypt_ecb pt (aes256_enc_exp_key key) ≡ bytes_of (cipher (schedule key) (columns pt))
unfolding key_schedule
aes256-cipher pt key v w =
    let low = columns-IsColumns key w in
    let high = columns-IsColumns (drop 16 key) (All-drop (λ b. b < 256) 16 key w) in
    let rest = schedule_from 52 8 (eight (columns key) (upper key)) in
    let made = schedule_from-IsQuad 6 0 (columns key) (upper key) refl low high in
    rw (aes256_enc_exp_key-key_schedule key w) (
      aes256_encrypt_ecb-cipher pt (schedule key) v (
        All-before (columns key) (before (upper key) rest) low
          (All-before (upper key) rest high made)))
