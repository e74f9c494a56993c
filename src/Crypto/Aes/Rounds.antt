-- ===== src/Crypto/Aes/Rounds.antt =====
-- src/crypto/aes256enc_ref.c encrypts as FIPS 197 says.
use libe.Common.{
  List, [], ap, ap₂, arith, drop, drop-add, drop-map, get_or, get_or-drop, map, refl, suc, sym,
  zero, ℕ, ◌*◌, ◌++◌, ◌+◌, ◌<◌, ◌∙◌, ◌∷◌, ◌≡◌,
}
use mathlib.Core.Path.{subst}
use libe.Crypto.Keccak.Bytes.{get_or-byte}
use libe.Crypto.Aes.Reference.{
  cipher, Columns, Quad, add_round_key, cipher_rounds, mix_columns, next_key, shift_rows, sub_bytes,
  zero_quad,
}
use libe.Crypto.Aes.{
  put_block, get_block, aes256_encrypt_ecb, full_rounds, Block, add_words, full_round, last_round,
  round_key,
}
use libe.Crypto.Siv.Counter.{All}
use libe.Crypto.Aes.Words.{
  quad, get_u32-word, put_u32-word, IsQuad, add_quad-IsQuad, word, word-add_quad,
}
use libe.Crypto.Aes.Columns.{full_word_lem, last_word_lem}

-- The words of four columns.
abbrev pub block : Columns → Block
block s = record { s0 = word s.c0; s1 = word s.c1; s2 = word s.c2; s3 = word s.c3 }

pub record IsColumns (s : Columns) : Type 0 where
  pub c0 : IsQuad s.c0
  pub c1 : IsQuad s.c1
  pub c2 : IsQuad s.c2
  pub c3 : IsQuad s.c3

full_round_lem :
    (s k : Columns)
    → IsColumns s
    → IsColumns k
    → let made : Columns = add_round_key (mix_columns (shift_rows (sub_bytes s))) k in
      (full_round (block s) (block k) ≡ block made) × IsColumns made
unfolding full_round
full_round_lem s k v w =
    let a = full_word_lem s.c0 s.c1 s.c2 s.c3 k.c0 v.c0 v.c1 v.c2 v.c3 w.c0 in
    let b = full_word_lem s.c1 s.c2 s.c3 s.c0 k.c1 v.c1 v.c2 v.c3 v.c0 w.c1 in
    let c = full_word_lem s.c2 s.c3 s.c0 s.c1 k.c2 v.c2 v.c3 v.c0 v.c1 w.c2 in
    let d = full_word_lem s.c3 s.c0 s.c1 s.c2 k.c3 v.c3 v.c0 v.c1 v.c2 w.c3 in
    (rw (a.0, b.0, c.0, d.0), record { c0 = a.1; c1 = b.1; c2 = c.1; c3 = d.1 })

last_round_lem :
    (s k : Columns)
    → IsColumns s
    → IsColumns k
    → let made : Columns = add_round_key (shift_rows (sub_bytes s)) k in
      (last_round (block s) (block k) ≡ block made) × IsColumns made
unfolding last_round
last_round_lem s k v w =
    let a = last_word_lem s.c0 s.c1 s.c2 s.c3 k.c0 v.c0 v.c1 v.c2 v.c3 w.c0 in
    let b = last_word_lem s.c1 s.c2 s.c3 s.c0 k.c1 v.c1 v.c2 v.c3 v.c0 w.c1 in
    let c = last_word_lem s.c2 s.c3 s.c0 s.c1 k.c2 v.c2 v.c3 v.c0 v.c1 w.c2 in
    let d = last_word_lem s.c3 s.c0 s.c1 s.c2 k.c3 v.c3 v.c0 v.c1 v.c2 w.c3 in
    (rw (a.0, b.0, c.0, d.0), record { c0 = a.1; c1 = b.1; c2 = c.1; c3 = d.1 })

add_words_lem :
    (s k : Columns)
    → IsColumns s
    → IsColumns k
    → (add_words (block s) (block k) ≡ block (add_round_key s k)) × IsColumns (add_round_key s k)
unfolding add_words
add_words_lem s k v w = (
  rw (
    word-add_quad s.c0 k.c0 v.c0 w.c0,
    word-add_quad s.c1 k.c1 v.c1 w.c1,
    word-add_quad s.c2 k.c2 v.c2 w.c2,
    word-add_quad s.c3 k.c3 v.c3 w.c3,
  ),
  record {
    c0 = add_quad-IsQuad s.c0 k.c0 v.c0 w.c0;
    c1 = add_quad-IsQuad s.c1 k.c1 v.c1 w.c1;
    c2 = add_quad-IsQuad s.c2 k.c2 v.c2 w.c2;
    c3 = add_quad-IsQuad s.c3 k.c3 v.c3 w.c3;
  },
)

-- The key schedule of words that are those of columns.
get_or-map-word :
    (keys : List Quad) (i : ℕ) → get_or (map word keys) i 0 ≡ word (get_or keys i zero_quad)
get_or-map-word [] i = refl
get_or-map-word (k ∷ keys) zero = refl
get_or-map-word (k ∷ keys) (suc i) = get_or-map-word keys i

round_key-map-word :
    (keys : List Quad) (i : ℕ) → round_key (map word keys) i ≡ block (next_key (drop i keys))
unfolding round_key
round_key-map-word keys i =
    let entry : (j : ℕ)
        → get_or (map word keys) (i + j) 0 ≡ word (get_or (drop i keys) j zero_quad) =
      λ j. get_or-map-word keys (i + j) ∙ ap word (get_or-drop i j keys zero_quad) in
    let here : i + 0 ≡ i = omega arith in
    let first : get_or (map word keys) i 0 ≡ word (get_or (drop i keys) 0 zero_quad) =
      ap (λ (k : ℕ). get_or (map word keys) k 0) (sym here) ∙ entry 0 in
    rw (first, entry 1, entry 2, entry 3)

get_or-IsQuad : (keys : List Quad) (i : ℕ) → All IsQuad keys → IsQuad (get_or keys i zero_quad)
get_or-IsQuad [] i v = record { a = omega arith; b = omega arith; c = omega arith; d = omega arith }
get_or-IsQuad (k ∷ keys) zero v = v.0
get_or-IsQuad (k ∷ keys) (suc i) v = get_or-IsQuad keys i v.1

pub All-drop {ℓ κ} :
    {A : Type ℓ} (P : A → Type κ) (n : ℕ) (xs : List A) → All P xs → All P (drop n xs)
All-drop P zero xs v = v
All-drop P (suc n) [] v = tt
All-drop P (suc n) (x ∷ xs) v = All-drop P n xs v.1

next_key-IsColumns :
    (n : ℕ) (keys : List Quad) → All IsQuad keys → IsColumns (next_key (drop n keys))
next_key-IsColumns n keys v =
    let left = All-drop IsQuad n keys v in
    record {
      c0 = get_or-IsQuad (drop n keys) 0 left;
      c1 = get_or-IsQuad (drop n keys) 1 left;
      c2 = get_or-IsQuad (drop n keys) 2 left;
      c3 = get_or-IsQuad (drop n keys) 3 left;
    }

full_rounds_lem :
    (r : ℕ) (keys : List Quad) (s : Columns)
    → All IsQuad keys
    → IsColumns s
    → let made : Columns = cipher_rounds (2 * r + 1) (drop 4 keys) s in
      (full_rounds (suc r) (map word keys) (block s)
        ≡ (block made, map word (drop (8 * suc r) keys)))
      × IsColumns made
unfolding full_rounds cipher_rounds
full_rounds_lem zero keys s v w =
    let done = full_round_lem s (next_key (drop 4 keys)) w (next_key-IsColumns 4 keys v) in
    (rw (round_key-map-word keys 4, done.0, drop-map word 8 keys), done.1)
full_rounds_lem (suc r) keys s v w =
    let k1 = next_key (drop 4 keys) in
    let k2 = next_key (drop 8 keys) in
    let once = full_round_lem s k1 w (next_key-IsColumns 4 keys v) in
    let s1 : Columns = add_round_key (mix_columns (shift_rows (sub_bytes s))) k1 in
    let twice = full_round_lem s1 k2 once.1 (next_key-IsColumns 8 keys v) in
    let s2 : Columns = add_round_key (mix_columns (shift_rows (sub_bytes s1))) k2 in
    let ih = full_rounds_lem r (drop 8 keys) s2 (All-drop IsQuad 8 keys v) twice.1 in
    let more : 2 * suc r + 1 ≡ suc (suc (2 * r + 1)) = omega arith in
    let left : 8 * suc (suc r) ≡ 8 + 8 * suc r = omega arith in
    let go : List Quad → Columns = λ later.
      cipher_rounds (2 * r + 1) (drop 4 later)
        (add_round_key (mix_columns (shift_rows (sub_bytes s1))) (next_key later)) in
    let spec : cipher_rounds (2 * suc r + 1) (drop 4 keys) s ≡ go (drop 8 keys) =
      ap (λ (n : ℕ). cipher_rounds n (drop 4 keys) s) more ∙ ap go (sym (drop-add 4 4 keys)) in
    let code : full_rounds (suc (suc r)) (map word keys) (block s)
        ≡ full_rounds (suc r) (map word (drop 8 keys)) (block s2) =
      rw (
        round_key-map-word keys 4,
        once.0,
        round_key-map-word keys 8,
        twice.0,
        drop-map word 8 keys,
      ) in
    let rest : drop (8 * suc (suc r)) keys ≡ drop (8 * suc r) (drop 8 keys) =
      ap (λ (n : ℕ). drop n keys) left ∙ drop-add 8 (8 * suc r) keys in
    (
      code
          ∙ (ih.0
              ∙ ap₂ (λ (made : Columns) (later : List Quad). (block made, map word later))
                  (sym spec) (sym rest)),
      subst IsColumns (sym spec) ih.1,
    )

-- The columns of a block of 16 bytes, and their bytes.
abbrev pub columns : List ℕ → Columns
columns pt = record {
  c0 = quad pt;
  c1 = quad (drop 4 pt);
  c2 = quad (drop 8 pt);
  c3 = quad (drop 12 pt);
}

abbrev pub column_bytes : Quad → List ℕ
column_bytes q = q.a ∷ q.b ∷ q.c ∷ q.d ∷ []

abbrev pub bytes_of : Columns → List ℕ
bytes_of s = column_bytes s.c0 ++ (column_bytes s.c1 ++ (column_bytes s.c2 ++ column_bytes s.c3))

quad-IsQuad : (pt : List ℕ) → All (λ b. b < 256) pt → IsQuad (quad pt)
quad-IsQuad pt v = record {
  a = get_or-byte pt 0 v;
  b = get_or-byte pt 1 v;
  c = get_or-byte pt 2 v;
  d = get_or-byte pt 3 v;
}

pub columns-IsColumns : (pt : List ℕ) → All (λ b. b < 256) pt → IsColumns (columns pt)
columns-IsColumns pt v = record {
  c0 = quad-IsQuad pt v;
  c1 = quad-IsQuad (drop 4 pt) (All-drop (λ b. b < 256) 4 pt v);
  c2 = quad-IsQuad (drop 8 pt) (All-drop (λ b. b < 256) 8 pt v);
  c3 = quad-IsQuad (drop 12 pt) (All-drop (λ b. b < 256) 12 pt v);
}

-- With a key schedule whose words are the words of columns of bytes, the block of bytes is encrypted to
-- the bytes of what the cipher of FIPS 197 makes of its columns.
pub aes256_encrypt_ecb-cipher :
    (pt : List ℕ) (keys : List Quad)
    → All (λ b. b < 256) pt
    → All IsQuad keys
    → aes256_encrypt_ecb pt (map word keys) ≡ bytes_of (cipher keys (columns pt))
unfolding aes256_encrypt_ecb get_block put_block cipher
aes256_encrypt_ecb-cipher pt keys v w =
    let start = columns-IsColumns pt v in
    let added = add_words_lem (columns pt) (next_key keys) start (next_key-IsColumns 0 keys w) in
    let rounds = full_rounds_lem 6 keys (add_round_key (columns pt) (next_key keys)) w added.1 in
    let last =
      last_round_lem (cipher_rounds 13 (drop 4 keys) (add_round_key (columns pt) (next_key keys)))
        (next_key (drop 56 keys)) rounds.1 (next_key-IsColumns 56 keys w) in
    rw (
      get_u32-word pt start.c0,
      get_u32-word (drop 4 pt) start.c1,
      get_u32-word (drop 8 pt) start.c2,
      get_u32-word (drop 12 pt) start.c3,
      round_key-map-word keys 0,
      added.0,
      rounds.0,
      round_key-map-word (drop 56 keys) 0,
      last.0,
      put_u32-word _ last.1.c0,
      put_u32-word _ last.1.c1,
      put_u32-word _ last.1.c2,
      put_u32-word _ last.1.c3,
    )
