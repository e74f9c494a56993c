-- ===== src/Crypto/Aes/Words.antt =====
-- src/crypto/aes256enc_ref.c: words, the bytes in them, and what the tables hold.
use libe.Common.{List, [], arith, get_or, ℕ, ◌%◌, ◌*◌, ◌+◌, ◌/◌, ◌<◌, ◌^◌, ◌∷◌, ◌≡◌}
use libe.Common.Split.{bit_xor-split, bit_xor-lt, bit_xor-apart}
use libe.Crypto.Keccak.{◌⊕◌}
use libe.Crypto.Aes.Reference.{Quad, add_quad}
use libe.Crypto.Aes.{get_u32, put_u32}

abbrev pub word : Quad → ℕ
word q = ((q.a * 2 ^ 8 + q.b) * 2 ^ 8 + q.c) * 2 ^ 8 + q.d

pub record IsQuad (q : Quad) : Type 0 where
  pub a : q.a < 256
  pub b : q.b < 256
  pub c : q.c < 256
  pub d : q.d < 256

pub add_quad-IsQuad : (q k : Quad) → IsQuad q → IsQuad k → IsQuad (add_quad q k)
add_quad-IsQuad q k v w = record {
  a = bit_xor-lt 8 q.a k.a v.a w.a;
  b = bit_xor-lt 8 q.b k.b v.b w.b;
  c = bit_xor-lt 8 q.c k.c v.c w.c;
  d = bit_xor-lt 8 q.d k.d v.d w.d;
}

-- Words are xored byte by byte.
pub word-add_quad : (q k : Quad) → IsQuad q → IsQuad k → word q ⊕ word k ≡ word (add_quad q k)
word-add_quad q k v w =
    let ab = bit_xor-split 8 q.a q.b k.a k.b v.b w.b in
    let abc = bit_xor-split 8 (q.a * 2 ^ 8 + q.b) q.c (k.a * 2 ^ 8 + k.b) k.c v.c w.c in
    let abcd =
      bit_xor-split 8 ((q.a * 2 ^ 8 + q.b) * 2 ^ 8 + q.c) q.d ((k.a * 2 ^ 8 + k.b) * 2 ^ 8 + k.c)
        k.d v.d w.d in
    rw (abcd.0, abc.0, ab.0)

-- The bytes of a word.
pub word_bytes :
    (q : Quad)
    → IsQuad q
    → (word q / 2 ^ 24 ≡ q.a)
      × (word q / 2 ^ 16 % 2 ^ 8 ≡ q.b)
      × (word q / 2 ^ 8 % 2 ^ 8 ≡ q.c)
      × (word q % 2 ^ 8 ≡ q.d)
word_bytes q v = (
  omega (arith, v.a, v.b, v.c, v.d),
  omega (arith, v.a, v.b, v.c, v.d),
  omega (arith, v.a, v.b, v.c, v.d),
  omega (arith, v.a, v.b, v.c, v.d),
)

pub put_u32-word : (q : Quad) → IsQuad q → put_u32 (word q) ≡ q.a ∷ q.b ∷ q.c ∷ q.d ∷ []
unfolding put_u32
put_u32-word q v =
    let (a, b, c, d) = word_bytes q v in
    let top : q.a % 2 ^ 8 ≡ q.a = omega (arith, v.a) in rw (a, b, c, d, top)

-- The column in four bytes of a block.
abbrev pub quad : List ℕ → Quad
quad pt = record { a = get_or pt 0 0; b = get_or pt 1 0; c = get_or pt 2 0; d = get_or pt 3 0 }

pub get_u32-word : (pt : List ℕ) → IsQuad (quad pt) → get_u32 pt ≡ word (quad pt)
unfolding get_u32
get_u32-word pt v =
    let a = get_or pt 0 0 in
    let b = get_or pt 1 0 in
    let c = get_or pt 2 0 in
    let d = get_or pt 3 0 in
    let ab = bit_xor-apart 24 a (b * 2 ^ 16) (omega (arith, v.b)) in
    let abc = bit_xor-apart 16 (a * 2 ^ 8 + b) (c * 2 ^ 8) (omega (arith, v.c)) in
    let abcd = bit_xor-apart 8 ((a * 2 ^ 8 + b) * 2 ^ 8 + c) d v.d in
    let e2 : a * 2 ^ 24 + b * 2 ^ 16 ≡ (a * 2 ^ 8 + b) * 2 ^ 16 = omega arith in
    let e1 : (a * 2 ^ 8 + b) * 2 ^ 16 + c * 2 ^ 8 ≡ ((a * 2 ^ 8 + b) * 2 ^ 8 + c) * 2 ^ 8 =
      omega arith in
    rw (ab, e2, abc, e1, abcd)
