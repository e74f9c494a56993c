-- ===== src/Crypto/Aes/Columns.antt =====
-- src/crypto/aes256enc_ref.c: what the tables hold, and a word of a round as a column.
use libe.Common.{ap, arith, get_or, ltb, refl, replicate, true, ℕ, ◌<◌, ◌∙◌, ◌≡◌}
use libe.Common.Tabulate.{values_agree, get_or-table, values_from}
use libe.Crypto.Keccak.{◌&◌, ◌⊕◌}
use libe.Crypto.Aes.Tables.{te0, te1, te2, te3}
use libe.Crypto.Aes.Substitution.{te4}
use libe.Crypto.Aes.Reference.{Quad, inverse, product, s_box, add_quad, mix_quad, sub_quad}
use libe.Crypto.Aes.Words.{word, IsQuad, add_quad-IsQuad, word-add_quad, word_bytes}
use libe.Crypto.Aes.{full_word, substituted, last_word}
use libe.Common.Split.{bit_xor-zero}
use libe.Common.Xor.{zero-bit_xor}

-- The column that MixColumns makes of a byte of the S-box in one place, for the four places.
abbrev first : ℕ → Quad
first x = record { a = product 2 (s_box x); b = s_box x; c = s_box x; d = product 3 (s_box x) }

abbrev second : ℕ → Quad
second x = record { a = product 3 (s_box x); b = product 2 (s_box x); c = s_box x; d = s_box x }

abbrev third : ℕ → Quad
third x = record { a = s_box x; b = product 3 (s_box x); c = product 2 (s_box x); d = s_box x }

abbrev fourth : ℕ → Quad
fourth x = record { a = s_box x; b = s_box x; c = product 3 (s_box x); d = product 2 (s_box x) }

te0_lem : (x : ℕ) → x < 256 → get_or te0 x 0 ≡ word (first x)
unfolding product s_box inverse
te0_lem x h = get_or-table (λ (x : ℕ). word (first x)) 256 x 0 te0 refl h

te1_lem : (x : ℕ) → x < 256 → get_or te1 x 0 ≡ word (second x)
unfolding product s_box inverse
te1_lem x h = get_or-table (λ (x : ℕ). word (second x)) 256 x 0 te1 refl h

te2_lem : (x : ℕ) → x < 256 → get_or te2 x 0 ≡ word (third x)
unfolding product s_box inverse
te2_lem x h = get_or-table (λ (x : ℕ). word (third x)) 256 x 0 te2 refl h

te3_lem : (x : ℕ) → x < 256 → get_or te3 x 0 ≡ word (fourth x)
unfolding product s_box inverse
te3_lem x h = get_or-table (λ (x : ℕ). word (fourth x)) 256 x 0 te3 refl h

abbrev in_a : ℕ → Quad
in_a x = record { a = s_box x; b = 0; c = 0; d = 0 }

abbrev in_b : ℕ → Quad
in_b x = record { a = 0; b = s_box x; c = 0; d = 0 }

abbrev in_c : ℕ → Quad
in_c x = record { a = 0; b = 0; c = s_box x; d = 0 }

abbrev in_d : ℕ → Quad
in_d x = record { a = 0; b = 0; c = 0; d = s_box x }

te4-a : (x : ℕ) → x < 256 → get_or te4 x 0 & 0xff000000 ≡ word (in_a x)
unfolding s_box inverse
te4-a x h =
    values_agree (λ (x : ℕ). get_or te4 x 0 & 0xff000000) (λ (x : ℕ). word (in_a x)) 256 refl x h

te4-b : (x : ℕ) → x < 256 → get_or te4 x 0 & 0x00ff0000 ≡ word (in_b x)
unfolding s_box inverse
te4-b x h =
    values_agree (λ (x : ℕ). get_or te4 x 0 & 0x00ff0000) (λ (x : ℕ). word (in_b x)) 256 refl x h

te4-c : (x : ℕ) → x < 256 → get_or te4 x 0 & 0x0000ff00 ≡ word (in_c x)
unfolding s_box inverse
te4-c x h =
    values_agree (λ (x : ℕ). get_or te4 x 0 & 0x0000ff00) (λ (x : ℕ). word (in_c x)) 256 refl x h

te4-d : (x : ℕ) → x < 256 → get_or te4 x 0 & 0x000000ff ≡ word (in_d x)
unfolding s_box inverse
te4-d x h =
    values_agree (λ (x : ℕ). get_or te4 x 0 & 0x000000ff) (λ (x : ℕ). word (in_d x)) 256 refl x h

pub ltb_sound : (a b : ℕ) → ltb a b ≡ true → a < b
ltb_sound a b h = ground arith

-- The S-box and its multiples are bytes.
bounded :
    (f : ℕ → ℕ)
    → values_from (λ (x : ℕ). ltb (f x) 256) 256 0 ≡ replicate 256 true
    → (x : ℕ) → x < 256
    → f x < 256
bounded f e x h =
    ltb_sound (f x) 256 (values_agree (λ (x : ℕ). ltb (f x) 256) (λ (x : ℕ). true) 256 e x h)

pub s_box-lt : (x : ℕ) → x < 256 → s_box x < 256
unfolding s_box inverse
s_box-lt x h = bounded s_box refl x h

twice-lt : (x : ℕ) → x < 256 → product 2 (s_box x) < 256
unfolding product s_box inverse
twice-lt x h = bounded (λ (x : ℕ). product 2 (s_box x)) refl x h

thrice-lt : (x : ℕ) → x < 256 → product 3 (s_box x) < 256
unfolding product s_box inverse
thrice-lt x h = bounded (λ (x : ℕ). product 3 (s_box x)) refl x h

pub sub_quad-IsQuad : (q : Quad) → IsQuad q → IsQuad (sub_quad q)
sub_quad-IsQuad q v = record {
  a = s_box-lt q.a v.a;
  b = s_box-lt q.b v.b;
  c = s_box-lt q.c v.c;
  d = s_box-lt q.d v.d;
}

-- The xor of the words of four columns is the word of their sum.
summed :
    (p q r s : Quad)
    → IsQuad p
    → IsQuad q
    → IsQuad r
    → IsQuad s
    → let sum : Quad = add_quad (add_quad (add_quad p q) r) s in
      (word p ⊕ word q ⊕ word r ⊕ word s ≡ word sum) × IsQuad sum
summed p q r s v w x y =
    let two = add_quad-IsQuad p q v w in
    let three = add_quad-IsQuad (add_quad p q) r two x in
    (
      rw (word-add_quad p q v w, word-add_quad (add_quad p q) r two x)
          (word-add_quad (add_quad (add_quad p q) r) s three y),
      add_quad-IsQuad (add_quad (add_quad p q) r) s three y,
    )

-- With a word of the round key.
keyed :
    (sum : ℕ) (q k : Quad)
    → (sum ≡ word q) × IsQuad q
    → IsQuad k
    → (sum ⊕ word k ≡ word (add_quad q k)) × IsQuad (add_quad q k)
keyed sum q k (e, v) w = (rw e (word-add_quad q k v w), add_quad-IsQuad q k v w)

-- A word of a full round is the word of the column that the steps of the cipher make.
pub full_word_lem :
    (w x y z k : Quad)
    → IsQuad w
    → IsQuad x
    → IsQuad y
    → IsQuad z
    → IsQuad k
    → let column : Quad = record { a = w.a; b = x.b; c = y.c; d = z.d } in
      let made : Quad = add_quad (mix_quad (sub_quad column)) k in
      (full_word (word w) (word x) (word y) (word z) (word k) ≡ word made) × IsQuad made
unfolding full_word
full_word_lem w x y z k vw vx vy vz vk =
    let sa = s_box-lt w.a vw.a in
    let sb = s_box-lt x.b vx.b in
    let sc = s_box-lt y.c vy.c in
    let sd = s_box-lt z.d vz.d in
    let p : IsQuad (first w.a) = record {
      a = twice-lt w.a vw.a;
      b = sa;
      c = sa;
      d = thrice-lt w.a vw.a;
    } in
    let q : IsQuad (second x.b) = record {
      a = thrice-lt x.b vx.b;
      b = twice-lt x.b vx.b;
      c = sb;
      d = sb;
    } in
    let r : IsQuad (third y.c) = record {
      a = sc;
      b = thrice-lt y.c vy.c;
      c = twice-lt y.c vy.c;
      d = sc;
    } in
    let s : IsQuad (fourth z.d) = record {
      a = sd;
      b = sd;
      c = thrice-lt z.d vz.d;
      d = twice-lt z.d vz.d;
    } in
    rw
      (
        (word_bytes w vw).0,
        (word_bytes x vx).1,
        (word_bytes y vy).2,
        (word_bytes z vz).3,
        te0_lem w.a vw.a,
        te1_lem x.b vx.b,
        te2_lem y.c vy.c,
        te3_lem z.d vz.d,
      )
      (keyed _ (mix_quad (sub_quad (record { a = w.a; b = x.b; c = y.c; d = z.d }))) k
        (summed (first w.a) (second x.b) (third y.c) (fourth z.d) p q r s) vk)

-- A word of the S-box values of four bytes.
pub substituted_lem :
    (w x y z : ℕ)
    → w < 256
    → x < 256
    → y < 256
    → z < 256
    → let bytes : Quad = record { a = s_box w; b = s_box x; c = s_box y; d = s_box z } in
      (substituted w x y z ≡ word bytes) × IsQuad bytes
unfolding substituted
substituted_lem w x y z vw vx vy vz =
    let none_less : 0 < 256 = omega arith in
    let a = s_box-lt w vw in
    let b = s_box-lt x vx in
    let c = s_box-lt y vy in
    let d = s_box-lt z vz in
    let p : IsQuad (in_a w) = record { a = a; b = none_less; c = none_less; d = none_less } in
    let q : IsQuad (in_b x) = record { a = none_less; b = b; c = none_less; d = none_less } in
    let r : IsQuad (in_c y) = record { a = none_less; b = none_less; c = c; d = none_less } in
    let s : IsQuad (in_d z) = record { a = none_less; b = none_less; c = none_less; d = d } in
    let sum = summed (in_a w) (in_b x) (in_c y) (in_d z) p q r s in
    let whole : add_quad (add_quad (add_quad (in_a w) (in_b x)) (in_c y)) (in_d z)
        ≡ record { a = s_box w; b = s_box x; c = s_box y; d = s_box z } =
      simp (bit_xor-zero, zero-bit_xor) in
    (
      rw (te4-a w vw, te4-b x vx, te4-c y vy, te4-d z vz) (sum.0 ∙ ap word whole),
      record { a = a; b = b; c = c; d = d },
    )

-- A word of the last round is the word of the column that its steps make.
pub last_word_lem :
    (w x y z k : Quad)
    → IsQuad w
    → IsQuad x
    → IsQuad y
    → IsQuad z
    → IsQuad k
    → let column : Quad = record { a = w.a; b = x.b; c = y.c; d = z.d } in
      let made : Quad = add_quad (sub_quad column) k in
      (last_word (word w) (word x) (word y) (word z) (word k) ≡ word made) × IsQuad made
unfolding last_word
last_word_lem w x y z k vw vx vy vz vk =
    rw ((word_bytes w vw).0, (word_bytes x vx).1, (word_bytes y vy).2, (word_bytes z vz).3)
      (keyed _ (sub_quad (record { a = w.a; b = x.b; c = y.c; d = z.d })) k
        (substituted_lem w.a x.b y.c z.d vw.a vx.b vy.c vz.d) vk)
