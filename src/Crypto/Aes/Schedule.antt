-- ===== src/Crypto/Aes/Schedule.antt =====
-- src/crypto/aes256enc_ref.c expands a key as FIPS 197 says.
use libe.Common.{
  List, [], ap, arith, bit_xor, drop, false, get_or, ltb, refl, suc, true, ℕ, ◌%◌, ◌*◌, ◌++◌, ◌+◌,
  ◌/◌, ◌<◌, ◌==◌, ◌^◌, ◌∙◌, ◌∷◌, ◌≡◌,
}
use libe.Common.Xor.{bit_xor_assoc}
use libe.Common.Tabulate.{get_or-table, values_agree}
use libe.Crypto.Keccak.{◌⊕◌}
use libe.Crypto.Aes.{substituted}
use libe.Crypto.Aes.Substitution.{rcon}
use libe.Crypto.Aes.Columns.{ltb_sound, substituted_lem}
use libe.Crypto.Aes.Rounds.{IsColumns}
use libe.Crypto.Aes.Words.{IsQuad, add_quad-IsQuad, word, word-add_quad, word_bytes}
use libe.Crypto.Aes.Reference.{
  Columns, Quad, add_quad, next_word, rot_quad, round_quad, schedule_from, sub_quad, zero_quad,
}

-- The eight words of two blocks.
abbrev pub eight : Columns → Columns → List Quad
eight s t = s.c0 ∷ s.c1 ∷ s.c2 ∷ s.c3 ∷ t.c0 ∷ t.c1 ∷ t.c2 ∷ t.c3 ∷ []

-- Four words, the first of which is given, the others xored one after another.
abbrev pub chained : Columns → Quad → Columns
chained s first =
    let second = add_quad s.c1 first in
    let third = add_quad s.c2 second in
    record { c0 = first; c1 = second; c2 = third; c3 = add_quad s.c3 third }

-- The next block of words: the first word of it, for an index that is a multiple of 8 or is not.
abbrev pub at_eight : ℕ → Columns → Columns → Columns
at_eight i s t = chained s (add_quad s.c0 (add_quad (sub_quad (rot_quad t.c3)) (round_quad i)))

abbrev pub at_four : Columns → Columns → Columns
at_four s t = chained s (add_quad s.c0 (sub_quad t.c3))

-- The four words of a block in front of others.
abbrev pub before : Columns → List Quad → List Quad
before s rest = s.c0 ∷ s.c1 ∷ s.c2 ∷ s.c3 ∷ rest

plain :
    (i r : ℕ) (w : List Quad)
    → i % 8 ≡ r
    → (r == 0) ≡ false
    → (r == 4) ≡ false
    → next_word i w ≡ add_quad (get_or w 0 zero_quad) (get_or w 7 zero_quad)
unfolding next_word
plain i r w e f g = rw (e, f, g)

step :
    (n i j : ℕ) (w : List Quad) (new : Quad)
    → next_word i w ≡ new
    → i + 1 ≡ j
    → schedule_from (suc n) i w ≡ new ∷ schedule_from n j (drop 1 w ++ (new ∷ []))
unfolding schedule_from
step n i j w new e f = rw (e, f)

pub schedule_from-at_eight :
    (n i : ℕ) (s t : Columns)
    → schedule_from (suc (suc (suc (suc n)))) (8 * i) (eight s t)
      ≡ before (at_eight i s t) (schedule_from n (8 * i + 4) (eight t (at_eight i s t)))
unfolding next_word
schedule_from-at_eight n i s t =
    let made = at_eight i s t in
    let mult : 8 * i % 8 ≡ 0 = omega arith in
    let quot : 8 * i / 8 ≡ i = omega arith in
    let first : next_word (8 * i) (eight s t) ≡ made.c0 = rw (next_word, mult, quot) in
    let w1 : List Quad = drop 1 (eight s t) ++ (made.c0 ∷ []) in
    let w2 : List Quad = drop 1 w1 ++ (made.c1 ∷ []) in
    let w3 : List Quad = drop 1 w2 ++ (made.c2 ∷ []) in
    let one =
      step (suc (suc (suc n))) (8 * i) (8 * i + 1) (eight s t) made.c0 first (omega arith) in
    let two =
      step (suc (suc n)) (8 * i + 1) (8 * i + 2) w1 made.c1
        (plain (8 * i + 1) 1 w1 (omega arith) refl refl) (omega arith) in
    let three =
      step (suc n) (8 * i + 2) (8 * i + 3) w2 made.c2
        (plain (8 * i + 2) 2 w2 (omega arith) refl refl) (omega arith) in
    let four =
      step n (8 * i + 3) (8 * i + 4) w3 made.c3 (plain (8 * i + 3) 3 w3 (omega arith) refl refl)
        (omega arith) in
    one ∙ ap (◌∷◌ made.c0) (two ∙ ap (◌∷◌ made.c1) (three ∙ ap (◌∷◌ made.c2) four))

pub schedule_from-at_four :
    (n i : ℕ) (s t : Columns)
    → schedule_from (suc (suc (suc (suc n)))) (8 * i + 4) (eight s t)
      ≡ before (at_four s t) (schedule_from n (8 * i + 8) (eight t (at_four s t)))
unfolding next_word
schedule_from-at_four n i s t =
    let made = at_four s t in
    let rest : (8 * i + 4) % 8 ≡ 4 = omega arith in
    let first : next_word (8 * i + 4) (eight s t) ≡ made.c0 = rw (next_word, rest) in
    let w1 : List Quad = drop 1 (eight s t) ++ (made.c0 ∷ []) in
    let w2 : List Quad = drop 1 w1 ++ (made.c1 ∷ []) in
    let w3 : List Quad = drop 1 w2 ++ (made.c2 ∷ []) in
    let one =
      step (suc (suc (suc n))) (8 * i + 4) (8 * i + 5) (eight s t) made.c0 first (omega arith) in
    let two =
      step (suc (suc n)) (8 * i + 5) (8 * i + 6) w1 made.c1
        (plain (8 * i + 5) 5 w1 (omega arith) refl refl) (omega arith) in
    let three =
      step (suc n) (8 * i + 6) (8 * i + 7) w2 made.c2
        (plain (8 * i + 6) 6 w2 (omega arith) refl refl) (omega arith) in
    let four =
      step n (8 * i + 7) (8 * i + 8) w3 made.c3 (plain (8 * i + 7) 7 w3 (omega arith) refl refl)
        (omega arith) in
    one ∙ ap (◌∷◌ made.c0) (two ∙ ap (◌∷◌ made.c1) (three ∙ ap (◌∷◌ made.c2) four))

-- SubWord of a word, as both uses of it in aes256_enc_exp_key compute it.
substituted_rot :
    (q : Quad)
    → IsQuad q
    → let rotated : Quad = sub_quad (rot_quad q) in
      (substituted
          (word q / 2 ^ 16 % 2 ^ 8)
          (word q / 2 ^ 8 % 2 ^ 8)
          (word q % 2 ^ 8)
          (word q / 2 ^ 24)
        ≡ word rotated)
      × IsQuad rotated
substituted_rot q v =
    let (a, b, c, d) = word_bytes q v in
    rw (a, b, c, d) (substituted_lem q.b q.c q.d q.a v.b v.c v.d v.a)

substituted-word :
    (q : Quad)
    → IsQuad q
    → (substituted
          (word q / 2 ^ 24)
          (word q / 2 ^ 16 % 2 ^ 8)
          (word q / 2 ^ 8 % 2 ^ 8)
          (word q % 2 ^ 8)
        ≡ word (sub_quad q))
      × IsQuad (sub_quad q)
substituted-word q v =
    let (a, b, c, d) = word_bytes q v in
    rw (a, b, c, d) (substituted_lem q.a q.b q.c q.d v.a v.b v.c v.d)

rcon_lem : (i : ℕ) → i < 10 → get_or rcon i 0 ≡ word (round_quad (i + 1))
unfolding round_quad
rcon_lem i h = get_or-table (λ (i : ℕ). word (round_quad (i + 1))) 10 i 0 rcon refl h

round_quad-IsQuad : (i : ℕ) → i < 10 → IsQuad (round_quad (i + 1))
unfolding round_quad
round_quad-IsQuad i h = record {
  a =
      ltb_sound _ 256
        (values_agree (λ (i : ℕ). ltb (round_quad (i + 1)).a 256) (λ (i : ℕ). true) 10 refl i h);
  b = omega arith;
  c = omega arith;
  d = omega arith;
}

-- The words of a block that is chained.
pub record Chain (s t : Columns) : Type 0 where
  pub sound : IsColumns t
  pub one : word s.c1 ⊕ word t.c0 ≡ word t.c1
  pub two : word s.c2 ⊕ word t.c1 ≡ word t.c2
  pub three : word s.c3 ⊕ word t.c2 ≡ word t.c3

chained-Chain :
    (s : Columns) (first : Quad) → IsColumns s → IsQuad first → Chain s (chained s first)
chained-Chain s first v w =
    let t = chained s first in
    let c1 = add_quad-IsQuad s.c1 t.c0 v.c1 w in
    let c2 = add_quad-IsQuad s.c2 t.c1 v.c2 c1 in
    record {
      sound = record { c0 = w; c1 = c1; c2 = c2; c3 = add_quad-IsQuad s.c3 t.c2 v.c3 c2 };
      one = word-add_quad s.c1 t.c0 v.c1 w;
      two = word-add_quad s.c2 t.c1 v.c2 c1;
      three = word-add_quad s.c3 t.c2 v.c3 c2;
    }

module _ (i : ℕ) (low high : Columns) (few : i < 10) (v : IsColumns low) (w : IsColumns high) where
  pub at_eight-Chain : Chain low (at_eight (i + 1) low high)
  at_eight-Chain =
      let rotated = substituted_rot high.c3 w.c3 in
      chained-Chain low _ v (
        add_quad-IsQuad low.c0 _ v.c0 (
          add_quad-IsQuad (sub_quad (rot_quad high.c3)) (round_quad (i + 1)) rotated.1
            (round_quad-IsQuad i few)))

  pub at_eight-first :
      word low.c0
        ⊕ substituted
            (word high.c3 / 2 ^ 16 % 2 ^ 8)
            (word high.c3 / 2 ^ 8 % 2 ^ 8)
            (word high.c3 % 2 ^ 8)
            (word high.c3 / 2 ^ 24)
        ⊕ get_or rcon i 0
      ≡ word (at_eight (i + 1) low high).c0
  at_eight-first =
      let rotated = substituted_rot high.c3 w.c3 in
      let constant = round_quad-IsQuad i few in
      let q = sub_quad (rot_quad high.c3) in
      let k = round_quad (i + 1) in
      rw (rotated.0, rcon_lem i few)
        (bit_xor_assoc (word low.c0) (word q) (word k)
          ∙ (ap (bit_xor (word low.c0)) (word-add_quad q k rotated.1 constant)
              ∙ word-add_quad low.c0 (add_quad q k) v.c0 (add_quad-IsQuad q k rotated.1 constant)))

pub at_four-Chain : (high t : Columns) → IsColumns high → IsColumns t → Chain high (at_four high t)
at_four-Chain high t v w =
    chained-Chain high _ v
      (add_quad-IsQuad high.c0 (sub_quad t.c3) v.c0 (substituted-word t.c3 w.c3).1)

pub at_four-first :
    (high t : Columns)
    → IsColumns high
    → IsColumns t
    → word high.c0
        ⊕ substituted
            (word t.c3 / 2 ^ 24)
            (word t.c3 / 2 ^ 16 % 2 ^ 8)
            (word t.c3 / 2 ^ 8 % 2 ^ 8)
            (word t.c3 % 2 ^ 8)
      ≡ word (at_four high t).c0
at_four-first high t v w =
    let sub = substituted-word t.c3 w.c3 in
    rw sub.0 (word-add_quad high.c0 (sub_quad t.c3) v.c0 sub.1)
