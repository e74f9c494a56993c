-- ===== src/Crypto/Aes/Reference.antt =====
-- The cipher of AES-256 as FIPS 197 defines it, against which src/crypto/aes256enc_ref.c is held:
-- the multiplication of the field of 256 elements, the S-box, and the steps on a state of four
-- columns of four bytes. A key schedule is the list of its words, which are columns too.
use libe.Common.{
  List, [], drop, get_or, if◌then◌else◌, leb, suc, zero, ℕ, ◌%◌, ◌*◌, ◌++◌, ◌+◌, ◌-◌, ◌/◌, ◌==◌,
  ◌^◌, ◌∷◌,
}
use libe.Crypto.Keccak.{◌⊕◌}

-- Times x, modulo x^8 + x^4 + x^3 + x + 1.
abbrev xtime : ℕ → ℕ
xtime b = let d = b * 2 in if leb 256 d then (d - 256) ⊕ 0x1b else d

-- The sum of the multiples of b by the bits of a, so many of them.
abbrev product_bits : ℕ → ℕ → ℕ → ℕ
product_bits zero a b = 0
product_bits (suc n) a b =
    let rest = product_bits n (a / 2) (xtime b) in (if a % 2 == 1 then b else 0) ⊕ rest

unfoldable pub product : ℕ → ℕ → ℕ
product a b = product_bits 8 a b

-- The powers b^2, b^4, …, so many of them, multiplied.
abbrev square_product : ℕ → ℕ → ℕ
square_product zero b = 1
square_product (suc n) b =
    let square = product_bits 8 b b in product_bits 8 square (square_product n square)

-- b^254, the multiplicative inverse of an element other than 0
unfoldable pub inverse : ℕ → ℕ
inverse b = square_product 7 b

abbrev rotated : ℕ → ℕ → ℕ
rotated b n = b * 2 ^ n % 2 ^ 8 + b / 2 ^ (8 - n)

unfoldable pub s_box : ℕ → ℕ
unfolding inverse
s_box b = let i = inverse b in i ⊕ rotated i 1 ⊕ rotated i 2 ⊕ rotated i 3 ⊕ rotated i 4 ⊕ 0x63

-- A column: its bytes from the top.
pub record Quad : Type 0 where
  pub a : ℕ
  pub b : ℕ
  pub c : ℕ
  pub d : ℕ

abbrev pub zero_quad : Quad
zero_quad = record { a = 0; b = 0; c = 0; d = 0 }

pub record Columns : Type 0 where
  pub c0 : Quad
  pub c1 : Quad
  pub c2 : Quad
  pub c3 : Quad

abbrev pub add_quad : Quad → Quad → Quad
add_quad q k = record { a = q.a ⊕ k.a; b = q.b ⊕ k.b; c = q.c ⊕ k.c; d = q.d ⊕ k.d }

abbrev pub sub_quad : Quad → Quad
sub_quad q = record { a = s_box q.a; b = s_box q.b; c = s_box q.c; d = s_box q.d }

abbrev pub mix_quad : Quad → Quad
mix_quad q = record {
  a = product 2 q.a ⊕ product 3 q.b ⊕ q.c ⊕ q.d;
  b = q.a ⊕ product 2 q.b ⊕ product 3 q.c ⊕ q.d;
  c = q.a ⊕ q.b ⊕ product 2 q.c ⊕ product 3 q.d;
  d = product 3 q.a ⊕ q.b ⊕ q.c ⊕ product 2 q.d;
}

-- The same step on every column.
abbrev each : (Quad → Quad) → Columns → Columns
each f s = record { c0 = f s.c0; c1 = f s.c1; c2 = f s.c2; c3 = f s.c3 }

abbrev pub sub_bytes : Columns → Columns
sub_bytes s = each sub_quad s

-- Row r is shifted to the left by r columns.
abbrev pub shift_rows : Columns → Columns
shift_rows s = record {
  c0 = record { a = s.c0.a; b = s.c1.b; c = s.c2.c; d = s.c3.d };
  c1 = record { a = s.c1.a; b = s.c2.b; c = s.c3.c; d = s.c0.d };
  c2 = record { a = s.c2.a; b = s.c3.b; c = s.c0.c; d = s.c1.d };
  c3 = record { a = s.c3.a; b = s.c0.b; c = s.c1.c; d = s.c2.d };
}

abbrev pub mix_columns : Columns → Columns
mix_columns s = each mix_quad s

-- The next four words of a key schedule.
abbrev pub next_key : List Quad → Columns
next_key keys = record {
  c0 = get_or keys 0 zero_quad;
  c1 = get_or keys 1 zero_quad;
  c2 = get_or keys 2 zero_quad;
  c3 = get_or keys 3 zero_quad;
}

abbrev pub add_round_key : Columns → Columns → Columns
add_round_key s k = record {
  c0 = add_quad s.c0 k.c0;
  c1 = add_quad s.c1 k.c1;
  c2 = add_quad s.c2 k.c2;
  c3 = add_quad s.c3 k.c3;
}

-- So many full rounds, with the words of the key schedule that are left.
unfoldable pub cipher_rounds : ℕ → List Quad → Columns → Columns
cipher_rounds zero keys s = s
cipher_rounds (suc n) keys s =
    cipher_rounds n (drop 4 keys)
      (add_round_key (mix_columns (shift_rows (sub_bytes s))) (next_key keys))

unfoldable pub cipher : List Quad → Columns → Columns
unfolding cipher_rounds
cipher keys s =
    let t = cipher_rounds 13 (drop 4 keys) (add_round_key s (next_key keys)) in
    add_round_key (shift_rows (sub_bytes t)) (next_key (drop 56 keys))

-- The powers of x.
abbrev power_of_x : ℕ → ℕ
power_of_x zero = 1
power_of_x (suc n) = xtime (power_of_x n)

-- Rcon[i]
unfoldable pub round_quad : ℕ → Quad
round_quad i = record { a = power_of_x (i - 1); b = 0; c = 0; d = 0 }

abbrev pub rot_quad : Quad → Quad
rot_quad q = record { a = q.b; b = q.c; c = q.d; d = q.a }

-- w[i] from the eight words before it.
unfoldable pub next_word : ℕ → List Quad → Quad
next_word i w =
    let temp = get_or w 7 zero_quad in
    add_quad (get_or w 0 zero_quad) (
      if i % 8 == 0
      then add_quad (sub_quad (rot_quad temp)) (round_quad (i / 8))
      else if i % 8 == 4
      then sub_quad temp
      else temp)

-- The words i, i + 1, … from the eight before them, so many of them.
unfoldable pub schedule_from : ℕ → ℕ → List Quad → List Quad
schedule_from zero i w = []
schedule_from (suc n) i w =
    let new = next_word i w in new ∷ schedule_from n (i + 1) (drop 1 w ++ (new ∷ []))

-- The 60 words of the key schedule of a key of eight words.
unfoldable pub key_schedule : List Quad → List Quad
unfolding schedule_from
key_schedule key = key ++ schedule_from 52 8 key
