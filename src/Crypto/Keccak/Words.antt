-- ===== src/Crypto/Keccak/Words.antt =====
-- src/crypto/keccakf1600.c: the macro ROL on words of 64 bits, and arrays of words.
use libe.Common.{
  List, [], ap, arith, get_or, length, refl, suc, take, zero, ℕ, ◌%◌, ◌*◌, ◌+◌, ◌-◌, ◌/◌, ◌<◌, ◌^◌,
  ◌∙◌, ◌∷◌, ◌≡◌, ◌≤◌,
}
use native.Mathlib.Nat.{
  div-eq_of_lt, mul-add-div_right, mul-lt-mul_of_pos_right, add-mul, mul_assoc, mul_comm, pow-suc,
}
use libe.Crypto.Keccak.{rol}
use libe.Common.Split.{bit_xor-apart}

pub powers : (n m : ℕ) → 2 ^ n * 2 ^ m ≡ 2 ^ (n + m)
powers zero m = let e : 0 + m ≡ m = omega arith in rw e (omega arith)
powers (suc n) m =
    let e : suc n + m ≡ suc (n + m) = omega arith in
    rw (e, pow-suc 2 n, pow-suc 2 (n + m), ← powers n m, mul_assoc, mul_assoc, mul_comm 2 (2 ^ m))

positive : (n : ℕ) → 0 < 2 ^ n
positive zero = omega arith
positive (suc n) = omega (arith, pow-suc 2 n, positive n)

-- Rotating by at most 64 lets the upper bits of a word, as many as it is rotated by, and the others
-- change places.
pub rol_lem :
    (n high low : ℕ)
    → n ≤ 64
    → high < 2 ^ n
    → low < 2 ^ (64 - n)
    → rol (high * 2 ^ (64 - n) + low) n ≡ low * 2 ^ n + high
unfolding rol
rol_lem n high low few h l =
    let q = 2 ^ (64 - n) in
    let all : n + (64 - n) ≡ 64 = omega arith in
    let word : q * 2 ^ n ≡ 2 ^ 64 =
      mul_comm q (2 ^ n) ∙ (powers n (64 - n) ∙ ap (λ (k : ℕ). 2 ^ k) all) in
    let inside : low * 2 ^ n < q * 2 ^ n = mul-lt-mul_of_pos_right l (positive n) in
    let shifted : (high * q + low) * 2 ^ n ≡ high * 2 ^ 64 + low * 2 ^ n =
      rw (add-mul (high * q) low (2 ^ n), mul_assoc high q (2 ^ n), word) in
    let kept : (high * 2 ^ 64 + low * 2 ^ n) % 2 ^ 64 ≡ low * 2 ^ n = omega (arith, inside, word) in
    let none_left = div-eq_of_lt l in
    let upper : (high * q + low) / q ≡ high =
      mul-add-div_right (positive (64 - n)) high low ∙ rw none_left (omega arith) in
    rw (shifted, kept, upper) (bit_xor-apart n low high h)

-- The entries i, i + 1, … of a list, with so many left.
abbrev pub entries_from : ℕ → ℕ → List ℕ → List ℕ
entries_from zero i xs = []
entries_from (suc n) i xs = get_or xs i 0 ∷ entries_from n (i + 1) xs

entries_from-cons :
    (n i x : ℕ) (xs : List ℕ) → entries_from n (i + 1) (x ∷ xs) ≡ entries_from n i xs
entries_from-cons zero i x xs = refl
entries_from-cons (suc n) i x xs =
    let e : i + 1 ≡ suc i = omega arith in
    let rest = entries_from-cons n (i + 1) x xs in rw e (ap (◌∷◌ (get_or xs i 0)) (rw e at rest))

pub entries_from-take : (n : ℕ) (xs : List ℕ) → n ≤ length xs → entries_from n 0 xs ≡ take n xs
entries_from-take zero xs h = refl
entries_from-take (suc n) [] h = absurd (omega arith)
entries_from-take (suc n) (x ∷ xs) h =
    ap (◌∷◌ x) (entries_from-cons n 0 x xs ∙ entries_from-take n xs (omega arith))
