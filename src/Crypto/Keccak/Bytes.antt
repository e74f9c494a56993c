-- ===== src/Crypto/Keccak/Bytes.antt =====
-- src/crypto/keccakf1600.c: words and the bytes that they are stored in.
use libe.Common.{
  List, [], ap, arith, drop, drop-add, get_or, length, length-drop, refl, replicate, suc, sym, take,
  take-add, zero, ℕ, ◌%◌, ◌*◌, ◌++◌, ◌+◌, ◌/◌, ◌<◌, ◌^◌, ◌∙◌, ◌∷◌, ◌≡◌, ◌≤◌,
}
use libe.Common.Xor.{zero-bit_xor}
use libe.Crypto.Keccak.{
  xor_words, state_extract_bytes, state_xor_bytes, copy_to_state, extract_words, keccak_f1600,
  load64, load64_from, permuted, store64, store64_from,
}
use mathlib.Core.List.{append_assoc}
use native.Mathlib.Nat.{mul-add, mul_assoc, mul-le-mul_right, mul_comm}
use libe.Crypto.Siv.Counter.{All}
use libe.Common.Split.{bit_or-apart}
use libe.Crypto.Keccak.Words.{entries_from, entries_from-take, powers}

-- The number in the bytes i, i + 1, …, the lowest first, with so many left.
abbrev value_from : ℕ → ℕ → List ℕ → ℕ
value_from zero i x = 0
value_from (suc n) i x = get_or x i 0 + 2 ^ 8 * value_from n (i + 1) x

pub get_or-byte : (x : List ℕ) (i : ℕ) → All (λ b. b < 256) x → get_or x i 0 < 256
get_or-byte [] i v = omega arith
get_or-byte (b ∷ x) zero v = v.0
get_or-byte (b ∷ x) (suc i) v = get_or-byte x i v.1

-- With the bytes before it loaded, loading on adds the value of the others.
load64_from_lem :
    (n i r : ℕ) (x : List ℕ)
    → All (λ b. b < 256) x
    → r < 2 ^ (8 * i)
    → load64_from n i r x ≡ r + 2 ^ (8 * i) * value_from n i x
unfolding load64_from
load64_from_lem zero i r x v h = omega arith
load64_from_lem (suc n) i r x v h =
    let p = 2 ^ (8 * i) in
    let b = get_or x i 0 in
    let byte = get_or-byte x i v in
    let little : b * p ≤ 255 * p = mul-le-mul_right p (omega arith) in
    let up : 8 * i + 8 ≡ 8 * (i + 1) = omega arith in
    let next : 2 ^ (8 * (i + 1)) ≡ p * 2 ^ 8 = sym (powers (8 * i) 8 ∙ ap (λ (k : ℕ). 2 ^ k) up) in
    let ih = load64_from_lem n (i + 1) (r + b * p) x v (omega (arith, next, little)) in
    let later = value_from n (i + 1) x in
    let spread : p * (b + 2 ^ 8 * later) ≡ b * p + p * 2 ^ 8 * later =
      rw (mul-add p b (2 ^ 8 * later), mul_comm p b, mul_assoc p (2 ^ 8) later) in
    rw (bit_or-apart (8 * i) b r h, ih, next) (omega (arith, spread))

store64_from_lem :
    (n i : ℕ) (x : List ℕ)
    → All (λ b. b < 256) x
    → store64_from n (value_from n i x) ≡ entries_from n i x
unfolding store64_from
store64_from_lem zero i x v = refl
store64_from_lem (suc n) i x v =
    let b = get_or x i 0 in
    let later = value_from n (i + 1) x in
    let byte = get_or-byte x i v in
    let low : (b + 2 ^ 8 * later) % 2 ^ 8 ≡ b = omega arith in
    let high : (b + 2 ^ 8 * later) / 2 ^ 8 ≡ later = omega arith in
    rw (low, high, store64_from_lem n (i + 1) x v)

store64-load64 : (x : List ℕ) → All (λ b. b < 256) x → 8 ≤ length x → store64 (load64 x) ≡ take 8 x
unfolding store64 load64
store64-load64 x v h =
    let value : 0 + 1 * value_from 8 0 x ≡ value_from 8 0 x = omega arith in
    rw (load64_from_lem 8 0 0 x v (omega arith), value, store64_from_lem 8 0 x v)
      (entries_from-take 8 x h)

All-drop : (n : ℕ) (x : List ℕ) → All (λ b. b < 256) x → All (λ b. b < 256) (drop n x)
All-drop zero x v = v
All-drop (suc n) [] v = tt
All-drop (suc n) (b ∷ x) v = All-drop n x v.1

extract_words-xor_words :
    (n m : ℕ) (x out : List ℕ)
    → All (λ b. b < 256) x
    → n ≤ m
    → 8 * n ≤ length x
    → extract_words n (xor_words n (replicate m 0) x) out ≡ take (8 * n) x ++ drop (8 * n) out
unfolding extract_words xor_words
extract_words-xor_words zero m x out v few h = refl
extract_words-xor_words (suc n) zero x out v few h = absurd (omega arith)
extract_words-xor_words (suc n) (suc m) x out v few h =
    let e : 8 * suc n ≡ 8 + 8 * n = omega arith in
    let ih =
      extract_words-xor_words n m (drop 8 x) (drop 8 out) (All-drop 8 x v) (omega arith)
        (omega (arith, length-drop 8 x)) in
    rw
      (
        zero-bit_xor (load64 x),
        store64-load64 x v (omega arith),
        ih,
        e,
        take-add 8 (8 * n) x,
        drop-add 8 (8 * n) out,
      )
      (sym (append_assoc (take 8 x) (take (8 * n) (drop 8 x)) (drop (8 * n) (drop 8 out))))

-- Bytes that are absorbed into a state of zeros, up to 25 words of them, are what is extracted then,
-- over the front of whatever was there.
pub state_extract_bytes-state_xor_bytes :
    (n : ℕ) (x out : List ℕ)
    → All (λ b. b < 256) x
    → n ≤ 25
    → 8 * n ≤ length x
    → state_extract_bytes (state_xor_bytes (replicate 25 0) x (8 * n)) out (8 * n)
      ≡ take (8 * n) x ++ drop (8 * n) out
unfolding state_extract_bytes state_xor_bytes
state_extract_bytes-state_xor_bytes n x out v few h =
    let e : 8 * n / 8 ≡ n = omega arith in rw e (extract_words-xor_words n 25 x out v few h)

-- The permutation gives 200 bytes.
pub length-permuted : (b : List ℕ) → length (permuted b) ≡ 200
unfolding permuted extract_words keccak_f1600 copy_to_state store64 store64_from
length-permuted b = refl
