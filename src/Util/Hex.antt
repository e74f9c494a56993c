-- ===== src/Util/Hex.antt =====
-- src/e4util.c: e4c_hex_decode reads back what "%02x" prints.
use libe.Common.{
  Bool-cases, List, Option, [], ap, arith, bit_or, false, inl, inr, length, ltb, none, refl, some,
  some_injective, sym, suc, true, zero, ℕ, ◌%◌, ◌*◌, ◌+◌, ◌/◌, ◌<◌, ◌==◌, ◌^◌, ◌∷◌, ◌≡◌, ◌≤◌, ◌⊎◌,
}
use mathlib.Core.Path.{subst}
use libe.Common.Int.{pos, negsuc, ℤ}
use libe.Common.Memory.{hex_digit}
use libe.Util.{from_hex, decode_pairs, e4c_hex_decode, write_pair}
use libe.Common.Or.{bit_or_nibbles}

abbrev pub hex : List ℕ → List ℕ
hex [] = []
hex (b ∷ v) = hex_digit (b / 16) ∷ hex_digit (b % 16) ∷ hex v

abbrev AllBytes : List ℕ → Type 0
AllBytes [] = Unit
AllBytes (b ∷ v) = (b < 256) × AllBytes v

from_hex-hex_digit : (n : ℕ) → n < 16 → from_hex (hex_digit n) ≡ pos n
unfolding from_hex
from_hex-hex_digit n h = ground arith

length-hex : (v : List ℕ) → length (hex v) ≡ 2 * length v
length-hex [] = omega arith
length-hex (b ∷ v) = omega (arith, length-hex v)

decode_pairs-hex :
    (i : ℕ) (v : List ℕ)
    → AllBytes v
    → i + length (hex v) < 2 ^ 31
    → decode_pairs i (hex v) ≡ some (i + length (hex v), v)
unfolding decode_pairs write_pair
decode_pairs-hex i [] h small = let e : i + 0 ≡ i = omega arith in rw e
decode_pairs-hex i (b ∷ v) h small =
    let counts : ltb (i + 2) (2 ^ 31) ≡ true = ground arith in
    rw
      (
        from_hex-hex_digit (b / 16) (omega (arith, h.0)),
        from_hex-hex_digit (b % 16) (omega arith),
        counts,
        decode_pairs-hex (i + 2) v h.1 (omega (arith, small)),
      )
      (λ i'. some (count i', byte i' ∷ v))
  where
    count : i + 2 + length (hex v) ≡ i + suc (suc (length (hex v)))
    count = omega arith

    byte : bit_or (b / 16 * 16) (b % 16) % 2 ^ 8 ≡ b
    byte = omega (arith, bit_or_nibbles (b / 16) (b % 16) (omega arith), h.0)

-- Decoding the digits of a buffer of bytes that is not empty and fits gives the buffer back, and
-- returns the number of digits, which is below 2^31.
pub e4c_hex_decode-hex :
    (dst_len : ℕ) (v : List ℕ)
    → AllBytes v
    → 0 < length v
    → length v ≤ dst_len
    → 2 * length v < 2 ^ 31
    → e4c_hex_decode dst_len (hex v) ≡ some (2 * length v, v)
unfolding e4c_hex_decode
e4c_hex_decode-hex dst_len v h some_byte fits small =
    let n = length-hex v in
    let nonempty : (length (hex v) == 0) ≡ false = ground (arith, n) in
    let even : (length (hex v) % 2 == 0) ≡ true = ground (arith, n) in
    let room : ltb dst_len (length (hex v) / 2) ≡ false = ground (arith, n) in
    rw (nonempty, even, room, decode_pairs-hex 0 v h (omega (arith, n, small)))
      (ap (λ (k : ℕ). some (k, v)) (omega (arith, n)))

-- What comes of a run of the loop over n pairs of digits from index i.
abbrev Decoded : ℕ → ℕ → ℕ × List ℕ → Type 0
Decoded n i (r, written) =
    (length written ≤ n) × ((r ≡ 0) ⊎ ((r ≡ i + 2 * n) × (length written ≡ n)))

write_pair-Decoded :
    (n i : ℕ) (h1 h2 : ℤ) (next : Option (ℕ × List ℕ))
    → ((r : ℕ × List ℕ) × (next ≡ some r) × Decoded n (i + 2) r)
    → (r : ℕ × List ℕ) × (write_pair h1 h2 next ≡ some r) × Decoded (suc n) i r
unfolding write_pair
write_pair-Decoded n i (pos h1) (pos h2) none (r, e, d) = cc
write_pair-Decoded n i (pos h1) (pos h2) (some (r, written)) (p, e, d) =
    let (le, count) = subst (Decoded n (i + 2)) (sym (some_injective e)) d in
    (
      _,
      refl,
      (
        omega (arith, le),
        elim count [
          | inl failed ↦ inl failed
          | inr (all, whole) ↦ inr (omega (arith, all), omega (arith, whole))
        ],
      ),
    )
write_pair-Decoded n i (pos h1) (negsuc _) next d = (_, refl, (omega arith, inl refl))
write_pair-Decoded n i (negsuc _) h2 next d = (_, refl, (omega arith, inl refl))

decode_pairs-Decoded :
    (n i : ℕ) (encoded : List ℕ)
    → length encoded ≡ 2 * n
    → i + length encoded < 2 ^ 31
    → (r : ℕ × List ℕ) × (decode_pairs i encoded ≡ some r) × Decoded n i r
unfolding decode_pairs
decode_pairs-Decoded zero i [] e small = (_, refl, (omega arith, inr (omega arith, refl)))
decode_pairs-Decoded (suc n) i [] e small = absurd (omega arith)
decode_pairs-Decoded n i (a ∷ []) e small = absurd (omega arith)
decode_pairs-Decoded zero i (a ∷ b ∷ rest) e small = absurd (omega arith)
decode_pairs-Decoded (suc n) i (a ∷ b ∷ rest) e small =
    let counts : ltb (i + 2) (2 ^ 31) ≡ true = ground arith in
    rw counts (
      write_pair-Decoded n i (from_hex a) (from_hex b) (decode_pairs (i + 2) rest)
        (decode_pairs-Decoded n (i + 2) rest (omega arith) (omega arith)))

-- Given fewer than 2^31 characters, it has a result: it writes at most `dst_len` bytes, and it
-- returns either 0 or the number of digits, which is then twice the number of bytes written.
pub e4c_hex_decode_bounds :
    (dst_len : ℕ) (encoded : List ℕ)
    → length encoded < 2 ^ 31
    → (r : ℕ × List ℕ) × (e4c_hex_decode dst_len encoded ≡ some r)
      × (length r.1 ≤ dst_len)
      × ((r.0 ≡ 0) ⊎ ((r.0 ≡ length encoded) × (r.0 ≡ 2 * length r.1)))
unfolding e4c_hex_decode
e4c_hex_decode_bounds dst_len encoded small = elim (Bool-cases (length encoded == 0)) [
  | inl nothing ↦ rw nothing (_, refl, omega arith, inl refl)
  | inr more ↦ elim (Bool-cases (length encoded % 2 == 0)) [
    | inr odd ↦ rw (more, odd) (_, refl, omega arith, inl refl)
    | inl even ↦ elim (Bool-cases (ltb dst_len (length encoded / 2))) [
      | inl large ↦ rw (more, even, large) (_, refl, omega arith, inl refl)
      | inr fits ↦
          let n : length encoded ≡ 2 * (length encoded / 2) = ground arith in
          let room : length encoded / 2 ≤ dst_len = ground arith in
          let (r, ran, (le, count)) =
            decode_pairs-Decoded (length encoded / 2) 0 encoded n (omega (arith, small)) in
          rw (more, even, fits)
            (
              r,
              ran,
              omega (arith, le, room),
              elim count [
                | inl failed ↦ inl failed
                | inr (all, whole) ↦ inr (omega (arith, all, n), omega (arith, all, whole))
              ],
            )
    ]
  ]
]
