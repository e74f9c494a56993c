-- ===== src/Crypto/Siv/Doubling.antt =====
-- src/crypto/aes_siv.c: cmac_dbl doubles in the field of 2^128 elements.
use libe.Common.{
  List, [], ap, arith, bit_and, bit_xor, get_or, if◌then◌else◌, leb, length, refl, set, suc, zero,
  ℕ, ◌%◌, ◌*◌, ◌+◌, ◌-◌, ◌/◌, ◌<◌, ◌^◌, ◌∙◌, ◌∷◌, ◌≡◌,
}
use native.Mathlib.Nat.{pow-suc}
use libe.Crypto.Siv.{shift_left, cmac_dbl}
use libe.Crypto.Siv.Counter.{big_endian, IsBytes, big_endian-lt}

-- Shifting left doubles the number, and the bit that is shifted out is left in `x`.
shift_left_value :
    (v : List ℕ)
    → IsBytes v
    → (big_endian (shift_left v).0 + (shift_left v).1 * 256 ^ length v ≡ 2 * big_endian v)
      × IsBytes (shift_left v).0
      × (length (shift_left v).0 ≡ length v)
      × ((shift_left v).1 < 2)
unfolding shift_left
shift_left_value [] h = (omega arith, tt, refl, omega arith)
shift_left_value (b ∷ v) h =
    let ih = shift_left_value v h.1 in
    let x = (shift_left v).1 in
    let y : (x + b * 2) % 2 ^ 16 ≡ x + b * 2 = omega (arith, ih.3, h.0) in
    let split : (x + b * 2) % 256 + 256 * ((x + b * 2) / 256) ≡ x + b * 2 = omega arith in
    rw (y, ih.2)
      (
        omega (
          arith,
          ih.0,
          ap (λ (t : ℕ). (x + b * 2) / 256 * t) (pow-suc 256 (length v)),
          ap (λ (t : ℕ). t * 256 ^ length v) split,
        ),
        (omega arith, ih.1),
        refl,
        omega (arith, ih.3, h.0),
      )

-- `(-x) & 0x87` for the bit that is left in `x`: it is set exactly if the number was 2^127 or more.
carry_mask :
    (x value doubled : ℕ)
    → x < 2
    → doubled < 2 ^ 128
    → doubled + x * 2 ^ 128 ≡ 2 * value
    → (bit_and ((2 ^ 32 - x) % 2 ^ 32) 0x87 ≡ (if leb (2 ^ 127) value then 0x87 else 0))
      × (doubled ≡ 2 * value % 2 ^ 128)
carry_mask zero value doubled h lt e = (ground arith, omega arith)
carry_mask (suc zero) value doubled h lt e = (ground arith, omega arith)
carry_mask (suc (suc x)) value doubled h lt e = absurd (omega arith)

-- For a block of 16 bytes read as a number, cmac_dbl doubles it modulo 2^128 and then, exactly if
-- the number was 2^127 or more, xors its last byte with 0x87; the result is 16 bytes.
pub cmac_dbl-big_endian :
    (v : List ℕ)
    → IsBytes v
    → length v ≡ 16
    → (w : List ℕ) × IsBytes w
      × (length w ≡ 16)
      × (big_endian w ≡ 2 * big_endian v % 2 ^ 128)
      × (cmac_dbl v
          ≡ set w 15 (bit_xor (get_or w 15 0) (if leb (2 ^ 127) (big_endian v) then 0x87 else 0)))
unfolding cmac_dbl
cmac_dbl-big_endian v h n =
    let r = shift_left_value v h in
    let m =
      carry_mask (shift_left v).1 (big_endian v) (big_endian (shift_left v).0) r.3
        (rw (r.2, n) at (big_endian-lt (shift_left v).0 r.1)) (rw n at r.0) in
    ((shift_left v).0, r.1, r.2 ∙ n, m.1, rw m.0)
