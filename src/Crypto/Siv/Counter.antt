-- ===== src/Crypto/Siv/Counter.antt =====
-- src/crypto/aes_siv.c: the counter of siv_ctr, and which block of the keystream meets which byte.
use libe.Common.{
  Bool-cases, List, [], ap, arith, false, if◌then◌else◌, inl, inr, length, refl, sym, true, ℕ, ◌%◌,
  ◌*◌, ◌+◌, ◌<◌, ◌==◌, ◌^◌, ◌∷◌, ◌≡◌, ◌≤◌, ◌⊎◌,
}
use native.Mathlib.Nat.{pow-suc, mod-eq_of_lt, add-mod_right}
use libe.Crypto.Siv.{incr}

*_mono : (a b c : ℕ) → a ≤ b → a * c ≤ b * c
*_mono a b c h = grind arith

-- An array of bytes as a number, the first byte the highest.
abbrev pub big_endian : List ℕ → ℕ
big_endian [] = 0
big_endian (b ∷ v) = b * 256 ^ length v + big_endian v

abbrev pub All {ℓ κ} : {A : Type ℓ} → (A → Type κ) → List A → Type κ
All P [] = Unit
All P (x ∷ xs) = P x × All P xs

abbrev pub IsBytes : List ℕ → Type 0
IsBytes = All (λ b. b < 256)

wrapped : (w p : ℕ) {n : ℕ} → w < p → w + p ≡ n → w ≡ n % p
wrapped w p h e = rw (← e, add-mod_right) (sym (mod-eq_of_lt h))

kept : (w p : ℕ) {n : ℕ} → w < p → w ≡ n → w ≡ n % p
kept w p h e = rw (← e) (sym (mod-eq_of_lt h))

-- `cnt[j]++` on one byte: whether it wraps to 0.
increment_byte :
    (b : ℕ)
    → b < 256
    → (((b + 1) % 2 ^ 8 ≡ b + 1) × (((b + 1) % 2 ^ 8 == 0) ≡ false) × (b + 1 < 256))
      ⊎ (((b + 1) % 2 ^ 8 ≡ 0) × (((b + 1) % 2 ^ 8 == 0) ≡ true) × (b ≡ 255))
increment_byte b h = elim (Bool-cases (b == 255)) [
  | inl last ↦ inr (ground arith, ground arith, ground arith)
  | inr more ↦ inl (ground arith, ground arith, ground arith)
]

-- The number left by the increment, and the carry that runs off the front.
incr_value :
    (v : List ℕ)
    → IsBytes v
    → (big_endian (incr v).0 + (if (incr v).1 then 256 ^ length v else 0) ≡ big_endian v + 1)
      × IsBytes (incr v).0
      × (length (incr v).0 ≡ length v)
unfolding incr
incr_value [] h = (omega arith, tt, refl)
incr_value (b ∷ v) h =
    let ih = incr_value v h.1 in
    elim (Bool-cases (incr v).1) [
      | inl carry ↦
          let value = rw carry at ih.0 in
          elim (increment_byte b h.0) [
            | inl (e, going, lt) ↦
                rw (carry, going, e, ih.2) (omega (arith, value), (lt, ih.1), refl)
            | inr (e, going, eq) ↦
                rw (carry, going, e, ih.2)
                  (
                    omega (
                      arith,
                      value,
                      eq,
                      pow-suc 256 (length v),
                      ap (λ (t : ℕ). t * 256 ^ length v) eq,
                    ),
                    (omega arith, ih.1),
                    refl,
                  )
          ]
      | inr stop ↦
          let value = rw stop at ih.0 in rw (stop, ih.2) (omega (arith, value), (h.0, ih.1), refl)
    ]

pub big_endian-lt : (v : List ℕ) → IsBytes v → big_endian v < 256 ^ length v
big_endian-lt [] h = omega arith
big_endian-lt (b ∷ v) h = omega (
  arith,
  big_endian-lt v h.1,
  pow-suc 256 (length v),
  *_mono b 255 (256 ^ length v) (omega (arith, h.0)),
)

-- The loop that increments the counter block adds one to it as a big-endian number, modulo its
-- size, and leaves as many bytes; so for any array of bytes.
incr-big_endian :
    (v : List ℕ)
    → IsBytes v
    → (big_endian (incr v).0 ≡ (big_endian v + 1) % 256 ^ length v)
      × IsBytes (incr v).0
      × (length (incr v).0 ≡ length v)
incr-big_endian v h =
    let r = incr_value v h in
    let below = rw r.2 at (big_endian-lt (incr v).0 r.1) in
    elim (Bool-cases (incr v).1) [
      | inl carry ↦
          (wrapped (big_endian (incr v).0) (256 ^ length v) below (rw carry at r.0), r.1, r.2)
      | inr stop ↦
          let same = rw stop at r.0 in
          (kept (big_endian (incr v).0) (256 ^ length v) below (omega (arith, same)), r.1, r.2)
    ]
