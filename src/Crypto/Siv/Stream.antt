-- ===== src/Crypto/Siv/Stream.antt =====
-- src/crypto/aes_siv.c: which byte of the keystream siv_ctr puts on which byte of its input.
use libe.Common.{
  Bool-cases, List, [], ap, arith, bit_xor, get_or, if◌then◌else◌, inl, inr, leb, length, le→ltb,
  ltb, lt→ltb, replicate, suc, sym, zero, ℕ, ◌%◌, ◌+◌, ◌-◌, ◌/◌, ◌<◌, ◌∙◌, ◌∷◌, ◌≡◌, ◌≤◌,
}
use libe.Crypto.Cipher.{Cipher}
use libe.Crypto.Siv.{incr, Keystream, ctr_loop, refill, masked, siv_ctr}

-- The counter block after n increments.
pub advance : ℕ → List ℕ → List ℕ
advance zero cnt = cnt
advance (suc n) cnt = advance n (incr cnt).0

module _ (c : Cipher) (eky : List ℕ) where
  -- The keystream byte that meets the byte at offset i from a state in the middle of the loop.
  ahead : Keystream → ℕ → ℕ
  ahead s i =
      if ltb (s.j + i) 16
      then get_or s.blk (s.j + i) 0
      else get_or (c.encrypt_ecb (advance ((s.j + i) / 16 - 1) s.cnt) eky) ((s.j + i) % 16) 0

  refill-lt : (s : Keystream) → (refill c eky s).j < 16
  unfolding refill
  refill-lt s = elim (Bool-cases (leb 16 s.j)) [
    | inl full ↦ rw full (omega arith)
    | inr part ↦ rw part (ground arith)
  ]

  -- A full block and the empty next one stand at the same place in the keystream.
  ahead_full :
      (s : Keystream) (i : ℕ)
      → s.j ≡ 16
      → ahead s i ≡ ahead (record { cnt = (incr s.cnt).0; blk = c.encrypt_ecb s.cnt eky; j = 0 }) i
  unfolding ahead advance
  ahead_full s i full =
      let zero_on : 0 + i ≡ i = omega arith in
      elim (Bool-cases (ltb i 16)) [
        | inl near ↦
            let block : (s.j + i) / 16 - 1 ≡ 0 = ground arith in
            let offset : (s.j + i) % 16 ≡ i = ground arith in
            rw (le→ltb (s.j + i) 16 (omega arith), zero_on, near, block, offset)
        | inr far ↦
            let block : (s.j + i) / 16 - 1 ≡ suc (i / 16 - 1) = ground arith in
            let offset : (s.j + i) % 16 ≡ i % 16 = omega arith in
            rw (le→ltb (s.j + i) 16 (omega arith), zero_on, far, block, offset)
      ]

  ahead-refill : (s : Keystream) (i : ℕ) → s.j ≤ 16 → ahead s i ≡ ahead (refill c eky s) i
  unfolding refill
  ahead-refill s i h = elim (Bool-cases (leb 16 s.j)) [
    | inl full ↦ rw full (ahead_full s i (ground arith))
    | inr part ↦ rw part
  ]

  ahead-suc : (s : Keystream) (i : ℕ) → ahead s (suc i) ≡ ahead (record s { j = s.j + 1 }) i
  unfolding ahead
  ahead-suc s i = let e : s.j + suc i ≡ s.j + 1 + i = omega arith in rw e

  ahead-zero : (s : Keystream) → s.j < 16 → ahead s 0 ≡ get_or s.blk s.j 0
  unfolding ahead
  ahead-zero s h = let e : s.j + 0 ≡ s.j = omega arith in rw (e, lt→ltb s.j 16 h)

  ctr_loop-get_or :
      (xs : List ℕ) (s : Keystream) (i : ℕ)
      → s.j ≤ 16
      → i < length xs
      → get_or (ctr_loop c eky xs s) i 0 ≡ bit_xor (get_or xs i 0) (ahead s i)
  unfolding ctr_loop
  ctr_loop-get_or [] s i h lt = absurd (omega arith)
  ctr_loop-get_or (x ∷ xs) s zero h lt =
      ap (bit_xor x) (sym (ahead-refill s 0 h ∙ ahead-zero (refill c eky s) (refill-lt s)))
  ctr_loop-get_or (x ∷ xs) s (suc i) h lt =
      ctr_loop-get_or xs _ i (omega (arith, refill-lt s)) (omega arith)
      ∙ ap (bit_xor (get_or xs i 0)) (sym (ahead-refill s (suc i) h ∙ ahead-suc (refill c eky s) i))

  -- Byte i of the output of siv_ctr is byte i of the input, xored with byte i % 16 of the
  -- encryption of the counter block that is the masked iv incremented i / 16 times.
  pub siv_ctr-get_or :
      (src iv : List ℕ) (i : ℕ)
      → i < length src
      → get_or (siv_ctr c eky src iv) i 0
        ≡ bit_xor
            (get_or src i 0)
            (get_or (c.encrypt_ecb (advance (i / 16) (masked iv)) eky) (i % 16) 0)
  unfolding siv_ctr ahead
  siv_ctr-get_or src iv i lt =
      let s : Keystream = record { cnt = masked iv; blk = replicate 16 0; j = 16 } in
      let e : (16 + i) / 16 - 1 ≡ i / 16 = omega arith in
      let r : (16 + i) % 16 ≡ i % 16 = omega arith in
      ctr_loop-get_or src s i (omega arith) lt ∙ rw (le→ltb (16 + i) 16 (omega arith), e, r)
