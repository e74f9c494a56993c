-- ===== src/Crypto/Siv/Roundtrip.antt =====
-- src/crypto/aes_siv.c: decryption undoes encryption, and accepts nothing else.
use libe.Common.{
  Bool, Bool-cases, List, Option, [], ap, ap₂, arith, drop, drop_front, false, if◌then◌else◌, inl,
  inr, leb, length, length-append, length-drop, length-set, length-take, ltb, none, refl, some, suc,
  take, take-append-drop, take_all, take_front, true, ℕ, ◌%◌, ◌++◌, ◌+◌, ◌-◌, ◌<◌, ◌^◌, ◌∙◌, ◌∷◌,
  ◌≡◌, ◌≤◌,
}
use libe.Common.Xor.{bit_xor_cancel}
use libe.Common.Int.{pos, is_zero}
use libe.Common.Memory.{memcmp_self, memcmp_sound}
use libe.Crypto.Cipher.{Cipher}
use libe.Crypto.Siv.{
  Keystream, Mac, xor_prefix, chain, process, process_last, siv_cmac, ctr_loop, aes256_decrypt_siv,
  aes256_encrypt_siv, siv_ctr, siv_tag, start,
}

pub length-xor_prefix : (ds xs : List ℕ) → length (xor_prefix ds xs) ≡ length ds
unfolding xor_prefix
length-xor_prefix [] xs = refl
length-xor_prefix (d ∷ ds) [] = refl
length-xor_prefix (d ∷ ds) (x ∷ xs) = ap suc (length-xor_prefix ds xs)

length_padded :
    (short : Bool) (xs ks ys ls : List ℕ)
    → length xs ≡ 16
    → length ys ≡ 16
    → length (if short then xor_prefix xs ks else xor_prefix ys ls) ≡ 16
length_padded true xs ks ys ls h k = length-xor_prefix xs ks ∙ h
length_padded false xs ks ys ls h k = length-xor_prefix ys ls ∙ k

module _ (c : Cipher) (eky : List ℕ) where
  length-chain : (m : Mac) → length m.blk ≡ 16 → length (chain c eky m).blk ≡ 16
  unfolding chain
  length-chain m h = ground (arith, c.length-encrypt_ecb m.blk eky)

  length-process :
      (len i : ℕ) (xs : List ℕ) (m : Mac)
      → length m.blk ≡ 16
      → length (process c eky len i xs m).2.blk ≡ 16
  unfolding process
  length-process len i [] m h = h
  length-process len i (x ∷ xs) m h =
      let step = λ (b : ℕ). length-set (chain c eky m).blk (chain c eky m).j b in
      elim (Bool-cases (ltb (i + 16) len)) [
        | inl more ↦ rw more (length-process len (i + 1) xs _ (step _ ∙ length-chain m h))
        | inr done ↦ rw done h
      ]

  length-process_last :
      (xorend : Option (List ℕ)) (len i : ℕ) (xs : List ℕ) (m : Mac)
      → length m.blk ≡ 16
      → length (process_last c eky xorend len i xs m).blk ≡ 16
  unfolding process_last
  length-process_last xorend len i [] m h = h
  length-process_last none len i (x ∷ xs) m h =
      length-process_last none len (i + 1) xs _ (length-set _ _ _ ∙ length-chain m h)
  length-process_last (some ys) len i (x ∷ xs) m h =
      length-process_last (some ys) len (i + 1) xs _
        (length-set _ _ _ ∙ (length-set _ _ _ ∙ length-chain m h))

  -- The output of CMAC is a block.
  length-siv_cmac :
      (text : List ℕ) (xorend : Option (List ℕ)) → length (siv_cmac c eky text xorend) ≡ 16
  unfolding siv_cmac
  length-siv_cmac text xorend =
      let len = length text in
      let p = process c eky len 0 text start in
      let m = process_last c eky xorend len p.0 p.1 p.2 in
      let m16 = length-process_last xorend len p.0 p.1 p.2 (length-process len 0 text start refl) in
      c.length-encrypt_ecb _ eky
        (length_padded (ltb m.j 16) _ _ m.blk _ (length-set m.blk m.j _ ∙ m16) m16)

  -- The keystream does not depend on the data, so a second pass takes it off again.
  ctr_loop_undo : (xs : List ℕ) (s : Keystream) → ctr_loop c eky (ctr_loop c eky xs s) s ≡ xs
  unfolding ctr_loop
  ctr_loop_undo [] s = refl
  ctr_loop_undo (x ∷ xs) s = ap₂ ◌∷◌ (bit_xor_cancel x _) (ctr_loop_undo xs _)

  length-ctr_loop : (xs : List ℕ) (s : Keystream) → length (ctr_loop c eky xs s) ≡ length xs
  unfolding ctr_loop
  length-ctr_loop [] s = refl
  length-ctr_loop (x ∷ xs) s = ap suc (length-ctr_loop xs _)

  length-siv_tag : (ad pt : List ℕ) → length (siv_tag c eky ad pt) ≡ 16
  unfolding siv_tag
  length-siv_tag ad pt = elim (Bool-cases (leb 16 (length pt))) [
    | inl long ↦ rw long (length-siv_cmac pt _)
    | inr short ↦ rw short (length-siv_cmac _ none)
  ]

  siv_ctr_undo : (xs iv : List ℕ) → siv_ctr c eky (siv_ctr c eky xs iv) iv ≡ xs
  unfolding siv_ctr
  siv_ctr_undo xs iv = ctr_loop_undo xs _

  length-siv_ctr : (xs iv : List ℕ) → length (siv_ctr c eky xs iv) ≡ length xs
  unfolding siv_ctr
  length-siv_ctr xs iv = length-ctr_loop xs _

module _ (c : Cipher) (ad pt key : List ℕ) where
  -- A ciphertext is 16 bytes longer than its plaintext, as `ctlen` says.
  pub length-aes256_encrypt_siv :
      let e = aes256_encrypt_siv c ad pt key in
      (length e.ct ≡ length pt + 16) × (e.ctlen ≡ length pt + 16)
  unfolding aes256_encrypt_siv
  length-aes256_encrypt_siv = (length_ct, refl)
    where
      eky : List ℕ
      eky = c.enc_exp_key key

      tag : List ℕ
      tag = siv_tag c eky ad pt

      length_ct : length (tag ++ siv_ctr c eky pt tag) ≡ length pt + 16
      length_ct = omega (
        arith,
        length-append tag (siv_ctr c eky pt tag),
        length-siv_tag c eky ad pt,
        length-siv_ctr c eky pt tag,
      )

  -- Decryption of a ciphertext with the same key and associated data returns 0, the plaintext
  -- and its length.
  pub aes256_decrypt_siv-aes256_encrypt_siv :
      length pt + 16 < 2 ^ 64
      → aes256_decrypt_siv c ad (aes256_encrypt_siv c ad pt key).ct key
        ≡ record { status = pos 0; pt = pt; ptlen = length pt }
  unfolding aes256_encrypt_siv aes256_decrypt_siv
  aes256_decrypt_siv-aes256_encrypt_siv fits = rw (
    take_front 16 tag stream tag16,
    drop_front 16 tag stream tag16,
    ptlen,
    take_all (length pt) stream (omega (arith, stream_len)),
    siv_ctr_undo c eky pt tag,
    memcmp_self tag,
  )
    where
      eky : List ℕ
      eky = c.enc_exp_key key

      tag : List ℕ
      tag = siv_tag c eky ad pt

      stream : List ℕ
      stream = siv_ctr c eky pt tag

      tag16 : length tag ≡ 16
      tag16 = length-siv_tag c eky ad pt

      stream_len : length stream ≡ length pt
      stream_len = length-siv_ctr c eky pt tag

      ptlen : (length (tag ++ stream) + 2 ^ 64 - 16) % 2 ^ 64 ≡ length pt
      ptlen = omega (arith, length-append tag stream, tag16, stream_len, fits)

module _ (c : Cipher) (ad ct key : List ℕ) where
  -- Whatever ciphertext of 16 bytes or more decryption accepts, by returning 0, is the one that
  -- encryption makes of the plaintext that it returns.
  pub aes256_encrypt_siv-aes256_decrypt_siv :
      16 ≤ length ct
      → length ct < 2 ^ 64
      → is_zero (aes256_decrypt_siv c ad ct key).status ≡ true
      → (aes256_encrypt_siv c ad (aes256_decrypt_siv c ad ct key).pt key).ct ≡ ct
  unfolding aes256_encrypt_siv aes256_decrypt_siv
  aes256_encrypt_siv-aes256_decrypt_siv long fits accepted =
      let e = memcmp_sound _ _ accepted in
      rw
        (
          ← e,
          siv_ctr_undo c (c.enc_exp_key key)
              (take ((length ct + 2 ^ 64 - 16) % 2 ^ 64) (drop 16 ct)) (take 16 ct),
          take_all ((length ct + 2 ^ 64 - 16) % 2 ^ 64) (drop 16 ct)
              (omega (arith, length-drop 16 ct, long, fits)),
        )
        (take-append-drop 16 ct)

  pub length-aes256_decrypt_siv :
      16 ≤ length ct
      → length ct < 2 ^ 64
      → (aes256_decrypt_siv c ad ct key).ptlen ≡ length (aes256_decrypt_siv c ad ct key).pt
  unfolding aes256_decrypt_siv
  length-aes256_decrypt_siv long fits =
      let ptlen = (length ct + 2 ^ 64 - 16) % 2 ^ 64 in
      omega (
        arith,
        length-siv_ctr c (c.enc_exp_key key) (take ptlen (drop 16 ct)) (take 16 ct),
        length-take ptlen (drop 16 ct),
        length-drop 16 ct,
        long,
        fits,
      )
