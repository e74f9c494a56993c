-- ===== src/Crypto/Sha3/Streaming.antt =====
-- src/crypto/sha3.c: input and output in pieces, and bounds of the position in the state.
use libe.Common.{
  Bool-cases, List, [], arith, inl, inr, leb, length, length-set, length-take, refl, suc, zero, ℕ,
  ◌++◌, ◌+◌, ◌-◌, ◌<◌, ◌∙◌, ◌∷◌, ◌≡◌, ◌≤◌,
}
use libe.Crypto.Sha3.{
  Sha3Ctx, sha3_init, absorb, sha3_update, sha3_final, sha3, sha3_256_trunc, shake_out, next_block,
  xor_at,
}

-- The position stays inside the rate, and the rate inside the state of 200 bytes.
pub record IsCtx (c : Sha3Ctx) : Type 0 where
  pub inside : c.pt < c.rsiz
  pub rate : c.rsiz ≤ 200
  pub state : length c.b ≡ 200
  pub digest : c.mdlen ≤ 200

module _ (f : List ℕ → List ℕ) where
  -- Data that is hashed in two pieces is hashed as the two pieces joined.
  pub sha3_update-append :
      (c : Sha3Ctx) (xs ys : List ℕ)
      → sha3_update f c (xs ++ ys) ≡ sha3_update f (sha3_update f c xs) ys
  unfolding sha3_update
  sha3_update-append c [] ys = refl
  sha3_update-append c (x ∷ xs) ys = sha3_update-append (absorb f c x) xs ys

  -- Taking m bytes out of a sponge and then n more gives the bytes and the state that taking m + n
  -- at once gives: the output of SHAKE is one stream.
  shake_out-add :
      (c : Sha3Ctx) (m n : ℕ)
      → let first = shake_out f c m in
        let second = shake_out f first.1 n in
        shake_out f c (m + n) ≡ (first.0 ++ second.0, second.1)
  unfolding shake_out
  shake_out-add c zero n = let e : 0 + n ≡ n = omega arith in rw e
  shake_out-add c (suc m) n =
      let c' = next_block f c in
      let s' = record c' { pt = c'.pt + 1 } in
      let e : suc m + n ≡ suc (m + n) = omega arith in rw (e, shake_out-add s' m n)

  mdlen-absorb : (c : Sha3Ctx) (x : ℕ) → (absorb f c x).mdlen ≡ c.mdlen
  unfolding absorb
  mdlen-absorb c x = ground arith

  mdlen-sha3_update : (c : Sha3Ctx) (xs : List ℕ) → (sha3_update f c xs).mdlen ≡ c.mdlen
  unfolding sha3_update
  mdlen-sha3_update c [] = refl
  mdlen-sha3_update c (x ∷ xs) = mdlen-sha3_update (absorb f c x) xs ∙ mdlen-absorb c x

  mdlen-sha3_init : (mdlen : ℕ) → (sha3_init mdlen).mdlen ≡ mdlen
  unfolding sha3_init
  mdlen-sha3_init mdlen = refl

  module _ (length-f : (b : List ℕ) → length b ≡ 200 → length (f b) ≡ 200) where
    absorb-IsCtx : (c : Sha3Ctx) (x : ℕ) → IsCtx c → IsCtx (absorb f c x)
    unfolding absorb
    absorb-IsCtx c x v =
        let b = xor_at c.b c.pt x in
        let n : length b ≡ 200 = length-set c.b c.pt _ ∙ v.state in
        elim (Bool-cases (leb c.rsiz (c.pt + 1))) [
          | inl full ↦ rw full (record {
            inside = omega (arith, v.inside);
            rate = v.rate;
            state = length-f b n;
            digest = v.digest;
          })
          | inr room ↦
              rw room
                (record { inside = ground arith; rate = v.rate; state = n; digest = v.digest })
        ]

    -- Absorbing data of any length keeps the position inside the rate and the state 200 bytes.
    pub sha3_update-IsCtx : (c : Sha3Ctx) (xs : List ℕ) → IsCtx c → IsCtx (sha3_update f c xs)
    unfolding sha3_update
    sha3_update-IsCtx c [] v = v
    sha3_update-IsCtx c (x ∷ xs) v = sha3_update-IsCtx (absorb f c x) xs (absorb-IsCtx c x v)

    sha3_init-IsCtx : (mdlen : ℕ) → mdlen < 100 → IsCtx (sha3_init mdlen)
    unfolding sha3_init
    sha3_init-IsCtx mdlen h = record {
      inside = omega arith;
      rate = omega arith;
      state = refl;
      digest = omega arith;
    }

    -- A digest has the length that was asked for.
    length-sha3 : (text : List ℕ) (mdlen : ℕ) → mdlen < 100 → length (sha3 f text mdlen) ≡ mdlen
    unfolding sha3 sha3_final
    length-sha3 text mdlen h =
        let c = sha3_update f (sha3_init mdlen) text in
        let v = sha3_update-IsCtx (sha3_init mdlen) text (sha3_init-IsCtx mdlen h) in
        let b = xor_at (xor_at c.b c.pt 0x06) (c.rsiz - 1) 0x80 in
        let n : length b ≡ 200 = length-set _ (c.rsiz - 1) _ ∙ (length-set c.b c.pt _ ∙ v.state) in
        omega (
          arith,
          length-take c.mdlen (f b),
          length-f b n,
          mdlen-sha3_update (sha3_init mdlen) text,
          mdlen-sha3_init mdlen,
          h,
        )

    pub length-sha3_256_trunc :
        (text : List ℕ) (n : ℕ) → n ≤ 32 → length (sha3_256_trunc f n text) ≡ n
    unfolding sha3_256_trunc
    length-sha3_256_trunc text n h =
        omega (arith, length-take n (sha3 f text 32), length-sha3 text 32 (omega arith))
