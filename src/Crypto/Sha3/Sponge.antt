-- ===== src/Crypto/Sha3/Sponge.antt =====
-- src/crypto/sha3.c against the sponge of FIPS 202.
use libe.Common.{
  List, [], arith, bit_xor, leb, length, length-set, refl, replicate, suc, sym, take, zero, ℕ, ◌*◌,
  ◌++◌, ◌+◌, ◌-◌, ◌<◌, ◌∙◌, ◌∷◌, ◌≡◌, false, true, ap,
}
use libe.Common.Xor.{bit_xor_assoc, bit_xor_cancel, zero-bit_xor}
use libe.Crypto.Sha3.Streaming.{sha3_update-append}
use mathlib.Core.List.{append_assoc}
use libe.Crypto.Sha3.{Sha3Ctx, absorb, sha3, sha3_final, sha3_init, sha3_update, xor_at}

-- A block added to the front of the state.
abbrev pub xor_front : List ℕ → List ℕ → List ℕ
xor_front [] block = []
xor_front (s ∷ state) [] = s ∷ state
xor_front (s ∷ state) (x ∷ block) = bit_xor s x ∷ xor_front state block

-- The bytes that fill a block up: 01, then the bits 1, 0, …, 0, 1.
abbrev pub padding : ℕ → List ℕ
padding zero = []
padding (suc zero) = 0x86 ∷ []
padding (suc (suc n)) = 0x06 ∷ (replicate n 0 ++ 0x80 ∷ [])

abbrev pub join : List (List ℕ) → List ℕ
join [] = []
join (block ∷ blocks) = block ++ join blocks

abbrev pub AllBlocks : ℕ → List (List ℕ) → Type 0
AllBlocks rate [] = Unit
AllBlocks rate (block ∷ blocks) = (length block ≡ rate) × AllBlocks rate blocks

-- Bytes added one after another from a position on.
abbrev xor_from : List ℕ → ℕ → List ℕ → List ℕ
xor_from b p [] = b
xor_from b p (x ∷ text) = xor_from (xor_at b p x) (suc p) text

xor_from-cons :
    (y : ℕ) (b : List ℕ) (p : ℕ) (text : List ℕ)
    → xor_from (y ∷ b) (suc p) text ≡ y ∷ xor_from b p text
xor_from-cons y b p [] = refl
xor_from-cons y b p (x ∷ text) = xor_from-cons y (xor_at b p x) (suc p) text

xor_from-nil : (p : ℕ) (text : List ℕ) → xor_from [] p text ≡ []
xor_from-nil p [] = refl
xor_from-nil p (x ∷ text) = xor_from-nil (suc p) text

xor_from-xor_front : (b text : List ℕ) → xor_from b 0 text ≡ xor_front b text
xor_from-xor_front [] text = xor_from-nil 0 text
xor_from-xor_front (y ∷ b) [] = refl
xor_from-xor_front (y ∷ b) (x ∷ text) =
    xor_from-cons (bit_xor y x) b 0 text ∙ ap (◌∷◌ (bit_xor y x)) (xor_from-xor_front b text)

xor_from-append :
    (b : List ℕ) (p : ℕ) (xs ys : List ℕ)
    → xor_from b p (xs ++ ys) ≡ xor_from (xor_from b p xs) (p + length xs) ys
xor_from-append b p [] ys = let e : p + 0 ≡ p = omega arith in rw e
xor_from-append b p (x ∷ xs) ys =
    let e : p + length (x ∷ xs) ≡ suc p + length xs = omega arith in
    rw e (xor_from-append (xor_at b p x) (suc p) xs ys)

length-xor_from : (b : List ℕ) (p : ℕ) (xs : List ℕ) → length (xor_from b p xs) ≡ length b
length-xor_from b p [] = refl
length-xor_from b p (x ∷ xs) = length-xor_from (xor_at b p x) (suc p) xs ∙ length-set b p _

bit_xor-zero : (x : ℕ) → bit_xor x 0 ≡ x
bit_xor-zero x =
    let self : bit_xor x x ≡ 0 = rw (zero-bit_xor x) at (bit_xor_cancel 0 x) in
    ap (bit_xor x) (sym self)
    ∙ (sym (bit_xor_assoc x x x) ∙ (ap (λ z. bit_xor z x) self ∙ zero-bit_xor x))

xor_at-zero : (b : List ℕ) (p : ℕ) → xor_at b p 0 ≡ b
xor_at-zero [] p = refl
xor_at-zero (y ∷ b) zero = ap (λ z. z ∷ b) (bit_xor-zero y)
xor_at-zero (y ∷ b) (suc p) = ap (◌∷◌ y) (xor_at-zero b p)

xor_at-twice : (b : List ℕ) (p x y : ℕ) → xor_at (xor_at b p x) p y ≡ xor_at b p (bit_xor x y)
xor_at-twice [] p x y = refl
xor_at-twice (z ∷ b) zero x y = ap (λ w. w ∷ b) (bit_xor_assoc z x y)
xor_at-twice (z ∷ b) (suc p) x y = ap (◌∷◌ z) (xor_at-twice b p x y)

-- The two writes at the end are the padding.
xor_from-zeros :
    (b : List ℕ) (p n x : ℕ) → xor_from b p (replicate n 0 ++ x ∷ []) ≡ xor_at b (p + n) x
xor_from-zeros b p zero x = let e : p + 0 ≡ p = omega arith in rw e
xor_from-zeros b p (suc n) x =
    let e : p + suc n ≡ suc p + n = omega arith in
    rw e (
      ap (λ (v : List ℕ). xor_from v (suc p) (replicate n 0 ++ x ∷ [])) (xor_at-zero b p)
      ∙ xor_from-zeros b (suc p) n x)

xor_from-padding :
    (b : List ℕ) (p n : ℕ) → xor_from b p (padding (suc n)) ≡ xor_at (xor_at b p 0x06) (p + n) 0x80
xor_from-padding b p zero =
    let e : p + 0 ≡ p = omega arith in rw e (sym (xor_at-twice b p 0x06 0x80))
xor_from-padding b p (suc n) =
    let e : p + suc n ≡ suc p + n = omega arith in
    rw e (xor_from-zeros (xor_at b p 0x06) (suc p) n 0x80)

-- A context at the start of a block.
abbrev at_start : List ℕ → ℕ → ℕ → Sha3Ctx
at_start b rsiz mdlen = record { b = b; pt = 0; rsiz = rsiz; mdlen = mdlen }

module _ (f : List ℕ → List ℕ) where
  -- The sponge: each block is added to the state, which is permuted.
  abbrev pub absorb_blocks : List ℕ → List (List ℕ) → List ℕ
  absorb_blocks state [] = state
  absorb_blocks state (block ∷ blocks) = absorb_blocks (f (xor_front state block)) blocks

  absorb_blocks-append :
      (state : List ℕ) (blocks : List (List ℕ)) (last : List ℕ)
      → absorb_blocks state (blocks ++ last ∷ []) ≡ f (xor_front (absorb_blocks state blocks) last)
  absorb_blocks-append state [] last = refl
  absorb_blocks-append state (block ∷ blocks) last =
      absorb_blocks-append (f (xor_front state block)) blocks last

  -- Data that does not fill the block up.
  sha3_update-part :
      (c : Sha3Ctx) (text : List ℕ)
      → c.pt + length text < c.rsiz
      → sha3_update f c text ≡ record c { b = xor_from c.b c.pt text; pt = c.pt + length text }
  unfolding sha3_update absorb
  sha3_update-part c [] h = let e : c.pt + 0 ≡ c.pt = omega arith in rw e
  sha3_update-part c (x ∷ text) h =
      let room : leb c.rsiz (c.pt + 1) ≡ false = ground arith in
      let next : c.pt + 1 ≡ suc c.pt = omega arith in
      let e : c.pt + length (x ∷ text) ≡ suc c.pt + length text = omega arith in
      let c' = record c { b = xor_at c.b c.pt x; pt = suc c.pt } in
      rw (room, next, e) (sha3_update-part c' text (omega (arith, h)))

  sha3_update-rest :
      (b rest : List ℕ) (rate mdlen : ℕ)
      → length rest < rate
      → sha3_update f (at_start b rate mdlen) rest
        ≡ record { b = xor_from b 0 rest; pt = length rest; rsiz = rate; mdlen = mdlen }
  sha3_update-rest b rest rate mdlen less =
      let none : 0 + length rest ≡ length rest = omega arith in
      sha3_update-part (at_start b rate mdlen) rest (omega (arith, less))
      ∙ ap (λ (k : ℕ). record { b = xor_from b 0 rest; pt = k; rsiz = rate; mdlen = mdlen }) none

  -- Data that fills it up.
  sha3_update-full :
      (c : Sha3Ctx) (text : List ℕ)
      → c.pt < c.rsiz
      → c.pt + length text ≡ c.rsiz
      → sha3_update f c text ≡ record c { b = f (xor_from c.b c.pt text); pt = 0 }
  unfolding sha3_update absorb
  sha3_update-full c [] lt e = absurd (omega (arith, lt, e))
  sha3_update-full c (x ∷ []) lt e =
      let full : leb c.rsiz (c.pt + 1) ≡ true = ground arith in rw full
  sha3_update-full c (x ∷ y ∷ text) lt e =
      let room : leb c.rsiz (c.pt + 1) ≡ false = ground arith in
      let next : c.pt + 1 ≡ suc c.pt = omega arith in
      let c' = record c { b = xor_at c.b c.pt x; pt = suc c.pt } in
      rw (room, next) (sha3_update-full c' (y ∷ text) (omega (arith, e)) (omega (arith, e)))

  sha3_update-blocks :
      (b : List ℕ) (rsiz mdlen : ℕ) (blocks : List (List ℕ)) (rest : List ℕ)
      → 0 < rsiz
      → AllBlocks rsiz blocks
      → sha3_update f (at_start b rsiz mdlen) (join blocks ++ rest)
        ≡ sha3_update f (at_start (absorb_blocks b blocks) rsiz mdlen) rest
  sha3_update-blocks b rsiz mdlen [] rest some_rate sizes = refl
  sha3_update-blocks b rsiz mdlen (block ∷ blocks) rest some_rate (size, sizes) =
      let c = at_start b rsiz mdlen in
      let full = sha3_update-full c block some_rate (omega (arith, size)) in
      rw
        (
          append_assoc,
          sha3_update-append f c block (join blocks ++ rest),
          full,
          xor_from-xor_front b block,
        )
        (sha3_update-blocks (f (xor_front b block)) rsiz mdlen blocks rest some_rate sizes)

  -- The end of a message that leaves the rest of a block to fill up.
  sha3_final-padding :
      (b rest : List ℕ) (rate mdlen n : ℕ)
      → rate - length rest ≡ suc n
      → rate - 1 ≡ length rest + n
      → sha3_final f
          (record { b = xor_from b 0 rest; pt = length rest; rsiz = rate; mdlen = mdlen })
        ≡ take mdlen (f (xor_front b (rest ++ padding (rate - length rest))))
  unfolding sha3_final
  sha3_final-padding b rest rate mdlen n filled end =
      let none : 0 + length rest ≡ length rest = omega arith in
      let padded : xor_front b (rest ++ padding (suc n))
          ≡ xor_at (xor_at (xor_from b 0 rest) (length rest) 0x06) (length rest + n) 0x80 =
        sym (xor_from-xor_front b (rest ++ padding (suc n)))
        ∙ (xor_from-append b 0 rest (padding (suc n))
            ∙ (ap (λ (k : ℕ). xor_from (xor_from b 0 rest) k (padding (suc n))) none
                ∙ xor_from-padding (xor_from b 0 rest) (length rest) n)) in
      rw (end, filled, padded)

  -- Where the digest is shorter than 100 bytes, and the message is blocks of the rate, 200 bytes
  -- less twice the length of the digest, and a rest that is shorter than a block, the digest is
  -- that of the sponge of FIPS 202 over the permutation: the rest is filled up to a block by
  -- the padding (06, zeros, 80, or 86 in a single byte), each block is added to the state, which
  -- starts at zero, and the state is permuted, and the digest is the front of the last state.
  pub sha3-absorb_blocks :
      (mdlen : ℕ) (blocks : List (List ℕ)) (rest : List ℕ)
      → mdlen < 100
      → AllBlocks (200 - 2 * mdlen) blocks
      → length rest < 200 - 2 * mdlen
      → sha3 f (join blocks ++ rest) mdlen
        ≡ take mdlen (
            absorb_blocks
              (replicate 200 0)
              (blocks ++ (rest ++ padding (200 - 2 * mdlen - length rest)) ∷ []))
  unfolding sha3 sha3_init
  sha3-absorb_blocks mdlen blocks rest short sizes less =
      let rate = 200 - 2 * mdlen in
      let zeros : List ℕ = replicate 200 0 in
      let b : List ℕ = absorb_blocks zeros blocks in
      let last = rest ++ padding (rate - length rest) in
      let whole = sha3_update-blocks zeros rate mdlen blocks rest (omega (arith, less)) sizes in
      let part = sha3_update-rest b rest rate mdlen less in
      ap (sha3_final f) (whole ∙ part)
      ∙ (sha3_final-padding b rest rate mdlen (rate - length rest - 1) (omega (arith, less))
            (omega (arith, less))
          ∙ ap (take mdlen) (sym (absorb_blocks-append zeros blocks last)))
