-- ===== src/Crypto/Keccak.antt =====
-- src/crypto/keccakf1600.c: the permutation. A uint64_t is a number below 2^64; the 25 variables
-- Aba, …, Asu are five planes of five lanes. The body of the loop is the same code twice, once from
-- A to E and once from E to A.
pub mod Words
pub mod Reference
pub mod Rounds
pub mod Bytes
mod Tests
use libe.Common.{
  List, [], bit_and, bit_or, bit_xor, drop, get_or, length, suc, zero, ℕ, ◌%◌, ◌*◌, ◌++◌, ◌+◌, ◌-◌,
  ◌/◌, ◌^◌, ◌∷◌,
}

-- The operators ^, & and ~ of uint64_t.
infixl 66 ◌⊕◌
abbrev pub ◌⊕◌ : ℕ → ℕ → ℕ
a ⊕ b = bit_xor a b

infixl 68 ◌&◌
abbrev pub ◌&◌ : ℕ → ℕ → ℕ
a & b = bit_and a b

abbrev pub complement : ℕ → ℕ
complement a = 2 ^ 64 - 1 - a

-- ROL(a, offset)
unfoldable pub rol : ℕ → ℕ → ℕ
rol a offset = (a * 2 ^ offset) % 2 ^ 64 ⊕ a / 2 ^ (64 - offset)

-- KeccakF_RoundConstants
abbrev pub round_constants : List ℕ
round_constants =
    0x0000000000000001 ∷ 0x0000000000008082 ∷ 0x800000000000808a ∷ 0x8000000080008000
    ∷ 0x000000000000808b ∷ 0x0000000080000001 ∷ 0x8000000080008081 ∷ 0x8000000000008009
    ∷ 0x000000000000008a ∷ 0x0000000000000088 ∷ 0x0000000080008009 ∷ 0x000000008000000a
    ∷ 0x000000008000808b ∷ 0x800000000000008b ∷ 0x8000000000008089 ∷ 0x8000000000008003
    ∷ 0x8000000000008002 ∷ 0x8000000000000080 ∷ 0x000000000000800a ∷ 0x800000008000000a
    ∷ 0x8000000080008081 ∷ 0x8000000000008080 ∷ 0x0000000080000001 ∷ 0x8000000080008008 ∷ []

pub record Plane : Type 0 where
  pub a : ℕ
  pub e : ℕ
  pub i : ℕ
  pub o : ℕ
  pub u : ℕ

pub record Lanes : Type 0 where
  pub b : Plane
  pub g : Plane
  pub k : Plane
  pub m : Plane
  pub s : Plane

unfoldable pub copy_from_state : List ℕ → Lanes
copy_from_state state =
    let plane : ℕ → Plane = λ n. record {
      a = get_or state n 0;
      e = get_or state (n + 1) 0;
      i = get_or state (n + 2) 0;
      o = get_or state (n + 3) 0;
      u = get_or state (n + 4) 0;
    } in
    record { b = plane 0; g = plane 5; k = plane 10; m = plane 15; s = plane 20 }

unfoldable pub copy_to_state : Lanes → List ℕ
copy_to_state A =
    A.b.a ∷ A.b.e ∷ A.b.i ∷ A.b.o ∷ A.b.u ∷ A.g.a ∷ A.g.e ∷ A.g.i ∷ A.g.o ∷ A.g.u ∷ A.k.a ∷ A.k.e
    ∷ A.k.i ∷ A.k.o ∷ A.k.u ∷ A.m.a ∷ A.m.e ∷ A.m.i ∷ A.m.o ∷ A.m.u ∷ A.s.a ∷ A.s.e ∷ A.s.i ∷ A.s.o
    ∷ A.s.u ∷ []

-- BCa, …, BCu
unfoldable pub prepare_theta : Lanes → Plane
prepare_theta A = record {
  a = A.b.a ⊕ A.g.a ⊕ A.k.a ⊕ A.m.a ⊕ A.s.a;
  e = A.b.e ⊕ A.g.e ⊕ A.k.e ⊕ A.m.e ⊕ A.s.e;
  i = A.b.i ⊕ A.g.i ⊕ A.k.i ⊕ A.m.i ⊕ A.s.i;
  o = A.b.o ⊕ A.g.o ⊕ A.k.o ⊕ A.m.o ⊕ A.s.o;
  u = A.b.u ⊕ A.g.u ⊕ A.k.u ⊕ A.m.u ⊕ A.s.u;
}

-- Da, …, Du
unfoldable pub theta : Plane → Plane
unfolding rol
theta BC = record {
  a = BC.u ⊕ rol BC.e 1;
  e = BC.a ⊕ rol BC.i 1;
  i = BC.e ⊕ rol BC.o 1;
  o = BC.i ⊕ rol BC.u 1;
  u = BC.o ⊕ rol BC.a 1;
}

-- The five lanes of a plane that are computed from BCa, …, BCu.
unfoldable pub chi : Plane → Plane
chi BC = record {
  a = BC.a ⊕ (complement BC.e & BC.i);
  e = BC.e ⊕ (complement BC.i & BC.o);
  i = BC.i ⊕ (complement BC.o & BC.u);
  o = BC.o ⊕ (complement BC.u & BC.a);
  u = BC.u ⊕ (complement BC.a & BC.e);
}

-- thetaRhoPiChiIotaPrepareTheta, with the constant of the round.
unfoldable pub keccak_round : ℕ → Lanes → Lanes
unfolding prepare_theta theta chi
keccak_round constant A =
    let D = theta (prepare_theta A) in
    let Eb = chi (record {
      a = A.b.a ⊕ D.a;
      e = rol (A.g.e ⊕ D.e) 44;
      i = rol (A.k.i ⊕ D.i) 43;
      o = rol (A.m.o ⊕ D.o) 21;
      u = rol (A.s.u ⊕ D.u) 14;
    }) in
    record {
      b = record Eb { a = Eb.a ⊕ constant };
      g = chi (record {
        a = rol (A.b.o ⊕ D.o) 28;
        e = rol (A.g.u ⊕ D.u) 20;
        i = rol (A.k.a ⊕ D.a) 3;
        o = rol (A.m.e ⊕ D.e) 45;
        u = rol (A.s.i ⊕ D.i) 61;
      });
      k = chi (record {
        a = rol (A.b.e ⊕ D.e) 1;
        e = rol (A.g.i ⊕ D.i) 6;
        i = rol (A.k.o ⊕ D.o) 25;
        o = rol (A.m.u ⊕ D.u) 8;
        u = rol (A.s.a ⊕ D.a) 18;
      });
      m = chi (record {
        a = rol (A.b.u ⊕ D.u) 27;
        e = rol (A.g.a ⊕ D.a) 36;
        i = rol (A.k.e ⊕ D.e) 10;
        o = rol (A.m.i ⊕ D.i) 15;
        u = rol (A.s.o ⊕ D.o) 56;
      });
      s = chi (record {
        a = rol (A.b.i ⊕ D.i) 62;
        e = rol (A.g.o ⊕ D.o) 55;
        i = rol (A.k.u ⊕ D.u) 39;
        o = rol (A.m.a ⊕ D.a) 41;
        u = rol (A.s.e ⊕ D.e) 2;
      });
    }

-- The loop from a round on, two rounds at a time, with so many times left.
unfoldable pub rounds_from : ℕ → ℕ → Lanes → Lanes
unfolding keccak_round
rounds_from zero round A = A
rounds_from (suc n) round A =
    let E = keccak_round (get_or round_constants round 0) A in
    rounds_from n (round + 2) (keccak_round (get_or round_constants (round + 1) 0) E)

unfoldable pub keccak_f1600 : List ℕ → ℕ → List ℕ
unfolding copy_from_state copy_to_state rounds_from
keccak_f1600 state rc = copy_to_state (rounds_from ((rc + 1) / 2) 0 (copy_from_state state))

-- r |= x[i] << 8 * i, from i on, with so many rounds left
unfoldable pub load64_from : ℕ → ℕ → ℕ → List ℕ → ℕ
load64_from zero i r x = r
load64_from (suc n) i r x = load64_from n (i + 1) (bit_or r (get_or x i 0 * 2 ^ (8 * i))) x

unfoldable pub load64 : List ℕ → ℕ
unfolding load64_from
load64 x = load64_from 8 0 0 x

-- The bytes that are stored, with so many rounds left.
unfoldable pub store64_from : ℕ → ℕ → List ℕ
store64_from zero u = []
store64_from (suc n) u = u % 2 ^ 8 ∷ store64_from n (u / 2 ^ 8)

unfoldable pub store64 : ℕ → List ℕ
unfolding store64_from
store64 u = store64_from 8 u

-- The first words of a state as bytes, over what is in `bytes`.
unfoldable pub extract_words : ℕ → List ℕ → List ℕ → List ℕ
extract_words zero state bytes = bytes
extract_words (suc n) [] bytes = bytes
extract_words (suc n) (w ∷ state) bytes = store64 w ++ extract_words n state (drop 8 bytes)

unfoldable pub state_extract_bytes : List ℕ → List ℕ → ℕ → List ℕ
unfolding extract_words
state_extract_bytes state bytes length = extract_words (length / 8) state bytes

unfoldable pub xor_words : ℕ → List ℕ → List ℕ → List ℕ
xor_words zero state bytes = state
xor_words (suc n) [] bytes = []
xor_words (suc n) (w ∷ state) bytes = (w ⊕ load64 bytes) ∷ xor_words n state (drop 8 bytes)

unfoldable pub state_xor_bytes : List ℕ → List ℕ → ℕ → List ℕ
unfolding xor_words
state_xor_bytes state bytes length = xor_words (length / 8) state bytes

-- The words in an array of bytes, as a uint64_t * sees them on a little-endian machine.
unfoldable pub words_from : ℕ → List ℕ → List ℕ
words_from zero bytes = []
words_from (suc n) bytes = load64 bytes ∷ words_from n (drop 8 bytes)

-- keccak_f1600(c->b, KECCAKF_ROUNDS) on the 200 bytes of a state.
unfoldable pub permuted : List ℕ → List ℕ
unfolding keccak_f1600 words_from extract_words
permuted b = extract_words 25 (keccak_f1600 (words_from 25 b) 24) []
