-- ===== src/Crypto/Keccak/Rounds.antt =====
-- src/crypto/keccakf1600.c computes the rounds of FIPS 202.
use libe.Common.{
  List, ap, arith, get_or, length, refl, suc, take_all, zero, ℕ, ◌*◌, ◌+◌, ◌/◌, ◌<◌, ◌∙◌, ◌≡◌, ◌≤◌,
}
use libe.Crypto.Keccak.Words.{entries_from-take}
use libe.Common.Tabulate.{get_or-table}
use libe.Crypto.Keccak.{
  Lanes, chi, copy_from_state, copy_to_state, keccak_round, prepare_theta, round_constants,
  rounds_from, theta, keccak_f1600,
}
use libe.Crypto.Keccak.Reference.{reference_rounds, round_constant, steps}

keccak_round-steps :
    (constant : ℕ) (A : Lanes)
    → copy_to_state (keccak_round constant A) ≡ steps constant (copy_to_state A)
unfolding copy_to_state keccak_round prepare_theta theta chi steps
keccak_round-steps constant A = refl

get_or-round_constants : (k : ℕ) → k < 24 → get_or round_constants k 0 ≡ round_constant k
unfolding round_constant
get_or-round_constants k h = get_or-table round_constant 24 k 0 round_constants refl h

rounds_from-reference :
    (n round : ℕ) (A : Lanes)
    → round + 2 * n ≤ 24
    → copy_to_state (rounds_from n round A) ≡ reference_rounds (2 * n) round (copy_to_state A)
unfolding rounds_from reference_rounds
rounds_from-reference zero round A h = refl
rounds_from-reference (suc n) round A h =
    let even : 2 * suc n ≡ suc (suc (2 * n)) = omega arith in
    let next : round + 2 ≡ round + 1 + 1 = omega arith in
    let E = keccak_round (round_constant round) A in
    let later : List ℕ =
      steps (round_constant (round + 1)) (steps (round_constant round) (copy_to_state A)) in
    let ih =
      rounds_from-reference n (round + 2) (keccak_round (round_constant (round + 1)) E)
        (omega arith) in
    rw
      (
        even,
        get_or-round_constants round (omega arith),
        get_or-round_constants (round + 1) (omega arith),
        ih,
        keccak_round-steps (round_constant (round + 1)) E,
        keccak_round-steps (round_constant round) A,
      )
      (ap (λ (r : ℕ). reference_rounds (2 * n) r later) next)

copy_to_state-copy_from_state :
    (state : List ℕ) → length state ≡ 25 → copy_to_state (copy_from_state state) ≡ state
unfolding copy_to_state copy_from_state
copy_to_state-copy_from_state state n =
    entries_from-take 25 state (omega arith) ∙ take_all 25 state (omega arith)

-- On 25 words, an even number of rounds, of which there are constants for 24, computes as many
-- rounds of Keccak-f[1600] as FIPS 202 defines it, with the constants of its shift register.
pub keccak_f1600-reference_rounds :
    (state : List ℕ) (n : ℕ)
    → length state ≡ 25
    → n ≤ 12
    → keccak_f1600 state (2 * n) ≡ reference_rounds (2 * n) 0 state
unfolding keccak_f1600
keccak_f1600-reference_rounds state n size few =
    let half : (2 * n + 1) / 2 ≡ n = omega arith in
    rw (
      half,
      rounds_from-reference n 0 (copy_from_state state) (omega arith),
      copy_to_state-copy_from_state state size,
    )
