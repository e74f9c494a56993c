-- ===== src/Crypto/Keccak/Reference.antt =====
-- The permutation Keccak-f[1600] as FIPS 202 defines it, against which src/crypto/keccakf1600.c is
-- held: the steps theta, rho, pi, chi and iota on lanes A[x, y], and the round constants from the
-- shift register.
use libe.Common.{
  List, [], get_or, if◌then◌else◌, leb, suc, zero, ℕ, ◌%◌, ◌&&◌, ◌*◌, ◌+◌, ◌-◌, ◌/◌, ◌==◌, ◌^◌, ◌∷◌,
}
use libe.Crypto.Keccak.{complement, rol, ◌&◌, ◌⊕◌}

-- A[x, y]; both coordinates are taken modulo 5.
abbrev pub Grid : Type 0
Grid = ℕ → ℕ → ℕ

abbrev pub grid : List ℕ → Grid
grid state x y = get_or state (x + 5 * y) 0

abbrev column : Grid → ℕ → ℕ
column A x = A x 0 ⊕ A x 1 ⊕ A x 2 ⊕ A x 3 ⊕ A x 4

abbrev theta_step : Grid → Grid
theta_step A x y = A x y ⊕ (column A ((x + 4) % 5) ⊕ rol (column A ((x + 1) % 5)) 1)

-- Where the walk from (1, 0) that goes from (x, y) to (y, 2x + 3y) meets a lane: the offset there.
abbrev offset_from : ℕ → ℕ → ℕ → ℕ → ℕ → ℕ → ℕ
offset_from zero t x' y' x y = 0
offset_from (suc n) t x' y' x y =
    let rest = offset_from n (t + 1) y' ((2 * x' + 3 * y') % 5) x y in
    if (x' == x) && (y' == y) then ((t + 1) * (t + 2) / 2) % 64 else rest

-- The lane in the middle stays.
abbrev rho_step : Grid → Grid
rho_step A x y = if (x == 0) && (y == 0) then A x y else rol (A x y) (offset_from 24 0 1 0 x y)

abbrev pi_step : Grid → Grid
pi_step A x y = A ((x + 3 * y) % 5) x

abbrev chi_step : Grid → Grid
chi_step A x y = A x y ⊕ (complement (A ((x + 1) % 5) y) & A ((x + 2) % 5) y)

abbrev iota_step : ℕ → Grid → Grid
iota_step constant A x y = if (x == 0) && (y == 0) then A x y ⊕ constant else A x y

-- The shift register after so many steps; R[0] is the lowest bit.
abbrev register : ℕ → ℕ
register zero = 1
register (suc t) = let r = register t * 2 in if leb 256 r then (r - 256) ⊕ 0x71 else r

-- The bits j, …, 6 of the constant of a round, with so many left.
abbrev constant_from : ℕ → ℕ → ℕ → ℕ
constant_from zero j round = 0
constant_from (suc n) j round =
    register (j + 7 * round) % 2 * 2 ^ (2 ^ j - 1) + constant_from n (j + 1) round

unfoldable pub round_constant : ℕ → ℕ
round_constant round = constant_from 7 0 round

-- The lanes i, i + 1, … in the order of the state, with so many left.
abbrev lanes_from : ℕ → ℕ → Grid → List ℕ
lanes_from zero i A = []
lanes_from (suc n) i A = A (i % 5) (i / 5) ∷ lanes_from n (i + 1) A

unfoldable pub steps : ℕ → List ℕ → List ℕ
steps constant state =
    lanes_from 25 0 (iota_step constant (chi_step (pi_step (rho_step (theta_step (grid state))))))

-- So many rounds from one on.
unfoldable pub reference_rounds : ℕ → ℕ → List ℕ → List ℕ
reference_rounds zero round state = state
reference_rounds (suc n) round state =
    reference_rounds n (round + 1) (steps (round_constant round) state)
