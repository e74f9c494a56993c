-- ===== src/Util/Zero.antt =====
-- src/e4util.c: zeroize and zerocheck.
use libe.Common.{List, [], ap, arith, bit_or, length, refl, suc, ℕ, ◌∷◌, ◌≡◌, ◌≤◌}
use mathlib.Core.Logic.{◌↔◌}
use libe.Common.Or.{le-bit_or, zero-bit_or}
use libe.Util.{zeroize, zerocheck, zerocheck_from}

abbrev AllZero : List ℕ → Type 0
AllZero [] = Unit
AllZero (x ∷ v) = (x ≡ 0) × AllZero v

le-zerocheck_from : (sum : ℕ) (v : List ℕ) → sum ≤ zerocheck_from sum v
unfolding zerocheck_from
le-zerocheck_from sum [] = omega arith
le-zerocheck_from sum (x ∷ v) =
    omega (arith, (le-bit_or sum x).0, le-zerocheck_from (bit_or sum x) v)

zerocheck_from-AllZero : (sum : ℕ) (v : List ℕ) → zerocheck_from sum v ≡ 0 → AllZero v
unfolding zerocheck_from
zerocheck_from-AllZero sum [] h = tt
zerocheck_from-AllZero sum (x ∷ v) h = (
  omega (arith, (le-bit_or sum x).1, le-zerocheck_from (bit_or sum x) v),
  zerocheck_from-AllZero (bit_or sum x) v h,
)

AllZero-zerocheck_from : (v : List ℕ) → AllZero v → zerocheck_from 0 v ≡ 0
unfolding zerocheck_from
AllZero-zerocheck_from [] h = refl
AllZero-zerocheck_from (x ∷ v) h = rw (h.0, zero-bit_or 0) (AllZero-zerocheck_from v h.1)

-- The check of a buffer is 0 exactly if every byte of it is 0.
zerocheck-eq-zero : (v : List ℕ) → (zerocheck v ≡ 0) ↔ AllZero v
unfolding zerocheck
zerocheck-eq-zero v = (zerocheck_from-AllZero 0 v, AllZero-zerocheck_from v)

-- After the whole of a buffer is zeroed its length is as before and its check is 0.
zerocheck-zeroize :
    (v : List ℕ)
    → (zerocheck (zeroize v (length v)) ≡ 0) × (length (zeroize v (length v)) ≡ length v)
unfolding zeroize
zerocheck-zeroize v = ((zerocheck-eq-zero _).1 (cleared v), same_length v)
  where
    cleared : (w : List ℕ) → AllZero (zeroize w (length w))
    cleared [] = tt
    cleared (x ∷ w) = (refl, cleared w)

    same_length : (w : List ℕ) → length (zeroize w (length w)) ≡ length w
    same_length [] = refl
    same_length (x ∷ w) = ap suc (same_length w)
