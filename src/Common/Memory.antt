-- ===== src/Common/Memory.antt =====
-- The functions of <string.h> and <stdio.h> that the sources call on byte arrays.
use Prim.Native.Nat.{ℕ, ◌+◌, ◌-◌, ◌/◌, ◌%◌}
use mathlib.Core.Path.{◌≡◌, refl}
use mathlib.Core.Bool.{true, false}
use mathlib.Core.List.{List, [], ◌∷◌, ◌++◌}
use native.Mathlib.Omega.{arith}
use libe.Common.Tests.{ltb, ◌==◌, if◌then◌else◌}
use libe.Common.Arrays.{length, take, drop}
use libe.Common.Int.{ℤ, pos, negsuc, is_zero}

-- memcmp on two arrays of one length. The standard fixes only the sign of the result.
unfoldable pub memcmp : List ℕ → List ℕ → ℤ
memcmp [] [] = pos 0
memcmp [] (y ∷ ys) = negsuc 0
memcmp (x ∷ xs) [] = pos 1
memcmp (x ∷ xs) (y ∷ ys) = if x == y then memcmp xs ys else if ltb x y then negsuc 0 else pos 1

pub memcmp_self : (xs : List ℕ) → memcmp xs xs ≡ pos 0
unfolding memcmp
memcmp_self [] = refl
memcmp_self (x ∷ xs) = ground (arith, memcmp_self xs)

pub memcmp_sound : (xs ys : List ℕ) → is_zero (memcmp xs ys) ≡ true → xs ≡ ys
unfolding memcmp
memcmp_sound [] [] h = refl
memcmp_sound [] (y ∷ ys) h = ground arith
memcmp_sound (x ∷ xs) [] h = ground arith
memcmp_sound (x ∷ xs) (y ∷ ys) h = ground (arith, memcmp_sound xs ys)

-- The bytes of a string before its terminating zero.
unfoldable pub c_string : List ℕ → List ℕ
c_string [] = []
c_string (x ∷ xs) = elim (x == 0) [ true ↦ [] | false ↦ x ∷ c_string xs ]

-- snprintf(buf + off, size, …) of a text: as much as fits, and a terminating zero.
unfoldable pub snprintf : List ℕ → ℕ → ℕ → List ℕ → List ℕ
snprintf buf off size text =
    let written = take (size - 1) text ++ 0 ∷ [] in
    if size == 0 then buf else take off buf ++ (written ++ drop (off + length written) buf)

-- The two digits of "%02x" for a byte.
abbrev pub hex_digit : ℕ → ℕ
hex_digit n = if ltb n 10 then b'0' + n else b'a' + (n - 10)

abbrev pub hex2 : ℕ → List ℕ
hex2 b = hex_digit (b / 16) ∷ hex_digit (b % 16) ∷ []
