-- ===== src/Crypto/Xed25519/Tests.antt =====
-- src/crypto/xed25519.c at concrete inputs, with a digest that repeats what it is given.
use libe.Common.{List, [], arith, length, refl, replicate, ℕ, ◌++◌, ◌∷◌, ◌≡◌}
use libe.Crypto.Xed25519.{xed25519_convert_ed2c_private}
use libe.Crypto.Xed25519.Scalar.{
  decoded_scalar, little_endian, xed25519_convert_ed2c_private-decoded_scalar,
}

abbrev doubled : List ℕ → List ℕ
doubled v = v ++ v

abbrev a_key : List ℕ
a_key = 255 ∷ replicate 30 3 ++ 255 ∷ []

clamped_key :
    xed25519_convert_ed2c_private doubled (a_key ++ replicate 32 0)
    ≡ 248 ∷ replicate 30 3 ++ 127 ∷ []
unfolding xed25519_convert_ed2c_private
clamped_key = refl

xed25519_convert_ed2c_private-decoded_scalar_example :
    let scalar = xed25519_convert_ed2c_private doubled (a_key ++ replicate 32 0) in
    (length scalar ≡ 32) × (little_endian scalar ≡ decoded_scalar a_key)
xed25519_convert_ed2c_private-decoded_scalar_example =
    xed25519_convert_ed2c_private-decoded_scalar doubled (a_key ++ replicate 32 0) refl
      (omega arith)
