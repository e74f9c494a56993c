-- ===== src/Util/Tests.antt =====
-- src/e4util.c and src/strlcpy.c at concrete inputs.
use libe.Common.{List, [], arith, length, refl, replicate, some, ℕ, ◌*◌, ◌++◌, ◌∷◌, ◌≡◌, ◌≤◌, ◌⊎◌}
use libe.Common.Int.{pos}
use libe.Common.Memory.{c_string}
use libe.Util.{e4c_hex_decode, e4c_derive_control_topic, decode_pairs, from_hex, write_pair}
use libe.Util.Hex.{hex, e4c_hex_decode-hex, e4c_hex_decode_bounds}
use libe.Util.Names.{prefix, c_string-e4c_derive_control_topic}

e4c_hex_decode-hex_example :
    e4c_hex_decode 4 (hex (0xca ∷ 0xfe ∷ 7 ∷ [])) ≡ some (6, 0xca ∷ 0xfe ∷ 7 ∷ [])
e4c_hex_decode-hex_example =
    e4c_hex_decode-hex 4 (0xca ∷ 0xfe ∷ 7 ∷ []) (omega arith) (omega arith) (omega arith)
      (omega arith)

e4c_hex_decode_bounds_example :
    (r : ℕ × List ℕ) × (e4c_hex_decode 1 (b'c' ∷ b'a' ∷ b'f' ∷ b'g' ∷ []) ≡ some r)
    × (length r.1 ≤ 1)
    × ((r.0 ≡ 0) ⊎ ((r.0 ≡ 4) × (r.0 ≡ 2 * length r.1)))
e4c_hex_decode_bounds_example =
    e4c_hex_decode_bounds 1 (b'c' ∷ b'a' ∷ b'f' ∷ b'g' ∷ []) (omega arith)

-- Upper-case digits are read too, and a bad digit leaves the bytes before it written.
decode_runs :
    (e4c_hex_decode 2 (b'C' ∷ b'a' ∷ []) ≡ some (2, 0xca ∷ []))
    × (e4c_hex_decode 2 (b'c' ∷ b'a' ∷ b'f' ∷ b'g' ∷ []) ≡ some (0, 0xca ∷ []))
unfolding e4c_hex_decode decode_pairs write_pair from_hex
decode_runs = (refl, refl)

abbrev an_id : List ℕ
an_id = replicate 16 0xab

c_string-e4c_derive_control_topic_example :
    let r = e4c_derive_control_topic (replicate 40 1) 40 an_id in
    (r.0 ≡ pos 0) × (c_string r.1 ≡ prefix ++ hex an_id)
c_string-e4c_derive_control_topic_example =
    c_string-e4c_derive_control_topic (replicate 40 1) 40 an_id (omega arith)
