-- ===== src/Util/Names.antt =====
-- src/e4util.c: the control topic of a client is "e4/" and its id in hexadecimal.
use libe.Common.{
  List, [], ap, arith, drop, drop_past, false, length, length-append, length-take, ltb, refl, sym,
  take, take_all, take_front, ℕ, ◌%◌, ◌*◌, ◌++◌, ◌+◌, ◌-◌, ◌/◌, ◌<◌, ◌==◌, ◌∙◌, ◌∷◌, ◌≡◌, ◌≤◌,
}
use mathlib.Core.List.{append_assoc, append-nil}
use libe.Common.Int.{pos}
use libe.Common.Memory.{c_string, snprintf, hex2, hex_digit}
use libe.Util.{print_id, e4c_derive_control_topic, e4c_derive_topichash}
use libe.Util.Hex.{hex}
use libe.Protocol.{ctrltopic_len}
use libe.Crypto.Sha3.{sha3_256_trunc}

abbrev pub prefix : List ℕ
prefix = b'e' ∷ b'4' ∷ b'/' ∷ []

abbrev pub NoZero : List ℕ → Type 0
NoZero [] = Unit
NoZero (x ∷ xs) = ((x == 0) ≡ false) × NoZero xs

pub c_string_append : (xs ys : List ℕ) → NoZero xs → c_string (xs ++ 0 ∷ ys) ≡ xs
unfolding c_string
c_string_append [] ys h = refl
c_string_append (x ∷ xs) ys h = rw (h.0, c_string) (ap (◌∷◌ x) (c_string_append xs ys h.1))

nonzero : (n : ℕ) → (hex_digit n == 0) ≡ false
nonzero n = ground arith

NoZero-hex : (v : List ℕ) → NoZero (hex v)
NoZero-hex [] = tt
NoZero-hex (b ∷ v) = (nonzero (b / 16), (nonzero (b % 16), NoZero-hex v))

-- One snprintf at the end of what is printed so far replaces the zero there.
snprintf_end :
    (xs rest : List ℕ) (size b c : ℕ)
    → 3 ≤ size
    → snprintf (xs ++ 0 ∷ rest) (length xs) size (b ∷ c ∷ [])
      ≡ (xs ++ b ∷ c ∷ []) ++ 0 ∷ drop 2 rest
unfolding snprintf
snprintf_end xs rest size b c s =
    let some_room : (size == 0) ≡ false = ground arith in
    rw
      (
        some_room,
        take_all (size - 1) (b ∷ c ∷ []) (omega arith),
        take_front (length xs) xs (0 ∷ rest) refl,
        drop_past 3 (length xs + 3) xs (0 ∷ rest) refl,
      )
      (sym (append_assoc xs (b ∷ c ∷ []) (0 ∷ drop 2 rest)))

print_id-hex :
    (id xs rest : List ℕ) (topiclen i : ℕ)
    → length xs ≡ 3 + 2 * i
    → 3 + 2 * (i + length id) < topiclen
    → (rest' : List ℕ) × (print_id (xs ++ 0 ∷ rest) topiclen i id ≡ (xs ++ hex id) ++ 0 ∷ rest')
unfolding print_id
print_id-hex [] xs rest topiclen i n s = (rest, rw (append-nil xs))
print_id-hex (x ∷ id) xs rest topiclen i n s =
    let two = hex2 x in
    let more : length (xs ++ two) ≡ 3 + 2 * (i + 1) = omega (arith, length-append xs two, n) in
    let ih = print_id-hex id (xs ++ two) (drop 2 rest) topiclen (i + 1) more (omega arith) in
    (
      ih.0,
      rw
          (
            ← n,
            snprintf_end xs rest (topiclen - length xs) (hex_digit (x / 16)) (hex_digit (x % 16))
                (omega arith),
          )
          (ih.1 ∙ ap (λ (l : List ℕ). l ++ 0 ∷ ih.0) (append_assoc xs two (hex id))),
    )

-- Given a buffer of 36 bytes or more and an id, the control topic is derived without an error,
-- and the string left in the buffer is "e4/" and the digits of the first 16 bytes of the id.
pub c_string-e4c_derive_control_topic :
    (topic : List ℕ) (topiclen : ℕ) (clientid : List ℕ)
    → 36 ≤ topiclen
    → let r = e4c_derive_control_topic topic topiclen clientid in
      (r.0 ≡ pos 0) × (c_string r.1 ≡ prefix ++ hex (take 16 clientid))
unfolding e4c_derive_control_topic snprintf
c_string-e4c_derive_control_topic topic topiclen clientid fits =
    let room : ltb topiclen (ctrltopic_len + 1) ≡ false = ground arith in
    let id = take 16 clientid in
    let some_room : (topiclen == 0) ≡ false = ground arith in
    let r =
      print_id-hex id prefix (drop 4 topic) topiclen 0 refl
        (omega (arith, length-take 16 clientid)) in
    rw (room, some_room, take_all (topiclen - 1) prefix (omega arith), r.1)
      (refl, c_string_append (prefix ++ hex id) r.0 (refl, (refl, (refl, NoZero-hex id))))

-- A topic hash of 16 bytes is derived without an error.
pub e4c_derive_topichash_lem :
    (keccak_f1600 : List ℕ → List ℕ) (topic : List ℕ)
    → e4c_derive_topichash keccak_f1600 16 topic
      ≡ (pos 0, sha3_256_trunc keccak_f1600 16 (c_string topic))
unfolding e4c_derive_topichash
e4c_derive_topichash_lem keccak_f1600 topic = refl
