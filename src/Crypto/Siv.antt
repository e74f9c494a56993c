-- ===== src/Crypto/Siv.antt =====
-- src/crypto/aes_siv.c: AES-SIV from CMAC and counter mode, over a block cipher.
-- A pointer with its length is one list; `blk`, `k12`, `cnt` and `d` hold 16 bytes.
pub mod Roundtrip
pub mod Counter
pub mod Stream
pub mod Doubling
mod Tests
use libe.Common.{
  Bool, List, Option, [], bit_and, bit_xor, drop, false, get_or, if◌then◌else◌, leb, length, ltb,
  none, replicate, set, some, take, true, ℕ, ◌%◌, ◌*◌, ◌++◌, ◌+◌, ◌-◌, ◌/◌, ◌==◌, ◌^◌, ◌∷◌,
}
use libe.Common.Int.{ℤ}
use libe.Common.Memory.{memcmp}
use libe.Crypto.Cipher.{Cipher}

-- The loop of cmac_dbl, from the last byte to the first: the bytes and the bits left in `x`.
unfoldable pub shift_left : List ℕ → List ℕ × ℕ
shift_left [] = ([], 0)
shift_left (b ∷ v) =
    let (v', x) = shift_left v in let y = (x + b * 2) % 2 ^ 16 in (y % 2 ^ 8 ∷ v', y / 2 ^ 8)

unfoldable pub cmac_dbl : List ℕ → List ℕ
unfolding shift_left
cmac_dbl v =
    let (w, x) = shift_left v in
    set w 15 (bit_xor (get_or w 15 0) (bit_and ((2 ^ 32 - x) % 2 ^ 32) 0x87))

-- d[i] ^= x[i] for the bytes of the shorter second array
unfoldable pub xor_prefix : List ℕ → List ℕ → List ℕ
xor_prefix [] xs = []
xor_prefix (d ∷ ds) [] = d ∷ ds
xor_prefix (d ∷ ds) (x ∷ xs) = bit_xor d x ∷ xor_prefix ds xs

-- The loop of siv_ctr that increments `cnt`: the bytes, and whether it ran off the front.
unfoldable pub incr : List ℕ → List ℕ × Bool
incr [] = ([], true)
incr (b ∷ v) =
    let (v', carry) = incr v in
    if carry then ((b + 1) % 2 ^ 8 ∷ v', (b + 1) % 2 ^ 8 == 0) else (b ∷ v', false)

pub record Keystream : Type 0 where
  pub cnt : List ℕ
  pub blk : List ℕ
  pub j : ℕ

pub record Mac : Type 0 where
  pub blk : List ℕ
  pub j : ℕ

pub record Encrypted : Type 0 where
  pub ct : List ℕ
  pub ctlen : ℕ

pub record Decrypted : Type 0 where
  pub status : ℤ
  pub pt : List ℕ
  pub ptlen : ℕ

abbrev mix : Mac → ℕ → Mac
mix m x = record m { blk = set m.blk m.j (bit_xor (get_or m.blk m.j 0) x) }

abbrev start : Mac
start = record { blk = replicate 16 0; j = 0 }

-- cnt[8] &= 0x7F; cnt[12] &= 0x7F
abbrev masked : List ℕ → List ℕ
masked iv =
    let cnt = set iv 8 (bit_and (get_or iv 8 0) 0x7f) in set cnt 12 (bit_and (get_or cnt 12 0) 0x7f)

module _ (c : Cipher) (eky : List ℕ) where
  -- if (j >= 16) { encrypt blk; j = 0; }
  unfoldable pub chain : Mac → Mac
  chain m = if leb 16 m.j then record { blk = c.encrypt_ecb m.blk eky; j = 0 } else m

  -- The first loop: the index, the bytes left and the state where it stops.
  unfoldable pub process : ℕ → ℕ → List ℕ → Mac → ℕ × List ℕ × Mac
  unfolding chain
  process len i [] m = (i, [], m)
  process len i (x ∷ xs) m =
      let m' = mix (chain m) x in
      let rest = process len (i + 1) xs (record m' { j = m'.j + 1 }) in
      if ltb (i + 16) len then rest else (i, x ∷ xs, m)

  abbrev chaining : Option (List ℕ) → ℕ → Mac → Mac
  chaining none k m = m
  chaining (some xorend) k m = mix m (get_or xorend k 0)

  -- The second loop.
  unfoldable pub process_last : Option (List ℕ) → ℕ → ℕ → List ℕ → Mac → Mac
  unfolding chain
  process_last xorend len i [] m = m
  process_last xorend len i (x ∷ xs) m =
      let m' = mix (chaining xorend (i + 16 - len) (chain m)) x in
      process_last xorend len (i + 1) xs (record m' { j = m'.j + 1 })

  unfoldable pub siv_cmac : List ℕ → Option (List ℕ) → List ℕ
  unfolding process process_last
  siv_cmac text xorend =
      let len = length text in
      let k12 = cmac_dbl (c.encrypt_ecb (replicate 16 0) eky) in
      let (i, rest, m) = process len 0 text start in
      let m = process_last xorend len i rest m in
      let padded = xor_prefix (mix m 0x80).blk (cmac_dbl k12) in
      c.encrypt_ecb (if ltb m.j 16 then padded else xor_prefix m.blk k12) eky

  unfoldable pub refill : Keystream → Keystream
  unfolding incr
  refill s =
      if leb 16 s.j
      then record { cnt = (incr s.cnt).0; blk = c.encrypt_ecb s.cnt eky; j = 0 }
      else s

  unfoldable pub ctr_loop : List ℕ → Keystream → List ℕ
  ctr_loop [] s = []
  ctr_loop (x ∷ xs) s =
      let s' = refill s in
      bit_xor x (get_or s'.blk s'.j 0) ∷ ctr_loop xs (record s' { j = s'.j + 1 })

  unfoldable pub siv_ctr : List ℕ → List ℕ → List ℕ
  siv_ctr src iv = ctr_loop src (record { cnt = masked iv; blk = replicate 16 0; j = 16 })

  -- The CMAC part, which encryption and decryption spell out alike.
  unfoldable pub siv_tag : List ℕ → List ℕ → List ℕ
  siv_tag ad pt =
      let d = cmac_dbl (siv_cmac (replicate 16 0) none) in
      let d = xor_prefix d (siv_cmac ad none) in
      let short = xor_prefix (cmac_dbl d) pt in
      if leb 16 (length pt)
      then siv_cmac pt (some d)
      else siv_cmac (set short (length pt) (bit_xor (get_or short (length pt) 0) 0x80)) none

unfoldable pub aes256_encrypt_siv : Cipher → List ℕ → List ℕ → List ℕ → Encrypted
aes256_encrypt_siv c ad pt key =
    let eky = c.enc_exp_key key in
    let tag = siv_tag c eky ad pt in
    record { ct = tag ++ siv_ctr c eky pt tag; ctlen = length pt + 16 }

-- `ctlen` is at least 16 in every call; below that the subtraction of the source wraps.
unfoldable pub aes256_decrypt_siv : Cipher → List ℕ → List ℕ → List ℕ → Decrypted
aes256_decrypt_siv c ad ct key =
    let eky = c.enc_exp_key key in
    let ptlen = (length ct + 2 ^ 64 - 16) % 2 ^ 64 in
    let pt = siv_ctr c eky (take ptlen (drop 16 ct)) (take 16 ct) in
    record { status = memcmp (take 16 ct) (siv_tag c eky ad pt); pt = pt; ptlen = ptlen }
