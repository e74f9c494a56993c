-- ===== src/Util/Strings.antt =====
-- src/strlcpy.c: what is copied, and the length that is returned.
use libe.Common.{
  Bool-cases, List, [], arith, false, if◌then◌else◌, inl, inr, length, le→ltb, ltb, lt→ltb, refl,
  suc, sym, take, take_all, true, zero, ℕ, ◌++◌, ◌-◌, ◌<◌, ◌==◌, ◌∙◌, ◌∷◌, ◌≡◌,
}
use mathlib.Core.List.{append_assoc}
use libe.Common.Memory.{c_string}
use libe.Util.{copy, strlcpy}
use libe.Util.Names.{NoZero, c_string_append}

copy_string :
    (n : ℕ) (s tail : List ℕ)
    → NoZero s
    → copy n (s ++ 0 ∷ tail) ≡ (if ltb (length s) n then (s ++ 0 ∷ [], true) else (take n s, false))
unfolding copy
copy_string zero s tail h = rw (le→ltb (length s) 0 (omega arith))
copy_string (suc n) [] tail h = rw (lt→ltb 0 (suc n) (omega arith))
copy_string (suc n) (x ∷ s) tail h = elim (Bool-cases (ltb (length s) n)) [
  | inl short ↦
      let short' : ltb (suc (length s)) (suc n) ≡ true = ground arith in
      rw (h.0, copy_string n s tail h.1, short, short')
  | inr long ↦
      let long' : ltb (suc (length s)) (suc n) ≡ false = ground arith in
      rw (h.0, copy_string n s tail h.1, long, long')
]

NoZero-take : (n : ℕ) (s : List ℕ) → NoZero s → NoZero (take n s)
NoZero-take zero s h = tt
NoZero-take (suc n) [] h = tt
NoZero-take (suc n) (x ∷ s) h = (h.0, NoZero-take n s h.1)

c_string_end : (xs rest : List ℕ) → NoZero xs → c_string ((xs ++ 0 ∷ []) ++ rest) ≡ xs
c_string_end xs rest h = rw append_assoc (c_string_append xs rest h)

-- For a terminated string s and room for at least one byte, strlcpy returns the length of s, and
-- the destination then holds the longest front of s that leaves room for its terminating zero.
pub c_string-strlcpy :
    (dst s tail : List ℕ) (siz : ℕ)
    → NoZero s
    → 0 < siz
    → let r = strlcpy dst (s ++ 0 ∷ tail) siz in
      (r.0 ≡ length s) × (c_string r.1 ≡ take (siz - 1) s)
unfolding strlcpy
c_string-strlcpy dst s tail siz h some_room =
    let room : (siz == 0) ≡ false = ground arith in
    elim (Bool-cases (ltb (length s) (siz - 1))) [
      | inl short ↦
          rw (room, c_string_append s tail h, copy_string (siz - 1) s tail h, short)
            (refl, c_string_end s _ h ∙ sym (take_all (siz - 1) s (ground arith)))
      | inr long ↦
          rw (room, c_string_append s tail h, copy_string (siz - 1) s tail h, long)
            (refl, c_string_end (take (siz - 1) s) _ (NoZero-take (siz - 1) s h))
    ]
