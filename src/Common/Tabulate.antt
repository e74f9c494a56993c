-- ===== src/Common/Tabulate.antt =====
-- Lists of the values of a function at consecutive numbers.
use Prim.Native.Nat.{ℕ, zero, suc, ◌+◌, ◌<◌}
use mathlib.Core.Path.{◌≡◌, ap, refl, sym, ◌∙◌}
use mathlib.Core.List.{List, [], ◌∷◌}
use native.Mathlib.Omega.{arith}
use libe.Common.Arrays.{get_or}

module _ {ℓ} {A : Type ℓ} (f : ℕ → A) where
  -- The values at i, i + 1, …, so many of them.
  abbrev pub values_from : ℕ → ℕ → List A
  values_from zero i = []
  values_from (suc n) i = f i ∷ values_from n (i + 1)

  get_or-values_from : (n i k : ℕ) (d : A) → k < n → get_or (values_from n i) k d ≡ f (i + k)
  get_or-values_from zero i k d h = absurd (omega arith)
  get_or-values_from (suc n) i zero d h = let e : i ≡ i + 0 = omega arith in ap f e
  get_or-values_from (suc n) i (suc k) d h =
      let e : i + 1 + k ≡ i + suc k = omega arith in
      get_or-values_from n (i + 1) k d (omega arith) ∙ ap f e

  -- A list that is the table of a function has its values.
  pub get_or-table :
      (n k : ℕ) (d : A) (table : List A) → table ≡ values_from n 0 → k < n → get_or table k d ≡ f k
  get_or-table n k d table e h =
      let here : 0 + k ≡ k = omega arith in
      ap (λ (v : List A). get_or v k d) e ∙ (get_or-values_from n 0 k d h ∙ ap f here)

-- Functions with the same values at the first numbers agree there.
pub values_agree {ℓ} :
    {A : Type ℓ} (f g : ℕ → A) (n : ℕ)
    → values_from f n 0 ≡ values_from g n 0
    → (k : ℕ) → k < n
    → f k ≡ g k
values_agree f g n e k h =
    sym (get_or-table f n k (f 0) (values_from f n 0) refl h)
    ∙ get_or-table g n k (f 0) (values_from f n 0) e h
