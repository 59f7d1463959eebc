-- ===== src/Base/Lists.antt =====
-- Lists over the native numbers, texts as lists of code points, and membership tests.
use Prim.Native.Nat.{ℕ, suc, ◌+◌}
use Prim.Native.Char.{code}
use Prim.Native.String.{String}
use mathlib.Core.Path.{◌≡◌, refl, subst}
use mathlib.Core.Bool.{Bool, true, false, ◌&&◌, ◌||◌}
use mathlib.Core.List.{List, [], ◌∷◌}
use native.Mathlib.Omega.{arith}
use text.Mathlib.Text.{◌==◌}
use terraform_provider_lima.Base.Tests.{eqb, leb, if◌then◌else◌}

module _ {ℓ} {A : Type ℓ} where
  abbrev pub length : List A → ℕ
  length [] = 0
  length (x ∷ xs) = suc (length xs)

  -- slices.ContainsFunc and the `for … if … return true` loops
  abbrev pub any_of : (A → Bool) → List A → Bool
  any_of p [] = false
  any_of p (x ∷ xs) = p x || any_of p xs

  abbrev pub all_of : (A → Bool) → List A → Bool
  all_of p [] = true
  all_of p (x ∷ xs) = p x && all_of p xs

abbrev pub contains_text : List String → String → Bool
contains_text [] a = false
contains_text (x ∷ xs) a = x == a || contains_text xs a

-- The code points of a text.
abbrev pub codes : String → List ℕ
codes String.[] = []
codes (String.◌∷◌ c s) = code c ∷ codes s

abbrev pub codes_eq : List ℕ → List ℕ → Bool
codes_eq [] [] = true
codes_eq [] (y ∷ ys) = false
codes_eq (x ∷ xs) [] = false
codes_eq (x ∷ xs) (y ∷ ys) = eqb x y && codes_eq xs ys

pub codes_eq_refl : (xs : List ℕ) → codes_eq xs xs ≡ true
codes_eq_refl [] = refl
codes_eq_refl (x ∷ xs) = ground (arith, codes_eq_refl xs)

pub eq_of_codes_eq : (xs ys : List ℕ) → codes_eq xs ys ≡ true → xs ≡ ys
eq_of_codes_eq [] [] h = refl
eq_of_codes_eq [] (y ∷ ys) h = ground arith
eq_of_codes_eq (x ∷ xs) [] h = ground arith
eq_of_codes_eq (x ∷ xs) (y ∷ ys) h = ground (arith, eq_of_codes_eq xs ys)

pub codes_eq_of_eq : (xs ys : List ℕ) → xs ≡ ys → codes_eq xs ys ≡ true
codes_eq_of_eq xs ys h = subst (λ zs. codes_eq xs zs ≡ true) h (codes_eq_refl xs)

-- strings.HasPrefix
abbrev pub has_prefix : List ℕ → List ℕ → Bool
has_prefix [] s = true
has_prefix (p ∷ ps) [] = false
has_prefix (p ∷ ps) (c ∷ cs) = eqb p c && has_prefix ps cs

-- strings.Contains
abbrev pub contains : List ℕ → List ℕ → Bool
contains part [] = has_prefix part []
contains part (c ∷ cs) = has_prefix part (c ∷ cs) || contains part cs

-- strings.ToLower on ASCII
abbrev pub lower_code : ℕ → ℕ
lower_code c = if leb b'A' c && leb c b'Z' then c + 32 else c

abbrev pub to_lower : List ℕ → List ℕ
to_lower [] = []
to_lower (c ∷ cs) = lower_code c ∷ to_lower cs
