-- ===== src/Base/Order.antt =====
-- The order of texts by their code points, which is that of Go strings by their bytes.
use Prim.Native.Nat.{ℕ, compare, Ordering}
use Prim.Native.String.{String}
use Prim.Native.Char.{code}
use text.Mathlib.TextEquality.{codes_equal}
use mathlib.Core.Path.{◌≡◌, refl}
use mathlib.Core.Bool.{Bool, true, false, ◌&&◌, ◌||◌}
use mathlib.Core.List.{List, [], ◌∷◌}
use native.Mathlib.Omega.{arith}
use terraform_provider_lima.Base.Tests.{ltb, eqb}
use terraform_provider_lima.Base.Lists.{codes, codes_eq}

abbrev pub codes_lt : List ℕ → List ℕ → Bool
codes_lt [] [] = false
codes_lt [] (y ∷ ys) = true
codes_lt (x ∷ xs) [] = false
codes_lt (x ∷ xs) (y ∷ ys) = ltb x y || (eqb x y && codes_lt xs ys)

pub codes_lt_irrefl : (xs : List ℕ) → codes_lt xs xs ≡ false
codes_lt_irrefl [] = refl
codes_lt_irrefl (x ∷ xs) = ground (arith, codes_lt_irrefl xs)

pub codes_lt_trans :
    (xs ys zs : List ℕ) → codes_lt xs ys ≡ true → codes_lt ys zs ≡ true → codes_lt xs zs ≡ true
codes_lt_trans [] [] zs h k = absurd (ground arith)
codes_lt_trans [] (y ∷ ys) [] h k = absurd (ground arith)
codes_lt_trans [] (y ∷ ys) (z ∷ zs) h k = refl
codes_lt_trans (x ∷ xs) [] zs h k = absurd (ground arith)
codes_lt_trans (x ∷ xs) (y ∷ ys) [] h k = absurd (ground arith)
codes_lt_trans (x ∷ xs) (y ∷ ys) (z ∷ zs) h k = ground (arith, codes_lt_trans xs ys zs)

-- Two texts that are not in order either way are the same.
pub codes_lt-total :
    (xs ys : List ℕ) → codes_lt xs ys ≡ false → codes_lt ys xs ≡ false → codes_eq xs ys ≡ true
codes_lt-total [] [] h k = refl
codes_lt-total [] (y ∷ ys) h k = absurd (ground arith)
codes_lt-total (x ∷ xs) [] h k = absurd (ground arith)
codes_lt-total (x ∷ xs) (y ∷ ys) h k = ground (arith, codes_lt-total xs ys)

eqb-compare : (m n : ℕ) → eqb m n ≡ true → compare m n ≡ Ordering.eq
eqb-compare m n h = ground arith

both : (a b : Bool) → (a && b) ≡ true → (a ≡ true) × (b ≡ true)
both a b h = ground arith

-- A text is its code points.
pub eq_of_codes : (a b : String) → codes_eq (codes a) (codes b) ≡ true → a ≡ b
eq_of_codes String.[] String.[] h = refl
eq_of_codes String.[] (String.◌∷◌ d t) h = absurd (ground arith)
eq_of_codes (String.◌∷◌ c s) String.[] h = absurd (ground arith)
eq_of_codes (String.◌∷◌ c s) (String.◌∷◌ d t) h =
    let (p, q) = both (eqb (code c) (code d)) (codes_eq (codes s) (codes t)) h in
    λ i. String.◌∷◌ (codes_equal c d (eqb-compare (code c) (code d) p) i) (eq_of_codes s t q i)
