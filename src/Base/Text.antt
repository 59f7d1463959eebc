-- ===== src/Base/Text.antt =====
-- Texts and their code points: the text of a list of code points, and decimal numbers as
-- `strconv.FormatInt` writes them.
use Prim.Native.Nat.{ℕ, zero, suc, compare, Ordering, ◌+◌, ◌/◌, ◌%◌, ◌<◌}
use Prim.Native.Char.{Char, char, code, IsScalar, IsLt}
use Prim.Native.String.{String}
use mathlib.Core.Path.{◌≡◌, refl}
use mathlib.Core.Bool.{Bool, true, false}
use mathlib.Core.Option.{Option, none, some}
use mathlib.Core.List.{List, [], ◌∷◌}
use native.Mathlib.Omega.{arith}
use text.Mathlib.TextEquality.{Char-path}
use terraform_provider_lima.Base.Tests.{ltb, if◌then◌else◌}
use terraform_provider_lima.Base.Lists.{codes, all_of}

-- The range of the code points, as the answers of three comparisons.
abbrev BothLt : Ordering → Ordering → Type 0
BothLt Ordering.lt o = IsLt o
BothLt Ordering.eq _ = ⊥
BothLt Ordering.gt _ = ⊥

abbrev InRange : Ordering → Ordering → Ordering → Type 0
InRange Ordering.lt _ _ = Unit
InRange Ordering.eq o p = BothLt o p
InRange Ordering.gt o p = BothLt o p

abbrev lt? : (o : Ordering) → Option (IsLt o)
lt? Ordering.lt = some tt
lt? Ordering.eq = none
lt? Ordering.gt = none

abbrev both_lt? : (o p : Ordering) → Option (BothLt o p)
both_lt? Ordering.lt p = lt? p
both_lt? Ordering.eq p = none
both_lt? Ordering.gt p = none

abbrev in_range? : (o p q : Ordering) → Option (InRange o p q)
in_range? Ordering.lt p q = some tt
in_range? Ordering.eq p q = both_lt? p q
in_range? Ordering.gt p q = both_lt? p q

abbrev scalar? : (n : ℕ) → Option (IsScalar n)
scalar? n = in_range? (compare n 55296) (compare 57343 n) (compare n 1114112)

abbrev char_or : (n : ℕ) → Option (IsScalar n) → Char
char_or n none = char 0xfffd tt
char_or n (some h) = char n h

-- string(rune(n)): a number that is no code point is written as U+FFFD.
abbrev char_of : ℕ → Char
char_of n = char_or n (scalar? n)

unfoldable pub text_of : List ℕ → String
text_of [] = String.[]
text_of (c ∷ cs) = String.◌∷◌ (char_of c) (text_of cs)

abbrev is_found {ℓ} : {A : Type ℓ} → Option A → Bool
is_found none = false
is_found (some a) = true

code-char_or : (n : ℕ) (m : Option (IsScalar n)) → is_found m ≡ true → code (char_or n m) ≡ n
code-char_or n none h = ground arith
code-char_or n (some _) h = refl

lt_found : (o : Ordering) → IsLt o → is_found (lt? o) ≡ true
lt_found Ordering.lt h = refl
lt_found Ordering.eq h = elim h [ ]
lt_found Ordering.gt h = elim h [ ]

both_found : (o p : Ordering) → BothLt o p → is_found (both_lt? o p) ≡ true
both_found Ordering.lt p h = lt_found p h
both_found Ordering.eq p h = elim h [ ]
both_found Ordering.gt p h = elim h [ ]

in_range_found : (o p q : Ordering) → InRange o p q → is_found (in_range? o p q) ≡ true
in_range_found Ordering.lt p q h = refl
in_range_found Ordering.eq p q h = both_found p q h
in_range_found Ordering.gt p q h = both_found p q h

below_found : (o p q : Ordering) → o ≡ Ordering.lt → is_found (in_range? o p q) ≡ true
below_found Ordering.lt p q h = refl
below_found Ordering.eq p q h = ground arith
below_found Ordering.gt p q h = ground arith

compare_lt : (c d : ℕ) → c < d → compare c d ≡ Ordering.lt
compare_lt c d h = ground arith

code-char_of : (c : ℕ) → IsScalar c → code (char_of c) ≡ c
code-char_of c h = code-char_or c (scalar? c) (in_range_found _ _ _ h)

code-char_of_below : (c : ℕ) → c < 0xd800 → code (char_of c) ≡ c
code-char_of_below c h = code-char_or c (scalar? c) (below_found _ _ _ (compare_lt c 55296 h))

pub text_of-codes : (s : String) → text_of (codes s) ≡ s
unfolding text_of
text_of-codes String.[] = refl
text_of-codes (String.◌∷◌ (char n h) s) =
    rw (Char-path (char_of n) (char n h) (code-char_of n h), text_of-codes s)

-- The characters below the surrogates, which are all of ASCII.
abbrev pub is_low : List ℕ → Bool
is_low cs = all_of (λ c. ltb c 0xd800) cs

pub codes-text_of : (cs : List ℕ) → is_low cs ≡ true → codes (text_of cs) ≡ cs
unfolding text_of
codes-text_of [] h = refl
codes-text_of (c ∷ cs) h =
    let low : c < 0xd800 = ground arith in
    let rest : is_low cs ≡ true = ground arith in
    rw (code-char_of_below c low, codes-text_of cs rest)

-- strconv.FormatInt(n, 10): the digits in front of a text. The fuel bounds their number.
abbrev pub digits_onto : ℕ → ℕ → List ℕ → List ℕ
digits_onto zero n out = out
digits_onto (suc fuel) n out =
    let rest = digits_onto fuel (n / 10) ((48 + n % 10) ∷ out) in
    if ltb n 10 then (48 + n % 10) ∷ out else rest

-- An int64 has at most 19 digits.
unfoldable pub decimal : ℕ → List ℕ
decimal n = digits_onto 20 n []
