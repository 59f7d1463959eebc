-- ===== src/Sizes/Digits.antt =====
-- The decimals that `FormatSize` of internal/lima/sizes.go writes, and the numbers that they write.
use native.Mathlib.Nat.{pow-suc}
use terraform_provider_lima.Base.{
  ◌≡◌, refl, sym, ap, subst, ◌∙◌, ℕ, zero, suc, ◌+◌, ◌-◌, ◌*◌, ◌/◌, ◌%◌, ◌^◌, ◌<◌, true, List, [],
  ◌∷◌, arith, ltb, all_of, Bool-cases, inl, inr, decimal, digits_onto,
}
use terraform_provider_lima.Sizes.Float.{two_53}
use terraform_provider_lima.Sizes.Parse.{is_digit, number_from}

digits_onto-IsDigits :
    (fuel n : ℕ) (out : List ℕ)
    → all_of is_digit out ≡ true
    → all_of is_digit (digits_onto fuel n out) ≡ true
digits_onto-IsDigits zero n out h = h
digits_onto-IsDigits (suc fuel) n out h =
    let front : all_of is_digit ((48 + n % 10) ∷ out) ≡ true = ground arith in
    let rest = digits_onto-IsDigits fuel (n / 10) ((48 + n % 10) ∷ out) front in ground arith

one_digit : (n : ℕ) → ltb n 10 ≡ true → 0 * 10 + (48 + n % 10 - 48) ≡ n
one_digit n e = ground arith

joined : (n : ℕ) → n / 10 * 10 + (48 + n % 10 - 48) ≡ n
joined n = omega arith

number_from-digits_onto :
    (fuel n : ℕ) (out : List ℕ)
    → n < 10 ^ fuel
    → number_from 0 (digits_onto fuel n out) ≡ number_from n out
number_from-digits_onto zero n out h =
    let none_left : n ≡ 0 = omega arith in ap (λ m. number_from m out) (sym none_left)
number_from-digits_onto (suc fuel) n out h =
    let tenth : n / 10 < 10 ^ fuel = omega (arith, pow-suc 10 fuel) in
    let rest = number_from-digits_onto fuel (n / 10) ((48 + n % 10) ∷ out) tenth in
    elim (Bool-cases (ltb n 10)) [
      | inl e ↦ rw e (ap (λ m. number_from m out) (one_digit n e))
      | inr e ↦ rw e (rest ∙ ap (λ m. number_from m out) (joined n))
    ]

digits_onto_cons :
    (fuel n : ℕ) (c : ℕ) (out : List ℕ)
    → (d : ℕ) × (ds : List ℕ) × (digits_onto fuel n (c ∷ out) ≡ d ∷ ds)
digits_onto_cons zero n c out = (c, out, refl)
digits_onto_cons (suc fuel) n c out = elim (Bool-cases (ltb n 10)) [
  | inl e ↦ (48 + n % 10, c ∷ out, rw e refl)
  | inr e ↦
      let (d, ds, t) = digits_onto_cons fuel (n / 10) (48 + n % 10) (c ∷ out) in (d, ds, rw e t)
]

-- A decimal is at least one digit, all are digits, and they write the number.
pub record IsWritten (n : ℕ) : Type 0 where
  pub first : ℕ
  pub others : List ℕ
  pub written : decimal n ≡ first ∷ others
  pub digits : all_of is_digit (first ∷ others) ≡ true
  pub number : number_from 0 (first ∷ others) ≡ n

pub decimal-IsWritten : (n : ℕ) → n < two_53 → IsWritten n
unfolding decimal
decimal-IsWritten n h =
    let (d, ds, e) = decimal_cons in
    record {
      first = d;
      others = ds;
      written = e;
      digits = subst (λ x. all_of is_digit x ≡ true) e (digits_onto-IsDigits 20 n [] refl);
      number = subst (λ x. number_from 0 x ≡ n) e (number_from-digits_onto 20 n [] (bounded h));
    }
  where
    decimal_cons : (d : ℕ) × (ds : List ℕ) × (digits_onto 20 n [] ≡ d ∷ ds)
    decimal_cons = elim (Bool-cases (ltb n 10)) [
      | inl e ↦ (48 + n % 10, [], rw e refl)
      | inr e ↦ let (d, ds, t) = digits_onto_cons 19 (n / 10) (48 + n % 10) [] in (d, ds, rw e t)
    ]

    bounded : n < two_53 → n < 10 ^ 20
    bounded l = omega arith
