-- ===== src/Sizes/Whole.antt =====
-- The whole numbers that `ParseSize` of internal/lima/sizes.go reads as floats.
use native.Mathlib.Nat.{
  mul-div_cancel, one-le-pow, pow-succ', mul-one, mul_right_comm, mul_left_comm,
}
use terraform_provider_lima.Base.{
  ◌≡◌, refl, sym, ap, ◌∙◌, ℕ, zero, suc, ◌+◌, ◌*◌, ◌/◌, ◌^◌, ◌<◌, true, false, some, arith, eqb,
  leb, ltb, Bool-cases, inl, inr,
}
use terraform_provider_lima.Sizes.Float.{
  Float64, two_53, two_52, round_half_even, narrow, nearest, parse_float, scaled,
}

round_whole : (m : ℕ) → round_half_even m 1 ≡ m
round_whole m = ground arith

unscaled :
    (m n k unit : ℕ)
    → m ≡ n * 2 ^ k
    → scaled (record { significand = round_half_even m 1; up = 0; down = k }) unit ≡ n * unit
unscaled m n k unit e =
    ap (λ x. x / 2 ^ k) (product ∙ mul_right_comm n (2 ^ k) unit)
    ∙ mul-div_cancel (n * unit) (one-le-pow k 2 (omega arith))
  where
    product : round_half_even m 1 * 2 ^ 0 * unit ≡ n * 2 ^ k * unit
    product = ap (λ x. x * unit) (mul-one _ ∙ round_whole m ∙ e)

doubled : (m n k : ℕ) → m ≡ n * 2 ^ k → 2 * m ≡ n * 2 ^ suc k
doubled m n k e =
    ap (λ x. 2 * x) e ∙ mul_left_comm 2 n (2 ^ k) ∙ ap (λ x. n * x) (sym (pow-succ' 2 k))

-- A number below 2 ^ 53 is a float64.
narrow_exact : (fuel m n k unit : ℕ) → m ≡ n * 2 ^ k → scaled (narrow fuel m 1 k) unit ≡ n * unit
unfolding narrow
narrow_exact zero m n k unit e = unscaled m n k unit e
narrow_exact (suc fuel) m n k unit e =
    let further = narrow_exact fuel (2 * m) n (suc k) unit (doubled m n k e) in
    elim (Bool-cases (leb (two_52 * 1) m)) [
      | inl l ↦ rw l (unscaled m n k unit e)
      | inr l ↦ rw l further
    ]

narrow_below : (fuel m k : ℕ) → m < two_53 → (narrow fuel m 1 k).significand < two_53
unfolding narrow
narrow_below zero m k h = rw (round_whole m) h
narrow_below (suc fuel) m k h = elim (Bool-cases (leb (two_52 * 1) m)) [
  | inl l ↦ rw (l, round_whole m) h
  | inr l ↦ rw l (narrow_below fuel (2 * m) (suc k) (ground arith))
]

narrow_up : (fuel m d k : ℕ) → (narrow fuel m d k).up ≡ 0
unfolding narrow
narrow_up zero m d k = refl
narrow_up (suc fuel) m d k = elim (Bool-cases (leb (two_52 * d) m)) [
  | inl l ↦ rw l
  | inr l ↦ rw l (narrow_up fuel (2 * m) d (suc k))
]

in_range : (m : ℕ) → m < two_53 → leb (2 ^ 1024) (m * 2 ^ 0) ≡ false
in_range m h = ground arith

narrow_in_range :
    (fuel n : ℕ)
    → n < two_53
    → leb (2 ^ 1024) ((narrow fuel n 1 0).significand * 2 ^ (narrow fuel n 1 0).up) ≡ false
narrow_in_range fuel n h = rw (narrow_up fuel n 1 0) (in_range _ (narrow_below fuel n 0 h))

-- A whole number below 2 ^ 53 is read as it is.
pub parse_float_exact :
    (n digits unit : ℕ)
    → n < two_53
    → (f : Float64) × (parse_float n digits 0 ≡ some f) × (scaled f unit ≡ n * unit)
unfolding parse_float nearest
parse_float_exact n digits unit h = elim (Bool-cases (eqb n 0)) [
  | inl e ↦
      let zero_n : n ≡ 0 = ground arith in
      (record { significand = 0; up = 0; down = 0 }, rw e refl, rw zero_n (omega arith))
  | inr e ↦
      let small : ltb n (two_53 * 10 ^ 0) ≡ true = ground arith in
      let float = narrow (4 * digits + 53) n 1 0 in
      (
        float,
        rw (e, small, narrow_in_range (4 * digits + 53) n h) refl,
        narrow_exact (4 * digits + 53) n n 0 unit (omega arith),
      )
]
