-- ===== src/Sizes/Float.antt =====
-- The float64 arithmetic that `ParseSize` of internal/lima/sizes.go computes with: a decimal rounded
-- as strconv.ParseFloat rounds it, to 53 bits, halves to the even neighbour. The loops are on fuel:
-- a digit is less than four bits, so `4 * digits` steps widen and `4 * digits + 53` narrow enough.
use terraform_provider_lima.Base.{
  ℕ, zero, suc, ◌+◌, ◌*◌, ◌/◌, ◌%◌, ◌^◌, ◌&&◌, ◌||◌, Option, none, some, eqb, ltb, leb,
  if◌then◌else◌,
}

-- The number `significand * 2 ^ up / 2 ^ down`.
pub record Float64 : Type 0 where
  pub significand : ℕ
  pub up : ℕ
  pub down : ℕ

abbrev pub two_52 : ℕ
two_52 = 4_503_599_627_370_496

abbrev pub two_53 : ℕ
two_53 = 9_007_199_254_740_992

-- The nearest whole number to n / d.
abbrev pub round_half_even : ℕ → ℕ → ℕ
round_half_even n d =
    if ltb d (2 * (n % d)) || (eqb d (2 * (n % d)) && eqb (n / d % 2) 1) then n / d + 1 else n / d

-- A quotient below 2 ^ 53 is brought to at least 2 ^ 52.
unfoldable pub narrow : ℕ → ℕ → ℕ → ℕ → Float64
narrow zero n d down = record { significand = round_half_even n d; up = 0; down = down }
narrow (suc fuel) n d down =
    let further = narrow fuel (2 * n) d (suc down) in
    if leb (two_52 * d) n
    then record { significand = round_half_even n d; up = 0; down = down }
    else further

-- A larger one is brought below 2 ^ 53.
unfoldable pub widen : ℕ → ℕ → ℕ → ℕ → Float64
widen zero n d up = record { significand = round_half_even n d; up = up; down = 0 }
widen (suc fuel) n d up =
    let further = widen fuel n (2 * d) (suc up) in
    if ltb n (two_53 * d)
    then record { significand = round_half_even n d; up = up; down = 0 }
    else further

-- strconv.ParseFloat of `digits` digits, n, of which `places` stand behind the point. It fails
-- beyond the range of a float64.
unfoldable pub nearest : ℕ → ℕ → ℕ → Float64
unfolding narrow widen
nearest n digits places =
    if eqb n 0
    then record { significand = 0; up = 0; down = 0 }
    else if ltb n (two_53 * 10 ^ places)
    then narrow (4 * digits + 53) n (10 ^ places) 0
    else widen (4 * digits) n (10 ^ places) 0

unfoldable pub parse_float : ℕ → ℕ → ℕ → Option Float64
unfolding nearest
parse_float n digits places =
    let f = nearest n digits places in
    if leb (2 ^ 1024) (f.significand * 2 ^ f.up) then none else some f

-- The whole part of the product with a power of two, which is exact.
abbrev pub scaled : Float64 → ℕ → ℕ
scaled f unit = f.significand * 2 ^ f.up * unit / 2 ^ f.down
