-- ===== src/Sizes/Parse.antt =====
-- `ParseSize` of internal/lima/sizes.go. What a conversion to int64 gives outside its range is the
-- platform's, and a parameter.
use terraform_provider_lima.Base.{
  ◌≡◌, refl, ℕ, ◌+◌, ◌-◌, ◌*◌, ◌^◌, ℤ, pos, String, Bool, ◌&&◌, ◌||◌, Option, none, some, List, [],
  ◌∷◌, ◌++◌, eqb, leb, ltb, length, all_of, codes, codes_eq, if◌then◌else◌,
}
use terraform_provider_lima.Instance.{trim_space}
use terraform_provider_lima.Sizes.Float.{Float64, parse_float, scaled}

abbrev pub is_digit : ℕ → Bool
is_digit c = leb b'0' c && leb c b'9'

abbrev pub is_letter : ℕ → Bool
is_letter c = (leb b'A' c && leb c b'Z') || (leb b'a' c && leb c b'z')

-- `\s`
abbrev pub is_blank_code : ℕ → Bool
is_blank_code c = eqb c 9 || eqb c 10 || eqb c 12 || eqb c 13 || eqb c 32

-- The longest prefix of a class of characters, and what follows it.
abbrev pub leading : (ℕ → Bool) → List ℕ → List ℕ
leading p [] = []
leading p (c ∷ cs) = let rest = leading p cs in if p c then c ∷ rest else []

abbrev pub after_leading : (ℕ → Bool) → List ℕ → List ℕ
after_leading p [] = []
after_leading p (c ∷ cs) = let rest = after_leading p cs in if p c then rest else c ∷ cs

-- The submatches of `sizePattern`: the digits before and behind the point, and the unit.
pub record SizeMatch : Type 0 where
  pub whole : List ℕ
  pub fraction : List ℕ
  pub unit_name : List ℕ

-- `\s*([A-Za-z]*)$`
abbrev pub match_unit : List ℕ → List ℕ → List ℕ → Option SizeMatch
match_unit whole fraction rest =
    if all_of is_letter (after_leading is_blank_code rest)
    then some (record {
      whole = whole;
      fraction = fraction;
      unit_name = after_leading is_blank_code rest;
    })
    else none

-- `\.[0-9]+`
abbrev pub match_point : List ℕ → List ℕ → List ℕ → List ℕ → Option SizeMatch
match_point whole rest [] behind = match_unit whole [] rest
match_point whole rest (d ∷ ds) behind = match_unit whole (d ∷ ds) behind

abbrev pub match_fraction : List ℕ → List ℕ → Option SizeMatch
match_fraction whole [] = match_unit whole [] []
match_fraction whole (c ∷ cs) =
    if eqb c b'.'
    then match_point whole (c ∷ cs) (leading is_digit cs) (after_leading is_digit cs)
    else match_unit whole [] (c ∷ cs)

abbrev pub match_whole : List ℕ → List ℕ → Option SizeMatch
match_whole [] rest = none
match_whole (d ∷ ds) rest = match_fraction (d ∷ ds) rest

unfoldable pub match_size : List ℕ → Option SizeMatch
match_size s = match_whole (leading is_digit s) (after_leading is_digit s)

abbrev size_units : List (String × ℕ)
size_units =
    ("", 1)
    ∷ ("B", 1)
    ∷ ("K", 1024)
    ∷ ("KIB", 1024)
    ∷ ("M", 1_048_576)
    ∷ ("MIB", 1_048_576)
    ∷ ("G", 1_073_741_824)
    ∷ ("GIB", 1_073_741_824)
    ∷ ("T", 1_099_511_627_776)
    ∷ ("TIB", 1_099_511_627_776)
    ∷ []

abbrev find_unit : List (String × ℕ) → List ℕ → Option ℕ
find_unit [] name = none
find_unit ((k, size) ∷ rest) name =
    let later = find_unit rest name in if codes_eq (codes k) name then some size else later

-- strings.ToUpper on ASCII
abbrev upper_code : ℕ → ℕ
upper_code c = if leb b'a' c && leb c b'z' then c - 32 else c

abbrev pub to_upper : List ℕ → List ℕ
to_upper [] = []
to_upper (c ∷ cs) = upper_code c ∷ to_upper cs

unfoldable pub unit_named : List ℕ → Option ℕ
unit_named name = find_unit size_units (to_upper name)

-- The number that digits write, after those read before.
abbrev pub number_from : ℕ → List ℕ → ℕ
number_from acc [] = acc
number_from acc (d ∷ ds) = number_from (acc * 10 + (d - 48)) ds

module _ (wide_int : ℕ → ℤ) where
  -- int64(…)
  abbrev pub to_int64 : ℕ → ℤ
  to_int64 n = if ltb n (2 ^ 63) then pos n else wide_int n

  abbrev pub rounded : Option Float64 → ℕ → Option ℤ
  rounded none unit = none
  rounded (some f) unit = some (to_int64 (scaled f unit))

  abbrev pub sized : SizeMatch → ℕ → Option ℤ
  sized m unit =
      rounded
        (parse_float (number_from 0 (m.whole ++ m.fraction)) (length (m.whole ++ m.fraction))
          (length m.fraction))
        unit

  abbrev pub with_unit : SizeMatch → Option ℕ → Option ℤ
  with_unit m none = none
  with_unit m (some unit) = sized m unit

  abbrev pub matched : Option SizeMatch → Option ℤ
  matched none = none
  matched (some m) = with_unit m (unit_named m.unit_name)

  -- The errors are `none`. An empty text matches nothing, and a number is never negative.
  unfoldable pub parse_size : String → Option ℤ
  unfolding match_size unit_named trim_space parse_float
  parse_size s = matched (match_size (trim_space (codes s)))

half_gib : parse_size pos "1.5GiB" ≡ some (pos 1_610_612_736)
unfolding parse_size
half_gib = refl

tenth_gib : parse_size pos " 0.1 g" ≡ some (pos 107_374_182)
unfolding parse_size
tenth_gib = refl

no_number : parse_size pos ".5GiB" ≡ none
unfolding parse_size
no_number = refl
