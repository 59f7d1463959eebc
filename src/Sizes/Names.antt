-- ===== src/Sizes/Names.antt =====
-- `ValidateName` of internal/lima/sizes.go.
use terraform_provider_lima.Base.{
  ◌≡◌, refl, ℕ, String, Bool, false, not, ◌&&◌, ◌||◌, Option, none, some, List, [], ◌∷◌, eqb, ltb,
  all_of, codes, if◌then◌else◌,
}
use terraform_provider_lima.Sizes.{byte_length}
use terraform_provider_lima.Sizes.Parse.{is_digit, is_letter}

abbrev pub max_name_length : ℕ
max_name_length = 63

abbrev pub is_name_start : ℕ → Bool
is_name_start c = is_letter c || is_digit c

abbrev pub is_name_code : ℕ → Bool
is_name_code c = is_letter c || is_digit c || eqb c b'.' || eqb c b'_' || eqb c b'-'

-- `namePattern`
abbrev pub matches_name : List ℕ → Bool
matches_name [] = false
matches_name (c ∷ cs) = is_name_start c && all_of is_name_code cs

pub data NameError : Type 0 where
  empty_name too_long malformed : NameError

abbrev pub check_name : List ℕ → Option NameError
check_name [] = some empty_name
check_name (c ∷ cs) =
    if ltb max_name_length (byte_length (c ∷ cs))
    then some too_long
    else if not (matches_name (c ∷ cs))
    then some malformed
    else none

unfoldable pub validate_name : String → Option NameError
validate_name name = check_name (codes name)

dotted : validate_name "dev-1.local" ≡ none
unfolding validate_name
dotted = refl

hidden : validate_name ".dev" ≡ some malformed
unfolding validate_name
hidden = refl
