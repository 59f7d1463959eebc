-- ===== src/Provider/Validators.antt =====
-- The validators of internal/provider/validators.go: what each makes of one configured value. Parsing
-- YAML and durations is a library's. A verdict is an error, a warning, or nothing.
use terraform_provider_lima.Base.{
  ◌≡◌, refl, ℕ, ℤ, pos, int_lt, String, Bool, not, ◌||◌, Option, none, some, List, [], ◌∷◌, eqb,
  all_of, contains_text, codes, if◌then◌else◌, ◌==◌,
}
use terraform_provider_lima.Sizes.Parse.{parse_size}
use terraform_provider_lima.Sizes.Names.{validate_name}
use terraform_provider_lima.Provider.Attr.{Attr, null, unknown, known}

pub data Verdict : Type 0 where
  accepted rejected warned : Verdict

-- if req.ConfigValue.IsNull() || req.ConfigValue.IsUnknown() { return }
abbrev pub if_known : Attr String → (String → Verdict) → Verdict
if_known null check = accepted
if_known unknown check = accepted
if_known (known s) check = check s

abbrev pub reject_some : {A : Type 0} → Option A → Verdict
reject_some none = accepted
reject_some (some e) = rejected

unfoldable pub instance_name_validator : Attr String → Verdict
instance_name_validator a = if_known a (λ s. reject_some (validate_name s))

abbrev pub positive_size : Option ℤ → Verdict
positive_size none = rejected
positive_size (some size) = if int_lt (pos 0) size then accepted else rejected

unfoldable pub size_validator : (ℕ → ℤ) → Attr String → Verdict
size_validator wide_int a = if_known a (λ s. positive_size (parse_size wide_int s))

-- The error of lima.ValidateYAML is a parameter.
unfoldable pub yaml_validator : (String → Option String) → Attr String → Verdict
yaml_validator validate_yaml a = if_known a (λ s. reject_some (validate_yaml s))

unfoldable pub known_value_validator : List String → Attr String → Verdict
known_value_validator known_values a =
    if_known a
      (λ s. if s == "" then rejected else if contains_text known_values s then accepted else warned)

unfoldable pub one_of_validator : List String → Attr String → Verdict
one_of_validator allowed a =
    if_known a (λ s. if not (contains_text allowed s) then rejected else accepted)

abbrev pub starts_absolute : List ℕ → Verdict
starts_absolute [] = rejected
starts_absolute (c ∷ cs) = if eqb c b'/' || eqb c b'~' then accepted else rejected

unfoldable pub absolute_path_validator : Attr String → Verdict
absolute_path_validator a = if_known a (λ s. starts_absolute (codes s))

-- isBlank
unfoldable pub blank : String → Bool
blank s = all_of (λ c. eqb c 32 || eqb c 9 || eqb c 10 || eqb c 13) (codes s)

unfoldable pub non_empty_validator : Attr String → Verdict
non_empty_validator a = if_known a (λ s. if blank s then rejected else accepted)

-- time.ParseDuration is a parameter, in nanoseconds.
unfoldable pub duration_validator : (String → Option ℤ) → Attr String → Verdict
duration_validator parse_duration a = if_known a (λ s. positive_size (parse_duration s))

zero_size : size_validator pos (known "0GiB") ≡ rejected
unfolding size_validator parse_size
zero_size = refl
