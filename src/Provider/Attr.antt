-- ===== src/Provider/Attr.antt =====
-- The attribute values of terraform-plugin-framework that internal/provider works with, and the
-- small conversions of internal/provider/models.go.
use terraform_provider_lima.Base.{ℤ, pos, String, Bool, true, false, List, [], if◌then◌else◌, ◌==◌}

-- types.String, types.Int64, types.Bool and types.List.
pub data Attr {ℓ} (A : Type ℓ) : Type ℓ where
  null : Attr A
  unknown : Attr A
  known : A → Attr A

module _ {ℓ} {A : Type ℓ} where
  -- IsNull
  abbrev pub is_null : Attr A → Bool
  is_null null = true
  is_null unknown = false
  is_null (known a) = false

  -- IsUnknown
  abbrev pub is_unknown : Attr A → Bool
  is_unknown null = false
  is_unknown unknown = true
  is_unknown (known a) = false

  -- !IsNull() && !IsUnknown()
  abbrev pub is_known : Attr A → Bool
  is_known null = false
  is_known unknown = false
  is_known (known a) = true

  -- What ValueString, ValueInt64 and ValueBool give, for the type's zero value.
  abbrev pub value_or : A → Attr A → A
  value_or zero_value null = zero_value
  value_or zero_value unknown = zero_value
  value_or zero_value (known a) = a

-- stringValue, and ValueString
abbrev pub string_value : Attr String → String
string_value a = value_or "" a

-- boolValue, and ValueBool
abbrev pub bool_value : Attr Bool → Bool
bool_value a = value_or false a

-- ValueInt64
abbrev pub int_value : Attr ℤ → ℤ
int_value a = value_or (pos 0) a

unfoldable pub optional_string : String → Attr String
optional_string s = if s == "" then null else known s

-- elementsIfKnown: a list that is null or unknown is decoded as nil.
abbrev pub elements_if_known {ℓ} : {A : Type ℓ} → Attr (List A) → List A
elements_if_known a = value_or [] a

-- isManaged
abbrev pub is_managed {ℓ} : {A : Type ℓ} → Attr (List A) → Bool
is_managed a = is_known a
