-- ===== src/Tree.antt =====
-- The YAML trees of internal/lima/config.go: the merge of an overlay, and the marking of its empty
-- sequences. A Go map is a list of fields whose keys are distinct; `get` and `put` are its indexing
-- and its assignment. A scalar is its text, since no scalar is read.
pub mod Fields
pub mod Overlay
pub mod Ordered
pub mod Canonical
use terraform_provider_lima.Base.{
  String, Bool, true, false, not, ◌&&◌, ◌||◌, Option, none, some, if◌then◌else◌, ◌==◌,
}

mutual
  pub data Value : Type 0 where
    null_value : Value
    scalar : String → Value
    sequence : Values → Value
    mapping : FieldList → Value

  pub data Values : Type 0 where
    no_values : Values
    value_then : Value → Values → Values

  pub data FieldList : Type 0 where
    no_fields : FieldList
    field_then : String → Value → FieldList → FieldList

abbrev pub get : FieldList → String → Option Value
get no_fields k = none
get (field_then j v rest) k = if j == k then some v else get rest k

abbrev pub put : FieldList → String → Value → FieldList
put no_fields k v = field_then k v no_fields
put (field_then j w rest) k v =
    if j == k then field_then j v rest else field_then j w (put rest k v)

unfoldable mutual
  -- The value that `out[k]` gets from an overlay's value.
  pub merge_value : Option Value → Value → Value
  merge_value old null_value = null_value
  merge_value none v = v
  merge_value (some (mapping em)) (mapping sm) = mapping (merge_maps em sm)
  merge_value (some e) v = v

  pub merge_maps : FieldList → FieldList → FieldList
  merge_maps out no_fields = out
  merge_maps out (field_then k v rest) = merge_maps (put out k (merge_value (get out k) v)) rest

-- The fields of an overlay, each with the empty sequences made clears.
unfoldable mutual
  pub mark_value : Value → Value
  mark_value (sequence no_values) = null_value
  mark_value (mapping fields) = mapping (mark_empty_sequences fields)
  mark_value v = v

  pub mark_empty_sequences : FieldList → FieldList
  mark_empty_sequences no_fields = no_fields
  mark_empty_sequences (field_then k v rest) =
      field_then k (mark_value v) (mark_empty_sequences rest)

abbrev is_null : Value → Bool
is_null null_value = true
is_null _ = false

unfoldable pub configures_anything : FieldList → Bool
configures_anything no_fields = false
configures_anything (field_then k v rest) =
    if not (is_null v) then true else configures_anything rest

abbrev pub has_key : FieldList → String → Bool
has_key no_fields k = false
has_key (field_then j v rest) k = j == k || has_key rest k

-- Every key stands once, at each level: what a Go map guarantees.
abbrev mutual
  pub is_map_value : Value → Bool
  is_map_value (mapping fields) = is_map fields
  is_map_value (sequence vs) = are_maps vs
  is_map_value _ = true

  pub are_maps : Values → Bool
  are_maps no_values = true
  are_maps (value_then v vs) = is_map_value v && are_maps vs

  pub is_map : FieldList → Bool
  is_map no_fields = true
  is_map (field_then k v rest) = not (has_key rest k) && is_map_value v && is_map rest
