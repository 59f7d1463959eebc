-- ===== src/Examples/Documents.antt =====
-- The theorems on internal/lima/config.go for a small overlay.
use terraform_provider_lima.Base.{
  String, ◌≡◌, refl, sym, ◌∙◌, arith, eq_iff, Bool, true, false, none, some, if◌then◌else◌, ◌==◌,
}
use terraform_provider_lima.Errors.{other}
use terraform_provider_lima.Session.{Result, value, fault}
use terraform_provider_lima.Tree.{
  null_value, scalar, sequence, mapping, no_values, value_then, FieldList, no_fields, field_then,
  get, merge_value, merge_maps,
}
use terraform_provider_lima.Tree.Overlay.{merge_maps_again}
use terraform_provider_lima.Tree.Ordered.{ordered_value, to_ordered, is_sorted}
use terraform_provider_lima.Tree.Canonical.{ordered_at, to_ordered_lem}
use terraform_provider_lima.Render.{RenderRequest}

-- cpus: 2, vmOpts: {vz: {rosetta: true}}, mounts: [a]
abbrev document : FieldList
document = field_then "cpus" (scalar "2") (
    field_then "vmOpts" (mapping (field_then "vz" (scalar "rosetta") no_fields))
      (field_then "mounts" (sequence (value_then (scalar "a") no_values)) no_fields))

-- mounts: [], vmOpts: {qemu: max}
abbrev overlay : FieldList
overlay =
    field_then "mounts" (sequence no_values)
      (field_then "vmOpts" (mapping (field_then "qemu" (scalar "max") no_fields)) no_fields)

merge_maps_again_example :
    merge_maps (merge_maps document overlay) overlay ≡ merge_maps document overlay
merge_maps_again_example = merge_maps_again document overlay refl

merged_siblings :
    get (merge_maps document overlay) "vmOpts"
    ≡ some
        (mapping (field_then "vz" (scalar "rosetta") (field_then "qemu" (scalar "max") no_fields)))
unfolding merge_maps merge_value
merged_siblings = refl

-- A parser that knows one text.
abbrev parse_one : String → Result FieldList
parse_one s = if s == "mounts: []" then value overlay else fault (other "unknown")

abbrev from_template : RenderRequest
from_template = record {
  template = "template:ubuntu";
  raw_config = "";
  typed = value (field_then "cpus" (scalar "4") no_fields);
  overrides = "mounts: []";
}

abbrev rendered : FieldList
rendered =
    field_then "base"
      (sequence
        (value_then (mapping (field_then "url" (scalar "template:ubuntu") no_fields)) no_values))
      (field_then "cpus" (scalar "4") (
        field_then "mounts" null_value
          (field_then "vmOpts" (mapping (field_then "qemu" (scalar "max") no_fields)) no_fields)))

abbrev two_fields : FieldList
two_fields = field_then "memory" (scalar "4GiB") (field_then "cpus" (scalar "2") no_fields)

abbrev two_swapped : FieldList
two_swapped = field_then "cpus" (scalar "2") (field_then "memory" (scalar "4GiB") no_fields)

two_alike : (k : String) → ordered_at (get two_fields k) ≡ ordered_at (get two_swapped k)
unfolding ordered_value
two_alike k =
    alike ("memory" == k) ("cpus" == k)
      λ h e. distinct ((eq_iff "memory" k).0 h) ((eq_iff "cpus" k).0 e)
  where
    distinct : "memory" ≡ k → "cpus" ≡ k → ⊥
    distinct h e = absurd (ground (arith, (eq_iff "memory" "cpus").1 (h ∙ sym e)))

    alike :
        (b c : Bool)
        → (b ≡ true → c ≡ true → ⊥)
        → ordered_at (if b then some (scalar "4GiB") else if c then some (scalar "2") else none)
          ≡ ordered_at (if c then some (scalar "2") else if b then some (scalar "4GiB") else none)
    alike true true n = absurd (n refl refl)
    alike true false n = refl
    alike false true n = refl
    alike false false n = refl

to_ordered_lem_example :
    (to_ordered two_fields ≡ to_ordered two_swapped) × (is_sorted (to_ordered two_fields) ≡ true)
to_ordered_lem_example = to_ordered_lem two_fields two_swapped refl refl two_alike

cpus_first : to_ordered two_fields ≡ two_swapped
unfolding to_ordered
cpus_first = refl
