-- ===== src/Render.antt =====
-- `Render` of internal/lima/config.go up to the tree it serialises. Parsing YAML, encoding the typed
-- attributes and serialising are a library's: `parse` is parseMapping's call of it, and the request
-- carries the tree of the typed attributes as toTree gives it.
pub mod Document
use terraform_provider_lima.Base.{
  String, Bool, true, false, not, ◌&&◌, List, [], codes, codes_eq, if◌then◌else◌, ◌==◌,
}
use terraform_provider_lima.Errors.{Err, other, wrapped}
use terraform_provider_lima.Instance.{trim_space}
use terraform_provider_lima.Session.{Result, value, fault}
use terraform_provider_lima.Tree.{
  mapping, scalar, sequence, no_values, value_then, FieldList, no_fields, field_then, merge_maps,
  mark_empty_sequences, configures_anything,
}

pub record RenderRequest : Type 0 where
  pub template : String
  pub raw_config : String
  pub typed : Result FieldList
  pub overrides : String

abbrev pub and_then : {A B : Type 0} → Result A → (A → Result B) → Result B
and_then (value a) f = f a
and_then (fault e) f = fault e

abbrev pub wrapping : {A : Type 0} → String → Result A → Result A
wrapping doing (value a) = value a
wrapping doing (fault e) = fault (wrapped doing e)

-- doc["base"] = []any{map[string]any{"url": req.Template}}
unfoldable pub template_base : String → FieldList
template_base template =
    if template == ""
    then no_fields
    else field_then "base"
        (sequence (value_then (mapping (field_then "url" (scalar template) no_fields)) no_values))
        no_fields

abbrev pub is_blank : String → Bool
is_blank s = codes_eq (trim_space (codes s)) []

module _ (parse : String → Result FieldList) where
  unfoldable pub base_document : RenderRequest → Result FieldList
  base_document req =
      if not (req.raw_config == "")
      then parse req.raw_config
      else value (template_base req.template)

  unfoldable pub with_overrides : String → FieldList → Result FieldList
  with_overrides overrides doc =
      if is_blank overrides
      then value doc
      else and_then (parse overrides) (λ tree. value (merge_maps doc (mark_empty_sequences tree)))

  unfoldable pub nonempty : FieldList → Result FieldList
  nonempty doc = if configures_anything doc then value doc else fault (other "empty configuration")

  unfoldable pub render : RenderRequest → Result FieldList
  render req =
      if not (req.template == "") && not (req.raw_config == "")
      then fault (other "template and config are mutually exclusive")
      else and_then (base_document req) (λ doc.
        and_then (wrapping "encoding typed attributes" req.typed)
          (λ typed. and_then (with_overrides req.overrides (merge_maps doc typed)) nonempty))
