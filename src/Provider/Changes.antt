-- ===== src/Provider/Changes.antt =====
-- What changes between a state and a plan: `resizeRequest` of internal/provider/instance_resource.go
-- and the plan modifiers of plan_modifiers.go.
pub mod Quiet
pub mod Growth
use Prim.Native.String.{◌++◌ as concat}
use terraform_provider_lima.Base.{
  ℕ, ℤ, pos, int_eq, int_lt, String, Bool, false, not, ◌&&◌, ◌||◌, Option, none, some, List, [],
  ◌∷◌, ◌++◌, if◌then◌else◌, ◌==◌,
}
use terraform_provider_lima.Instance.{EditRequest}
use terraform_provider_lima.Sizes.Parse.{parse_size}
use terraform_provider_lima.Provider.Attr.{Attr, is_null, is_known, string_value, int_value}
use terraform_provider_lima.Provider.Diagnostics.{Diagnostic, root, attribute_error}
use terraform_provider_lima.Provider.Models.{InstanceModel, parses_to}

abbrev pub cpus_change : Attr ℤ → Attr ℤ → ℤ
cpus_change planned current =
    if is_known planned && (is_null current || not (int_eq (int_value planned) (int_value current)))
    then int_value planned
    else pos 0

module _ (wide_int : ℕ → ℤ) where
  -- The rest of `sizeChange`, once the planned size is parsed.
  abbrev pub size_wanted : Attr String → String → Option ℤ → ℤ × List Diagnostic
  size_wanted current attribute none =
      (pos 0, attribute_error (root attribute ∷ []) (concat "Invalid " attribute) ∷ [])
  size_wanted current attribute (some want) =
      if not (is_null current)
        && parses_to wide_int (parse_size wide_int (string_value current)) want
      then (pos 0, [])
      else (want, [])

  abbrev pub size_change : Attr String → Attr String → String → ℤ × List Diagnostic
  size_change planned current attribute =
      if is_known planned
      then size_wanted current attribute (parse_size wide_int (string_value planned))
      else (pos 0, [])

  unfoldable pub resize_request : InstanceModel → InstanceModel → EditRequest × List Diagnostic
  resize_request plan state =
      let memory = size_change plan.memory state.memory "memory" in
      let disk = size_change plan.disk state.disk "disk" in
      (
        record {
          cpus = cpus_change plan.cpus state.cpus;
          memory_bytes = memory.0;
          disk_bytes = disk.0;
          mounts = none;
          port_forwards = none;
          additional_disks = none;
        },
        memory.1 ++ disk.1,
      )

  abbrev pub shrinks : Option ℤ → Option ℤ → Bool
  shrinks (some old_size) (some new_size) = int_lt new_size old_size
  shrinks _ _ = false

  -- diskGrowOnlyModifier: is the plan refused?
  unfoldable pub refuses_shrink : Attr String → Attr String → Bool
  refuses_shrink state config =
      is_known state
      && is_known config
      && shrinks (parse_size wide_int (string_value state))
          (parse_size wide_int (string_value config))

-- replaceOnRealChangeModifier: is the instance replaced? The first two arguments say whether the
-- whole state and the whole plan are null.
unfoldable pub requires_replace : Bool → Bool → Attr String → Attr String → Bool
requires_replace no_state no_plan state config =
    if no_state || no_plan
    then false
    else if is_null state || is_null config
    then false
    else if not (is_known config)
    then false
    else not (is_known state && string_value state == string_value config)
