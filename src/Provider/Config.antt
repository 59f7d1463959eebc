-- ===== src/Provider/Config.antt =====
-- `validateInstanceConfig` of internal/provider/instance_resource.go, and `PlainMode` of
-- internal/lima/plain.go. A diagnostic of a list entry carries the entry's index; the index of the
-- entry that it repeats stands in the detail, which is left out.
pub mod Duplicates
use Prim.Native.String.{◌++◌ as concat}
use terraform_provider_lima.Base.{
  ℕ, suc, ℤ, pos, String, Bool, true, false, not, ◌&&◌, ◌||◌, Option, none, some, List, [], ◌∷◌,
  ◌++◌, contains_text, if◌then◌else◌, ◌==◌,
}
use terraform_provider_lima.Paths.Expand.{Surroundings, expand_path}
use terraform_provider_lima.Session.{Result, value, fault}
use terraform_provider_lima.Tree.{Value, FieldList, get}
use terraform_provider_lima.Sizes.{validate_name_for_home}
use terraform_provider_lima.Sizes.Names.{NameError, validate_name}
use terraform_provider_lima.Commands.{int_text}
use terraform_provider_lima.Provider.Attr.{
  Attr, null, unknown, known, is_null, is_unknown, is_known, string_value, value_or,
}
use terraform_provider_lima.Provider.Diagnostics.{
  Diagnostic, root, field, list_index, attribute_error, attribute_warning, general_error,
  general_warning,
}
use terraform_provider_lima.Provider.Models.{MountModel, PortModel, InstanceModel, DeclaredLists}
use terraform_provider_lima.Provider.Models.Names.{effective_name}

abbrev pub is_empty_list {ℓ} : {A : Type ℓ} → List A → Bool
is_empty_list [] = true
is_empty_list (a ∷ rest) = false

unfoldable pub has_typed : InstanceModel → DeclaredLists → Bool
has_typed config lists =
    not (is_null config.vm_type)
    || not (is_null config.arch)
    || not (is_null config.cpus)
    || not (is_null config.memory)
    || not (is_null config.disk)
    || not (is_empty_list lists.mounts)
    || not (is_empty_list lists.port_forwards)
    || not (is_empty_list lists.provisions)
    || not (is_null config.config_overrides)

-- Is no source set, for certain?
unfoldable pub lacks_source : InstanceModel → DeclaredLists → Bool
lacks_source config lists =
    not (is_known config.template)
    && not (is_known config.config)
    && (not (is_unknown config.template) && not (is_unknown config.config) && not lists.unresolved)

-- The key of a port forward at one end: protocol, port and address.
abbrev pub forward_key : String → ℤ → String → String
forward_key proto port ip = concat proto (concat "/" (concat (int_text port) (concat "/" ip)))

-- A repeated key is reported; another is remembered.
abbrev pub checked_key : List String → String → Diagnostic → List String × List Diagnostic
checked_key seen key d = if contains_text seen key then (seen, d ∷ []) else (key ∷ seen, [])

abbrev pub guest_error : ℕ → Diagnostic
guest_error i =
    attribute_error (root "port_forwards" ∷ list_index i ∷ field "guest_port" ∷ [])
      "Duplicate port forward"

abbrev pub host_error : ℕ → Diagnostic
host_error i =
    attribute_error (root "port_forwards" ∷ list_index i ∷ field "host_port" ∷ [])
      "Duplicate host port"

abbrev pub mount_error : ℕ → Diagnostic
mount_error i =
    attribute_error (root "mounts" ∷ list_index i ∷ field "location" ∷ [])
      "Duplicate mount location"

abbrev pub guest_check : List String → ℕ → PortModel → Attr ℤ → List String × List Diagnostic
guest_check seen i pf (known port) =
    checked_key seen (forward_key (value_or "tcp" pf.protocol) port (string_value pf.guest_ip))
      (guest_error i)
guest_check seen i pf _ = (seen, [])

-- The host's end is looked at only if the guest's port is known.
abbrev pub host_check :
    List String → ℕ → PortModel → Attr ℤ → Attr ℤ → List String × List Diagnostic
host_check seen i pf (known guest_port) (known port) =
    checked_key seen (forward_key (value_or "tcp" pf.protocol) port (string_value pf.host_ip))
      (host_error i)
host_check seen i pf _ _ = (seen, [])

-- The loop over the port forwards, from the index `i`.
unfoldable pub forward_errors : List String → List String → ℕ → List PortModel → List Diagnostic
forward_errors guests hosts i [] = []
forward_errors guests hosts i (pf ∷ pfs) =
    let g = guest_check guests i pf pf.guest_port in
    let k = host_check hosts i pf pf.guest_port pf.host_port in
    g.1 ++ (k.1 ++ forward_errors g.0 k.0 (suc i) pfs)

abbrev pub name_errors : Option NameError → Option ℕ → List Diagnostic
name_errors malformed long =
    (elim malformed [
      | none ↦ []
      | some e ↦ attribute_error (root "name" ∷ []) "Invalid Lima instance name" ∷ []
    ])
    ++ (elim long [
      | none ↦ []
      | some n ↦
          attribute_error (root "name" ∷ []) "Instance name is too long for this LIMA_HOME" ∷ []
    ])

abbrev pub plain_value : Option Bool → Bool × Bool
plain_value none = (false, true)
plain_value (some b) = (b, true)

abbrev pub plain_field : (Value → Option Bool) → Option Value → Bool × Bool
plain_field bool_of none = (false, true)
plain_field bool_of (some v) = plain_value (bool_of v)

-- PlainMode: the value of `plain`, and whether the document could be read. `bool_of` is the type
-- assertion of a value to a boolean.
unfoldable pub plain_mode :
    (String → Result FieldList) → (Value → Option Bool) → String → Bool × Bool
plain_mode parse_yaml bool_of doc = elim (parse_yaml doc) [
  | fault e ↦ (false, false)
  | value m ↦ plain_field bool_of (get m "plain")
]

module _ (s : Surroundings) where
  abbrev pub mount_key : List String → ℕ → Option String → List String × List Diagnostic
  mount_key seen i none = (seen, [])
  mount_key seen i (some expanded) = checked_key seen expanded (mount_error i)

  abbrev pub mount_check : List String → ℕ → Attr String → List String × List Diagnostic
  mount_check seen i (known location) = mount_key seen i (expand_path s location)
  mount_check seen i _ = (seen, [])

  -- The loop over the mounts, from the index `i`.
  unfoldable pub mount_errors : List String → ℕ → List MountModel → List Diagnostic
  mount_errors seen i [] = []
  mount_errors seen i (m ∷ ms) =
      let c = mount_check seen i m.location in c.1 ++ mount_errors c.0 (suc i) ms

  abbrev pub full_name_errors : String → String → Attr String → List Diagnostic
  full_name_errors prefix home (known name) =
      let full = effective_name prefix name in
      name_errors (validate_name full) (validate_name_for_home s.user_home full home)
  full_name_errors prefix home _ = []

  module _ (parse_yaml : String → Result FieldList) (bool_of : Value → Option Bool) where
    abbrev pub is_plain : Attr String → Bool
    is_plain (known doc) =
        (plain_mode parse_yaml bool_of doc).1 && (plain_mode parse_yaml bool_of doc).0
    is_plain _ = false

    abbrev pub plain_warning : String → List Diagnostic
    plain_warning attribute =
        attribute_warning (root attribute ∷ []) "Plain mode ignores mounts and port forwarding" ∷ []

    -- The first of the two documents that is in plain mode is named.
    unfoldable pub plain_warnings : InstanceModel → DeclaredLists → List Diagnostic
    plain_warnings config lists =
        if is_empty_list lists.mounts && is_empty_list lists.port_forwards
        then []
        else if is_plain config.config
        then plain_warning "config"
        else if is_plain config.config_overrides
        then plain_warning "config_overrides"
        else []

    -- The checks after that of the source.
    abbrev pub entry_diagnostics : InstanceModel → DeclaredLists → String → String → List Diagnostic
    entry_diagnostics config lists prefix home =
        plain_warnings config lists
        ++ (forward_errors [] [] 0 lists.port_forwards
            ++ (mount_errors [] 0 lists.mounts ++ full_name_errors prefix home config.name))

    unfoldable pub validate_instance_config :
        InstanceModel → DeclaredLists → String → String → List Diagnostic
    validate_instance_config config lists prefix home =
        if lacks_source config lists
        then (if has_typed config lists
            then general_warning "No template or config set"
              ∷ entry_diagnostics config lists prefix home
            else general_error "Missing instance source" ∷ [])
        else entry_diagnostics config lists prefix home
