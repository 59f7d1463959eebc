-- ===== src/Provider/Document.antt =====
-- `toRenderRequest` of internal/provider/models.go and `render` of instance_resource.go.
use Prim.Native.String.{◌++◌ as concat}
use terraform_provider_lima.Base.{
  ℕ, ℤ, String, Option, none, some, List, [], ◌∷◌, map, if◌then◌else◌,
}
use terraform_provider_lima.Instance.{Mount, PortForward, AdditionalDisk}
use terraform_provider_lima.Paths.Expand.{Surroundings, expand_path}
use terraform_provider_lima.Session.{Result, value, fault}
use terraform_provider_lima.Tree.{FieldList}
use terraform_provider_lima.Tree.Ordered.{to_ordered}
use terraform_provider_lima.Render.{RenderRequest, render, and_then, wrapping}
use terraform_provider_lima.Provider.Attr.{string_value, int_value}
use terraform_provider_lima.Provider.Diagnostics.{Diagnostic, general_error, has_error}
use terraform_provider_lima.Provider.Models.{MountModel, ProvModel, InstanceModel, DeclaredLists}
use terraform_provider_lima.Provider.Planned.{mount_at, forward_of, planned_disks}

-- config.go: Provision and InstanceConfig. The provider never sets its base.
pub record Provision : Type 0 where
  pub mode : String
  pub script : String

pub record InstanceConfig : Type 0 where
  pub vm_type : String
  pub arch : String
  pub cpus : ℤ
  pub memory : String
  pub disk : String
  pub mounts : List Mount
  pub port_forwards : List PortForward
  pub provision : List Provision
  pub additional_disks : List AdditionalDisk

-- What lies outside the repository: the process's surroundings, the conversion of a number beyond
-- int64, the YAML library as parseMapping, toTree and marshalDeterministic call it, and SHA-256.
pub record Platform : Type 0 where
  pub surroundings : Surroundings
  pub wide_int : ℕ → ℤ
  pub parse_yaml : String → Result FieldList
  pub encode_typed : InstanceConfig → Result FieldList
  pub write_yaml : FieldList → Result String
  pub sha256_hex : String → String

abbrev pub provision_of : ProvModel → Provision
provision_of p = record { mode = string_value p.mode; script = string_value p.script }

abbrev pub none_as_empty : Option (List AdditionalDisk) → List AdditionalDisk
none_as_empty none = []
none_as_empty (some disks) = disks

pub record Rendered : Type 0 where
  pub document : String
  pub hash : String

module _ (pf : Platform) where
  -- The loop over the mounts. Here a location that is not known counts as the empty text.
  abbrev pub rendered_mounts : List MountModel → List Mount
  rendered_mounts [] = []
  rendered_mounts (m ∷ ms) =
      mount_at pf.surroundings m (expand_path pf.surroundings (string_value m.location))
        (rendered_mounts ms)

  abbrev pub mount_diagnostic : Option String → List Diagnostic → List Diagnostic
  mount_diagnostic none rest = general_error "Invalid mount location" ∷ rest
  mount_diagnostic (some location) rest = rest

  abbrev pub mount_diagnostics : List MountModel → List Diagnostic
  mount_diagnostics [] = []
  mount_diagnostics (m ∷ ms) =
      mount_diagnostic (expand_path pf.surroundings (string_value m.location))
        (mount_diagnostics ms)

  unfoldable pub typed_config : InstanceModel → DeclaredLists → InstanceConfig
  typed_config m lists = record {
    vm_type = string_value m.vm_type;
    arch = string_value m.arch;
    cpus = int_value m.cpus;
    memory = string_value m.memory;
    disk = string_value m.disk;
    mounts = rendered_mounts lists.mounts;
    port_forwards = map forward_of lists.port_forwards;
    provision = map provision_of lists.provisions;
    additional_disks = none_as_empty (planned_disks m);
  }

  unfoldable pub to_render_request : InstanceModel → DeclaredLists → RenderRequest × List Diagnostic
  to_render_request m lists = (
    record {
      template = string_value m.template;
      raw_config = string_value m.config;
      typed = pf.encode_typed (typed_config m lists);
      overrides = string_value m.config_overrides;
    },
    mount_diagnostics lists.mounts,
  )

  -- lima.Render, with marshalDeterministic
  unfoldable pub render_bytes : RenderRequest → Result String
  render_bytes req =
      and_then (render pf.parse_yaml req)
        (λ doc. wrapping "serialising Lima configuration" (pf.write_yaml (to_ordered doc)))

  -- lima.HashDocument
  unfoldable pub hash_document : String → String
  hash_document doc = concat "sha256:" (pf.sha256_hex doc)

  abbrev pub rendered_result : Result String → Option Rendered × List Diagnostic
  rendered_result (value doc) = (some (record { document = doc; hash = hash_document doc }), [])
  rendered_result (fault e) = (none, general_error "Unable to generate the Lima configuration" ∷ [])

  -- The document and its hash, or the diagnostics, which then have an error.
  unfoldable pub render_model : InstanceModel → DeclaredLists → Option Rendered × List Diagnostic
  render_model m lists =
      let (req, diags) = to_render_request m lists in
      if has_error diags then (none, diags) else rendered_result (render_bytes req)
