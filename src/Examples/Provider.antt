-- ===== src/Examples/Provider.antt =====
-- The theorems on internal/provider in the sandbox.
use terraform_provider_lima.Base.{
  pos, ◌≡◌, ◌≢◌, refl, Bool, true, false, String, none, some, [], ◌∷◌, List, arith, if◌then◌else◌,
  ◌==◌, eq_iff,
}
use terraform_provider_lima.Errors.{other}
use terraform_provider_lima.Instance.{Instance, status, trim_space}
use terraform_provider_lima.Session.{State, Result, value, fault}
use terraform_provider_lima.Paths.Expand.{expand_path}
use terraform_provider_lima.Tree.Ordered.{ordered_value, to_ordered}
use terraform_provider_lima.Render.{template_base, base_document, with_overrides, nonempty, render}
use terraform_provider_lima.Provider.Planned.{planned_disks}
use terraform_provider_lima.Session.Named.{NamesAsked}
use terraform_provider_lima.Session.Discipline.{Orderly}
use terraform_provider_lima.Tree.{
  scalar, no_fields, field_then, merge_maps, mark_empty_sequences, configures_anything,
}
use terraform_provider_lima.Service.Create.{CreateResult}
use terraform_provider_lima.Sandbox.{
  Sandbox, sandbox_host, sandbox_options, at_rest, at_rest-Orderly, vm_in,
}
use terraform_provider_lima.Commands.{Encoders}
use terraform_provider_lima.Adapter.{Machine, ran, ExecClient, Decoders, exec_host}
use terraform_provider_lima.Adapter.Found.{exec_host-NamesAsked}
use terraform_provider_lima.Provider.Attr.{Attr, null, unknown, known}
use terraform_provider_lima.Provider.Models.{InstanceModel, declared}
use terraform_provider_lima.Provider.Models.Names.{effective_name, logical_name, import_names}
use terraform_provider_lima.Provider.Document.{
  Platform, Rendered, render_model, to_render_request, typed_config, render_bytes, hash_document,
}
use terraform_provider_lima.Provider.Refresh.{refreshed}
use terraform_provider_lima.Provider.Refresh.Settled.{refreshed_again}
use terraform_provider_lima.Provider.Records.{ProviderData}
use terraform_provider_lima.Provider.Instances.{
  create_handler, read_handler, delete_handler, import_handler,
}
use terraform_provider_lima.Provider.Instances.Update.{update_handler}
use terraform_provider_lima.Provider.Instances.Traces.{handlers_ordered}

abbrev running_vm : State Sandbox
running_vm = at_rest (some (vm_in "Running" false)) none

abbrev empty_home : State Sandbox
empty_home = at_rest none none

abbrev pub platform : Platform
platform = record {
  surroundings = record { user_home = some "/home/dev"; working_dir = some "/home/dev/infra" };
  wide_int = pos;
  parse_yaml = λ s. value no_fields;
  encode_typed = λ c. value (field_then "vmType" (scalar c.vm_type) no_fields);
  write_yaml = λ t. value "vmType: vz";
  sha256_hex = λ s. "77af";
}

abbrev pub provider : ProviderData
provider = record { name_prefix = ""; home = "" }

-- What a configuration sets; the rest is not known yet.
abbrev pub plan : InstanceModel
plan = record {
  name = known "dev";
  template = null;
  config = null;
  config_overrides = null;
  vm_type = known "vz";
  arch = null;
  cpus = known (pos 4);
  memory = known "4096MiB";
  disk = null;
  start = known true;
  protect = known true;
  additional_disks = null;
  mounts =
      known
        ((record { location = known "/tmp/lima"; mount_point = null; writable = known true }) ∷ []);
  port_forwards = null;
  provisions = null;
  config_hash = unknown;
  instance_name = unknown;
  status = unknown;
  raw_status = unknown;
  ssh_address = unknown;
  ssh_port = unknown;
  ssh_user = unknown;
  ssh_config = unknown;
  hostname = unknown;
  dir = unknown;
  lima_version = unknown;
}

abbrev pub state : InstanceModel
state = record plan { instance_name = known "dev"; protect = known false; start = known false }

refreshed_again_example :
    refreshed platform (refreshed platform state (vm_in "Running" false)) (vm_in "Running" false)
    ≡ refreshed platform state (vm_in "Running" false)
refreshed_again_example = refreshed_again platform state (vm_in "Running" false)

handlers_ordered_example :
    Orderly []
      (create_handler sandbox_host sandbox_options platform (some provider) plan running_vm).1
    × Orderly []
        (read_handler sandbox_host sandbox_options platform (some provider) state running_vm).1
    × Orderly []
        (update_handler sandbox_host sandbox_options platform
          (some provider)
          plan
          state
          running_vm).1
    × Orderly []
        (delete_handler sandbox_host sandbox_options platform (some provider) state running_vm).1
    × Orderly []
        (import_handler sandbox_host sandbox_options platform (some provider) " dev" running_vm).1
handlers_ordered_example =
    handlers_ordered sandbox_host sandbox_options platform (some provider) plan state " dev"
      running_vm (at_rest-Orderly _ _)

import_names_example :
    (logical_name "acme-" (effective_name "acme-" "dev") ≡ "dev")
    × (effective_name "acme-" (logical_name "acme-" "acme-web") ≡ "acme-web")
import_names_example = import_names "acme-" "dev" "acme-web" named refl longer
  where
    named : ◌≢◌ {A = String} "dev" ""
    named e = let wrong : false ≡ true = (eq_iff "dev" "").1 e in ground arith

    longer : ◌≢◌ {A = String} "acme-web" "acme-"
    longer e = let wrong : false ≡ true = (eq_iff "acme-web" "acme-").1 e in ground arith

abbrev pub rendered : Rendered
rendered = record { document = "vmType: vz"; hash = "sha256:77af" }

pub plan_renders :
    (protect : Attr Bool)
    → (render_model platform
        (record plan { protect = protect })
        (declared (record plan { protect = protect }))).0
      ≡ some rendered
unfolding render_model to_render_request typed_config planned_disks declared render_bytes render
    hash_document base_document template_base with_overrides nonempty configures_anything trim_space
    expand_path to_ordered ordered_value merge_maps mark_empty_sequences
plan_renders protect = refl

abbrev created_dev : CreateResult
created_dev = record { instance_of = some (vm_in "Running" true); registered = true }

-- A limactl that knows no instance: it fails and prints nothing.
abbrev no_instances : Machine Sandbox
no_instances = record {
  execute = λ args env w. (ran "" "no instance matching" (pos 1), w);
  context_err = λ w. none;
  environ = λ w. [];
  write_document = λ doc w. (value "/tmp/lima.yaml", w);
  remove_document = λ path w. w;
}

abbrev client : ExecClient
client = record { home = ""; env = [] }

abbrev encoders : Encoders
encoders = record {
  gib_text = λ n. "1";
  gib_bytes = λ s. some (pos 1_073_741_824);
  mounts_json = λ ms. value "[]";
  port_forwards_json = λ ps. value "[]";
  disks_json = λ ds. value "[]";
}

abbrev parse_instances : String → Result (List Instance)
parse_instances s = if s == "" then value [] else fault (other "invalid JSON")

abbrev decoders : Decoders
decoders = record {
  instances = parse_instances;
  disks = λ s. value [];
  template = λ s. fault (other "invalid YAML");
}

exec_host-NamesAsked_example :
    NamesAsked (exec_host no_instances client encoders decoders sandbox_host)
exec_host-NamesAsked_example =
    exec_host-NamesAsked no_instances client encoders decoders sandbox_host
