-- ===== src/Provider/Records.antt =====
-- What the handlers of internal/provider/instance_resource.go read and answer, and what an import
-- records.
use Prim.Native.String.{◌++◌ as concat}
use terraform_provider_lima.Base.{
  pos, int_lt, String, false, not, ◌&&◌, Option, none, some, List, [], if◌then◌else◌, ◌==◌,
}
use terraform_provider_lima.Instance.{Instance, InstanceConfigView, running, status, status_eq}
use terraform_provider_lima.Sizes.Written.{format_size_text}
use terraform_provider_lima.Provider.Attr.{null, known, is_null, string_value, optional_string}
use terraform_provider_lima.Provider.Diagnostics.{Diagnostic}
use terraform_provider_lima.Provider.Models.{InstanceModel}
use terraform_provider_lima.Provider.Models.Names.{effective_name}

-- provider.go: the part of `providerData` that the handlers read beside the services.
pub record ProviderData : Type 0 where
  pub name_prefix : String
  pub home : String

pub record Response : Type 0 where
  pub state : Option InstanceModel
  pub diagnostics : List Diagnostic

abbrev no_config : InstanceConfigView
no_config = record {
  vm_type = "";
  arch = "";
  os = "";
  cpus = pos 0;
  memory = "";
  disk = "";
  user = "";
  mounts = [];
  port_forwards = [];
  additional_disks = [];
  images = [];
}

-- lima.Instance{Name: name, RawStatus: ""}
abbrev pub placeholder : String → Instance
placeholder name = record {
  name = name;
  hostname = "";
  raw_status = "";
  dir = "";
  vm_type = "";
  arch = "";
  cpus = pos 0;
  memory_bytes = pos 0;
  disk_bytes = pos 0;
  ssh_local_port = pos 0;
  ssh_config_file = "";
  ssh_address = "";
  protected = false;
  lima_version = "";
  host_agent_pid = pos 0;
  driver_pid = pos 0;
  host_os = "";
  host_arch = "";
  lima_home = "";
  identity_file = "";
  config = no_config;
}

-- The `Instance` field of a result, whose zero value is the zero instance.
abbrev pub instance_or_zero : Option Instance → Instance
instance_or_zero none = placeholder ""
instance_or_zero (some inst) = inst

unfoldable pub state_name : ProviderData → InstanceModel → String
state_name d m =
    if not (is_null m.instance_name) && not (string_value m.instance_name == "")
    then string_value m.instance_name
    else effective_name d.name_prefix (string_value m.name)

abbrev pub about : String → String → String
about doing name = concat doing name

-- What an import records of an instance; the attributes that it does not set are null.
unfoldable pub imported : String → Instance → InstanceModel
imported logical inst = record {
  name = known logical;
  template = null;
  config = null;
  config_overrides = null;
  vm_type = optional_string inst.vm_type;
  arch = optional_string inst.arch;
  cpus = if int_lt (pos 0) inst.cpus then known inst.cpus else null;
  memory =
      if int_lt (pos 0) inst.memory_bytes then known (format_size_text inst.memory_bytes) else null;
  disk = if int_lt (pos 0) inst.disk_bytes then known (format_size_text inst.disk_bytes) else null;
  start = known (status_eq (status inst) running);
  protect = known inst.protected;
  additional_disks = null;
  mounts = null;
  port_forwards = null;
  provisions = null;
  config_hash = null;
  instance_name = known inst.name;
  status = null;
  raw_status = null;
  ssh_address = null;
  ssh_port = null;
  ssh_user = null;
  ssh_config = null;
  hostname = null;
  dir = null;
  lima_version = null;
}
