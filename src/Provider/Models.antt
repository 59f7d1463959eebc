-- ===== src/Provider/Models.antt =====
-- The models of internal/provider/models.go, without their timeouts, and what a read of Lima changes
-- of them.
pub mod Names
use terraform_provider_lima.Base.{
  ℕ, ℤ, pos, int_lt, int_eq, String, Bool, true, false, not, ◌&&◌, ◌||◌, Option, none, some, List,
  [], ◌∷◌, map, if◌then◌else◌, ◌==◌,
}
use terraform_provider_lima.Instance.{
  Instance, InstanceConfigView, AdditionalDiskView, Status, running, stopped, creating, broken,
  status, Disk,
}
use terraform_provider_lima.Service.{label}
use terraform_provider_lima.Sizes.Parse.{parse_size}
use terraform_provider_lima.Sizes.Written.{format_size_text}
use terraform_provider_lima.Provider.Attr.{
  Attr, null, unknown, known, is_null, is_unknown, is_known, string_value, optional_string,
  elements_if_known, is_managed,
}

pub record MountModel : Type 0 where
  pub location : Attr String
  pub mount_point : Attr String
  pub writable : Attr Bool

pub record PortModel : Type 0 where
  pub guest_port : Attr ℤ
  pub host_port : Attr ℤ
  pub protocol : Attr String
  pub guest_ip : Attr String
  pub host_ip : Attr String

pub record ProvModel : Type 0 where
  pub mode : Attr String
  pub script : Attr String
  pub rerun_token : Attr String

pub record InstanceModel : Type 0 where
  pub name : Attr String
  pub template : Attr String
  pub config : Attr String
  pub config_overrides : Attr String
  pub vm_type : Attr String
  pub arch : Attr String
  pub cpus : Attr ℤ
  pub memory : Attr String
  pub disk : Attr String
  pub start : Attr Bool
  pub protect : Attr Bool
  pub additional_disks : Attr (List (Attr String))
  pub mounts : Attr (List MountModel)
  pub port_forwards : Attr (List PortModel)
  pub provisions : Attr (List ProvModel)
  pub config_hash : Attr String
  pub instance_name : Attr String
  pub status : Attr String
  pub raw_status : Attr String
  pub ssh_address : Attr String
  pub ssh_port : Attr ℤ
  pub ssh_user : Attr String
  pub ssh_config : Attr String
  pub hostname : Attr String
  pub dir : Attr String
  pub lima_version : Attr String

pub record DeclaredLists : Type 0 where
  pub mounts : List MountModel
  pub port_forwards : List PortModel
  pub provisions : List ProvModel
  pub mounts_managed : Bool
  pub port_forwards_managed : Bool
  pub unresolved : Bool

unfoldable pub declared : InstanceModel → DeclaredLists
declared m = record {
  mounts = elements_if_known m.mounts;
  port_forwards = elements_if_known m.port_forwards;
  provisions = elements_if_known m.provisions;
  mounts_managed = is_managed m.mounts;
  port_forwards_managed = is_managed m.port_forwards;
  unresolved = is_unknown m.mounts || is_unknown m.port_forwards || is_unknown m.provisions;
}

-- inspect.go: SSHInfo and Instance.SSH
pub record SshInfo : Type 0 where
  pub address : String
  pub port : ℤ
  pub user : String
  pub config_file : String
  pub hostname : String

unfoldable pub ssh : Instance → SshInfo
ssh inst = record {
  address = inst.ssh_address;
  port = inst.ssh_local_port;
  user = inst.config.user;
  config_file = inst.ssh_config_file;
  hostname = inst.hostname;
}

-- A number that is reported only if it is positive.
abbrev pub positive_or_null : ℤ → Attr ℤ
positive_or_null n = if int_lt (pos 0) n then known n else null

unfoldable pub apply_instance : InstanceModel → Instance → InstanceModel
unfolding ssh
apply_instance m inst = record m {
  instance_name = known inst.name;
  status = known (label (status inst));
  raw_status = known inst.raw_status;
  hostname = known inst.hostname;
  dir = known inst.dir;
  lima_version = optional_string inst.lima_version;
  ssh_address = optional_string (ssh inst).address;
  ssh_user = optional_string (ssh inst).user;
  ssh_config = optional_string (ssh inst).config_file;
  ssh_port = positive_or_null (ssh inst).port;
  protect = known inst.protected;
}

-- if !m.VMType.IsNull() && inst.VMType != "" { … }
abbrev pub observed_text : Attr String → String → Attr String
observed_text configured reported =
    if not (is_null configured) && not (reported == "") then known reported else configured

abbrev pub observed_cpus : Attr ℤ → ℤ → Attr ℤ
observed_cpus configured reported =
    if not (is_null configured) && int_lt (pos 0) reported then known reported else configured

abbrev pub start_of : Attr Bool → Status → Attr Bool
start_of current running = known true
start_of current stopped = known false
start_of current _ = current

unfoldable pub observed_start : Attr Bool → Instance → Attr Bool
observed_start current inst = start_of current (status inst)

module _ (wide_int : ℕ → ℤ) where
  -- Does the text parse to this number of bytes?
  abbrev pub parses_to : Option ℤ → ℤ → Bool
  parses_to none bytes = false
  parses_to (some have) bytes = int_eq have bytes

  unfoldable pub observed_size : Attr String → ℤ → Attr String
  observed_size configured bytes =
      if is_null configured || not (int_lt (pos 0) bytes)
      then configured
      else if parses_to (parse_size wide_int (string_value configured)) bytes
      then configured
      else known (format_size_text bytes)

  unfoldable pub apply_observed_config : InstanceModel → Instance → InstanceModel
  apply_observed_config m inst = record m {
    cpus = observed_cpus m.cpus inst.cpus;
    memory = observed_size m.memory inst.memory_bytes;
    disk = observed_size m.disk inst.disk_bytes;
    vm_type = observed_text m.vm_type inst.vm_type;
    arch = observed_text m.arch inst.arch;
  }

-- inspect.go: InstanceConfigView.AttachedDiskNames
abbrev pub disk_names : List AdditionalDiskView → List String
disk_names [] = []
disk_names (d ∷ ds) = let rest = disk_names ds in if not (d.name == "") then d.name ∷ rest else rest

unfoldable pub attached_disk_names : InstanceConfigView → List String
attached_disk_names c = disk_names c.additional_disks

unfoldable pub apply_attached_disks : InstanceModel → Instance → InstanceModel
apply_attached_disks m inst =
    if is_known m.additional_disks
    then record m { additional_disks = known (map known (attached_disk_names inst.config)) }
    else m

pub record DiskModel : Type 0 where
  pub name : Attr String
  pub size : Attr String
  pub format : Attr String
  pub actual_format : Attr String
  pub dir : Attr String
  pub mount_point : Attr String
  pub in_use_by : Attr String

unfoldable pub apply_disk : (ℕ → ℤ) → DiskModel → Disk → DiskModel
apply_disk wide_int m d = record m {
  name = known d.name;
  size = observed_size wide_int m.size d.size_bytes;
  actual_format = optional_string d.format;
  dir = optional_string d.dir;
  mount_point = optional_string d.mount_point;
  in_use_by = optional_string d.instance_name;
}
