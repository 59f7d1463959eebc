-- ===== src/Provider/Sources.antt =====
-- The data sources of internal/provider: instance_data_source.go, instances_data_source.go and
-- disk_data_source.go, with their models of models.go.
use Prim.Native.String.{◌++◌ as concat}
use terraform_provider_lima.Base.{
  ℤ, pos, int_lt, String, Bool, Option, none, some, List, [], ◌∷◌, map, if◌then◌else◌, ◌==◌, not,
}
use terraform_provider_lima.Errors.{is_not_found, is_disk_not_found}
use terraform_provider_lima.Instance.{Instance, Disk, status}
use terraform_provider_lima.Service.{label}
use terraform_provider_lima.Session.{
  Host, M, Result, value, fault, pure, attempt, ◌>>=◌, inspect, list_instances,
}
use terraform_provider_lima.Disks.{disk_get}
use terraform_provider_lima.Sizes.Written.{format_size_text}
use terraform_provider_lima.Provider.Attr.{Attr, null, known, optional_string}
use terraform_provider_lima.Provider.Diagnostics.{Diagnostic, general_error}
use terraform_provider_lima.Provider.Models.{ssh, positive_or_null}

pub record InstanceEntryModel : Type 0 where
  pub name : Attr String
  pub status : Attr String
  pub raw_status : Attr String
  pub arch : Attr String
  pub vm_type : Attr String
  pub cpus : Attr ℤ
  pub memory : Attr String
  pub disk : Attr String
  pub ssh_address : Attr String
  pub ssh_port : Attr ℤ
  pub ssh_user : Attr String
  pub ssh_config : Attr String
  pub hostname : Attr String
  pub dir : Attr String
  pub protected : Attr Bool
  pub lima_version : Attr String

abbrev pub size_or_null : ℤ → Attr String
size_or_null n = if int_lt (pos 0) n then known (format_size_text n) else null

-- Both models hold these attributes, and both are set by this function.
unfoldable pub observed_entry : Instance → String → InstanceEntryModel
observed_entry inst provider_version = record {
  name = known inst.name;
  status = known (label (status inst));
  raw_status = known inst.raw_status;
  arch = optional_string inst.arch;
  vm_type = optional_string inst.vm_type;
  cpus = positive_or_null inst.cpus;
  memory = size_or_null inst.memory_bytes;
  disk = size_or_null inst.disk_bytes;
  ssh_address = optional_string (ssh inst).address;
  ssh_port = positive_or_null (ssh inst).port;
  ssh_user = optional_string (ssh inst).user;
  ssh_config = optional_string (ssh inst).config_file;
  hostname = optional_string inst.hostname;
  dir = optional_string inst.dir;
  protected = known inst.protected;
  lima_version =
      if not (inst.lima_version == "")
      then known inst.lima_version
      else optional_string provider_version;
}

pub record DiskSourceModel : Type 0 where
  pub name : Attr String
  pub size : Attr String
  pub size_bytes : Attr ℤ
  pub format : Attr String
  pub dir : Attr String
  pub mount_point : Attr String
  pub in_use_by : Attr String

unfoldable pub observed_disk : Disk → DiskSourceModel
observed_disk d = record {
  name = known d.name;
  size = known (format_size_text d.size_bytes);
  size_bytes = known d.size_bytes;
  format = optional_string d.format;
  dir = optional_string d.dir;
  mount_point = optional_string d.mount_point;
  in_use_by = optional_string d.instance_name;
}

-- A data source answers with its attributes or with an error.
pub record SourceResponse (A : Type 0) : Type 0 where
  pub state : Option A
  pub diagnostics : List Diagnostic

module _ {A : Type 0} where
  abbrev pub source_found : A → SourceResponse A
  source_found a = record { state = some a; diagnostics = [] }

  abbrev pub source_failed : String → SourceResponse A
  source_failed summary = record { state = none; diagnostics = general_error summary ∷ [] }

module _ {W : Type 0} (h : Host W) where
  abbrev pub instance_read : String → String → Result Instance → SourceResponse InstanceEntryModel
  instance_read name provider_version (value inst) =
      source_found (observed_entry inst provider_version)
  instance_read name provider_version (fault e) =
      if is_not_found e
      then source_failed (concat "Lima instance not found: " name)
      else source_failed (concat "Unable to read Lima instance " name)

  unfoldable pub read_instance_source : String → String → M W (SourceResponse InstanceEntryModel)
  read_instance_source name provider_version =
      attempt (inspect h name) >>= λ r. pure (instance_read name provider_version r)

  abbrev pub instances_read :
      String → Result (List Instance) → SourceResponse (List InstanceEntryModel)
  instances_read provider_version (value is) =
      source_found (map (λ i. observed_entry i provider_version) is)
  instances_read provider_version (fault e) = source_failed "Unable to list Lima instances"

  unfoldable pub read_instances_source : String → M W (SourceResponse (List InstanceEntryModel))
  read_instances_source provider_version =
      attempt (list_instances h) >>= λ r. pure (instances_read provider_version r)

  abbrev pub disk_source_read : String → Result Disk → SourceResponse DiskSourceModel
  disk_source_read name (value d) = source_found (observed_disk d)
  disk_source_read name (fault e) =
      if is_disk_not_found e
      then source_failed (concat "Lima disk not found: " name)
      else source_failed (concat "Unable to read Lima disk " name)

  unfoldable pub read_disk_source : String → M W (SourceResponse DiskSourceModel)
  read_disk_source name = attempt (disk_get h name) >>= λ r. pure (disk_source_read name r)
