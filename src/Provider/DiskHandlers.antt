-- ===== src/Provider/DiskHandlers.antt =====
-- The handlers of internal/provider/disk_resource.go, over the disk service. A response starts from
-- what the framework hands in, as for an instance.
use Prim.Native.String.{◌++◌ as concat}
use terraform_provider_lima.Base.{
  ℕ, ℤ, String, Option, none, some, List, [], ◌∷◌, codes, text_of, if◌then◌else◌, ◌==◌,
}
use terraform_provider_lima.Errors.{is_disk_not_found}
use terraform_provider_lima.Instance.{Disk, trim_space}
use terraform_provider_lima.Session.{Host, M, Result, value, fault, pure, attempt, ◌>>=◌}
use terraform_provider_lima.Disks.{disk_get, disk_create, disk_resize, disk_delete}
use terraform_provider_lima.Sizes.Parse.{parse_size}
use terraform_provider_lima.Sizes.Written.{format_size_text}
use terraform_provider_lima.Provider.Attr.{null, known, is_known, string_value, optional_string}
use terraform_provider_lima.Provider.Diagnostics.{Diagnostic, root, attribute_error, general_error}
use terraform_provider_lima.Provider.Models.{DiskModel, apply_disk}

pub record DiskResponse : Type 0 where
  pub state : Option DiskModel
  pub diagnostics : List Diagnostic

abbrev pub disk_failed : Option DiskModel → String → DiskResponse
disk_failed state summary = record { state = state; diagnostics = general_error summary ∷ [] }

abbrev pub invalid_size : Diagnostic
invalid_size = attribute_error (root "size" ∷ []) "Invalid disk size"

abbrev pub size_diagnostics : Option ℤ → List Diagnostic
size_diagnostics none = invalid_size ∷ []
size_diagnostics (some size) = []

-- What an import records: the format stays unset.
unfoldable pub imported_disk : Disk → DiskModel
imported_disk d = record {
  name = known d.name;
  size = known (format_size_text d.size_bytes);
  format = null;
  actual_format = optional_string d.format;
  dir = optional_string d.dir;
  mount_point = optional_string d.mount_point;
  in_use_by = optional_string d.instance_name;
}

module _ {W : Type 0} (h : Host W) (wide_int : ℕ → ℤ) where
  -- ValidateConfig
  unfoldable pub validate_disk : DiskModel → List Diagnostic
  validate_disk config =
      if is_known config.size
      then size_diagnostics (parse_size wide_int (string_value config.size))
      else []

  unfoldable pub disk_created : DiskModel → Result Disk → M W DiskResponse
  disk_created plan (value d) =
      pure (record { state = some (apply_disk wide_int plan d); diagnostics = [] })
  disk_created plan (fault e) =
      pure (disk_failed none (concat "Unable to create Lima disk " (string_value plan.name)))

  unfoldable pub create_disk_sized : DiskModel → Option ℤ → M W DiskResponse
  create_disk_sized plan none = pure (record { state = none; diagnostics = invalid_size ∷ [] })
  create_disk_sized plan (some size) =
      attempt (
        disk_create h (record {
          name = string_value plan.name;
          size_bytes = size;
          format = string_value plan.format;
        }))
      >>= disk_created plan

  unfoldable pub create_disk_resource : DiskModel → M W DiskResponse
  create_disk_resource plan = create_disk_sized plan (parse_size wide_int (string_value plan.size))

  unfoldable pub disk_read : DiskModel → Result Disk → M W DiskResponse
  disk_read state (value d) =
      pure (record { state = some (apply_disk wide_int state d); diagnostics = [] })
  disk_read state (fault e) =
      if is_disk_not_found e
      then pure (record { state = none; diagnostics = [] })
      else pure
          (disk_failed (some state) (concat "Unable to read Lima disk " (string_value state.name)))

  unfoldable pub read_disk_resource : DiskModel → M W DiskResponse
  read_disk_resource state = attempt (disk_get h (string_value state.name)) >>= disk_read state

  unfoldable pub disk_reread : DiskModel → DiskModel → Result Disk → M W DiskResponse
  disk_reread plan state (value d) =
      pure (record { state = some (apply_disk wide_int plan d); diagnostics = [] })
  disk_reread plan state (fault e) = pure (
      disk_failed (some state)
        (concat "Unable to read after resizing Lima disk " (string_value state.name)))

  unfoldable pub disk_resized : DiskModel → DiskModel → Result (Unit {0}) → M W DiskResponse
  disk_resized plan state (value _) =
      attempt (disk_get h (string_value state.name)) >>= disk_reread plan state
  disk_resized plan state (fault e) =
      pure
        (disk_failed (some state) (concat "Unable to resize Lima disk " (string_value state.name)))

  unfoldable pub update_disk_sized : DiskModel → DiskModel → Option ℤ → M W DiskResponse
  update_disk_sized plan state none =
      pure (record { state = some state; diagnostics = invalid_size ∷ [] })
  update_disk_sized plan state (some size) =
      attempt (disk_resize h (string_value state.name) size) >>= disk_resized plan state

  unfoldable pub update_disk_resource : DiskModel → DiskModel → M W DiskResponse
  update_disk_resource plan state =
      update_disk_sized plan state (parse_size wide_int (string_value plan.size))

  unfoldable pub disk_deleted : DiskModel → Result (Unit {0}) → M W DiskResponse
  disk_deleted state (value _) = pure (record { state = none; diagnostics = [] })
  disk_deleted state (fault e) =
      pure
        (disk_failed (some state) (concat "Unable to delete Lima disk " (string_value state.name)))

  unfoldable pub delete_disk_resource : DiskModel → M W DiskResponse
  delete_disk_resource state =
      attempt (disk_delete h (string_value state.name)) >>= disk_deleted state

  unfoldable pub disk_import_found : String → Result Disk → M W DiskResponse
  disk_import_found name (value d) =
      pure (record { state = some (imported_disk d); diagnostics = [] })
  disk_import_found name (fault e) =
      if is_disk_not_found e
      then pure (disk_failed none (concat "Lima disk not found: " name))
      else pure (disk_failed none (concat "Unable to read Lima disk " name))

  unfoldable pub import_disk_named : String → M W DiskResponse
  import_disk_named name =
      if name == ""
      then pure (disk_failed none "Invalid import ID")
      else attempt (disk_get h name) >>= disk_import_found name

  unfoldable pub import_disk_resource : String → M W DiskResponse
  import_disk_resource id = import_disk_named (text_of (trim_space (codes id)))
