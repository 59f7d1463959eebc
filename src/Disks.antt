-- ===== src/Disks.antt =====
-- `DiskService` of internal/lima/disk.go: when to run which disk command.
pub mod Ordered
use terraform_provider_lima.Base.{
  String, ℤ, int_eq, int_lt, Bool, true, false, some, List, if◌then◌else◌,
}
use terraform_provider_lima.Errors.{Err, disk_exists, disk_in_use, other, is_disk_not_found}
use terraform_provider_lima.Instance.{Disk, CreateDiskRequest, in_use}
use terraform_provider_lima.Locks.{disk_key}
use terraform_provider_lima.Session.{
  Host, M, Result, value, fault, create_disk, resize_disk, delete_disk, pure, raise, attempt, ◌>>=◌,
  ◌>>◌, inspect_disk, list_disks, issue, with_lock,
}

module _ {W : Type 0} (h : Host W) where
  unfoldable pub disk_get : String → M W Disk
  disk_get name = inspect_disk h name

  unfoldable pub disk_list : M W (List Disk)
  disk_list = list_disks h

  unfoldable pub disk_found : Result Disk → M W Bool
  disk_found (value d) = pure true
  disk_found (fault e) = if is_disk_not_found e then pure false else raise e

  unfoldable pub disk_exists_named : String → M W Bool
  disk_exists_named name = attempt (inspect_disk h name) >>= disk_found

  unfoldable pub disk_create_locked : CreateDiskRequest → M W Disk
  disk_create_locked req = do
    taken ← disk_exists_named req.name
    if taken
        then raise (disk_exists req.name)
        else issue h (create_disk req) >> inspect_disk h req.name

  unfoldable pub disk_create : CreateDiskRequest → M W Disk
  disk_create req = with_lock h (disk_key req.name) (disk_create_locked req)

  -- The guards of `Resize`, in their order.
  unfoldable pub disk_resize_found : String → ℤ → Disk → M W (Unit {0})
  disk_resize_found name size_bytes d =
      if int_eq d.size_bytes size_bytes
      then pure tt
      else if int_lt size_bytes d.size_bytes
      then raise (other "cannot shrink")
      else if in_use d
      then raise (disk_in_use name (some d.instance_name))
      else issue h (resize_disk name size_bytes)

  unfoldable pub disk_resize_locked : String → ℤ → M W (Unit {0})
  disk_resize_locked name size_bytes = inspect_disk h name >>= disk_resize_found name size_bytes

  unfoldable pub disk_resize : String → ℤ → M W (Unit {0})
  disk_resize name size_bytes = with_lock h (disk_key name) (disk_resize_locked name size_bytes)

  unfoldable pub disk_delete_found : String → Result Disk → M W (Unit {0})
  disk_delete_found name (fault e) = if is_disk_not_found e then pure tt else raise e
  disk_delete_found name (value d) =
      if in_use d
      then raise (disk_in_use name (some d.instance_name))
      else issue h (delete_disk name)

  unfoldable pub disk_delete_locked : String → M W (Unit {0})
  disk_delete_locked name = attempt (inspect_disk h name) >>= disk_delete_found name

  unfoldable pub disk_delete : String → M W (Unit {0})
  disk_delete name = with_lock h (disk_key name) (disk_delete_locked name)
