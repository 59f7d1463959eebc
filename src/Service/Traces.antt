-- ===== src/Service/Traces.antt =====
-- What every method of `Service` and `DiskService` does to the trace, called with no lock held.
use terraform_provider_lima.Base.{String, ℤ, [], Bool}
use terraform_provider_lima.Instance.{CreateDiskRequest}
use terraform_provider_lima.Session.{Host, State}
use terraform_provider_lima.Session.Discipline.{Orderly}
use terraform_provider_lima.Poll.{PollOptions}
use terraform_provider_lima.Service.{ensure_running, ensure_stopped}
use terraform_provider_lima.Service.Change.{ResizeParams, resize, set_protection, service_delete}
use terraform_provider_lima.Service.Ordered.{
  ensure_running-Orderly, ensure_stopped-Orderly, resize-Orderly, set_protection-Orderly,
  service_delete-Orderly,
}
use terraform_provider_lima.Disks.{disk_create, disk_resize, disk_delete}
use terraform_provider_lima.Disks.Ordered.{
  disk_create-Orderly, disk_resize-Orderly, disk_delete-Orderly,
}

-- Whatever the host answers and however the call ends, `Resize` issues the edit, which Lima refuses
-- on a running instance, only after the instance was last seen not running, and the stop and the
-- start only after a status that calls for them, all under the instance's lock, and it returns with
-- no lock held.
pub resize_ordered :
    {W : Type 0} (h : Host W) (o : PollOptions) (p : ResizeParams) (s : State W)
    → Orderly [] s
    → Orderly [] (resize h o p s).1
resize_ordered h o p s v = (resize-Orderly h o p).at s v

-- Whatever the host answers and however the call ends, `Delete` issues a delete only under the
-- instance's lock and after the instance was last seen unprotected, and returns with no lock held.
pub service_delete_ordered :
    {W : Type 0} (h : Host W) (o : PollOptions) (name : String) (s : State W)
    → Orderly [] s
    → Orderly [] (service_delete h o name s).1
service_delete_ordered h o name s v = (service_delete-Orderly h o name).at s v

-- Whatever the host answers and however the call ends, `EnsureRunning` issues a start only after the
-- instance was last seen in another status than running, and `EnsureStopped` a stop only after it was
-- last seen in another than stopped, under the instance's lock; both return with no lock held.
pub ensure_ordered :
    {W : Type 0} (h : Host W) (o : PollOptions) (name : String) (s : State W)
    → Orderly [] s
    → Orderly [] (ensure_running h o name s).1 × Orderly [] (ensure_stopped h o name s).1
ensure_ordered h o name s v =
    ((ensure_running-Orderly h o name).at s v, (ensure_stopped-Orderly h o name).at s v)

-- Whatever the host answers and however the call ends, `SetProtection` issues its command only under
-- the instance's lock and after an observation of it, an unprotect only after the instance was last
-- seen protected, and it returns with no lock held.
pub set_protection_ordered :
    {W : Type 0} (h : Host W) (o : PollOptions) (name : String) (want : Bool) (s : State W)
    → Orderly [] s
    → Orderly [] (set_protection h o name want s).1
set_protection_ordered h o name want s v = (set_protection-Orderly h o name want).at s v

-- Whatever the host answers and however the call ends, `DiskService` creates a disk only after it was
-- last seen absent, resizes it only after it was last seen smaller and free, and deletes it only
-- after it was last seen free, under the disk's lock, and it returns with no lock held.
pub disks_ordered :
    {W : Type 0} (h : Host W) (req : CreateDiskRequest) (name : String) (size_bytes : ℤ)
    → (s : State W) → Orderly [] s
    → Orderly [] (disk_create h req s).1
      × Orderly [] (disk_resize h name size_bytes s).1
      × Orderly [] (disk_delete h name s).1
disks_ordered h req name size_bytes s v = (
  (disk_create-Orderly h req).at s v,
  (disk_resize-Orderly h name size_bytes).at s v,
  (disk_delete-Orderly h name).at s v,
)
