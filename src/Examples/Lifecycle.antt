-- ===== src/Examples/Lifecycle.antt =====
-- The theorems on internal/lima/lifecycle.go, poll.go and disk.go in the sandbox.
use terraform_provider_lima.Base.{pos, ◌≡◌, refl, true, false, none, some, [], ◌∷◌}
use terraform_provider_lima.Errors.{is_not_found}
use terraform_provider_lima.Instance.{
  Instance, Status, CreateDiskRequest, EditRequest, status, normalize_status,
}
use terraform_provider_lima.Session.{
  State, ok, value, pure, attempt, ◌>>=◌, inspect, issue, sleep, lock, unlock, with_lock,
}
use terraform_provider_lima.Session.Discipline.{Orderly, latest}
use terraform_provider_lima.Poll.{poll, poll_loop, on_checked, on_slept, with_defaults}
use terraform_provider_lima.Service.{
  found, exists, status_reached, wait_for_status, absence_reached, wait_for_absence, after_start,
  start_locked, ensure_running, stop_locked, ensure_stopped,
}
use terraform_provider_lima.Service.Reached.{SeenStatus, ensure_running_done, ensure_stopped_done}
use terraform_provider_lima.Service.Create.{
  CreateParams, CreateResult, service_create, await_shared_setup, recheck_setup, create_instance,
  create_unlocked, create_absent, after_create, finish_create, or_return, or_return_case,
  release_setup,
}
use terraform_provider_lima.Service.Create.Done.{service_create_done}
use terraform_provider_lima.Service.Change.{
  ResizeParams, resize, service_delete, delete_locked, delete_found,
}
use terraform_provider_lima.Service.Traces.{resize_ordered, service_delete_ordered, disks_ordered}
use terraform_provider_lima.Service.Done.{Gone, service_delete_done}
use terraform_provider_lima.Disks.{disk_create, disk_resize, disk_delete}
use terraform_provider_lima.Sandbox.{
  Sandbox, sandbox_host, sandbox_options, at_rest, at_rest-Orderly, vm_in, free_disk_of,
}

abbrev stopped_vm : State Sandbox
stopped_vm = at_rest (some (vm_in "Stopped" false)) none

abbrev running_vm : State Sandbox
running_vm = at_rest (some (vm_in "Running" false)) none

abbrev empty_home : State Sandbox
empty_home = at_rest none none

abbrev new_dev : CreateParams
new_dev = record {
  name = "dev";
  document = "images: []";
  start = true;
  protect = true;
  validate = true;
}

abbrev no_sizes : EditRequest
no_sizes = record {
  cpus = pos 4;
  memory_bytes = pos 0;
  disk_bytes = pos 0;
  mounts = none;
  port_forwards = none;
  additional_disks = none;
}

abbrev more_cpus : ResizeParams
more_cpus = record {
  name = "dev";
  additional_disks = none;
  desired = no_sizes;
  mounts = none;
  previous_mounts = [];
  port_forwards = none;
  previous_port_forwards = [];
  want_running = true;
}

start_succeeds : (ensure_running sandbox_host sandbox_options "dev" stopped_vm).0 ≡ ok tt
unfolding ensure_running start_locked with_lock lock unlock inspect issue sleep attempt pure ◌>>=◌
    after_start wait_for_status status_reached poll poll_loop on_checked on_slept with_defaults
    status normalize_status
start_succeeds = refl

ensure_running_done_example :
    SeenStatus "dev"
      (Status.running ∷ [])
      (ensure_running sandbox_host sandbox_options "dev" stopped_vm).1
ensure_running_done_example =
    ensure_running_done sandbox_host sandbox_options "dev" stopped_vm start_succeeds

stop_succeeds : (ensure_stopped sandbox_host sandbox_options "dev" running_vm).0 ≡ ok tt
unfolding ensure_stopped stop_locked with_lock lock unlock inspect issue sleep attempt pure ◌>>=◌
    wait_for_status status_reached poll poll_loop on_checked on_slept with_defaults status
    normalize_status
stop_succeeds = refl

ensure_stopped_done_example :
    SeenStatus "dev"
      (Status.stopped ∷ [])
      (ensure_stopped sandbox_host sandbox_options "dev" running_vm).1
ensure_stopped_done_example =
    ensure_stopped_done sandbox_host sandbox_options "dev" running_vm stop_succeeds

delete_succeeds : (service_delete sandbox_host sandbox_options "dev" running_vm).0 ≡ ok tt
unfolding service_delete delete_locked delete_found with_lock lock unlock inspect issue sleep
    attempt pure ◌>>=◌ wait_for_absence absence_reached poll poll_loop on_checked on_slept
    with_defaults is_not_found
delete_succeeds = refl

service_delete_done_example :
    Gone "dev" (service_delete sandbox_host sandbox_options "dev" running_vm).1
service_delete_done_example =
    service_delete_done sandbox_host sandbox_options "dev" running_vm delete_succeeds

abbrev created_dev : CreateResult
created_dev = record {
  instance_of = some (record (vm_in "Running" true) { hostname = "lima-dev" });
  registered = true;
}

create_succeeds :
    (service_create sandbox_host sandbox_options new_dev empty_home).0 ≡ ok (created_dev, none)
unfolding service_create await_shared_setup recheck_setup create_instance create_unlocked
    create_absent after_create finish_create or_return or_return_case release_setup exists found
    start_locked with_lock lock unlock inspect issue sleep attempt pure ◌>>=◌ after_start
    wait_for_status status_reached poll poll_loop on_checked on_slept with_defaults status
    normalize_status is_not_found
create_succeeds = refl

service_create_done_example :
    (inst : Instance) × (latest "dev"
        (service_create sandbox_host sandbox_options new_dev empty_home).1.trace
      ≡ some (value inst))
    × (created_dev ≡ (record { instance_of = some inst; registered = true }))
service_create_done_example =
    service_create_done sandbox_host sandbox_options new_dev empty_home created_dev create_succeeds

resize_ordered_example : Orderly [] (resize sandbox_host sandbox_options more_cpus running_vm).1
resize_ordered_example =
    resize_ordered sandbox_host sandbox_options more_cpus running_vm (at_rest-Orderly _ _)

service_delete_ordered_example :
    Orderly [] (service_delete sandbox_host sandbox_options "dev" running_vm).1
service_delete_ordered_example =
    service_delete_ordered sandbox_host sandbox_options "dev" running_vm (at_rest-Orderly _ _)

abbrev data_disk : CreateDiskRequest
data_disk = record { name = "data"; size_bytes = pos 1_073_741_824; format = "qcow2" }

abbrev with_data : State Sandbox
with_data = at_rest none (some (free_disk_of "data" (pos 1_073_741_824)))

disks_ordered_example :
    Orderly [] (disk_create sandbox_host data_disk with_data).1
    × Orderly [] (disk_resize sandbox_host "data" (pos 2_147_483_648) with_data).1
    × Orderly [] (disk_delete sandbox_host "data" with_data).1
disks_ordered_example =
    disks_ordered sandbox_host data_disk "data" (pos 2_147_483_648) with_data (at_rest-Orderly _ _)
