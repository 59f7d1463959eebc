-- ===== src/Service.antt =====
-- `Service` of internal/lima/lifecycle.go: when to run which command. The methods take the host and
-- the poll options. A Go result `(T, error)` with a meaning in both parts is a pair in the model.
pub mod Create
pub mod Change
pub mod Orderly
pub mod Reached
pub mod Ordered
pub mod Ends
pub mod Traces
pub mod Done
pub mod Resized
use Prim.Native.String.{◌++◌}
use terraform_provider_lima.Base.{
  String, Bool, true, false, not, ◌&&◌, ◌||◌, Option, none, some, List, [], ◌∷◌, map, is_zero,
  any_of, contains_text, if◌then◌else◌, ◌==◌,
}
use terraform_provider_lima.Errors.{
  Err, protected, already_exists, restart_after_edit, wrapped, other, is_not_found,
}
use terraform_provider_lima.Instance.{
  Instance, InstanceConfigView, Status, running, stopped, creating, broken, unknown, status,
  status_eq, Mount, PortForward, AdditionalDisk, EditRequest, is_empty, is_nil, Template,
  image_locations, template_image_locations,
}
use terraform_provider_lima.Locks.{instance_key, home_key}
use terraform_provider_lima.Merge.{
  merge_mounts, same_mounts, merge_port_forwards, same_port_forwards, same_disks,
  filter_to_actual_changes,
}
use terraform_provider_lima.Session.{
  Host, State, M, Outcome, ok, err, hang, Result, value, fault, validate, create, edit, start, stop,
  delete, protect, unprotect, pure, raise, attempt, ◌>>=◌, ◌>>◌, inspect, resolve_template, issue,
  lock, unlock, with_lock,
}
use terraform_provider_lima.Poll.{PollOptions, PollResult, poll}

abbrev pub label : Status → String
label running = "running"
label stopped = "stopped"
label creating = "creating"
label broken = "broken"
label unknown = "unknown"

unfoldable pub join_or : List String → String
join_or [] = ""
join_or (a ∷ []) = a
join_or (a ∷ b ∷ []) = a ++ " or " ++ b
join_or (a ∷ b ∷ c ∷ rest) = a ++ ", " ++ join_or (b ∷ c ∷ rest)

-- slices.Contains(want, st)
abbrev pub is_wanted : List Status → Status → Bool
is_wanted want st = any_of (λ w. status_eq st w) want

abbrev pub keep_polling : String → PollResult
keep_polling observed = record { done = false; observed = observed }

abbrev pub poll_done_with : String → PollResult
poll_done_with observed = record { done = true; observed = observed }

module _ {W : Type 0} (h : Host W) (o : PollOptions) where
  -- Exists
  unfoldable pub found : Result Instance → M W Bool
  found (value inst) = pure true
  found (fault e) = if is_not_found e then pure false else raise e

  unfoldable pub exists : String → M W Bool
  exists name = attempt (inspect h name) >>= found

  -- The check of `waitForStatus`.
  unfoldable pub status_reached : String → List Status → Result Instance → M W PollResult
  status_reached operation want (fault e) =
      if is_not_found e then pure (keep_polling "absent") else raise e
  status_reached operation want (value inst) =
      if status_eq (status inst) broken
      then raise (other operation)
      else if is_wanted want (status inst)
      then pure (poll_done_with (label (status inst)))
      else pure (keep_polling (label (status inst)))

  unfoldable pub wait_for_status : String → String → List Status → M W (Unit {0})
  wait_for_status name operation want =
      poll h o (operation ++ " of instance " ++ name) (join_or (map label want))
        (attempt (inspect h name) >>= status_reached operation want)

  -- The check of `waitForAbsence`.
  unfoldable pub absence_reached : Result Instance → M W PollResult
  absence_reached (fault e) = if is_not_found e then pure (poll_done_with "absent") else raise e
  absence_reached (value inst) = pure (keep_polling (label (status inst)))

  unfoldable pub wait_for_absence : String → M W (Unit {0})
  wait_for_absence name =
      poll h o ("deletion of instance " ++ name) "absent"
        (attempt (inspect h name) >>= absence_reached)

  -- A start that failed counts if the instance runs all the same.
  unfoldable pub degraded_start : String → Err → Result Instance → M W (Unit {0})
  degraded_start name e (fault _) = raise e
  degraded_start name e (value inst) =
      if not (status_eq (status inst) running)
      then raise e
      else wait_for_status name "start" (running ∷ [])

  unfoldable pub after_start : String → Result (Unit {0}) → M W (Unit {0})
  after_start name (value _) = wait_for_status name "start" (running ∷ [])
  after_start name (fault e) = attempt (inspect h name) >>= degraded_start name e

  unfoldable pub start_locked : String → M W (Unit {0})
  start_locked name = do
    inst ← inspect h name
    if status_eq (status inst) running
        then pure tt
        else attempt (issue h (start name)) >>= after_start name

  unfoldable pub ensure_running : String → M W (Unit {0})
  ensure_running name = with_lock h (instance_key name) (start_locked name)

  unfoldable pub stop_locked : String → M W (Unit {0})
  stop_locked name = do
    inst ← inspect h name
    if status_eq (status inst) stopped
        then pure tt
        else issue h (stop name) >> wait_for_status name "stop" (stopped ∷ [])

  unfoldable pub ensure_stopped : String → M W (Unit {0})
  ensure_stopped name = with_lock h (instance_key name) (stop_locked name)
