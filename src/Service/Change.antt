-- ===== src/Service/Change.antt =====
-- `Service.Resize`, `SetProtection`, `Delete` and `VerifyTemplate` of internal/lima/lifecycle.go.
use terraform_provider_lima.Base.{
  String, Bool, not, ◌&&◌, Option, none, some, List, [], ◌∷◌, any_of, contains_text, if◌then◌else◌,
}
use terraform_provider_lima.Errors.{Err, restart_after_edit, wrapped, is_not_found}
use terraform_provider_lima.Instance.{
  Instance, running, status, status_eq, Mount, PortForward, AdditionalDisk, EditRequest, is_empty,
  is_nil, image_locations, template_image_locations,
}
use terraform_provider_lima.Locks.{instance_key}
use terraform_provider_lima.Merge.{
  merge_mounts, same_mounts, merge_port_forwards, same_port_forwards, same_disks,
  filter_to_actual_changes,
}
use terraform_provider_lima.Session.{
  Host, M, Result, value, fault, edit, delete, protect, unprotect, pure, raise, attempt, ◌>>=◌,
  ◌>>◌, inspect, resolve_template, issue, with_lock,
}
use terraform_provider_lima.Poll.{PollOptions}
use terraform_provider_lima.Service.{
  start_locked, stop_locked, ensure_running, ensure_stopped, wait_for_absence,
}

pub record ResizeParams : Type 0 where
  pub name : String
  pub additional_disks : Option (List AdditionalDisk)
  pub desired : EditRequest
  pub mounts : Option (List Mount)
  pub previous_mounts : List Mount
  pub port_forwards : Option (List PortForward)
  pub previous_port_forwards : List PortForward
  pub want_running : Bool

-- if p.Mounts != nil { … }
abbrev pub with_mounts : Option (List Mount) → List Mount → Instance → EditRequest → EditRequest
with_mounts none previous inst req = req
with_mounts (some mounts) previous inst req =
    let merged = merge_mounts inst.config.mounts previous mounts in
    if same_mounts merged inst.config.mounts then req else record req { mounts = some merged }

abbrev pub with_port_forwards :
    Option (List PortForward) → List PortForward → Instance → EditRequest → EditRequest
with_port_forwards none previous inst req = req
with_port_forwards (some forwards) previous inst req =
    let merged = merge_port_forwards inst.config.port_forwards previous forwards in
    if same_port_forwards merged inst.config.port_forwards
    then req
    else record req { port_forwards = some merged }

abbrev pub with_disks : Option (List AdditionalDisk) → Instance → EditRequest → EditRequest
with_disks none inst req = req
with_disks (some disks) inst req =
    if same_disks disks inst.config.additional_disks
    then req
    else record req { additional_disks = some disks }

-- What `Resize` asks Lima to change, given what Lima reports.
unfoldable pub changes_for : ResizeParams → Instance → EditRequest
changes_for p inst = with_disks p.additional_disks inst (
    with_port_forwards p.port_forwards p.previous_port_forwards inst
      (with_mounts p.mounts p.previous_mounts inst (filter_to_actual_changes p.desired inst)))

-- The outcome of `VerifyTemplate`.
pub data TemplateMatch : Type 0 where
  template_unknown template_consistent template_mismatch : TemplateMatch

unfoldable pub compare_images : List String → List String → TemplateMatch
compare_images have [] = template_unknown
compare_images have (loc ∷ locs) =
    if any_of (contains_text have) (loc ∷ locs) then template_consistent else template_mismatch

module _ {W : Type 0} (h : Host W) (o : PollOptions) where
  unfoldable pub reconcile_run_state : String → Bool → M W (Unit {0})
  reconcile_run_state name want_running =
      if want_running then ensure_running h o name else ensure_stopped h o name

  unfoldable pub reconcile_run_state_locked : String → Bool → M W (Unit {0})
  reconcile_run_state_locked name want_running =
      if want_running then start_locked h o name else stop_locked h o name

  -- fmt.Errorf("stopping instance %q before reconfiguring it: %w", …)
  unfoldable pub stopped_first : Result (Unit {0}) → M W (Unit {0})
  stopped_first (value _) = pure tt
  stopped_first (fault e) = raise (wrapped "stopping before reconfiguring" e)

  unfoldable pub restarted : String → Result (Unit {0}) → M W (Unit {0})
  restarted name (value _) = pure tt
  restarted name (fault e) = raise (restart_after_edit name e)

  -- The stop, the edit and the restart.
  unfoldable pub apply_edit : String → Bool → Bool → EditRequest → M W (Unit {0})
  apply_edit name was_running want_running req =
      (if was_running then attempt (stop_locked h o name) >>= stopped_first else pure tt)
      >> issue h (edit name req)
      >> (if want_running then attempt (start_locked h o name) >>= restarted name else pure tt)

  unfoldable pub resize_locked : ResizeParams → M W (Unit {0})
  resize_locked p = do
    inst ← inspect h p.name
    if is_empty (changes_for p inst)
        then reconcile_run_state_locked p.name p.want_running
        else apply_edit p.name (status_eq (status inst) running) p.want_running (changes_for p inst)

  unfoldable pub resize : ResizeParams → M W (Unit {0})
  resize p =
      if is_empty p.desired
        && is_nil p.mounts
        && is_nil p.port_forwards
        && is_nil p.additional_disks
      then reconcile_run_state p.name p.want_running
      else with_lock h (instance_key p.name) (resize_locked p)

  unfoldable pub set_protection_locked : String → Bool → M W (Unit {0})
  set_protection_locked name want = do
    inst ← inspect h name
    if (if want then inst.protected else not inst.protected)
        then pure tt
        else if want
        then issue h (protect name)
        else issue h (unprotect name)

  unfoldable pub set_protection : String → Bool → M W (Unit {0})
  set_protection name want = with_lock h (instance_key name) (set_protection_locked name want)

  unfoldable pub delete_found : String → Result Instance → M W (Unit {0})
  delete_found name (fault e) = if is_not_found e then pure tt else raise e
  delete_found name (value inst) =
      if inst.protected
      then raise (Err.protected name)
      else issue h (delete name) >> wait_for_absence h o name

  unfoldable pub delete_locked : String → M W (Unit {0})
  delete_locked name = attempt (inspect h name) >>= delete_found name

  unfoldable pub service_delete : String → M W (Unit {0})
  service_delete name = with_lock h (instance_key name) (delete_locked name)

  -- The comparison with the template's images, if the instance has any.
  unfoldable pub compare_template : String → List String → M W TemplateMatch
  compare_template ref [] = pure template_unknown
  compare_template ref (loc ∷ locs) = do
    tmpl ← resolve_template h ref
    pure (compare_images (loc ∷ locs) (template_image_locations tmpl))

  unfoldable pub verify_template : String → Instance → M W TemplateMatch
  verify_template ref inst = compare_template ref (image_locations inst.config)
