-- ===== src/Service/Ends.antt =====
-- The methods of `Service` of internal/lima/lifecycle.go: their end under a deadline.
use terraform_provider_lima.Base.{String, Bool, true, false, List}
use terraform_provider_lima.Errors.{Err}
use terraform_provider_lima.Instance.{Instance, Status, EditRequest}
use terraform_provider_lima.Session.{Host, Result, value, fault}
use terraform_provider_lima.Session.Ends.{
  HasDeadline, Returns, Returns-pure, Returns-raise, Returns-attempt, Returns-if, Returns-bind,
  inspect-Returns, issue-Returns, with_lock-Returns,
}
use terraform_provider_lima.Poll.{PollOptions}
use terraform_provider_lima.Poll.Ends.{poll-Returns}
use terraform_provider_lima.Service.{
  found, exists, status_reached, wait_for_status, absence_reached, wait_for_absence, degraded_start,
  after_start, start_locked, ensure_running, stop_locked, ensure_stopped,
}
use terraform_provider_lima.Service.Change.{
  ResizeParams, reconcile_run_state, reconcile_run_state_locked, stopped_first, restarted,
  apply_edit, resize_locked, resize, set_protection_locked, set_protection, delete_found,
  delete_locked, service_delete,
}

module _ {W : Type 0} (h : Host W) (deadline : HasDeadline h) (o : PollOptions) where
  found-Returns : (r : Result Instance) → Returns h (found h o r)
  unfolding found
  found-Returns (value inst) = Returns-pure h true
  found-Returns (fault e) = Returns-if h _ _ _ (Returns-pure h false) (Returns-raise h e)

  pub exists-Returns : (name : String) → Returns h (exists h o name)
  unfolding exists
  exists-Returns name =
      Returns-bind h _ _ (Returns-attempt h _ (inspect-Returns h deadline name)) found-Returns

  status_reached-Returns :
      (operation : String) (want : List Status) (r : Result Instance)
      → Returns h (status_reached h o operation want r)
  unfolding status_reached
  status_reached-Returns operation want (fault e) =
      Returns-if h _ _ _ (Returns-pure h _) (Returns-raise h e)
  status_reached-Returns operation want (value inst) =
      Returns-if h _ _ _ (Returns-raise h _)
        (Returns-if h _ _ _ (Returns-pure h _) (Returns-pure h _))

  pub wait_for_status-Returns :
      (name operation : String) (want : List Status)
      → Returns h (wait_for_status h o name operation want)
  unfolding wait_for_status
  wait_for_status-Returns name operation want = poll-Returns h deadline _ _ _ o (
      Returns-bind h _ _ (Returns-attempt h _ (inspect-Returns h deadline name))
        (status_reached-Returns operation want))

  absence_reached-Returns : (r : Result Instance) → Returns h (absence_reached h o r)
  unfolding absence_reached
  absence_reached-Returns (fault e) = Returns-if h _ _ _ (Returns-pure h _) (Returns-raise h e)
  absence_reached-Returns (value inst) = Returns-pure h _

  wait_for_absence-Returns : (name : String) → Returns h (wait_for_absence h o name)
  unfolding wait_for_absence
  wait_for_absence-Returns name = poll-Returns h deadline _ _ _ o (
      Returns-bind h _ _ (Returns-attempt h _ (inspect-Returns h deadline name))
        absence_reached-Returns)

  degraded_start-Returns :
      (name : String) (e : Err) (r : Result Instance) → Returns h (degraded_start h o name e r)
  unfolding degraded_start
  degraded_start-Returns name e (fault x) = Returns-raise h e
  degraded_start-Returns name e (value inst) =
      Returns-if h _ _ _ (Returns-raise h e) (wait_for_status-Returns name _ _)

  after_start-Returns : (name : String) (r : Result (Unit {0})) → Returns h (after_start h o name r)
  unfolding after_start
  after_start-Returns name (value _) = wait_for_status-Returns name _ _
  after_start-Returns name (fault e) =
      Returns-bind h _ _ (Returns-attempt h _ (inspect-Returns h deadline name))
        (degraded_start-Returns name e)

  pub start_locked-Returns : (name : String) → Returns h (start_locked h o name)
  unfolding start_locked
  start_locked-Returns name = Returns-bind h _ _ (inspect-Returns h deadline name) λ inst.
      Returns-if h _ _ _ (Returns-pure h tt) (
        Returns-bind h _ _ (Returns-attempt h _ (issue-Returns h deadline _))
          (after_start-Returns name))

  stop_locked-Returns : (name : String) → Returns h (stop_locked h o name)
  unfolding stop_locked
  stop_locked-Returns name = Returns-bind h _ _ (inspect-Returns h deadline name) λ inst.
      Returns-if h _ _ _ (Returns-pure h tt)
        (Returns-bind h _ _ (issue-Returns h deadline _) λ _. wait_for_status-Returns name _ _)

  pub ensure_running-Returns : (name : String) → Returns h (ensure_running h o name)
  unfolding ensure_running
  ensure_running-Returns name = with_lock-Returns h deadline _ _ (start_locked-Returns name)

  pub ensure_stopped-Returns : (name : String) → Returns h (ensure_stopped h o name)
  unfolding ensure_stopped
  ensure_stopped-Returns name = with_lock-Returns h deadline _ _ (stop_locked-Returns name)

  stopped_first-Returns : (r : Result (Unit {0})) → Returns h (stopped_first h o r)
  unfolding stopped_first
  stopped_first-Returns (value _) = Returns-pure h tt
  stopped_first-Returns (fault e) = Returns-raise h _

  restarted-Returns : (name : String) (r : Result (Unit {0})) → Returns h (restarted h o name r)
  unfolding restarted
  restarted-Returns name (value _) = Returns-pure h tt
  restarted-Returns name (fault e) = Returns-raise h _

  apply_edit-Returns :
      (name : String) (was_running want_running : Bool) (req : EditRequest)
      → Returns h (apply_edit h o name was_running want_running req)
  unfolding apply_edit
  apply_edit-Returns name was_running want_running req =
      Returns-bind h _ _
        (Returns-bind h _ _
          (Returns-if h _ _ _
            (Returns-bind h _ _ (Returns-attempt h _ (stop_locked-Returns name))
              stopped_first-Returns)
            (Returns-pure h tt))
          (λ _. issue-Returns h deadline _))
        (λ _.
          Returns-if h _ _ _
            (Returns-bind h _ _ (Returns-attempt h _ (start_locked-Returns name))
              (restarted-Returns name))
            (Returns-pure h tt))

  resize_locked-Returns : (p : ResizeParams) → Returns h (resize_locked h o p)
  unfolding resize_locked reconcile_run_state_locked
  resize_locked-Returns p = Returns-bind h _ _ (inspect-Returns h deadline p.name) λ inst.
      Returns-if h _ _ _
        (Returns-if h _ _ _ (start_locked-Returns p.name) (stop_locked-Returns p.name))
        (apply_edit-Returns p.name _ p.want_running _)

  pub resize-Returns : (p : ResizeParams) → Returns h (resize h o p)
  unfolding resize reconcile_run_state
  resize-Returns p =
      Returns-if h _ _ _
        (Returns-if h _ _ _ (ensure_running-Returns p.name) (ensure_stopped-Returns p.name))
        (with_lock-Returns h deadline _ _ (resize_locked-Returns p))

  set_protection_locked-Returns :
      (name : String) (want : Bool) → Returns h (set_protection_locked h o name want)
  unfolding set_protection_locked
  set_protection_locked-Returns name want =
      Returns-bind h _ _ (inspect-Returns h deadline name) λ inst.
        Returns-if h _ _ _ (Returns-pure h tt)
          (Returns-if h _ _ _ (issue-Returns h deadline _) (issue-Returns h deadline _))

  pub set_protection-Returns :
      (name : String) (want : Bool) → Returns h (set_protection h o name want)
  unfolding set_protection
  set_protection-Returns name want =
      with_lock-Returns h deadline _ _ (set_protection_locked-Returns name want)

  delete_found-Returns : (name : String) (r : Result Instance) → Returns h (delete_found h o name r)
  unfolding delete_found
  delete_found-Returns name (fault e) = Returns-if h _ _ _ (Returns-pure h tt) (Returns-raise h e)
  delete_found-Returns name (value inst) =
      Returns-if h _ _ _ (Returns-raise h _)
        (Returns-bind h _ _ (issue-Returns h deadline _) λ _. wait_for_absence-Returns name)

  pub service_delete-Returns : (name : String) → Returns h (service_delete h o name)
  unfolding service_delete delete_locked
  service_delete-Returns name = with_lock-Returns h deadline _ _ (
      Returns-bind h _ _ (Returns-attempt h _ (inspect-Returns h deadline name))
        (delete_found-Returns name))
