-- ===== src/Service/Reached.antt =====
-- The waits, the start and the stop of internal/lima/lifecycle.go: the status that was observed.
use terraform_provider_lima.Base.{String, ◌≡◌, true, not, some, List, [], ◌∷◌, arith}
use terraform_provider_lima.Errors.{Err, is_not_found}
use terraform_provider_lima.Instance.{Instance, Status, running, stopped, broken, status, status_eq}
use terraform_provider_lima.Locks.{instance_key}
use terraform_provider_lima.Session.{Host, State, ok, Result, value, fault, unlock}
use terraform_provider_lima.Session.Leads.{
  Leads, Anything, Leads-pure, Leads-raise, Leads-bind, Leads-anything, Leads-from, Leads-if,
  Leads-with_lock,
}
use terraform_provider_lima.Session.Observed.{Leads-inspect, Leads-attempt_inspect}
use terraform_provider_lima.Session.Discipline.{latest, seen_with}
use terraform_provider_lima.Poll.{PollOptions}
use terraform_provider_lima.Poll.Keeps.{poll_done}
use terraform_provider_lima.Service.{
  is_wanted, status_reached, wait_for_status, degraded_start, after_start, start_locked,
  ensure_running, stop_locked, ensure_stopped,
}

-- The last observation of the instance has one of the wanted statuses.
abbrev pub SeenStatus : {W : Type 0} → String → List Status → State W → Type 0
SeenStatus name want s = seen_with (λ i. is_wanted want (status i)) (latest name s.trace) ≡ true

SeenStatus-unlock :
    {W : Type 0} (name k : String) (want : List Status) (s : State W)
    → SeenStatus name want s
    → SeenStatus name want (unlock k s)
unfolding unlock
SeenStatus-unlock name k want s v = v

module _ {W : Type 0} (h : Host W) (o : PollOptions) where
  status_reached_done :
      (name operation : String) (want : List Status) (r : Result Instance)
      → Leads
          (λ s. latest name s.trace ≡ some r)
          (status_reached h o operation want r)
          (λ p s. p.done ≡ true → SeenStatus name want s)
  unfolding status_reached
  status_reached_done name operation want (fault e) =
      Leads-if (is_not_found e) _ _ (λ _. Leads-pure _ (λ s l d. absurd (ground arith)))
        (λ _. Leads-raise e)
  status_reached_done name operation want (value inst) =
      Leads-if (status_eq (status inst) broken) _ _ (λ _. Leads-raise _)
        λ _.
          Leads-if (is_wanted want (status inst)) _ _ (λ e. Leads-pure _ (λ s l d. rw l e))
            (λ e. Leads-pure _ (λ s l d. absurd (ground arith)))

  pub wait_for_status_done :
      (name operation : String) (want : List Status)
      → Leads Anything (wait_for_status h o name operation want) (λ _. SeenStatus name want)
  unfolding wait_for_status
  wait_for_status_done name operation want =
      poll_done h _ _ _ (SeenStatus name want)
        (Leads-bind _ _ (Leads-attempt_inspect h name) (status_reached_done name operation want)) o

  degraded_start_done :
      (name : String) (e : Err) (r : Result Instance)
      → Leads
          (λ s. latest name s.trace ≡ some r)
          (degraded_start h o name e r)
          (λ _. SeenStatus name (running ∷ []))
  unfolding degraded_start
  degraded_start_done name e (fault x) = Leads-raise e
  degraded_start_done name e (value inst) =
      Leads-if (not (status_eq (status inst) running)) _ _ (λ _. Leads-raise e)
        (λ _. Leads-from _ (wait_for_status_done name _ _))

  after_start_done :
      (name : String) (r : Result (Unit {0}))
      → Leads Anything (after_start h o name r) (λ _. SeenStatus name (running ∷ []))
  unfolding after_start
  after_start_done name (value _) = wait_for_status_done name _ _
  after_start_done name (fault e) =
      Leads-bind _ _ (Leads-attempt_inspect h name) (degraded_start_done name e)

  pub start_locked_done :
      (name : String) → Leads Anything (start_locked h o name) (λ _. SeenStatus name (running ∷ []))
  unfolding start_locked
  start_locked_done name = Leads-bind _ _ (Leads-inspect h name) λ inst.
      Leads-if (status_eq (status inst) running) _ _ (λ e. Leads-pure tt (λ s l. ground arith))
        (λ e. Leads-bind _ _ (Leads-anything _) (after_start_done name))

  pub stop_locked_done :
      (name : String) → Leads Anything (stop_locked h o name) (λ _. SeenStatus name (stopped ∷ []))
  unfolding stop_locked
  stop_locked_done name = Leads-bind _ _ (Leads-inspect h name) λ inst.
      Leads-if (status_eq (status inst) stopped) _ _ (λ e. Leads-pure tt (λ s l. ground arith))
        (λ e. Leads-bind _ _ (Leads-anything _) (λ _. wait_for_status_done name _ _))

  -- When `EnsureRunning` succeeds, the last observation of the instance, after the last command on it,
  -- shows it running.
  pub ensure_running_done :
      (name : String) (s : State W)
      → (ensure_running h o name s).0 ≡ ok tt
      → SeenStatus name (running ∷ []) (ensure_running h o name s).1
  unfolding ensure_running
  ensure_running_done name s e =
      (Leads-with_lock h (instance_key name) (start_locked h o name)
          (λ a. SeenStatus-unlock name _ (running ∷ [])) (start_locked_done name)).at
        s tt tt e

  -- When `EnsureStopped` succeeds, the last observation of the instance, after the last command on it,
  -- shows it stopped.
  pub ensure_stopped_done :
      (name : String) (s : State W)
      → (ensure_stopped h o name s).0 ≡ ok tt
      → SeenStatus name (stopped ∷ []) (ensure_stopped h o name s).1
  unfolding ensure_stopped
  ensure_stopped_done name s e =
      (Leads-with_lock h (instance_key name) (stop_locked h o name)
          (λ a. SeenStatus-unlock name _ (stopped ∷ [])) (stop_locked_done name)).at
        s tt tt e
