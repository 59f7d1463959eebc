-- ===== src/Service/Ordered.antt =====
-- The methods of `Service` of internal/lima/lifecycle.go: the order of the trace, from no lock held.
use terraform_provider_lima.Base.{
  String, ◌≡◌, Bool, true, false, not, some, List, [], ◌∷◌, arith, contains_text, if◌then◌else◌,
  eq_refl,
}
use terraform_provider_lima.Instance.{Instance, EditRequest, running, stopped, status, status_eq}
use terraform_provider_lima.Locks.{
  instance_key, home_key, instance_key-ne-home_key, home_key-ne-instance_key,
}
use terraform_provider_lima.Session.{
  Host, State, M, Result, value, fault, edit, delete, protect, unprotect, pure, attempt, ◌>>=◌,
}
use terraform_provider_lima.Session.Rules.{
  Keeps, Keeps-pure, Keeps-raise, Keeps-attempt, Keeps-if, Keeps-bind, with_lock-Orderly,
}
use terraform_provider_lima.Session.Leads.{
  Leads, Caught, Leads-pure, Leads-raise, Leads-attempt, Leads-bind, Leads-from, Leads-if,
}
use terraform_provider_lima.Session.Observed.{
  KeepsFrom, KeepsFrom-always, KeepsFrom-if, KeepsFrom-bind, KeepsFrom-then, KeepsFrom-issue,
  Keeps-inspect, Keeps-attempt_inspect,
}
use terraform_provider_lima.Session.Discipline.{Orderly, latest, seen_with, is_ordered}
use terraform_provider_lima.Poll.{PollOptions}
use terraform_provider_lima.Service.{stop_locked, ensure_running, ensure_stopped}
use terraform_provider_lima.Service.Orderly.{
  start_locked-Orderly, stop_locked-Orderly, wait_for_absence-Orderly,
}
use terraform_provider_lima.Service.Reached.{SeenStatus, stop_locked_done}
use terraform_provider_lima.Service.Change.{
  ResizeParams, changes_for, reconcile_run_state, reconcile_run_state_locked, stopped_first,
  restarted, apply_edit, resize_locked, resize, set_protection_locked, set_protection, delete_found,
  delete_locked, service_delete,
}

-- The lock of an instance may be taken where no lock is held, or only that of the home.
pub free_alone : (n : String) → is_ordered [] (instance_key n) ≡ true
free_alone n = rw instance_key-ne-home_key

pub free_after_home : (n : String) → is_ordered (home_key ∷ []) (instance_key n) ≡ true
free_after_home n = rw (instance_key-ne-home_key, home_key-ne-instance_key)

pub covered_first :
    (n : String) (held : List String)
    → contains_text (instance_key n ∷ held) (instance_key n) ≡ true
covered_first n held = rw eq_refl

module _ {W : Type 0} (h : Host W) (o : PollOptions) where
  pub ensure_running-Orderly : (name : String) → Keeps (Orderly []) (ensure_running h o name)
  unfolding ensure_running
  ensure_running-Orderly name =
      with_lock-Orderly h (instance_key name) _ (free_alone name)
        (start_locked-Orderly h o name (covered_first name []))

  pub ensure_stopped-Orderly : (name : String) → Keeps (Orderly []) (ensure_stopped h o name)
  unfolding ensure_stopped
  ensure_stopped-Orderly name =
      with_lock-Orderly h (instance_key name) _ (free_alone name)
        (stop_locked-Orderly h o name (covered_first name []))

  -- The last observation does not show the instance running.
  abbrev NotRunning : String → State W → Type 0
  NotRunning name s =
      seen_with (λ i. not (status_eq (status i) running)) (latest name s.trace) ≡ true

  stopped-NotRunning :
      (name : String) (s : State W) → SeenStatus name (stopped ∷ []) s → NotRunning name s
  stopped-NotRunning name s v = ground arith

  restarted-Orderly :
      {held : List String} (name : String) (r : Result (Unit {0}))
      → Keeps (Orderly held) (restarted h o name r)
  unfolding restarted
  restarted-Orderly name (value _) = Keeps-pure tt
  restarted-Orderly name (fault e) = Keeps-raise _

  stopped_first-Orderly :
      {held : List String} (r : Result (Unit {0})) → Keeps (Orderly held) (stopped_first h o r)
  unfolding stopped_first
  stopped_first-Orderly (value _) = Keeps-pure tt
  stopped_first-Orderly (fault e) = Keeps-raise _

  module _ (name : String) where
    abbrev own : List String
    own = instance_key name ∷ []

    stop_first : Bool → M W (Unit {0})
    stop_first was_running =
        if was_running then attempt (stop_locked h o name) >>= stopped_first h o else pure tt

    stop_first-Orderly : (b : Bool) → Keeps (Orderly own) (stop_first b)
    unfolding stop_first
    stop_first-Orderly b =
        Keeps-if b _ _
          (Keeps-bind _ _ (Keeps-attempt _ (stop_locked-Orderly h o name (covered_first name [])))
            stopped_first-Orderly)
          (Keeps-pure tt)

    stop_first_done :
        (inst : Instance)
        → Leads
            (λ s. latest name s.trace ≡ some (value inst))
            (stop_first (status_eq (status inst) running))
            (λ _. NotRunning name)
    unfolding stop_first
    stop_first_done inst =
        Leads-if (status_eq (status inst) running) _ _
          (λ e. Leads-bind _ _ (Leads-attempt _ (Leads-from _ (stop_locked_done h o name))) go)
          (λ e. Leads-pure tt (λ s l. ground arith))
      where
        go :
            (r : Result (Unit {0}))
            → Leads
                (Caught (λ _. SeenStatus name (stopped ∷ [])) r)
                (stopped_first h o r)
                (λ _. NotRunning name)
        go (value _) = unfold stopped_first in Leads-pure tt (stopped-NotRunning name)
        go (fault e) = unfold stopped_first in Leads-raise _

    apply_edit-Orderly :
        (inst : Instance) (want_running : Bool) (req : EditRequest)
        → KeepsFrom
            (Orderly own)
            (λ s. latest name s.trace ≡ some (value inst))
            (apply_edit h o name (status_eq (status inst) running) want_running req)
    unfolding apply_edit stop_first
    apply_edit-Orderly inst want_running req =
        KeepsFrom-bind _ _
          (KeepsFrom-then _ _ (KeepsFrom-always _ (stop_first-Orderly _)) (stop_first_done inst)
            λ _. KeepsFrom-issue h (edit name req) (covered_first name []) (λ s v. v))
          λ _.
            Keeps-if want_running _ _
              (Keeps-bind _ _
                (Keeps-attempt _ (start_locked-Orderly h o name (covered_first name [])))
                (restarted-Orderly name))
              (Keeps-pure tt)

    reconcile_locked-Orderly :
        (want_running : Bool)
        → Keeps (Orderly own) (reconcile_run_state_locked h o name want_running)
    unfolding reconcile_run_state_locked
    reconcile_locked-Orderly want_running =
        Keeps-if want_running _ _ (start_locked-Orderly h o name (covered_first name []))
          (stop_locked-Orderly h o name (covered_first name []))

    set_protection_locked-Orderly :
        (want : Bool) → Keeps (Orderly own) (set_protection_locked h o name want)
    unfolding set_protection_locked
    set_protection_locked-Orderly true = Keeps-inspect h name _ λ inst.
        KeepsFrom-if inst.protected _ _ (λ _. KeepsFrom-always _ (Keeps-pure tt))
          λ e. KeepsFrom-issue h (protect name) (covered_first name []) (λ s l. ground arith)
    set_protection_locked-Orderly false = Keeps-inspect h name _ λ inst.
        KeepsFrom-if (not inst.protected) _ _ (λ _. KeepsFrom-always _ (Keeps-pure tt))
          λ e. KeepsFrom-issue h (unprotect name) (covered_first name []) (λ s l. ground arith)

    delete_found-Orderly :
        (r : Result Instance)
        → KeepsFrom (Orderly own) (λ s. latest name s.trace ≡ some r) (delete_found h o name r)
    unfolding delete_found
    delete_found-Orderly (fault e) =
        KeepsFrom-always _ (Keeps-if _ _ _ (Keeps-pure tt) (Keeps-raise e))
    delete_found-Orderly (value inst) =
        KeepsFrom-if inst.protected _ _ (λ _. KeepsFrom-always _ (Keeps-raise _))
          λ e.
            KeepsFrom-bind _ _
              (KeepsFrom-issue h (delete name) (covered_first name []) (λ s l. ground arith))
              (λ _. wait_for_absence-Orderly h o name)

    delete_locked-Orderly : Keeps (Orderly own) (delete_locked h o name)
    unfolding delete_locked
    delete_locked-Orderly = Keeps-attempt_inspect h name _ delete_found-Orderly

  pub set_protection-Orderly :
      (name : String) (want : Bool) → Keeps (Orderly []) (set_protection h o name want)
  unfolding set_protection
  set_protection-Orderly name want =
      with_lock-Orderly h (instance_key name) _ (free_alone name)
        (set_protection_locked-Orderly name want)

  pub service_delete-Orderly : (name : String) → Keeps (Orderly []) (service_delete h o name)
  unfolding service_delete
  service_delete-Orderly name =
      with_lock-Orderly h (instance_key name) _ (free_alone name) (delete_locked-Orderly name)

  resize_locked-Orderly :
      (p : ResizeParams) → Keeps (Orderly (instance_key p.name ∷ [])) (resize_locked h o p)
  unfolding resize_locked
  resize_locked-Orderly p = Keeps-inspect h p.name _ λ inst.
      KeepsFrom-if _ _ _ (λ _. KeepsFrom-always _ (reconcile_locked-Orderly p.name p.want_running))
        (λ _. apply_edit-Orderly p.name inst p.want_running (changes_for p inst))

  pub resize-Orderly : (p : ResizeParams) → Keeps (Orderly []) (resize h o p)
  unfolding resize reconcile_run_state
  resize-Orderly p =
      Keeps-if _ _ _
        (Keeps-if p.want_running _ _ (ensure_running-Orderly p.name)
          (ensure_stopped-Orderly p.name))
        (with_lock-Orderly h (instance_key p.name) _ (free_alone p.name) (resize_locked-Orderly p))
