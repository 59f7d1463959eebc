-- ===== src/Service/Done.antt =====
-- `Service.Delete` of internal/lima/lifecycle.go: what a success has observed; and the end of the
-- methods of `Service` under a deadline.
use terraform_provider_lima.Base.{String, ◌≡◌, true, some, arith}
use terraform_provider_lima.Errors.{is_not_found}
use terraform_provider_lima.Instance.{Instance}
use terraform_provider_lima.Locks.{instance_key}
use terraform_provider_lima.Session.{Host, State, ok, Result, value, fault, unlock}
use terraform_provider_lima.Session.Leads.{
  Leads, Anything, Leads-pure, Leads-raise, Leads-bind, Leads-anything, Leads-if, Leads-with_lock,
}
use terraform_provider_lima.Session.Observed.{Leads-attempt_inspect}
use terraform_provider_lima.Session.Discipline.{latest, seen_fault}
use terraform_provider_lima.Poll.{PollOptions}
use terraform_provider_lima.Poll.Keeps.{poll_done}
use terraform_provider_lima.Service.{absence_reached, wait_for_absence}
use terraform_provider_lima.Service.Change.{service_delete, delete_locked, delete_found}

-- The last observation says that there is no such instance.
abbrev pub Gone : {W : Type 0} → String → State W → Type 0
Gone name s = seen_fault is_not_found (latest name s.trace) ≡ true

module _ {W : Type 0} (h : Host W) (o : PollOptions) where
  absence_reached_done :
      (name : String) (r : Result Instance)
      → Leads
          (λ s. latest name s.trace ≡ some r)
          (absence_reached h o r)
          (λ p s. p.done ≡ true → Gone name s)
  unfolding absence_reached
  absence_reached_done name (fault e) =
      Leads-if (is_not_found e) _ _ (λ a. Leads-pure _ (λ s l d. rw l a)) (λ _. Leads-raise e)
  absence_reached_done name (value inst) = Leads-pure _ (λ s l d. absurd (ground arith))

  wait_for_absence_done :
      (name : String) → Leads Anything (wait_for_absence h o name) (λ _. Gone name)
  unfolding wait_for_absence
  wait_for_absence_done name =
      poll_done h _ _ _ (Gone name)
        (Leads-bind _ _ (Leads-attempt_inspect h name) (absence_reached_done name)) o

  delete_found_done :
      (name : String) (r : Result Instance)
      → Leads (λ s. latest name s.trace ≡ some r) (delete_found h o name r) (λ _. Gone name)
  unfolding delete_found
  delete_found_done name (fault e) =
      Leads-if (is_not_found e) _ _ (λ a. Leads-pure tt (λ s l. rw l a)) (λ _. Leads-raise e)
  delete_found_done name (value inst) =
      Leads-if inst.protected _ _ (λ _. Leads-raise _)
        (λ _. Leads-bind _ _ (Leads-anything _) (λ _. wait_for_absence_done name))

  delete_locked_done : (name : String) → Leads Anything (delete_locked h o name) (λ _. Gone name)
  unfolding delete_locked
  delete_locked_done name = Leads-bind _ _ (Leads-attempt_inspect h name) (delete_found_done name)

  Gone-unlock : (name k : String) (s : State W) → Gone name s → Gone name (unlock k s)
  unfolding unlock
  Gone-unlock name k s v = v

  -- When `Delete` succeeds, the last observation found no such instance, after the last command on
  -- it.
  pub service_delete_done :
      (name : String) (s : State W)
      → (service_delete h o name s).0 ≡ ok tt
      → Gone name (service_delete h o name s).1
  unfolding service_delete
  service_delete_done name s e =
      (Leads-with_lock h (instance_key name) (delete_locked h o name)
          (λ a. Gone-unlock name (instance_key name)) (delete_locked_done name)).at
        s tt tt e
