-- ===== src/Service/Orderly.antt =====
-- The waits, the start and the stop of internal/lima/lifecycle.go: the order of the trace.
use terraform_provider_lima.Base.{String, ◌≡◌, true, false, List, arith, contains_text}
use terraform_provider_lima.Errors.{Err}
use terraform_provider_lima.Instance.{Instance, Status, stopped, status, status_eq}
use terraform_provider_lima.Locks.{instance_key}
use terraform_provider_lima.Session.{Host, Result, value, fault, start, stop}
use terraform_provider_lima.Session.Rules.{
  Keeps, Keeps-pure, Keeps-raise, Keeps-attempt, Keeps-if, Keeps-bind, inspect-Orderly,
  sleep-Orderly,
}
use terraform_provider_lima.Session.Observed.{
  KeepsFrom-always, KeepsFrom-attempt, KeepsFrom-if, KeepsFrom-bind, KeepsFrom-issue, Keeps-inspect,
}
use terraform_provider_lima.Session.Discipline.{Orderly}
use terraform_provider_lima.Poll.{PollOptions}
use terraform_provider_lima.Poll.Keeps.{poll-Keeps}
use terraform_provider_lima.Service.{
  found, exists, status_reached, wait_for_status, absence_reached, wait_for_absence, degraded_start,
  after_start, start_locked, stop_locked,
}

module _ {W : Type 0} {held : List String} (h : Host W) (o : PollOptions) where
  status_reached-Orderly :
      (operation : String) (want : List Status) (r : Result Instance)
      → Keeps (Orderly held) (status_reached h o operation want r)
  unfolding status_reached
  status_reached-Orderly operation want (fault e) = Keeps-if _ _ _ (Keeps-pure _) (Keeps-raise e)
  status_reached-Orderly operation want (value inst) =
      Keeps-if _ _ _ (Keeps-raise _) (Keeps-if _ _ _ (Keeps-pure _) (Keeps-pure _))

  pub wait_for_status-Orderly :
      (name operation : String) (want : List Status)
      → Keeps (Orderly held) (wait_for_status h o name operation want)
  unfolding wait_for_status
  wait_for_status-Orderly name operation want =
      poll-Keeps h (Orderly held) (sleep-Orderly h) _
        (Keeps-bind _ _ (Keeps-attempt _ (inspect-Orderly h name))
          (status_reached-Orderly operation want))
        _ _ o

  absence_reached-Orderly : (r : Result Instance) → Keeps (Orderly held) (absence_reached h o r)
  unfolding absence_reached
  absence_reached-Orderly (fault e) = Keeps-if _ _ _ (Keeps-pure _) (Keeps-raise e)
  absence_reached-Orderly (value inst) = Keeps-pure _

  pub wait_for_absence-Orderly : (name : String) → Keeps (Orderly held) (wait_for_absence h o name)
  unfolding wait_for_absence
  wait_for_absence-Orderly name =
      poll-Keeps h (Orderly held) (sleep-Orderly h) _
        (Keeps-bind _ _ (Keeps-attempt _ (inspect-Orderly h name)) absence_reached-Orderly) _ _ o

  found-Orderly : (r : Result Instance) → Keeps (Orderly held) (found h o r)
  unfolding found
  found-Orderly (value inst) = Keeps-pure true
  found-Orderly (fault e) = Keeps-if _ _ _ (Keeps-pure false) (Keeps-raise e)

  pub exists-Orderly : (name : String) → Keeps (Orderly held) (exists h o name)
  unfolding exists
  exists-Orderly name = Keeps-bind _ _ (Keeps-attempt _ (inspect-Orderly h name)) found-Orderly

  after_start-Orderly :
      (name : String) (r : Result (Unit {0})) → Keeps (Orderly held) (after_start h o name r)
  unfolding after_start
  after_start-Orderly name (value _) = wait_for_status-Orderly name _ _
  after_start-Orderly name (fault e) =
      Keeps-bind _ _ (Keeps-attempt _ (inspect-Orderly h name)) (degraded_start-Orderly name e)
    where
      degraded_start-Orderly :
          (name : String) (e : Err) (r : Result Instance)
          → Keeps (Orderly held) (degraded_start h o name e r)
      degraded_start-Orderly name e (fault _) = unfold degraded_start in Keeps-raise e
      degraded_start-Orderly name e (value inst) =
          unfold degraded_start in Keeps-if _ _ _ (Keeps-raise e) (wait_for_status-Orderly name _ _)

  pub start_locked-Orderly :
      (name : String)
      → contains_text held (instance_key name) ≡ true
      → Keeps (Orderly held) (start_locked h o name)
  unfolding start_locked
  start_locked-Orderly name covered = Keeps-inspect h name _ λ inst.
      KeepsFrom-if _ _ _ (λ e. KeepsFrom-always _ (Keeps-pure tt))
        λ e.
          KeepsFrom-bind _ _
            (KeepsFrom-attempt _ (KeepsFrom-issue h (start name) covered (λ s l. ground arith)))
            (after_start-Orderly name)

  pub stop_locked-Orderly :
      (name : String)
      → contains_text held (instance_key name) ≡ true
      → Keeps (Orderly held) (stop_locked h o name)
  unfolding stop_locked
  stop_locked-Orderly name covered = Keeps-inspect h name _ λ inst.
      KeepsFrom-if (status_eq (status inst) stopped) _ _ (λ e. KeepsFrom-always _ (Keeps-pure tt))
        λ e.
          KeepsFrom-bind _ _ (KeepsFrom-issue h (stop name) covered (λ s l. ground arith))
            (λ _. wait_for_status-Orderly name _ _)
