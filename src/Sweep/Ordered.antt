-- ===== src/Sweep/Ordered.antt =====
-- `Sweep` of internal/lima/sweep.go: the order of the trace, and the default home.
use terraform_provider_lima.Base.{String, false, Option, none, some, List, [], ◌∷◌}
use terraform_provider_lima.Errors.{Err}
use terraform_provider_lima.Instance.{Instance, Disk}
use terraform_provider_lima.Session.{Host, State, M, Result, value, fault}
use terraform_provider_lima.Session.Discipline.{Orderly}
use terraform_provider_lima.Session.Rules.{
  Keeps, Keeps-pure, Keeps-attempt, Keeps-if, Keeps-bind, list_instances-Orderly,
  list_disks-Orderly,
}
use terraform_provider_lima.Poll.{PollOptions}
use terraform_provider_lima.Service.Ordered.{set_protection-Orderly, service_delete-Orderly}
use terraform_provider_lima.Disks.{disk_list}
use terraform_provider_lima.Disks.Ordered.{disk_delete-Orderly}
use terraform_provider_lima.Sweep.{
  SweepOptions, SweepReport, no_report, context_error, unless_ended, unprotect_first,
  sweep_instance, sweep_disk, sweep_disks, after_disk_list, sweep_instances, after_list, sweep,
}

module _ {W : Type 0} (h : Host W) (o : PollOptions) where
  unless_ended-Orderly :
      (report : SweepReport) (next : M W (SweepReport × Option Err))
      → Keeps (Orderly []) next
      → (e : Option Err) → Keeps (Orderly []) (unless_ended h o report next e)
  unless_ended-Orderly report next k (some e) = Keeps-pure _
  unless_ended-Orderly report next k none = k

  context_error-Orderly : Keeps (Orderly []) (context_error h o)
  unfolding context_error
  context_error-Orderly = record { at = λ s v. v }

  sweep_instance-Orderly :
      (inst : Instance) (report : SweepReport) → Keeps (Orderly []) (sweep_instance h o inst report)
  unfolding sweep_instance unprotect_first
  sweep_instance-Orderly inst report =
      Keeps-bind _ _
        (Keeps-if inst.protected _ _
          (Keeps-bind _ _ (Keeps-attempt _ (set_protection-Orderly h o inst.name false))
            (λ r. Keeps-pure _))
          (Keeps-pure report))
        λ r.
          Keeps-bind _ _ (Keeps-attempt _ (service_delete-Orderly h o inst.name))
            (λ x. Keeps-pure _)

  sweep_disk-Orderly :
      (d : Disk) (report : SweepReport) → Keeps (Orderly []) (sweep_disk h o d report)
  unfolding sweep_disk
  sweep_disk-Orderly d report =
      Keeps-bind _ _ (Keeps-attempt _ (disk_delete-Orderly h d.name)) (λ r. Keeps-pure _)

  sweep_disks-Orderly :
      (ds : List Disk) (report : SweepReport) → Keeps (Orderly []) (sweep_disks h o ds report)
  unfolding sweep_disks
  sweep_disks-Orderly [] report = Keeps-pure _
  sweep_disks-Orderly (d ∷ ds) report = Keeps-bind _ _ context_error-Orderly (
      unless_ended-Orderly report _
        (Keeps-bind _ _ (sweep_disk-Orderly d report) (sweep_disks-Orderly ds)))

  after_disk_list-Orderly :
      (report : SweepReport) (r : Result (List Disk))
      → Keeps (Orderly []) (after_disk_list h o report r)
  unfolding after_disk_list
  after_disk_list-Orderly report (value found) = sweep_disks-Orderly found report
  after_disk_list-Orderly report (fault e) = Keeps-pure _

  sweep_instances-Orderly :
      (is : List Instance) (report : SweepReport)
      → Keeps (Orderly []) (sweep_instances h o is report)
  unfolding sweep_instances disk_list
  sweep_instances-Orderly [] report =
      Keeps-bind _ _ (Keeps-attempt _ (list_disks-Orderly h)) (after_disk_list-Orderly report)
  sweep_instances-Orderly (inst ∷ rest) report = Keeps-bind _ _ context_error-Orderly (
      unless_ended-Orderly report _
        (Keeps-bind _ _ (sweep_instance-Orderly inst report) (sweep_instances-Orderly rest)))

  after_list-Orderly : (r : Result (List Instance)) → Keeps (Orderly []) (after_list h o r)
  unfolding after_list
  after_list-Orderly (value is) = sweep_instances-Orderly is no_report
  after_list-Orderly (fault e) = Keeps-pure _

  sweep-Orderly :
      (user_home : Option String) (opts : SweepOptions)
      → Keeps (Orderly []) (sweep h o user_home opts)
  unfolding sweep
  sweep-Orderly user_home opts =
      Keeps-if _ _ _ (Keeps-pure _)
        (Keeps-bind _ _ (Keeps-attempt _ (list_instances-Orderly h)) after_list-Orderly)

-- Whatever the host answers, a sweep keeps the trace in order: it deletes an instance only under its
-- lock after it saw it unprotected, and a disk only under its lock after it saw it free.
pub sweep_ordered :
    {W : Type 0} (h : Host W) (o : PollOptions) (user_home : Option String) (opts : SweepOptions)
    → (s : State W) → Orderly [] s
    → Orderly [] (sweep h o user_home opts s).1
sweep_ordered h o user_home opts s v = (sweep-Orderly h o user_home opts).at s v
