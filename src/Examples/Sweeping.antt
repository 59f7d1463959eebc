-- ===== src/Examples/Sweeping.antt =====
-- The theorems on internal/lima/sweep.go in the sandbox.
use terraform_provider_lima.Base.{pos, true, false, some, [], ◌∷◌}
use terraform_provider_lima.Instance.{Instance}
use terraform_provider_lima.Session.{State}
use terraform_provider_lima.Session.Discipline.{Orderly}
use terraform_provider_lima.Sweep.{SweepOptions, SweepReport, sweep}
use terraform_provider_lima.Sweep.Ordered.{sweep_ordered}
use terraform_provider_lima.Sandbox.{
  Sandbox, sandbox_host, sandbox_options, at_rest, at_rest-Orderly, vm_in, free_disk_of,
}

abbrev leftovers : State Sandbox
leftovers = at_rest (some (vm_in "Running" true)) (some (free_disk_of "data" (pos 1_073_741_824)))

abbrev isolated : SweepOptions
isolated = record { home = "/tmp/acceptance"; allow_default_home = false }

abbrev default_home : SweepOptions
default_home = record { home = "/home/dev/../dev/.lima/"; allow_default_home = false }

abbrev all_gone : SweepReport
all_gone = record { instances = "dev" ∷ []; disks = "data" ∷ []; failures = [] }

sweep_ordered_example :
    Orderly [] (sweep sandbox_host sandbox_options (some "/home/dev") isolated leftovers).1
sweep_ordered_example =
    sweep_ordered sandbox_host sandbox_options (some "/home/dev") isolated leftovers
      (at_rest-Orderly _ _)
