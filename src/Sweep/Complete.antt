-- ===== src/Sweep/Complete.antt =====
-- `Sweep` of internal/lima/sweep.go: the report of a sweep without an error.
use terraform_provider_lima.Base.{String, ◌≡◌, Option, none, List, [], ◌++◌}
use terraform_provider_lima.Errors.{Err}
use terraform_provider_lima.Instance.{Instance, Disk}
use terraform_provider_lima.Session.{Host, Result, value, list_disks}
use terraform_provider_lima.Session.Leads.{Leads}
use terraform_provider_lima.Poll.{PollOptions}
use terraform_provider_lima.Sweep.{SweepReport, no_report}
use terraform_provider_lima.Sweep.Adds.{Adds, instance_names, disk_names}

module _ {W : Type 0} (h : Host W) (o : PollOptions) where
  -- The sweep went through without a failure.
  abbrev Through : SweepReport → List String → SweepReport × Option Err → Type 0
  Through before names q =
      q.1 ≡ none
      → (before.failures ≡ [])
        × (q.0.failures ≡ [])
        × (q.0.instances ≡ before.instances ++ names)
        × ((ds : List Disk) × (w : W) × ((h.list_disks w).0 ≡ value ds)
            × (q.0.disks ≡ before.disks ++ disk_names ds))

  abbrev DisksThrough : SweepReport → List Disk → SweepReport × Option Err → Type 0
  DisksThrough before ds q = q.1 ≡ none → (q.0.failures ≡ []) × Adds before [] (disk_names ds) q.0

  Listed : Result (List Disk) → Type 0
  Listed r = (w : W) × ((h.list_disks w).0 ≡ r)

  -- The error is none, and the listing is this.
  abbrev Swept : Result (List Instance) → SweepReport × Option Err → Type 0
  Swept listed q =
      q.1 ≡ none
      → (is : List Instance) × (listed ≡ value is) × Through no_report (instance_names is) q
