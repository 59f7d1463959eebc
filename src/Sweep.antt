-- ===== src/Sweep.antt =====
-- `Sweep` of internal/lima/sweep.go and `ResolveHome` of internal/lima/sizes.go.
pub mod Ordered
pub mod Adds
pub mod Complete
use terraform_provider_lima.Base.{
  ℕ, String, Bool, true, false, not, ◌&&◌, Option, none, some, List, [], ◌∷◌, ◌++◌, codes, codes_eq,
  if◌then◌else◌, ◌==◌,
}
use terraform_provider_lima.Errors.{Err, wrapped, other}
use terraform_provider_lima.Paths.{clean}
use terraform_provider_lima.Instance.{Instance, Disk}
use terraform_provider_lima.Session.{
  Host, M, Outcome, ok, Result, value, fault, pure, attempt, ◌>>=◌, list_instances,
}
use terraform_provider_lima.Poll.{PollOptions}
use terraform_provider_lima.Service.Change.{set_protection, service_delete}
use terraform_provider_lima.Disks.{disk_list, disk_delete}

pub record SweepOptions : Type 0 where
  pub home : String
  pub allow_default_home : Bool

pub record SweepReport : Type 0 where
  pub instances : List String
  pub disks : List String
  pub failures : List Err

abbrev pub no_report : SweepReport
no_report = record { instances = []; disks = []; failures = [] }

-- filepath.Join(home, ".lima")
abbrev join_home : List ℕ → List ℕ
join_home [] = clean (codes ".lima")
join_home (c ∷ cs) = clean (c ∷ cs ++ codes "/.lima")

-- The result of os.UserHomeDir is a parameter; an error is `none`.
unfoldable pub resolve_home : Option String → String → List ℕ
resolve_home user_home configured =
    if not (configured == "")
    then codes configured
    else elim user_home [ none ↦ [] | some home ↦ join_home (codes home) ]

-- Is the home Lima's default?
unfoldable pub is_default_home : Option String → String → Bool
is_default_home user_home home =
    codes_eq (clean (resolve_home user_home home)) (clean (resolve_home user_home ""))

abbrev pub sweep_error : SweepReport → Option Err
sweep_error report = elim report.failures [
  | [] ↦ none
  | e ∷ es ↦ some (other "sweep completed with failures")
]

abbrev pub add_failure : SweepReport → String → Err → SweepReport
add_failure report doing e = record report { failures = report.failures ++ wrapped doing e ∷ [] }

abbrev pub after_unprotect : SweepReport → Result (Unit {0}) → SweepReport
after_unprotect report (value _) = report
after_unprotect report (fault e) = add_failure report "unprotecting instance" e

abbrev pub after_delete : SweepReport → String → Result (Unit {0}) → SweepReport
after_delete report name (value _) = record report { instances = report.instances ++ name ∷ [] }
after_delete report name (fault e) = add_failure report "deleting instance" e

abbrev pub after_disk_delete : SweepReport → String → Result (Unit {0}) → SweepReport
after_disk_delete report name (value _) = record report { disks = report.disks ++ name ∷ [] }
after_disk_delete report name (fault e) = add_failure report "deleting disk" e

module _ {W : Type 0} (h : Host W) (o : PollOptions) where
  -- ctx.Err()
  unfoldable pub context_error : M W (Option Err)
  context_error s = (ok (h.ctx_err s.world), s)

  -- if err := ctx.Err(); err != nil { return report, err }
  abbrev pub unless_ended :
      SweepReport → M W (SweepReport × Option Err) → Option Err → M W (SweepReport × Option Err)
  unless_ended report next (some e) = pure (report, some e)
  unless_ended report next none = next

  unfoldable pub unprotect_first : Instance → SweepReport → M W SweepReport
  unprotect_first inst report =
      if inst.protected
      then attempt (set_protection h o inst.name false) >>= (λ r. pure (after_unprotect report r))
      else pure report

  -- One round of the loop over the instances.
  unfoldable pub sweep_instance : Instance → SweepReport → M W SweepReport
  sweep_instance inst report = do
    unprotected ← unprotect_first inst report
    attempt (service_delete h o inst.name) >>= (λ r. pure (after_delete unprotected inst.name r))

  unfoldable pub sweep_disk : Disk → SweepReport → M W SweepReport
  sweep_disk d report =
      attempt (disk_delete h d.name) >>= λ r. pure (after_disk_delete report d.name r)

  unfoldable pub sweep_disks : List Disk → SweepReport → M W (SweepReport × Option Err)
  sweep_disks [] report = pure (report, sweep_error report)
  sweep_disks (d ∷ ds) report =
      context_error >>= unless_ended report (sweep_disk d report >>= sweep_disks ds)

  unfoldable pub after_disk_list : SweepReport → Result (List Disk) → M W (SweepReport × Option Err)
  after_disk_list report (value found) = sweep_disks found report
  after_disk_list report (fault e) =
      let failed = add_failure report "listing disks to sweep" e in
      pure (failed, sweep_error failed)

  unfoldable pub sweep_instances : List Instance → SweepReport → M W (SweepReport × Option Err)
  sweep_instances [] report = attempt (disk_list h) >>= after_disk_list report
  sweep_instances (inst ∷ rest) report =
      context_error >>= unless_ended report (sweep_instance inst report >>= sweep_instances rest)

  unfoldable pub after_list : Result (List Instance) → M W (SweepReport × Option Err)
  after_list (value instances) = sweep_instances instances no_report
  after_list (fault e) = pure (no_report, some (wrapped "listing instances to sweep" e))

  unfoldable pub sweep : Option String → SweepOptions → M W (SweepReport × Option Err)
  sweep user_home opts =
      if not opts.allow_default_home && is_default_home user_home opts.home
      then pure (no_report, some (other "sweep refused"))
      else attempt (list_instances h) >>= after_list
