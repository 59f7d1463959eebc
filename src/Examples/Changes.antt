-- ===== src/Examples/Changes.antt =====
-- The theorems on updates, sizes, port forwards and redaction at concrete inputs.
use terraform_provider_lima.Base.{
  pos, ◌≡◌, refl, true, false, none, some, [], ◌∷◌, ◌++◌, arith, codes, ap, ◌∙◌, if◌then◌else◌,
}
use terraform_provider_lima.Instance.{trim_space}
use terraform_provider_lima.Session.{
  State, ok, ◌>>=◌, inspect, issue, pure, lock, unlock, with_lock,
}
use terraform_provider_lima.Service.Change.{set_protection, set_protection_locked}
use terraform_provider_lima.Sandbox.{
  Sandbox, sandbox_host, sandbox_options, at_rest, sandbox-HasDeadline, vm_in,
}
use terraform_provider_lima.Sizes.Float.{parse_float, nearest, narrow, widen}
use terraform_provider_lima.Sizes.Parse.{parse_size, match_size, unit_named}
use terraform_provider_lima.Sizes.Written.{format_size_text}
use terraform_provider_lima.Sizes.Roundtrip.{parse_size-format_size_text}
use terraform_provider_lima.Commands.{redact_arg, redact_env_value, trim_dashes}
use terraform_provider_lima.Commands.Redaction.{redact_arg_lem}
use terraform_provider_lima.Provider.Attr.{null, known}
use terraform_provider_lima.Provider.Diagnostics.{has_error}
use terraform_provider_lima.Provider.Models.{InstanceModel, PortModel, observed_size}
use terraform_provider_lima.Provider.Refresh.{refreshed}
use terraform_provider_lima.Provider.Refresh.Resources.{refreshed-ReadResources}
use terraform_provider_lima.Provider.Changes.{resize_request, refuses_shrink}
use terraform_provider_lima.Provider.Changes.Quiet.{
  Agrees, nothing_asked, imported_unchanged, refreshed_unchanged,
}
use terraform_provider_lima.Provider.Changes.Growth.{KeepsSize, accepted_disk_kept}
use terraform_provider_lima.Provider.Records.{Response, imported, state_name}
use terraform_provider_lima.Provider.Instances.Traces.{handlers_answer}
use terraform_provider_lima.Provider.Instances.Update.{update_handler, update_resource}
use terraform_provider_lima.Provider.Instances.Unprotected.{
  Recorded, update_unprotected, update_stale,
}
use terraform_provider_lima.Examples.Provider.{platform, provider, plan, plan_renders, rendered}

parse_size-format_size_text_example :
    parse_size pos (format_size_text (pos 1_610_612_736)) ≡ some (pos 1_610_612_736)
parse_size-format_size_text_example = parse_size-format_size_text pos 1_610_612_736 (omega arith)

redact_arg_lem_example : redact_arg (codes "--api-key" ++ b'=' ∷ codes "s3cret") ≡ (
    if redact_env_value (trim_dashes (codes "--api-key"))
    then codes "--api-key" ++ codes "=(redacted)"
    else codes "--api-key" ++ b'=' ∷ codes "s3cret")
redact_arg_lem_example = redact_arg_lem (codes "--api-key") (codes "s3cret") refl

abbrev web : PortModel
web = record {
  guest_port = known (pos 80);
  host_port = known (pos 8080);
  protocol = null;
  guest_ip = null;
  host_ip = null;
}

-- What Lima reports of the sandbox's instance, in other spellings.
abbrev same_plan : InstanceModel
same_plan = record plan { cpus = known (pos 2); disk = known "20480MiB" }

same_plan-Agrees : Agrees pos same_plan (vm_in "Running" false)
unfolding parse_size match_size unit_named trim_space parse_float nearest narrow widen
same_plan-Agrees = record {
  memory_count = 4_294_967_296;
  disk_count = 21_474_836_480;
  memory_bytes = refl;
  disk_bytes = refl;
  cpus_reported = refl;
  memory_reported = refl;
  disk_reported = refl;
  memory_exact = omega arith;
  disk_exact = omega arith;
  cpus = λ _. refl;
  memory = λ _. refl;
  disk = λ _. refl;
}

imported_unchanged_example :
    resize_request pos same_plan (imported "dev" (vm_in "Running" false)) ≡ (nothing_asked pos, [])
imported_unchanged_example =
    imported_unchanged pos "dev" same_plan (vm_in "Running" false) same_plan-Agrees

refreshed_unchanged_example :
    resize_request pos same_plan (refreshed platform same_plan (vm_in "Running" false))
    ≡ (nothing_asked pos, [])
refreshed_unchanged_example =
    refreshed_unchanged platform same_plan same_plan (vm_in "Running" false) same_plan-Agrees refl
      refl refl

abbrev larger : InstanceModel
larger = record plan { disk = known "30GiB" }

abbrev twenty : InstanceModel
twenty = record plan { disk = known "20GiB" }

growth_accepted :
    refuses_shrink pos (refreshed platform twenty (vm_in "Running" false)).disk larger.disk ≡ false
growth_accepted =
    ap (λ x. refuses_shrink pos x larger.disk)
      (refreshed-ReadResources platform twenty (vm_in "Running" false)).2
    ∙ accepted
  where
    accepted :
        refuses_shrink pos (observed_size pos (known "20GiB") (pos 21_474_836_480)) (known "30GiB")
        ≡ false
    accepted =
        unfold refuses_shrink observed_size parse_size match_size unit_named trim_space parse_float
          nearest narrow widen in
        refl

accepted_disk_kept_example :
    KeepsSize pos 21_474_836_480
      (resize_request pos larger (refreshed platform twenty (vm_in "Running" false))).0.disk_bytes
accepted_disk_kept_example =
    accepted_disk_kept platform twenty larger (vm_in "Running" false) 21_474_836_480 refl refl refl
      (omega arith) growth_accepted

abbrev protected_vm : State Sandbox
protected_vm = at_rest (some (vm_in "Running" true)) none

-- The instance as it was applied, protected.
abbrev guarded : InstanceModel
guarded = record plan { instance_name = known "dev" }

abbrev unguarded : InstanceModel
unguarded = record plan { protect = known false }

-- The same with a size that is none.
abbrev misspelt : InstanceModel
misspelt = record plan { protect = known false; memory = known "plenty" }

protection_removed :
    (set_protection sandbox_host sandbox_options (state_name provider guarded) false protected_vm).0
    ≡ ok tt
unfolding set_protection set_protection_locked state_name with_lock lock unlock inspect issue pure
    ◌>>=◌
protection_removed = refl

answered :
    (wanted : InstanceModel)
    → (r : Response) × ((update_resource sandbox_host sandbox_options platform provider wanted
          guarded protected_vm).0
        ≡ ok r)
unfolding update_handler
answered wanted =
    (handlers_answer sandbox_host sandbox_options sandbox-HasDeadline platform (some provider)
      wanted guarded "dev" protected_vm).2

sizes_valid : has_error (resize_request pos unguarded guarded).1 ≡ false
unfolding resize_request parse_size match_size unit_named trim_space parse_float nearest narrow
    widen
sizes_valid = refl

size_invalid : has_error (resize_request pos misspelt guarded).1 ≡ true
unfolding resize_request parse_size match_size unit_named trim_space
size_invalid = refl

update_unprotected_example :
    Recorded sandbox_host sandbox_options platform
      (state_name provider guarded)
      unguarded
      guarded
      (answered unguarded).0
      (update_resource sandbox_host sandbox_options platform provider unguarded guarded
        protected_vm).1
update_unprotected_example =
    update_unprotected sandbox_host sandbox_options platform provider unguarded guarded rendered
      protected_vm (answered unguarded).0 refl refl (plan_renders (known false)) sizes_valid
      protection_removed (answered unguarded).1

update_stale_example : (answered misspelt).0.state ≡ some guarded
update_stale_example =
    update_stale sandbox_host sandbox_options platform provider misspelt guarded protected_vm
      (answered misspelt).0 refl refl size_invalid protection_removed (answered misspelt).1
