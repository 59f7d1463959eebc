-- ===== src/Examples/Lists.antt =====
-- The theorems on the merges of internal/lima/lifecycle.go and on samePath.
use terraform_provider_lima.Base.{
  pos, ◌≡◌, refl, inl, inr, true, false, not, ◌&&◌, none, some, [], ◌∷◌, map, any_of,
}
use terraform_provider_lima.Instance.{
  Instance, Mount, MountView, PortForward, PortForwardView, is_empty,
}
use terraform_provider_lima.Paths.{same_path}
use terraform_provider_lima.Merge.{
  merge_mounts, mount_of_view, mount_view_at, mount_at, merge_port_forwards, forward_of_view,
  forward_view_at, forward_at, normalize_proto,
}
use terraform_provider_lima.Merge.Loops.{
  index_by, remove_at, remove_index, drop_previous, inherited,
}
use terraform_provider_lima.Merge.Spec.{select, distinct_by}
use terraform_provider_lima.Merge.Reapply.{Reports}
use terraform_provider_lima.Merge.Mounts.{same_location, MountReported, merge_mounts_lem}
use terraform_provider_lima.Merge.Forwards.{ForwardReported}
use terraform_provider_lima.Service.Change.{ResizeParams, changes_for}
use terraform_provider_lima.Service.Resized.{EditApplied, next_apply, changes_for_settled}
use terraform_provider_lima.Sandbox.{base_config, vm_in}

abbrev home_src : Mount
home_src = record { location = "/home/dev/src"; mount_point = ""; writable = true }

abbrev old_data : Mount
old_data = record { location = "/private/tmp/lima"; mount_point = ""; writable = true }

-- What Lima reports after the edit: the mount point is filled in.
abbrev reported_src : MountView
reported_src = record { location = "/home/dev/src"; mount_point = "/home/dev/src"; writable = true }

resolved-distinct : distinct_by same_location base_config.mounts ≡ true
unfolding same_path
resolved-distinct = refl

merge_mounts_lem_example :
    merge_mounts base_config.mounts (old_data ∷ []) (home_src ∷ [])
    ≡ home_src
      ∷ map mount_of_view (
          select
            (λ m.
              not (any_of (λ b. same_path m.location b.location) (old_data ∷ []))
              && not (any_of (λ b. same_path b.location m.location) (home_src ∷ [])))
            base_config.mounts)
merge_mounts_lem_example =
    merge_mounts_lem base_config.mounts (old_data ∷ []) (home_src ∷ []) resolved-distinct

src_reported :
    Reports MountReported
      (merge_mounts base_config.mounts (old_data ∷ []) (home_src ∷ []))
      (reported_src ∷ [])
unfolding merge_mounts mount_of_view mount_view_at mount_at index_by remove_at remove_index
    drop_previous inherited same_path
src_reported = ((refl, refl, inl refl), tt)

abbrev web : PortForward
web = record { guest_ip = ""; guest_port = pos 9090; host_ip = ""; host_port = pos 0; proto = "" }

abbrev reported_web : PortForwardView
reported_web = record {
  guest_port = pos 9090;
  host_port = pos 41000;
  proto = "tcp";
  guest_ip = "127.0.0.1";
  host_ip = "127.0.0.1";
}

abbrev template_forward : PortForwardView
template_forward = record {
  guest_port = pos 8080;
  host_port = pos 8080;
  proto = "tcp";
  guest_ip = "127.0.0.1";
  host_ip = "127.0.0.1";
}

web_reported :
    Reports ForwardReported
      (merge_port_forwards (template_forward ∷ []) [] (web ∷ []))
      (reported_web ∷ template_forward ∷ [])
unfolding merge_port_forwards forward_of_view forward_view_at forward_at index_by remove_at
    remove_index drop_previous inherited normalize_proto
web_reported = ((refl, refl, inl refl), ((refl, refl, inr refl), tt))

abbrev remount : ResizeParams
remount = record {
  name = "dev";
  additional_disks = some ((record { name = "data" }) ∷ []);
  desired = record {
    cpus = pos 4;
    memory_bytes = pos 0;
    disk_bytes = pos 0;
    mounts = none;
    port_forwards = none;
    additional_disks = none;
  };
  mounts = some (home_src ∷ []);
  previous_mounts = old_data ∷ [];
  port_forwards = none;
  previous_port_forwards = [];
  want_running = true;
}

abbrev before_edit : Instance
before_edit = vm_in "Running" false

abbrev after_edit : Instance
after_edit = record before_edit {
  cpus = pos 4;
  config = record base_config {
    mounts = reported_src ∷ [];
    additional_disks = (record { name = "data" }) ∷ [];
  };
}

remount-EditApplied : EditApplied remount before_edit after_edit
remount-EditApplied = record {
  mounts = src_reported;
  port_forwards = tt;
  additional_disks = (refl, tt);
  cpus = inr refl;
  memory_bytes = inl refl;
  disk_bytes = inl refl;
}

changes_for_settled_example : is_empty (changes_for (next_apply remount) after_edit) ≡ true
changes_for_settled_example =
    changes_for_settled remount before_edit after_edit refl remount-EditApplied
