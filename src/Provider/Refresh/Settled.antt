-- ===== src/Provider/Refresh/Settled.antt =====
-- A refresh of internal/provider/instance_resource.go after a refresh, with the same answer of Lima.
use terraform_provider_lima.Base.{
  ◌≡◌, refl, sym, ap, ◌∙◌, Option, none, some, List, map, Bool-cases, inl, inr,
}
use terraform_provider_lima.Instance.{Instance, Status, running, stopped, creating, broken, status}
use terraform_provider_lima.Provider.Attr.{Attr, known, is_known}
use terraform_provider_lima.Provider.Models.{
  InstanceModel, MountModel, PortModel, declared, apply_instance, apply_observed_config,
  apply_attached_disks, attached_disk_names, observed_start,
}
use terraform_provider_lima.Provider.Reconcile.{
  kept_mounts, kept_forwards, reconcile_at, reconcile_declared_entries,
}
use terraform_provider_lima.Provider.Document.{
  Platform, Rendered, render_model, to_render_request, typed_config,
}
use terraform_provider_lima.Provider.Planned.{planned_disks}
use terraform_provider_lima.Provider.Refresh.{
  reported, with_start, observed, rehashed, refreshed, with_hash,
}
use terraform_provider_lima.Provider.Refresh.Attributes.{
  observed_cpus_again, observed_text_again, start_of_again, observed_size_again, managed,
  managed_again, attached, attached_again,
}
use terraform_provider_lima.Provider.Refresh.Entries.{kept_mounts_again, kept_forwards_again}

-- What a refresh does to each attribute that it reads.
module _ (pf : Platform) where
  abbrev DeclaredPair : Type 0
  DeclaredPair = Attr (List MountModel) × Attr (List PortModel)

  abbrev kept_both : Instance → DeclaredPair → DeclaredPair
  kept_both inst l = (
    managed (kept_mounts pf.surroundings inst) l.0,
    managed (kept_forwards pf.surroundings inst) l.1,
  )

  abbrev lists_at : Status → Instance → DeclaredPair → DeclaredPair
  lists_at running inst l = kept_both inst l
  lists_at stopped inst l = kept_both inst l
  lists_at _ inst l = l

  abbrev with_lists : InstanceModel → DeclaredPair → InstanceModel
  with_lists m lists = record m { mounts = lists.0; port_forwards = lists.1 }

  abbrev with_disks : InstanceModel → Instance → InstanceModel
  with_disks m inst = record m {
    additional_disks = attached m.additional_disks (map known (attached_disk_names inst.config));
  }

  reconciled_lists :
      (st : Status) (inst : Instance) (m : InstanceModel)
      → reconcile_at pf.surroundings inst st m (declared m)
        ≡ with_lists m (lists_at st inst (m.mounts, m.port_forwards))
  unfolding declared
  reconciled_lists running inst m = refl
  reconciled_lists stopped inst m = refl
  reconciled_lists creating inst m = refl
  reconciled_lists broken inst m = refl
  reconciled_lists Status.unknown inst m = refl

  attached_disks :
      (m : InstanceModel) (inst : Instance) → apply_attached_disks m inst ≡ with_disks m inst
  unfolding apply_attached_disks
  attached_disks m inst = elim (Bool-cases (is_known m.additional_disks)) [
    | inl e ↦ rw e refl
    | inr e ↦ rw e refl
  ]

  -- What a refresh does to each attribute.
  abbrev pub by_attribute : InstanceModel → Instance → InstanceModel
  by_attribute m inst =
      with_start pf
        (with_disks
          (with_lists (reported pf m inst)
            (lists_at (status inst) inst (m.mounts, m.port_forwards)))
          inst)
        inst

  declared-reported :
      (m : InstanceModel) (inst : Instance) → declared m ≡ declared (reported pf m inst)
  unfolding declared apply_observed_config apply_instance
  declared-reported m inst = refl

  reconciled-lists_at :
      (m : InstanceModel) (inst : Instance)
      → reconcile_declared_entries pf.surroundings inst (reported pf m inst) (declared m)
        ≡ with_lists (reported pf m inst) (lists_at (status inst) inst (m.mounts, m.port_forwards))
  unfolding reconcile_declared_entries apply_observed_config apply_instance
  reconciled-lists_at m inst =
      ap (reconcile_at pf.surroundings inst (status inst) (reported pf m inst))
        (declared-reported m inst)
      ∙ reconciled_lists (status inst) inst (reported pf m inst)

  pub observed-by_attribute :
      (m : InstanceModel) (inst : Instance) → observed pf m inst ≡ by_attribute m inst
  unfolding observed
  observed-by_attribute m inst =
      ap (λ x. with_start pf (apply_attached_disks x inst) inst) (reconciled-lists_at m inst)
      ∙ ap (λ x. with_start pf x inst)
          (attached_disks
            (with_lists (reported pf m inst)
              (lists_at (status inst) inst (m.mounts, m.port_forwards)))
            inst)

  kept_both_again :
      (inst : Instance) (l : DeclaredPair) → kept_both inst (kept_both inst l) ≡ kept_both inst l
  kept_both_again inst l =
      rw
        (
          managed_again _ l.0 (kept_mounts_again pf.surroundings inst),
          managed_again _ l.1 (kept_forwards_again pf.surroundings inst),
        )
        refl

  lists_again :
      (st : Status) (inst : Instance) (l : DeclaredPair)
      → lists_at st inst (lists_at st inst l) ≡ lists_at st inst l
  lists_again running inst l = kept_both_again inst l
  lists_again stopped inst l = kept_both_again inst l
  lists_again creating inst l = refl
  lists_again broken inst l = refl
  lists_again Status.unknown inst l = refl

  by_attribute_again :
      (m : InstanceModel) (inst : Instance)
      → by_attribute (by_attribute m inst) inst ≡ by_attribute m inst
  unfolding apply_observed_config apply_instance observed_start
  by_attribute_again m inst =
      rw
        (
          observed_cpus_again m.cpus inst.cpus,
          observed_size_again pf.wide_int m.memory inst.memory_bytes,
          observed_size_again pf.wide_int m.disk inst.disk_bytes,
          observed_text_again m.vm_type inst.vm_type,
          observed_text_again m.arch inst.arch,
          start_of_again m.start (status inst),
          attached_again m.additional_disks (map known (attached_disk_names inst.config)),
          lists_again (status inst) inst (m.mounts, m.port_forwards),
        )
        refl

  by_attribute-with_hash :
      (m : InstanceModel) (o : Option Rendered) (inst : Instance)
      → by_attribute (with_hash m o) inst ≡ with_hash (by_attribute m inst) o
  unfolding apply_observed_config apply_instance observed_start
  by_attribute-with_hash m none inst = refl
  by_attribute-with_hash m (some r) inst = refl

  render_model-with_hash :
      (m : InstanceModel) (o : Option Rendered)
      → render_model pf (with_hash m o) (declared (with_hash m o)) ≡ render_model pf m (declared m)
  unfolding render_model to_render_request typed_config planned_disks declared
  render_model-with_hash m none = refl
  render_model-with_hash m (some r) = refl

  with_hash_again :
      (m : InstanceModel) (o : Option Rendered) → with_hash (with_hash m o) o ≡ with_hash m o
  with_hash_again m none = refl
  with_hash_again m (some r) = refl

  -- Refreshing twice with the same answer of Lima is refreshing once: a plan after a refresh is not
  -- changed by another.
  pub refreshed_again :
      (m : InstanceModel) (inst : Instance)
      → refreshed pf (refreshed pf m inst) inst ≡ refreshed pf m inst
  unfolding refreshed rehashed
  refreshed_again m inst =
      let x = observed pf m inst in
      let o = (render_model pf x (declared x)).0 in
      let settled : observed pf (with_hash x o) inst ≡ with_hash x o =
        observed-by_attribute (with_hash x o) inst
        ∙ by_attribute-with_hash x o inst
        ∙ ap (λ y. with_hash (by_attribute y inst) o) (observed-by_attribute m inst)
        ∙ ap (λ y. with_hash y o) (by_attribute_again m inst)
        ∙ ap (λ y. with_hash y o) (sym (observed-by_attribute m inst)) in
      ap (λ y. with_hash y (render_model pf y (declared y)).0) settled
      ∙ ap (λ r. with_hash (with_hash x o) r.0) (render_model-with_hash x o)
      ∙ with_hash_again x o
