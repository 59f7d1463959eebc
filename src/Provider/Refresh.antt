-- ===== src/Provider/Refresh.antt =====
-- What `Read` of internal/provider/instance_resource.go makes of the state of an instance that Lima
-- still has.
pub mod Attributes
pub mod Entries
pub mod Settled
pub mod Resources
use terraform_provider_lima.Base.{Option, none, some, List}
use terraform_provider_lima.Instance.{Instance}
use terraform_provider_lima.Provider.Attr.{known}
use terraform_provider_lima.Provider.Models.{
  InstanceModel, DeclaredLists, declared, apply_instance, apply_observed_config,
  apply_attached_disks, observed_start,
}
use terraform_provider_lima.Provider.Document.{Platform, Rendered, render_model}
use terraform_provider_lima.Provider.Reconcile.{reconcile_declared_entries}

-- A model that does not render keeps its hash.
abbrev pub with_hash : InstanceModel → Option Rendered → InstanceModel
with_hash m none = m
with_hash m (some r) = record m { config_hash = known r.hash }

module _ (pf : Platform) where
  unfoldable pub rehashed : InstanceModel → InstanceModel
  rehashed m = with_hash m (render_model pf m (declared m)).0

  abbrev pub reported : InstanceModel → Instance → InstanceModel
  reported m inst = apply_observed_config pf.wide_int (apply_instance m inst) inst

  abbrev pub with_start : InstanceModel → Instance → InstanceModel
  with_start m inst = record m { start = observed_start m.start inst }

  -- All but the hash.
  unfoldable pub observed : InstanceModel → Instance → InstanceModel
  observed state inst =
      let lists = declared state in
      let reconciled =
        reconcile_declared_entries pf.surroundings inst (reported state inst) lists in
      with_start (apply_attached_disks reconciled inst) inst

  unfoldable pub refreshed : InstanceModel → Instance → InstanceModel
  refreshed state inst = rehashed (observed state inst)
