-- ===== src/Provider/Reconcile.antt =====
-- `reconcileDeclaredEntries` of internal/provider/models.go: what a read makes of the declared mounts
-- and port forwards.
use terraform_provider_lima.Base.{
  ℤ, String, int_eq, not, ◌&&◌, Option, none, some, List, [], ◌∷◌, if◌then◌else◌,
}
use terraform_provider_lima.Paths.{same_path}
use terraform_provider_lima.Paths.Expand.{Surroundings, expand_path}
use terraform_provider_lima.Instance.{
  Instance, Status, running, stopped, status, MountView, PortForwardView,
}
use terraform_provider_lima.Lookup.{find_mount, find_port_forward}
use terraform_provider_lima.Provider.Attr.{
  Attr, null, unknown, known, is_null, string_value, int_value,
}
use terraform_provider_lima.Provider.Models.{MountModel, PortModel, InstanceModel, DeclaredLists}

-- The mount point to record: one that is unset stays unset while it is the default.
unfoldable pub observed_mount_point : Attr String → MountView → Attr String
observed_mount_point null found =
    if not (same_path found.mount_point found.location) then known found.mount_point else null
observed_mount_point unknown found =
    if not (same_path found.mount_point "") then known found.mount_point else unknown
observed_mount_point (known declared) found =
    if not (same_path found.mount_point declared) then known found.mount_point else known declared

abbrev pub reported_mount : MountModel → Option MountView → Option MountModel
reported_mount declared none = none
reported_mount declared (some found) = some (record declared {
  writable = known found.writable;
  mount_point = observed_mount_point declared.mount_point found;
})

module _ (s : Surroundings) (inst : Instance) where
  abbrev pub mount_expanded : MountModel → Option String → Option MountModel
  mount_expanded declared none = some declared
  mount_expanded declared (some location) =
      reported_mount declared (find_mount inst.config location)

  abbrev pub mount_located : MountModel → Attr String → Option MountModel
  mount_located declared null = some declared
  mount_located declared unknown = some declared
  mount_located declared (known location) = mount_expanded declared (expand_path s location)

  unfoldable pub observed_mount : MountModel → Option MountModel
  observed_mount declared = mount_located declared declared.location

  abbrev pub observed_host_port : Attr ℤ → PortForwardView → Attr ℤ
  observed_host_port declared found =
      if not (is_null declared) && not (int_eq (int_value declared) found.host_port)
      then known found.host_port
      else declared

  abbrev pub reported_forward : PortModel → Option PortForwardView → Option PortModel
  reported_forward declared none = none
  reported_forward declared (some found) =
      some (record declared { host_port = observed_host_port declared.host_port found })

  abbrev pub forward_located : PortModel → Attr ℤ → Option PortModel
  forward_located declared null = some declared
  forward_located declared unknown = some declared
  forward_located declared (known port) =
      reported_forward declared
        (find_port_forward inst.config port (string_value declared.protocol))

  unfoldable pub observed_port_forward : PortModel → Option PortModel
  observed_port_forward declared = forward_located declared declared.guest_port

  abbrev pub keep_observed : {A : Type 0} → Option A → List A → List A
  keep_observed none rest = rest
  keep_observed (some a) rest = a ∷ rest

  abbrev pub kept_mounts : List MountModel → List MountModel
  kept_mounts [] = []
  kept_mounts (m ∷ ms) = keep_observed (observed_mount m) (kept_mounts ms)

  abbrev pub kept_forwards : List PortModel → List PortModel
  kept_forwards [] = []
  kept_forwards (p ∷ ps) = keep_observed (observed_port_forward p) (kept_forwards ps)

  -- The part after the switch on the status.
  abbrev pub reconcile_lists : InstanceModel → DeclaredLists → InstanceModel
  reconcile_lists m lists = record m {
    mounts = if lists.mounts_managed then known (kept_mounts lists.mounts) else m.mounts;
    port_forwards =
        if lists.port_forwards_managed
        then known (kept_forwards lists.port_forwards)
        else m.port_forwards;
  }

  abbrev pub reconcile_at : Status → InstanceModel → DeclaredLists → InstanceModel
  reconcile_at running m lists = reconcile_lists m lists
  reconcile_at stopped m lists = reconcile_lists m lists
  reconcile_at _ m lists = m

  unfoldable pub reconcile_declared_entries : InstanceModel → DeclaredLists → InstanceModel
  reconcile_declared_entries m lists = reconcile_at (status inst) m lists
