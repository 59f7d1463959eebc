-- ===== src/Provider/Planned.antt =====
-- What internal/provider/models.go asks of Lima for the declared lists. A nil pointer is `none`.
use terraform_provider_lima.Base.{ℤ, String, Option, none, some, List, [], ◌∷◌, if◌then◌else◌}
use terraform_provider_lima.Instance.{Mount, PortForward, AdditionalDisk}
use terraform_provider_lima.Paths.Expand.{Surroundings, expand_path}
use terraform_provider_lima.Provider.Attr.{
  Attr, null, unknown, known, string_value, bool_value, int_value,
}
use terraform_provider_lima.Provider.Models.{MountModel, PortModel, InstanceModel, DeclaredLists}

module _ (s : Surroundings) where
  abbrev pub mount_at : MountModel → Option String → List Mount → List Mount
  mount_at m none rest = rest
  mount_at m (some location) rest =
      (record {
        location = location;
        mount_point = string_value m.mount_point;
        writable = bool_value m.writable;
      })
      ∷ rest

  -- One round of the loop: a location that is not known, or that does not expand, is skipped.
  abbrev pub configured_mount : MountModel → Attr String → List Mount → List Mount
  configured_mount m null rest = rest
  configured_mount m unknown rest = rest
  configured_mount m (known location) rest = mount_at m (expand_path s location) rest

  abbrev pub mounts_of : List MountModel → List Mount
  mounts_of [] = []
  mounts_of (m ∷ ms) = configured_mount m m.location (mounts_of ms)

  unfoldable pub configured_mounts : DeclaredLists → List Mount
  configured_mounts lists = mounts_of lists.mounts

  unfoldable pub planned_mounts : DeclaredLists → Option (List Mount)
  unfolding configured_mounts
  planned_mounts lists = if lists.mounts_managed then some (configured_mounts lists) else none

abbrev pub forward_of : PortModel → PortForward
forward_of pf = record {
  guest_ip = string_value pf.guest_ip;
  guest_port = int_value pf.guest_port;
  host_ip = string_value pf.host_ip;
  host_port = int_value pf.host_port;
  proto = string_value pf.protocol;
}

abbrev pub configured_forward : PortModel → Attr ℤ → List PortForward → List PortForward
configured_forward pf null rest = rest
configured_forward pf unknown rest = rest
configured_forward pf (known port) rest = forward_of pf ∷ rest

abbrev pub forwards_of : List PortModel → List PortForward
forwards_of [] = []
forwards_of (pf ∷ pfs) = configured_forward pf pf.guest_port (forwards_of pfs)

unfoldable pub configured_port_forwards : DeclaredLists → List PortForward
configured_port_forwards lists = forwards_of lists.port_forwards

unfoldable pub planned_port_forwards : DeclaredLists → Option (List PortForward)
unfolding configured_port_forwards
planned_port_forwards lists =
    if lists.port_forwards_managed then some (configured_port_forwards lists) else none

-- Elements that are not known are left out.
abbrev pub named_disk : Attr String → List AdditionalDisk → List AdditionalDisk
named_disk null rest = rest
named_disk unknown rest = rest
named_disk (known name) rest = (record { name = name }) ∷ rest

abbrev pub disks_of : List (Attr String) → List AdditionalDisk
disks_of [] = []
disks_of (d ∷ ds) = named_disk d (disks_of ds)

abbrev pub managed_disks : Attr (List (Attr String)) → Option (List AdditionalDisk)
managed_disks null = none
managed_disks unknown = none
managed_disks (known ds) = some (disks_of ds)

unfoldable pub planned_disks : InstanceModel → Option (List AdditionalDisk)
planned_disks m = managed_disks m.additional_disks
