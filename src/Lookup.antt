-- ===== src/Lookup.antt =====
-- The searches in an instance's resolved configuration of internal/lima/inspect.go.
pub mod Reported
use terraform_provider_lima.Base.{
  ℤ, int_eq, is_zero, String, Bool, true, false, not, ◌&&◌, Option, none, some, List, [], ◌∷◌,
  codes_eq, if◌then◌else◌, ◌==◌,
}
use terraform_provider_lima.Paths.{same_path}
use terraform_provider_lima.Instance.{
  InstanceConfigView, MountView, PortForwardView, AdditionalDiskView,
}
use terraform_provider_lima.Merge.{bool_eq, normalize_proto, proto_or_tcp, equal_fold}

-- One round of the loop of `HasMount`.
unfoldable pub is_mount : String → String → Bool → MountView → Bool
is_mount location mount_point writable m =
    if not (same_path m.location location)
    then false
    else if not (mount_point == "") && not (same_path m.mount_point mount_point)
    then false
    else if not (bool_eq m.writable writable)
    then false
    else true

abbrev pub any_mount : String → String → Bool → List MountView → Bool
any_mount location mount_point writable [] = false
any_mount location mount_point writable (m ∷ ms) =
    let rest = any_mount location mount_point writable ms in
    if is_mount location mount_point writable m then true else rest

unfoldable pub has_mount : InstanceConfigView → String → String → Bool → Bool
has_mount c location mount_point writable = any_mount location mount_point writable c.mounts

unfoldable pub is_port_forward : ℤ → ℤ → String → PortForwardView → Bool
is_port_forward guest_port host_port proto p =
    if not (int_eq p.guest_port guest_port)
    then false
    else if not (equal_fold (proto_or_tcp p.proto) (proto_or_tcp proto))
    then false
    else if not (is_zero host_port) && not (int_eq p.host_port host_port)
    then false
    else true

abbrev pub any_forward : ℤ → ℤ → String → List PortForwardView → Bool
any_forward guest_port host_port proto [] = false
any_forward guest_port host_port proto (p ∷ ps) =
    let rest = any_forward guest_port host_port proto ps in
    if is_port_forward guest_port host_port proto p then true else rest

unfoldable pub has_port_forward : InstanceConfigView → ℤ → ℤ → String → Bool
has_port_forward c guest_port host_port proto =
    any_forward guest_port host_port proto c.port_forwards

abbrev pub first_mount : String → List MountView → Option MountView
first_mount location [] = none
first_mount location (m ∷ ms) =
    let rest = first_mount location ms in if same_path m.location location then some m else rest

unfoldable pub find_mount : InstanceConfigView → String → Option MountView
find_mount c location = first_mount location c.mounts

abbrev pub is_forward_of : ℤ → String → PortForwardView → Bool
is_forward_of guest_port proto p =
    int_eq p.guest_port guest_port && codes_eq (normalize_proto p.proto) (normalize_proto proto)

abbrev pub first_forward : ℤ → String → List PortForwardView → Option PortForwardView
first_forward guest_port proto [] = none
first_forward guest_port proto (p ∷ ps) =
    let rest = first_forward guest_port proto ps in
    if is_forward_of guest_port proto p then some p else rest

unfoldable pub find_port_forward : InstanceConfigView → ℤ → String → Option PortForwardView
find_port_forward c guest_port proto = first_forward guest_port proto c.port_forwards
