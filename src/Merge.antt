-- ===== src/Merge.antt =====
-- internal/lima/lifecycle.go: the list that an in-place edit writes back, for mounts, port forwards
-- and disks, and the comparisons that skip an edit which changes nothing.
pub mod Loops
pub mod Spec
pub mod Reapply
pub mod Mounts
pub mod Forwards
use Loops.{index_by, drop_previous, inherited}
use terraform_provider_lima.Base.{
  ℕ, ℤ, pos, int_eq, is_zero, String, Bool, true, false, not, ◌&&◌, Option, none, some, List, [],
  ◌∷◌, ◌++◌, codes, codes_eq, to_lower, if◌then◌else◌, ◌==◌,
}
use terraform_provider_lima.Paths.{same_path}
use terraform_provider_lima.Instance.{
  Mount, MountView, PortForward, PortForwardView, AdditionalDisk, AdditionalDiskView, EditRequest,
  Instance,
}

unfoldable pub normalize_proto : String → List ℕ
normalize_proto p = if p == "" then codes "tcp" else to_lower (codes p)

-- Mount(m)
unfoldable pub mount_of_view : MountView → Mount
mount_of_view m = record {
  location = m.location;
  mount_point = m.mount_point;
  writable = m.writable;
}

-- The tests that `indexByLocation` makes over the resolved and over the desired list.
unfoldable pub mount_view_at : Mount → MountView → Bool
mount_view_at prev m = same_path m.location prev.location

unfoldable pub mount_at : MountView → Mount → Bool
mount_at m d = same_path d.location m.location

unfoldable pub merge_mounts : List MountView → List Mount → List Mount → List Mount
merge_mounts resolved previous desired =
    let keep = drop_previous mount_view_at resolved previous in
    desired ++ inherited mount_at mount_of_view desired keep

unfoldable pub forward_of_view : PortForwardView → PortForward
forward_of_view p = record {
  guest_ip = p.guest_ip;
  guest_port = p.guest_port;
  host_ip = p.host_ip;
  host_port = p.host_port;
  proto = p.proto;
}

-- The tests that `indexByForward` makes.
unfoldable pub forward_view_at : PortForward → PortForwardView → Bool
forward_view_at prev p =
    int_eq p.guest_port prev.guest_port
    && codes_eq (normalize_proto p.proto) (normalize_proto prev.proto)

unfoldable pub forward_at : PortForwardView → PortForward → Bool
forward_at p d =
    int_eq d.guest_port p.guest_port && codes_eq (normalize_proto d.proto) (normalize_proto p.proto)

unfoldable pub merge_port_forwards :
    List PortForwardView → List PortForward → List PortForward → List PortForward
merge_port_forwards resolved previous desired =
    let keep = drop_previous forward_view_at resolved previous in
    desired ++ inherited forward_at forward_of_view desired keep

abbrev pub bool_eq : Bool → Bool → Bool
bool_eq true b = b
bool_eq false b = not b

-- One round of the loop of `sameMounts`.
unfoldable pub same_mount : Mount → MountView → Bool
same_mount want have =
    if not (same_path want.location have.location)
    then false
    else if not (want.mount_point == "") && not (same_path want.mount_point have.mount_point)
    then false
    else if bool_eq want.writable have.writable
    then true
    else false

unfoldable pub same_mounts : List Mount → List MountView → Bool
unfolding same_mount
same_mounts [] [] = true
same_mounts [] (h ∷ hs) = false
same_mounts (w ∷ ws) [] = false
same_mounts (w ∷ ws) (h ∷ hs) = same_mount w h && same_mounts ws hs

-- The protocol as `samePortForwards` reads it, and strings.EqualFold.
unfoldable pub proto_or_tcp : String → String
proto_or_tcp p = if p == "" then "tcp" else p

unfoldable pub equal_fold : String → String → Bool
equal_fold a b = codes_eq (to_lower (codes a)) (to_lower (codes b))

-- One round of the loop of `samePortForwards`.
unfoldable pub same_forward : PortForward → PortForwardView → Bool
same_forward want have =
    if not (int_eq want.guest_port have.guest_port)
    then false
    else if not (is_zero want.host_port) && not (int_eq want.host_port have.host_port)
    then false
    else if not (equal_fold (proto_or_tcp want.proto) (proto_or_tcp have.proto))
    then false
    else true

unfoldable pub same_port_forwards : List PortForward → List PortForwardView → Bool
same_port_forwards [] [] = true
same_port_forwards [] (h ∷ hs) = false
same_port_forwards (w ∷ ws) [] = false
same_port_forwards (w ∷ ws) (h ∷ hs) = same_forward w h && same_port_forwards ws hs

unfoldable pub same_disks : List AdditionalDisk → List AdditionalDiskView → Bool
same_disks [] [] = true
same_disks [] (h ∷ hs) = false
same_disks (w ∷ ws) [] = false
same_disks (w ∷ ws) (h ∷ hs) = w.name == h.name && same_disks ws hs

-- A field that Lima reports already is not asked for again.
unfoldable pub filter_to_actual_changes : EditRequest → Instance → EditRequest
filter_to_actual_changes req inst = record req {
  cpus = if int_eq req.cpus inst.cpus then pos 0 else req.cpus;
  memory_bytes = if int_eq req.memory_bytes inst.memory_bytes then pos 0 else req.memory_bytes;
  disk_bytes = if int_eq req.disk_bytes inst.disk_bytes then pos 0 else req.disk_bytes;
}
