-- ===== src/Lookup/Reported.antt =====
-- The searches of internal/lima/inspect.go for what was declared, in what Lima reports.
use terraform_provider_lima.Base.{
  int_eq_refl, String, ◌≡◌, refl, Bool, true, false, some, List, [], ◌∷◌, ◌++◌, arith,
  codes_eq_refl, if◌then◌else◌, eq_iff,
}
use terraform_provider_lima.Paths.{same_path}
use terraform_provider_lima.Instance.{
  InstanceConfigView, Mount, MountView, PortForward, PortForwardView,
}
use terraform_provider_lima.Merge.{normalize_proto, equal_fold}
use terraform_provider_lima.Merge.Mounts.{MountReported, same_path_refl}
use terraform_provider_lima.Merge.Forwards.{ForwardReported, lower-proto}
use terraform_provider_lima.Lookup.{
  is_mount, any_mount, has_mount, first_mount, find_mount, is_port_forward, any_forward,
  has_port_forward,
}

is_mount-reported :
    (m : Mount) (v : MountView)
    → MountReported m v
    → is_mount m.location m.mount_point m.writable v ≡ true
unfolding is_mount
is_mount-reported m v h =
    ground (arith, same_path_refl m.location, same_path_refl m.mount_point, eq_iff m.mount_point "")

any_mount-there :
    (m : Mount) (v : MountView) (before after : List MountView)
    → is_mount m.location m.mount_point m.writable v ≡ true
    → any_mount m.location m.mount_point m.writable (before ++ v ∷ after) ≡ true
any_mount-there m v [] after h = rw h refl
any_mount-there m v (x ∷ before) after h = ground (arith, any_mount-there m v before after)

first_mount-there :
    (location : String) (v : MountView) (before after : List MountView)
    → same_path v.location location ≡ true
    → (found : MountView) × (first_mount location (before ++ v ∷ after) ≡ some found)
      × (same_path found.location location ≡ true)
first_mount-there location v [] after h = (v, rw h refl, h)
first_mount-there location v (x ∷ before) after h =
    go (same_path x.location location) refl (first_mount-there location v before after h)
  where
    go :
        (b : Bool)
        → same_path x.location location ≡ b
        → ((found : MountView) × (first_mount location (before ++ v ∷ after) ≡ some found)
            × (same_path found.location location ≡ true))
        → (found : MountView) × ((if b then some x else first_mount location (before ++ v ∷ after))
            ≡ some found)
          × (same_path found.location location ≡ true)
    go true e rest = (x, refl, e)
    go false e rest = rest

-- A declared mount that Lima reports, wherever in its list, is no drift: `HasMount` finds it, and
-- `FindMount` finds a mount at its location.
pub has_mount-reported :
    (c : InstanceConfigView) (m : Mount) (v : MountView) (before after : List MountView)
    → c.mounts ≡ before ++ v ∷ after
    → MountReported m v
    → (has_mount c m.location m.mount_point m.writable ≡ true)
      × ((found : MountView) × (find_mount c m.location ≡ some found)
          × (same_path found.location m.location ≡ true))
unfolding has_mount find_mount
has_mount-reported c m v before after e h = rw e (
  any_mount-there m v before after (is_mount-reported m v h),
  first_mount-there m.location v before after (rw h.0 (same_path_refl m.location)),
)

is_port_forward-reported :
    (b : PortForward) (v : PortForwardView)
    → ForwardReported b v
    → is_port_forward b.guest_port b.host_port b.proto v ≡ true
unfolding is_port_forward equal_fold
is_port_forward-reported b v h = ground (
  arith,
  int_eq_refl b.guest_port,
  int_eq_refl b.host_port,
  lower-proto b.proto,
  lower-proto v.proto,
  codes_eq_refl (normalize_proto b.proto),
)

any_forward-there :
    (b : PortForward) (v : PortForwardView) (before after : List PortForwardView)
    → is_port_forward b.guest_port b.host_port b.proto v ≡ true
    → any_forward b.guest_port b.host_port b.proto (before ++ v ∷ after) ≡ true
any_forward-there b v [] after h = rw h refl
any_forward-there b v (x ∷ before) after h = ground (arith, any_forward-there b v before after)

-- A declared forward that Lima reports, wherever in its list, is no drift: `HasPortForward` finds it.
pub has_port_forward-reported :
    (c : InstanceConfigView) (b : PortForward) (v : PortForwardView)
    → (before after : List PortForwardView) → c.port_forwards ≡ before ++ v ∷ after
    → ForwardReported b v
    → has_port_forward c b.guest_port b.host_port b.proto ≡ true
unfolding has_port_forward
has_port_forward-reported c b v before after e h =
    rw e (any_forward-there b v before after (is_port_forward-reported b v h))
