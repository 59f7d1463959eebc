-- ===== src/Instance.antt =====
-- internal/lima/inspect.go, config.go and client.go: what the provider reads of a Lima instance and
-- what it asks to change. `encoding/json` decodes the records; decoding is not modelled.
use mathlib.Core.List.{reverse}
use terraform_provider_lima.Base.{
  ℕ, ℤ, String, Bool, true, false, not, ◌&&◌, ◌||◌, Option, none, some, List, [], ◌∷◌, eqb, leb,
  codes, codes_eq, to_lower, is_zero, if◌then◌else◌, ◌==◌,
}

pub data Status : Type 0 where
  running stopped creating broken unknown : Status

abbrev pub status_eq : Status → Status → Bool
status_eq running running = true
status_eq stopped stopped = true
status_eq creating creating = true
status_eq broken broken = true
status_eq unknown unknown = true
status_eq _ _ = false

-- unicode.IsSpace
abbrev pub is_space : ℕ → Bool
is_space c =
    (leb 9 c && leb c 13)
    || eqb c 32
    || eqb c 0x85
    || eqb c 0xa0
    || eqb c 0x1680
    || (leb 0x2000 c && leb c 0x200a)
    || eqb c 0x2028
    || eqb c 0x2029
    || eqb c 0x202f
    || eqb c 0x205f
    || eqb c 0x3000

abbrev pub trim_left : List ℕ → List ℕ
trim_left [] = []
trim_left (c ∷ cs) = let rest = trim_left cs in if is_space c then rest else c ∷ cs

-- strings.TrimSpace
unfoldable pub trim_space : List ℕ → List ℕ
trim_space s = reverse (trim_left (reverse (trim_left s)))

raw_status_map : List (String × Status)
raw_status_map =
    ("running", running)
    ∷ ("stopped", stopped)
    ∷ ("broken", broken)
    ∷ ("uninitialized", creating)
    ∷ ("installing", creating)
    ∷ ("", unknown)
    ∷ []

-- A missing key gives `unknown`.
status_of : List (String × Status) → List ℕ → Status
status_of [] raw = unknown
status_of ((k, st) ∷ rest) raw = if codes_eq (codes k) raw then st else status_of rest raw

unfoldable pub normalize_status : String → Status
unfolding raw_status_map status_of trim_space
normalize_status raw = status_of raw_status_map (to_lower (trim_space (codes raw)))

-- The configured and the resolved form of a mount and of a port forward.
pub record Mount : Type 0 where
  pub location : String
  pub mount_point : String
  pub writable : Bool

pub record MountView : Type 0 where
  pub location : String
  pub mount_point : String
  pub writable : Bool

pub record PortForward : Type 0 where
  pub guest_ip : String
  pub guest_port : ℤ
  pub host_ip : String
  pub host_port : ℤ
  pub proto : String

pub record PortForwardView : Type 0 where
  pub guest_port : ℤ
  pub host_port : ℤ
  pub proto : String
  pub guest_ip : String
  pub host_ip : String

pub record AdditionalDisk : Type 0 where
  pub name : String

pub record AdditionalDiskView : Type 0 where
  pub name : String

pub record ImageView : Type 0 where
  pub location : String
  pub arch : String

pub record InstanceConfigView : Type 0 where
  pub vm_type : String
  pub arch : String
  pub os : String
  pub cpus : ℤ
  pub memory : String
  pub disk : String
  pub user : String
  pub mounts : List MountView
  pub port_forwards : List PortForwardView
  pub additional_disks : List AdditionalDiskView
  pub images : List ImageView

pub record Instance : Type 0 where
  pub name : String
  pub hostname : String
  pub raw_status : String
  pub dir : String
  pub vm_type : String
  pub arch : String
  pub cpus : ℤ
  pub memory_bytes : ℤ
  pub disk_bytes : ℤ
  pub ssh_local_port : ℤ
  pub ssh_config_file : String
  pub ssh_address : String
  pub protected : Bool
  pub lima_version : String
  pub host_agent_pid : ℤ
  pub driver_pid : ℤ
  pub host_os : String
  pub host_arch : String
  pub lima_home : String
  pub identity_file : String
  pub config : InstanceConfigView

-- disk.go: a Lima disk. `instance` is the running instance that holds it, or empty.
pub record Disk : Type 0 where
  pub name : String
  pub size_bytes : ℤ
  pub format : String
  pub dir : String
  pub instance_name : String
  pub instance_dir : String
  pub mount_point : String

unfoldable pub in_use : Disk → Bool
in_use d = not (d.instance_name == "")

pub record CreateDiskRequest : Type 0 where
  pub name : String
  pub size_bytes : ℤ
  pub format : String

unfoldable pub status : Instance → Status
status inst = normalize_status inst.raw_status

-- A zero or a `none` means "leave unchanged".
pub record EditRequest : Type 0 where
  pub cpus : ℤ
  pub memory_bytes : ℤ
  pub disk_bytes : ℤ
  pub mounts : Option (List Mount)
  pub port_forwards : Option (List PortForward)
  pub additional_disks : Option (List AdditionalDisk)

abbrev pub is_nil {ℓ} : {A : Type ℓ} → Option A → Bool
is_nil none = true
is_nil (some a) = false

unfoldable pub is_empty : EditRequest → Bool
is_empty e =
    is_zero e.cpus
    && is_zero e.memory_bytes
    && is_zero e.disk_bytes
    && is_nil e.mounts
    && is_nil e.port_forwards
    && is_nil e.additional_disks

pub record TemplateImage : Type 0 where
  pub location : String
  pub arch : String

pub record Template : Type 0 where
  pub images : List TemplateImage

keep_nonempty : String → List String → List String
keep_nonempty loc rest = if loc == "" then rest else loc ∷ rest

template_locations : List TemplateImage → List String
unfolding keep_nonempty
template_locations [] = []
template_locations (i ∷ is) = keep_nonempty i.location (template_locations is)

unfoldable pub template_image_locations : Template → List String
unfolding template_locations
template_image_locations t = template_locations t.images

view_locations : List ImageView → List String
unfolding keep_nonempty
view_locations [] = []
view_locations (i ∷ is) = keep_nonempty i.location (view_locations is)

unfoldable pub image_locations : InstanceConfigView → List String
unfolding view_locations
image_locations c = view_locations c.images
