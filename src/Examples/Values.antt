-- ===== src/Examples/Values.antt =====
-- The theorems on internal/lima/sizes.go and on the searches of internal/lima/inspect.go.
use terraform_provider_lima.Base.{
  ℕ, ◌<◌, pos, String, ◌≡◌, ◌≢◌, refl, true, false, not, ◌&&◌, none, some, List, [], ◌∷◌, arith,
  codes, codes_eq, if◌then◌else◌, ◌==◌,
}
use terraform_provider_lima.Paths.{clean}
use terraform_provider_lima.Instance.{Mount, MountView, PortForward, PortForwardView}
use terraform_provider_lima.Sweep.{resolve_home}
use terraform_provider_lima.Sizes.{unit_size, gib, format_size, validate_name_for_home}
use terraform_provider_lima.Sizes.Socket.{Fits, socket_path, validate_name_for_home_lem}
use terraform_provider_lima.Environment.{EnvList, inherited_entries, lima_home_key, env_entries}
use terraform_provider_lima.Environment.Precedence.{
  env_get, distinct_keys, first_of, last_of, env_entries_lem,
}

-- 1536 MiB
abbrev one_and_a_half : ℕ
one_and_a_half = 1_610_612_736

in_mebibytes : unit_size (format_size (pos 1_610_612_736)).unit < unit_size gib
unfolding format_size
in_mebibytes = omega arith

home_known : resolve_home (some "/home/dev") "" ≢ []
unfolding resolve_home clean
home_known e = ground arith

validate_name_for_home_lem_example :
    Fits
      (socket_path (resolve_home (some "/home/dev") "") (codes "dev"))
      (validate_name_for_home (some "/home/dev") "dev" "")
validate_name_for_home_lem_example =
    validate_name_for_home_lem (some "/home/dev") "dev" "" home_known

abbrev tmp_mount : Mount
tmp_mount = record { location = "/tmp/lima"; mount_point = ""; writable = true }

abbrev tmp_view : MountView
tmp_view = record { location = "/tmp/lima"; mount_point = "/tmp/lima"; writable = true }

abbrev src_view : MountView
src_view = record { location = "/home/dev/src"; mount_point = "/home/dev/src"; writable = false }

abbrev any_port : PortForward
any_port = record {
  guest_ip = "";
  guest_port = pos 8080;
  host_ip = "";
  host_port = pos 0;
  proto = "tcp";
}

abbrev web_view : PortForwardView
web_view = record {
  guest_port = pos 8080;
  host_port = pos 8080;
  proto = "tcp";
  guest_ip = "127.0.0.1";
  host_ip = "127.0.0.1";
}

abbrev token_entry : EnvList
token_entry = (codes "TOKEN", codes "t") ∷ []

abbrev process_env : List String
process_env = "PATH=/bin" ∷ "LIMA_HOME=/old" ∷ "BROKEN" ∷ []

env_entries_lem_example :
    (env_get (env_entries process_env "/new" token_entry) (codes "LIMA_HOME")
      ≡ first_of (env_get token_entry (codes "LIMA_HOME")) (
          first_of
            (if not ("/new" == "") && codes_eq lima_home_key (codes "LIMA_HOME")
              then some (codes "/new")
              else none)
            (last_of (inherited_entries process_env) (codes "LIMA_HOME"))))
    × (distinct_keys (env_entries process_env "/new" token_entry) ≡ true)
env_entries_lem_example = env_entries_lem process_env "/new" token_entry (codes "LIMA_HOME") refl
