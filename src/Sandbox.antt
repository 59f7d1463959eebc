-- ===== src/Sandbox.antt =====
-- A host to run the methods against: one instance and one disk, commands that take effect at once,
-- and a deadline after a number of sleeps.
use terraform_provider_lima.Base.{
  ℕ, zero, suc, ◌≤◌, ℤ, pos, String, refl, Bool, true, false, Option, none, some, List, [], ◌∷◌,
  arith, if◌then◌else◌, ◌==◌, ◌≡◌, sym, ap, ◌∙◌, eq_iff, Bool-cases, inl, inr,
}
use terraform_provider_lima.Errors.{not_found, disk_not_found, deadline_exceeded}
use terraform_provider_lima.Instance.{Instance, InstanceConfigView, Disk}
use terraform_provider_lima.Poll.{PollOptions}
use terraform_provider_lima.Session.{
  Host, State, Result, value, fault, Command, create, start, stop, delete, protect, unprotect,
  create_disk, resize_disk, delete_disk,
}
use terraform_provider_lima.Session.Ends.{HasDeadline}
use terraform_provider_lima.Session.Named.{NamesAsked}
use terraform_provider_lima.Session.Discipline.{Orderly}

pub record Sandbox : Type 0 where
  pub vm : Option Instance
  pub disk : Option Disk
  pub budget : ℕ

abbrev pub base_config : InstanceConfigView
base_config = record {
  vm_type = "vz";
  arch = "aarch64";
  os = "Linux";
  cpus = pos 2;
  memory = "4GiB";
  disk = "20GiB";
  user = "dev";
  mounts =
      (record { location = "/tmp/lima"; mount_point = "/tmp/lima"; writable = true })
      ∷ (record { location = "/home/dev/src"; mount_point = "/home/dev/src"; writable = false })
      ∷ [];
  port_forwards =
      (record {
        guest_port = pos 8080;
        host_port = pos 8080;
        proto = "tcp";
        guest_ip = "127.0.0.1";
        host_ip = "127.0.0.1";
      })
      ∷ [];
  additional_disks = [];
  images = (record { location = "https://images/ubuntu.img"; arch = "aarch64" }) ∷ [];
}

abbrev pub vm_in : String → Bool → Instance
vm_in raw_status protected = record {
  name = "dev";
  hostname = "lima-dev";
  raw_status = raw_status;
  dir = "/home/dev/.lima/dev";
  vm_type = "vz";
  arch = "aarch64";
  cpus = pos 2;
  memory_bytes = pos 4_294_967_296;
  disk_bytes = pos 21_474_836_480;
  ssh_local_port = pos 60022;
  ssh_config_file = "/home/dev/.lima/dev/ssh.config";
  ssh_address = "127.0.0.1";
  protected = protected;
  lima_version = "2.2.0";
  host_agent_pid = pos 0;
  driver_pid = pos 0;
  host_os = "linux";
  host_arch = "aarch64";
  lima_home = "/home/dev/.lima";
  identity_file = "/home/dev/.lima/_config/user";
  config = base_config;
}

abbrev pub free_disk_of : String → ℤ → Disk
free_disk_of name size_bytes = record {
  name = name;
  size_bytes = size_bytes;
  format = "qcow2";
  dir = "/home/dev/.lima/_disks/data";
  instance_name = "";
  instance_dir = "";
  mount_point = "/mnt/lima-data";
}

abbrev with_vm : (Instance → Option Instance) → Sandbox → Sandbox
with_vm f w = elim w.vm [ none ↦ w | some i ↦ record w { vm = f i } ]

abbrev with_disk : (Disk → Option Disk) → Sandbox → Sandbox
with_disk f w = elim w.disk [ none ↦ w | some d ↦ record w { disk = f d } ]

abbrev after_command : Command → Sandbox → Sandbox
after_command (create n doc) w = record w { vm = some (vm_in "Stopped" false) }
after_command (start n) w = with_vm (λ i. some (record i { raw_status = "Running" })) w
after_command (stop n) w = with_vm (λ i. some (record i { raw_status = "Stopped" })) w
after_command (delete n) w = with_vm (λ i. none) w
after_command (protect n) w = with_vm (λ i. some (record i { protected = true })) w
after_command (unprotect n) w = with_vm (λ i. some (record i { protected = false })) w
after_command (create_disk req) w = record w { disk = some (free_disk_of req.name req.size_bytes) }
after_command (resize_disk n size) w = with_disk (λ d. some (record d { size_bytes = size })) w
after_command (delete_disk n) w = with_disk (λ d. none) w
after_command _ w = w

abbrev seen_vm : String → Option Instance → Result Instance
seen_vm n none = fault (not_found n)
seen_vm n (some i) = if i.name == n then value i else fault (not_found n)

abbrev seen_disk : String → Option Disk → Result Disk
seen_disk n none = fault (disk_not_found n)
seen_disk n (some d) = if d.name == n then value d else fault (disk_not_found n)

abbrev listed : {A : Type 0} → Option A → List A
listed none = []
listed (some a) = a ∷ []

abbrev after_sleep : Sandbox → ℕ → Result (Unit {0}) × Sandbox
after_sleep w zero = (fault deadline_exceeded, w)
after_sleep w (suc n) = (value tt, record w { budget = n })

abbrev pub sandbox_host : Host Sandbox
sandbox_host = record {
  inspect = λ n w. (seen_vm n w.vm, w);
  inspect_disk = λ n w. (seen_disk n w.disk, w);
  list_instances = λ w. (value (listed w.vm), w);
  list_disks = λ w. (value (listed w.disk), w);
  resolve_template = λ ref w. (
    value (record {
      images = (record { location = "https://images/ubuntu.img"; arch = "aarch64" }) ∷ [];
    }),
    w,
  );
  mutate = λ c w. (value tt, after_command c w);
  ctx_err = λ w. none;
  wait = λ k w. (value tt, w);
  finished_setup = λ w. false;
  sleep = λ d w. after_sleep w w.budget;
  attempts = λ w. w.budget;
}

abbrev pub sandbox_options : PollOptions
sandbox_options = record { interval = pos 0; max_interval = pos 0; grow = λ d. d }

abbrev pub at_rest : Option Instance → Option Disk → State Sandbox
at_rest vm disk = record {
  world = record { vm = vm; disk = disk; budget = 2 };
  held = [];
  ready = false;
  trace = [];
}

pub at_rest-Orderly : (vm : Option Instance) (disk : Option Disk) → Orderly [] (at_rest vm disk)
at_rest-Orderly vm disk = record { holds = refl; orderly = refl }

pub sandbox-HasDeadline : HasDeadline sandbox_host
sandbox-HasDeadline = record {
  inspect_spends = λ n w. omega arith;
  resolve_spends = λ n w. omega arith;
  mutate_spends = λ c w. command_spends c w;
  wait_spends = λ k w. omega arith;
  sleep_spends = λ d w. ground arith;
  sleep_counts = λ d w e. ground arith;
}
  where
    command_spends : (c : Command) (w : Sandbox) → (after_command c w).budget ≤ w.budget
    command_spends c w = ground arith

pub sandbox-NamesAsked : NamesAsked sandbox_host
sandbox-NamesAsked = record { asked = λ n w i e. seen_named n w.vm i e }
  where
    seen_named :
        (n : String) (vm : Option Instance) (i : Instance) → seen_vm n vm ≡ value i → i.name ≡ n
    seen_named n none i e = ground arith
    seen_named n (some j) i e = elim (Bool-cases (j.name == n)) [
      | inl t ↦
          let same : ◌≡◌ {A = Result Instance} (value j) (value i) = rw t at e in
          let p : j ≡ i = ground arith in sym (ap (λ k. k.name) p) ∙ (eq_iff j.name n).0 t
      | inr t ↦
          let wrong : ◌≡◌ {A = Result Instance} (fault (not_found n)) (value i) = rw t at e in
          ground arith
    ]
