-- ===== src/Adapter.antt =====
-- `ExecClient` of internal/lima/exec_client.go and disk.go: the client that runs limactl. Running a
-- command, the temporary file, the process's environment and the decoding of what limactl prints are
-- parameters.
pub mod Found
use terraform_provider_lima.Base.{
  ℕ, ℤ, pos, int_eq, String, Bool, true, false, not, ◌&&◌, Option, none, some, List, [], ◌∷◌,
  text_of, if◌then◌else◌, ◌==◌, map,
}
use terraform_provider_lima.Errors.{
  Err, not_found, protected, already_exists, disk_not_found, disk_exists, disk_in_use, exited,
  not_run, is_cancellation, is_protected, is_already_exists, is_disk_exists, is_disk_in_use,
}
use terraform_provider_lima.Instance.{Instance, Disk, EditRequest, CreateDiskRequest, Template}
use terraform_provider_lima.Environment.{EnvList, build_env}
use terraform_provider_lima.Commands.{
  Encoders, redact_args, list_args, validate_args, template_copy_args, create_args, edit_args,
  start_args, stop_args, delete_args, protect_args, unprotect_args, disk_list_args,
  disk_create_args, disk_resize_args, disk_delete_args,
}
use terraform_provider_lima.Session.{
  Host, Result, value, fault, Command, list_all, disk_list, validate, create, edit, start, stop,
  delete, protect, unprotect, template_copy, create_disk, resize_disk, delete_disk,
}

-- What `Runner.Run` gives: a command that ran has an exit code, one that did not has an error.
pub data RunResult : Type 0 where
  ran : String → String → ℤ → RunResult
  not_started : String → String → Err → RunResult

-- `execute` is the runner with its binary, and `context_err` the context's error. `write_document`
-- writes a temporary file and gives its path; `remove_document` is its cleanup.
pub record Machine (W : Type 0) : Type 0 where
  pub execute : List String → List (List ℕ) → W → RunResult × W
  pub context_err : W → Option Err
  pub environ : W → List String
  pub write_document : String → W → Result String × W
  pub remove_document : String → W → W

-- ParseInstancesString, ParseDisksString and the reading of a template.
pub record Decoders : Type 0 where
  pub instances : String → Result (List Instance)
  pub disks : String → Result (List Disk)
  pub template : String → Result Template

pub record ExecClient : Type 0 where
  pub home : String
  pub env : EnvList

-- The standard output, which is given with an error too, and the error.
pub record Ran : Type 0 where
  pub stdout : String
  pub failure : Option Err

-- Context cancellation surfaces as itself.
abbrev pub ctx_err_or : Option Err → Err → Option Err
ctx_err_or none e = some e
ctx_err_or (some c) e = some c

unfoldable pub classify : List String → Option Err → RunResult → Ran
classify args ctx (not_started stdout stderr cause) = record {
  stdout = stdout;
  failure = ctx_err_or ctx (not_run (redact_args args) stderr cause);
}
classify args ctx (ran stdout stderr code) = record {
  stdout = stdout;
  failure =
      if not (int_eq code (pos 0))
      then ctx_err_or ctx (exited (redact_args args) code stderr)
      else none;
}

abbrev pub first_named : String → List Instance → Option Instance
first_named name [] = none
first_named name (i ∷ is) =
    let rest = first_named name is in if i.name == name then some i else rest

abbrev pub first_disk_named : String → List Disk → Option Disk
first_disk_named name [] = none
first_disk_named name (d ∷ ds) =
    let rest = first_disk_named name ds in if d.name == name then some d else rest

abbrev pub or_not_found : String → Option Instance → Result Instance
or_not_found name none = fault (not_found name)
or_not_found name (some i) = value i

abbrev pub or_disk_not_found : String → Option Disk → Result Disk
or_disk_not_found name none = fault (disk_not_found name)
or_disk_not_found name (some d) = value d

-- The command failed: absence is a failure that printed no instance at all.
abbrev pub failed_inspect : String → Err → Result (List Instance) → Result Instance
failed_inspect name e (value []) = fault (not_found name)
failed_inspect name e (value (i ∷ is)) = fault e
failed_inspect name e (fault x) = fault e

abbrev pub listed_inspect : String → Result (List Instance) → Result Instance
listed_inspect name (fault x) = fault x
listed_inspect name (value is) = or_not_found name (first_named name is)

abbrev pub inspected : Decoders → String → String → Option Err → Result Instance
inspected dec name stdout none = listed_inspect name (dec.instances stdout)
inspected dec name stdout (some e) =
    if is_cancellation e then fault e else failed_inspect name e (dec.instances stdout)

-- A command that gives only an error; `translate` turns one error into another.
abbrev pub only_error : (Err → Err) → Option Err → Result (Unit {0})
only_error translate none = value tt
only_error translate (some e) = fault (translate e)

abbrev pub decoded : {A : Type 0} → (String → Result A) → Ran → Result A
decoded decode r = elim r.failure [ none ↦ decode r.stdout | some e ↦ fault e ]

abbrev pub same : Err → Err
same e = e

abbrev pub as_already_exists : String → Err → Err
as_already_exists name e = if is_already_exists e then already_exists name else e

abbrev pub as_protected : String → Err → Err
as_protected name e = if is_protected e then protected name else e

abbrev pub as_disk_exists : String → Err → Err
as_disk_exists name e = if is_disk_exists e then disk_exists name else e

abbrev pub as_disk_in_use : String → Err → Err
as_disk_in_use name e = if is_disk_in_use e then disk_in_use name none else e

abbrev pub find_disk : String → Result (List Disk) → Result Disk
find_disk name (fault e) = fault e
find_disk name (value ds) = or_disk_not_found name (first_disk_named name ds)

module _ {W : Type 0} (m : Machine W) (c : ExecClient) (enc : Encoders) (dec : Decoders) where
  -- `run`
  unfoldable pub run : List String → W → Ran × W
  run args w =
      let (r, w') = m.execute args (build_env (m.environ w) c.home c.env) w in
      (classify args (m.context_err w') r, w')

  unfoldable pub inspect_by_name : String → W → Result Instance × W
  inspect_by_name name w =
      let (r, w') = run (list_args (name ∷ [])) w in (inspected dec name r.stdout r.failure, w')

  unfoldable pub list_every : W → Result (List Instance) × W
  list_every w = let (r, w') = run (list_args []) w in (decoded dec.instances r, w')

  unfoldable pub list_every_disk : W → Result (List Disk) × W
  list_every_disk w = let (r, w') = run disk_list_args w in (decoded dec.disks r, w')

  unfoldable pub inspect_disk_by_name : String → W → Result Disk × W
  inspect_disk_by_name name w = let (r, w') = list_every_disk w in (find_disk name r, w')

  unfoldable pub resolve_reference : String → W → Result Template × W
  resolve_reference ref w =
      let (r, w') = run (template_copy_args ref) w in (decoded dec.template r, w')

  unfoldable pub run_only : (Err → Err) → List String → W → Result (Unit {0}) × W
  run_only translate args w = let (r, w') = run args w in (only_error translate r.failure, w')

  abbrev pub run_built : (Err → Err) → Result (List String) → W → Result (Unit {0}) × W
  run_built translate (fault e) w = (fault e, w)
  run_built translate (value args) w = run_only translate args w

  -- With the path of the temporary document, which is removed however the command ends.
  abbrev pub run_document :
      (Err → Err) → (String → List String) → Result String × W → Result (Unit {0}) × W
  run_document translate args (fault e, w) = (fault e, w)
  run_document translate args (value path, w) =
      let (r, w') = run_only translate (args path) w in (r, m.remove_document path w')

  unfoldable pub execute_command : Command → W → Result (Unit {0}) × W
  execute_command (validate doc) w = run_document same validate_args (m.write_document doc w)
  execute_command (create name doc) w =
      run_document (as_already_exists name) (create_args name) (m.write_document doc w)
  execute_command (edit name req) w = run_built same (edit_args enc name req) w
  execute_command (start name) w = run_only same (start_args name) w
  execute_command (stop name) w = run_only same (stop_args name) w
  execute_command (delete name) w = run_only (as_protected name) (delete_args name) w
  execute_command (protect name) w = run_only same (protect_args name) w
  execute_command (unprotect name) w = run_only same (unprotect_args name) w
  execute_command (create_disk req) w = run_built (as_disk_exists req.name) (disk_create_args req) w
  execute_command (resize_disk name size) w =
      run_only (as_disk_in_use name) (disk_resize_args name size) w
  execute_command (delete_disk name) w = run_only (as_disk_in_use name) (disk_delete_args name) w
  execute_command list_all w = run_only same (list_args []) w
  execute_command disk_list w = run_only same disk_list_args w
  execute_command (template_copy ref) w = run_only same (template_copy_args ref) w

  -- The host that the service runs against, with the clock and the locks of another.
  unfoldable pub exec_host : Host W → Host W
  exec_host rest = record rest {
    inspect = inspect_by_name;
    inspect_disk = inspect_disk_by_name;
    list_instances = list_every;
    list_disks = list_every_disk;
    resolve_template = resolve_reference;
    mutate = execute_command;
    ctx_err = m.context_err;
  }
