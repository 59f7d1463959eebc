-- ===== src/Errors.antt =====
-- internal/lima/errors.go, poll.go and disk.go: the errors of the package, and how callers tell
-- them apart. A Go error is a chain that `Unwrap` walks; the constructors that carry an `Err` wrap
-- it. A text is the sequence of its code points, and lower-casing touches ASCII letters only.
use terraform_provider_lima.Base.{
  String, ℤ, Bool, true, false, ◌||◌, Option, none, some, List, [], ◌∷◌, codes, contains, to_lower,
  any_of,
}

pub data Err : Type 0 where
  -- fmt.Errorf("%w: %q", Err…, name)
  not_found : String → Err
  protected : String → Err
  already_exists : String → Err
  disk_not_found : String → Err
  disk_exists : String → Err
  -- the name of the disk, and of the running instance where the code gives it
  disk_in_use : String → Option String → Err
  -- a CommandError of a non-zero exit: arguments, exit code, stderr
  exited : List String → ℤ → String → Err
  -- a CommandError of a command that did not run: arguments, stderr, Cause
  not_run : List String → String → Err → Err
  -- context.DeadlineExceeded and context.Canceled
  deadline_exceeded : Err
  canceled : Err
  -- a TimeoutError: Operation, Want, LastSeen, Cause
  timeout : String → String → String → Err → Err
  -- a RestartAfterEditError: Name, Cause
  restart_after_edit : String → Err → Err
  -- any other fmt.Errorf with %w, and any other error
  wrapped : String → Err → Err
  other : String → Err

-- errors.As(err, &ce): the stderr of the first CommandError of the chain
pub as_command : Err → Option String
as_command (exited args code stderr) = some stderr
as_command (not_run args stderr cause) = some stderr
as_command (timeout operation want last cause) = as_command cause
as_command (restart_after_edit name cause) = as_command cause
as_command (wrapped text cause) = as_command cause
as_command _ = none

abbrev matches_stderr : Option String → List String → Bool
matches_stderr none markers = false
matches_stderr (some stderr) markers =
    any_of (λ m. contains (codes m) (to_lower (codes stderr))) markers

unfoldable pub matches_any : Err → List String → Bool
unfolding as_command
matches_any e markers = matches_stderr (as_command e) markers

-- The sentinel values of the package, by their Go names without `Err`.
pub data Sentinel : Type 0 where
  not_found protected already_exists disk_not_found disk_exists disk_in_use : Sentinel
  deadline_exceeded canceled : Sentinel

-- Is the error itself, not its causes, this sentinel?
abbrev pub is_sentinel : Sentinel → Err → Bool
is_sentinel Sentinel.not_found (Err.not_found name) = true
is_sentinel Sentinel.protected (Err.protected name) = true
is_sentinel Sentinel.already_exists (Err.already_exists name) = true
is_sentinel Sentinel.disk_not_found (Err.disk_not_found name) = true
is_sentinel Sentinel.disk_exists (Err.disk_exists name) = true
is_sentinel Sentinel.disk_in_use (Err.disk_in_use name holder) = true
is_sentinel Sentinel.deadline_exceeded Err.deadline_exceeded = true
is_sentinel Sentinel.canceled Err.canceled = true
is_sentinel _ _ = false

-- errors.Is(err, target)
unfoldable pub errors_is : Err → Sentinel → Bool
errors_is (not_run args stderr cause) target = errors_is cause target
errors_is (timeout operation want last cause) target = errors_is cause target
errors_is (restart_after_edit name cause) target = errors_is cause target
errors_is (wrapped text cause) target = errors_is cause target
errors_is e target = is_sentinel target e

abbrev not_found_markers : List String
not_found_markers = "unmatched instances" ∷ "no instance matching" ∷ []

abbrev protected_markers : List String
protected_markers = "instance is protected" ∷ []

abbrev already_exists_markers : List String
already_exists_markers = "` already exists" ∷ []

abbrev disk_in_use_markers : List String
disk_in_use_markers = "in use by instance" ∷ "used by running instance" ∷ []

abbrev disk_exists_markers : List String
disk_exists_markers = "` already exists" ∷ []

abbrev disk_shrink_markers : List String
disk_shrink_markers = "shrinking is currently unavailable" ∷ []

unfoldable pub is_not_found : Err → Bool
unfolding errors_is matches_any
is_not_found e = errors_is e Sentinel.not_found || matches_any e not_found_markers

unfoldable pub is_protected : Err → Bool
unfolding errors_is matches_any
is_protected e = errors_is e Sentinel.protected || matches_any e protected_markers

unfoldable pub is_already_exists : Err → Bool
unfolding errors_is matches_any
is_already_exists e = errors_is e Sentinel.already_exists || matches_any e already_exists_markers

unfoldable pub is_disk_in_use : Err → Bool
unfolding errors_is matches_any
is_disk_in_use e = errors_is e Sentinel.disk_in_use || matches_any e disk_in_use_markers

unfoldable pub is_disk_exists : Err → Bool
unfolding errors_is matches_any
is_disk_exists e = errors_is e Sentinel.disk_exists || matches_any e disk_exists_markers

unfoldable pub is_disk_shrink : Err → Bool
unfolding matches_any
is_disk_shrink e = matches_any e disk_shrink_markers

unfoldable pub is_disk_not_found : Err → Bool
unfolding errors_is
is_disk_not_found e = errors_is e Sentinel.disk_not_found

-- poll.go: a context error, also one that a command failure wraps
unfoldable pub is_cancellation : Err → Bool
unfolding errors_is
is_cancellation e = errors_is e Sentinel.deadline_exceeded || errors_is e Sentinel.canceled

-- lifecycle.go: errors.As(err, &TimeoutError)
unfoldable pub is_timeout : Err → Bool
is_timeout (timeout operation want last cause) = true
is_timeout (not_run args stderr cause) = is_timeout cause
is_timeout (restart_after_edit name cause) = is_timeout cause
is_timeout (wrapped text cause) = is_timeout cause
is_timeout _ = false

-- errors.AsType[*RestartAfterEditError](err)
unfoldable pub is_restart_after_edit : Err → Bool
is_restart_after_edit (restart_after_edit name cause) = true
is_restart_after_edit (not_run args stderr cause) = is_restart_after_edit cause
is_restart_after_edit (timeout operation want last cause) = is_restart_after_edit cause
is_restart_after_edit (wrapped text cause) = is_restart_after_edit cause
is_restart_after_edit _ = false
