-- ===== src/Commands.antt =====
-- The command lines of internal/lima/commands.go, and GiBFlagValue of sizes.go. Formatting and
-- reading a float32, and encoding JSON, are the standard library's and parameters.
pub mod Redaction
use Prim.Native.String.{◌++◌ as concat}
use terraform_provider_lima.Base.{
  ◌≡◌, refl, ℕ, suc, ℤ, pos, negsuc, int_lt, int_eq, String, Bool, true, false, not, ◌&&◌, ◌||◌,
  Option, none, some, List, [], ◌∷◌, ◌++◌, eqb, any_of, codes, text_of, decimal, contains,
  if◌then◌else◌, ◌==◌,
}
use terraform_provider_lima.Errors.{Err, wrapped, other}
use terraform_provider_lima.Instance.{
  Mount, PortForward, AdditionalDisk, EditRequest, CreateDiskRequest,
}
use terraform_provider_lima.Session.{Result, value, fault}
use terraform_provider_lima.Render.{and_then, wrapping}
use terraform_provider_lima.Environment.{cut}
use terraform_provider_lima.Sizes.Parse.{to_upper}
use terraform_provider_lima.Sizes.Written.{format_size_text}

abbrev pub non_interactive : String
non_interactive = "--tty=false"

abbrev pub version_args : List String
version_args = "--version" ∷ []

abbrev pub info_args : List String
info_args = "info" ∷ []

abbrev pub list_args : List String → List String
list_args names = "list" ∷ "--format" ∷ "json" ∷ "--all-fields" ∷ names

abbrev pub validate_args : String → List String
validate_args path = "validate" ∷ path ∷ []

abbrev pub template_copy_args : String → List String
template_copy_args ref = "template" ∷ "copy" ∷ "--fill" ∷ ref ∷ "-" ∷ []

abbrev pub create_args : String → String → List String
create_args name path = "create" ∷ non_interactive ∷ concat "--name=" name ∷ path ∷ []

abbrev pub start_args : String → List String
start_args name = "start" ∷ non_interactive ∷ name ∷ []

abbrev pub stop_args : String → List String
stop_args name = "stop" ∷ non_interactive ∷ name ∷ []

abbrev pub delete_args : String → List String
delete_args name = "delete" ∷ non_interactive ∷ "--force" ∷ name ∷ []

abbrev pub protect_args : String → List String
protect_args name = "protect" ∷ name ∷ []

abbrev pub unprotect_args : String → List String
unprotect_args name = "unprotect" ∷ name ∷ []

abbrev pub disk_list_args : List String
disk_list_args = "disk" ∷ "list" ∷ "--json" ∷ []

abbrev pub disk_resize_args : String → ℤ → List String
disk_resize_args name size_bytes =
    "disk" ∷ "resize" ∷ name ∷ "--size" ∷ format_size_text size_bytes ∷ []

abbrev pub disk_delete_args : String → List String
disk_delete_args name = "disk" ∷ "delete" ∷ name ∷ []

abbrev pub format_option : String → List String
format_option format = if not (format == "") then "--format" ∷ format ∷ [] else []

unfoldable pub disk_create_args : CreateDiskRequest → Result (List String)
disk_create_args req =
    if int_lt (pos 0) req.size_bytes
    then value (
        ("disk" ∷ "create" ∷ req.name ∷ "--size" ∷ format_size_text req.size_bytes ∷ [])
        ++ format_option req.format)
    else fault (other "disk size must be greater than zero")

-- strconv.FormatInt(n, 10)
abbrev pub int_text : ℤ → String
int_text (pos n) = text_of (decimal n)
int_text (negsuc n) = text_of (b'-' ∷ decimal (suc n))

-- `gib_text` writes a size in GiB as strconv.FormatFloat does at 32 bits; `gib_bytes` reads such a
-- text and gives the bytes of the float32. The rest is json.Marshal at the lists of setListExpr.
pub record Encoders : Type 0 where
  pub gib_text : ℤ → String
  pub gib_bytes : String → Option ℤ
  pub mounts_json : List Mount → Result String
  pub port_forwards_json : List PortForward → Result String
  pub disks_json : List AdditionalDisk → Result String

-- setListExpr
abbrev pub set_list_expr : {A : Type 0} → (A → Result String) → String → A → Result String
set_list_expr encode field a =
    and_then (wrapping (concat "encoding " field) (encode a))
      (λ json. value (concat "." (concat field (concat " = " json))))

-- args = append(args, "--set", expr), for a list that is asked for.
abbrev pub set_option :
    {A : Type 0} → (A → Result String) → String → Option A → List String → Result (List String)
set_option encode field none args = value args
set_option encode field (some a) args =
    and_then (wrapping field (set_list_expr encode field a))
      (λ expr. value (args ++ ("--set" ∷ expr ∷ [])))

module _ (enc : Encoders) where
  abbrev pub exact_gib : ℤ → String → Option ℤ → Result String
  exact_gib bytes s none = fault (other "converting to GiB")
  exact_gib bytes s (some back) =
      if int_eq back bytes then value s else fault (other "cannot be passed to Lima exactly")

  unfoldable pub gib_flag_value : ℤ → Result String
  gib_flag_value bytes =
      if int_lt (pos 0) bytes
      then exact_gib bytes (enc.gib_text bytes) (enc.gib_bytes (enc.gib_text bytes))
      else fault (other "size must be greater than zero")

  abbrev pub cpus_option : ℤ → List String → List String
  cpus_option cpus args =
      if int_lt (pos 0) cpus then args ++ ("--cpus" ∷ int_text cpus ∷ []) else args

  abbrev pub size_option : String → String → ℤ → List String → Result (List String)
  size_option flag doing bytes args =
      if int_lt (pos 0) bytes
      then and_then (wrapping doing (gib_flag_value bytes)) (λ v. value (args ++ (flag ∷ v ∷ [])))
      else value args

  -- if len(args) == baseArgCount
  abbrev pub changed_or_refused : String → List String → Result (List String)
  changed_or_refused name [] = fault (other "edit requested with no fields to change")
  changed_or_refused name (a ∷ args) = value ("edit" ∷ non_interactive ∷ (a ∷ args) ++ (name ∷ []))

  -- The arguments between the first two and the name.
  abbrev pub edit_options : EditRequest → Result (List String)
  edit_options e =
      and_then (size_option "--memory" "memory" e.memory_bytes (cpus_option e.cpus [])) λ a.
        and_then (size_option "--disk" "disk" e.disk_bytes a) λ b.
          and_then (set_option enc.mounts_json "mounts" e.mounts b) λ c.
            and_then (set_option enc.port_forwards_json "portForwards" e.port_forwards c)
              λ f. set_option enc.disks_json "additionalDisks" e.additional_disks f

  unfoldable pub edit_args : String → EditRequest → Result (List String)
  edit_args name e = and_then (edit_options e) (changed_or_refused name)

abbrev redacted_env_keys : List String
redacted_env_keys = "TOKEN" ∷ "SECRET" ∷ "PASSWORD" ∷ "PASSWD" ∷ "KEY" ∷ "CREDENTIAL" ∷ "AUTH" ∷ []

unfoldable pub redact_env_value : List ℕ → Bool
redact_env_value key = any_of (λ k. contains (codes k) (to_upper key)) redacted_env_keys

-- strings.TrimLeft(a, "-")
abbrev pub trim_dashes : List ℕ → List ℕ
trim_dashes [] = []
trim_dashes (c ∷ cs) = let rest = trim_dashes cs in if eqb c b'-' then rest else c ∷ cs

abbrev pub is_secret : Option (List ℕ × List ℕ) → Bool
is_secret none = false
is_secret (some (k, v)) = redact_env_value k

abbrev pub masked : List ℕ → Option (List ℕ × List ℕ) → List ℕ
masked a none = a ++ codes "=(redacted)"
masked a (some (k, v)) = k ++ codes "=(redacted)"

-- One round of the loop of `RedactArgs`.
unfoldable pub redact_arg : List ℕ → List ℕ
redact_arg a = if is_secret (cut (trim_dashes a)) then masked a (cut a) else a

unfoldable pub redact_args : List String → List String
redact_args [] = []
redact_args (a ∷ args) = text_of (redact_arg (codes a)) ∷ redact_args args

token_hidden :
    redact_args ("--set-env" ∷ "--API_TOKEN=abc" ∷ [])
    ≡ ("--set-env" ∷ "--API_TOKEN=(redacted)" ∷ [])
unfolding redact_args redact_arg redact_env_value text_of
token_hidden = refl
