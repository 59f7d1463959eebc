-- ===== src/Sizes.antt =====
-- `FormatSize` and `ValidateNameForHome` of internal/lima/sizes.go. A formatted size is its number
-- and its unit, before both are written out. The length of a Go string is that of its UTF-8 bytes.
pub mod Exact
pub mod Float
pub mod Parse
pub mod Written
pub mod Names
pub mod Digits
pub mod Whole
pub mod Roundtrip
pub mod Socket
use terraform_provider_lima.Base.{
  ℕ, ◌+◌, ◌-◌, ◌/◌, ◌%◌, ℤ, pos, negsuc, String, Bool, true, false, ◌&&◌, Option, none, some, List,
  [], ◌∷◌, ◌++◌, eqb, leb, ltb, codes, if◌then◌else◌,
}
use terraform_provider_lima.Sweep.{resolve_home}

pub data SizeUnit : Type 0 where
  tib gib mib kib bytes : SizeUnit

abbrev pub unit_size : SizeUnit → ℕ
unit_size tib = 1_099_511_627_776
unit_size gib = 1_073_741_824
unit_size mib = 1_048_576
unit_size kib = 1024
unit_size bytes = 1

pub record FormattedSize : Type 0 where
  pub count : ℕ
  pub unit : SizeUnit

abbrev units : List SizeUnit
units = tib ∷ gib ∷ mib ∷ kib ∷ []

-- The loop over the units.
abbrev first_exact : ℕ → List SizeUnit → FormattedSize
first_exact n [] = record { count = n; unit = bytes }
first_exact n (u ∷ us) =
    if leb (unit_size u) n && eqb (n % unit_size u) 0
    then record { count = n / unit_size u; unit = u }
    else first_exact n us

unfoldable pub format_size : ℤ → FormattedSize
format_size (negsuc n) = record { count = 0; unit = bytes }
format_size (pos n) = if eqb n 0 then record { count = 0; unit = bytes } else first_exact n units

abbrev pub code_length : ℕ → ℕ
code_length c = if ltb c 0x80 then 1 else if ltb c 0x800 then 2 else if ltb c 0x10000 then 3 else 4

-- len(s)
abbrev pub byte_length : List ℕ → ℕ
byte_length [] = 0
byte_length (c ∷ cs) = code_length c + byte_length cs

abbrev pub unix_path_max : ℕ
unix_path_max = 104

abbrev pub ssh_sock_suffix : List ℕ
ssh_sock_suffix = codes "/ssh.sock.1234567890123456"

-- The number of bytes by which the name is too long, if the check fails.
abbrev pub excess_for : List ℕ → List ℕ → Option ℕ
excess_for name [] = none
excess_for name (c ∷ cs) =
    let total = byte_length (c ∷ cs) + 1 + byte_length name + byte_length ssh_sock_suffix in
    if leb unix_path_max total then some (total - unix_path_max + 1) else none

unfoldable pub validate_name_for_home : Option String → String → String → Option ℕ
validate_name_for_home user_home name home = excess_for (codes name) (resolve_home user_home home)
