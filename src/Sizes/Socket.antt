-- ===== src/Sizes/Socket.antt =====
-- `ValidateNameForHome` of internal/lima/sizes.go: the name against the length of the socket path.
use terraform_provider_lima.Base.{
  ℕ, ◌+◌, ◌-◌, ◌<◌, ◌≡◌, ◌≢◌, ◌∙◌, refl, String, Option, none, some, List, [], ◌∷◌, ◌++◌, arith,
  leb, codes, if◌then◌else◌,
}
use terraform_provider_lima.Sweep.{resolve_home}
use terraform_provider_lima.Sizes.{
  byte_length, ssh_sock_suffix, unix_path_max, excess_for, validate_name_for_home,
}

-- The path of the socket that Lima creates in the home.
abbrev pub socket_path : List ℕ → List ℕ → List ℕ
socket_path home name = home ++ (b'/' ∷ (name ++ ssh_sock_suffix))

byte_length-append : (xs ys : List ℕ) → byte_length (xs ++ ys) ≡ byte_length xs + byte_length ys
byte_length-append [] ys = omega arith
byte_length-append (x ∷ xs) ys = omega (arith, byte_length-append xs ys)

-- What the check says of a path.
abbrev pub Fits : List ℕ → Option ℕ → Type 0
Fits path none = byte_length path < 104
Fits path (some excess) = byte_length path ≡ 103 + excess

path_length :
    (home name : List ℕ)
    → byte_length (socket_path home name)
      ≡ byte_length home + 1 + byte_length name + byte_length ssh_sock_suffix
path_length home name =
    byte_length-append home (b'/' ∷ (name ++ ssh_sock_suffix))
    ∙ omega (arith, byte_length-append name ssh_sock_suffix)

compared :
    (path : List ℕ) (total : ℕ)
    → byte_length path ≡ total
    → Fits path (if leb unix_path_max total then some (total - unix_path_max + 1) else none)
compared path total h = ground arith

excess_for_lem :
    (home name : List ℕ) → home ≢ [] → Fits (socket_path home name) (excess_for name home)
excess_for_lem [] name h = absurd (h refl)
excess_for_lem (c ∷ cs) name h = compared (socket_path (c ∷ cs) name) _ (path_length (c ∷ cs) name)

-- If the home is known, a name is accepted only if its socket path has less than 104 bytes, and
-- otherwise the reported excess is exactly the number of bytes to take away for the longest path
-- that fits.
pub validate_name_for_home_lem :
    (user_home : Option String) (name home : String)
    → resolve_home user_home home ≢ []
    → Fits
        (socket_path (resolve_home user_home home) (codes name))
        (validate_name_for_home user_home name home)
unfolding validate_name_for_home
validate_name_for_home_lem user_home name home h =
    excess_for_lem (resolve_home user_home home) (codes name) h
