-- ===== src/Environment.antt =====
-- `buildEnv` of internal/lima/commands.go. Keys and values are their code points. The map of the
-- provider's entries is a list of distinct keys.
pub mod Precedence
use terraform_provider_lima.Base.{
  ℕ, String, Bool, true, false, not, ◌&&◌, ◌||◌, Option, none, some, List, [], ◌∷◌, ◌++◌, map, eqb,
  codes, codes_eq, codes_lt, if◌then◌else◌, ◌==◌,
}

abbrev pub EnvList : Type 0
EnvList = List (List ℕ × List ℕ)

abbrev cut_after : ℕ → Option (List ℕ × List ℕ) → Option (List ℕ × List ℕ)
cut_after c none = none
cut_after c (some (k, v)) = some (c ∷ k, v)

-- strings.Cut(kv, "=")
abbrev pub cut : List ℕ → Option (List ℕ × List ℕ)
cut [] = none
cut (c ∷ cs) = let rest = cut cs in if eqb c b'=' then some ([], cs) else cut_after c rest

-- if !ok || k == "" { continue }
abbrev keep_entry : Option (List ℕ × List ℕ) → EnvList → EnvList
keep_entry none rest = rest
keep_entry (some ([], v)) rest = rest
keep_entry (some (c ∷ k, v)) rest = (c ∷ k, v) ∷ rest

abbrev pub inherited_entries : List String → EnvList
inherited_entries [] = []
inherited_entries (kv ∷ rest) = keep_entry (cut (codes kv)) (inherited_entries rest)

-- The closure `put`: a key keeps the place where it was seen first.
abbrev pub put_env : EnvList → List ℕ → List ℕ → EnvList
put_env [] k v = (k, v) ∷ []
put_env ((j, w) ∷ rest) k v =
    let new = put_env rest k v in if codes_eq j k then (j, v) ∷ rest else (j, w) ∷ new

abbrev pub put_all : EnvList → EnvList → EnvList
put_all out [] = out
put_all out ((k, v) ∷ rest) = put_all (put_env out k v) rest

-- sort.Strings on the keys.
abbrev pub insert_entry : List ℕ → List ℕ → EnvList → EnvList
insert_entry k v [] = (k, v) ∷ []
insert_entry k v ((j, w) ∷ rest) =
    let later = insert_entry k v rest in
    if codes_lt j k then (j, w) ∷ later else (k, v) ∷ (j, w) ∷ rest

abbrev pub sort_entries : EnvList → EnvList
sort_entries [] = []
sort_entries ((k, v) ∷ rest) = insert_entry k v (sort_entries rest)

abbrev pub lima_home_key : List ℕ
lima_home_key = codes "LIMA_HOME"

abbrev pub put_home : EnvList → String → EnvList
put_home out home = if not (home == "") then put_env out lima_home_key (codes home) else out

unfoldable pub env_entries : List String → String → EnvList → EnvList
env_entries base home extra =
    put_all (put_home (put_all [] (inherited_entries base)) home) (sort_entries extra)

unfoldable pub build_env : List String → String → EnvList → List (List ℕ)
build_env base home extra = map (λ e. e.0 ++ (b'=' ∷ e.1)) (env_entries base home extra)
