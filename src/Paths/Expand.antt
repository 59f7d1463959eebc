-- ===== src/Paths/Expand.antt =====
-- `ExpandPath` of internal/lima/commands.go. What the process knows of its user and its working
-- directory is a parameter; where the system gives an error it is `none`.
use terraform_provider_lima.Base.{
  ◌≡◌, refl, ℕ, String, Option, none, some, List, [], ◌∷◌, ◌++◌, codes, codes_eq, has_prefix,
  text_of, if◌then◌else◌, ◌==◌,
}
use terraform_provider_lima.Paths.{clean, is_rooted}

-- os.UserHomeDir and os.Getwd
pub record Surroundings : Type 0 where
  pub user_home : Option String
  pub working_dir : Option String

-- filepath.Join
abbrev pub join_two : List ℕ → List ℕ → List ℕ
join_two [] [] = []
join_two [] (d ∷ ds) = clean (d ∷ ds)
join_two (c ∷ cs) [] = clean (c ∷ cs)
join_two (c ∷ cs) (d ∷ ds) = clean ((c ∷ cs) ++ b'/' ∷ d ∷ ds)

abbrev tilde : List ℕ
tilde = b'~' ∷ []

abbrev tilde_slash : List ℕ
tilde_slash = b'~' ∷ b'/' ∷ []

abbrev drop_two : List ℕ → List ℕ
drop_two (c ∷ d ∷ rest) = rest
drop_two _ = []

module _ (s : Surroundings) where
  abbrev in_home : List ℕ → Option String → Option (List ℕ)
  in_home p none = none
  in_home p (some home) =
      if codes_eq p tilde then some (codes home) else some (join_two (codes home) (drop_two p))

  -- A leading `~` stands for the home.
  abbrev pub expand_home : List ℕ → Option (List ℕ)
  expand_home p =
      if codes_eq p tilde
      then in_home p s.user_home
      else if has_prefix tilde_slash p
      then in_home p s.user_home
      else some p

  abbrev in_working_dir : List ℕ → Option String → Option (List ℕ)
  in_working_dir p none = none
  in_working_dir p (some dir) = some (join_two (codes dir) p)

  -- filepath.Abs
  abbrev pub absolute : List ℕ → Option (List ℕ)
  absolute p = if is_rooted p then some p else in_working_dir p s.working_dir

  abbrev cleaned : Option (List ℕ) → Option String
  cleaned none = none
  cleaned (some p) = some (text_of (clean p))

  abbrev then_absolute : Option (List ℕ) → Option String
  then_absolute none = none
  then_absolute (some p) = cleaned (absolute p)

  unfoldable pub expand_path : String → Option String
  expand_path p = if p == "" then some "" else then_absolute (expand_home (codes p))

abbrev dev_home : Surroundings
dev_home = record { user_home = some "/home/dev"; working_dir = some "/work" }

expand_tilde : expand_path dev_home "~/src/../data" ≡ some "/home/dev/data"
unfolding expand_path clean text_of
expand_tilde = refl

expand_relative : expand_path dev_home "./x" ≡ some "/work/x"
unfolding expand_path clean text_of
expand_relative = refl
