-- ===== src/Environment/Precedence.antt =====
-- `buildEnv` of internal/lima/commands.go: the values of the variables.
use terraform_provider_lima.Base.{
  ℕ, String, ◌≡◌, refl, ap, ◌∙◌, Bool, true, false, not, ◌&&◌, ◌||◌, Option, none, some, List, [],
  ◌∷◌, arith, codes, codes_eq, eq_of_codes_eq, if◌then◌else◌, ◌==◌,
}
use terraform_provider_lima.Environment.{
  EnvList, inherited_entries, put_env, put_all, insert_entry, sort_entries, lima_home_key, put_home,
  env_entries,
}

abbrev pub env_get : EnvList → List ℕ → Option (List ℕ)
env_get [] k = none
env_get ((j, v) ∷ rest) k = let later = env_get rest k in if codes_eq j k then some v else later

abbrev pub has_env : EnvList → List ℕ → Bool
has_env [] k = false
has_env ((j, v) ∷ rest) k = codes_eq j k || has_env rest k

abbrev pub distinct_keys : EnvList → Bool
distinct_keys [] = true
distinct_keys ((k, v) ∷ rest) = not (has_env rest k) && distinct_keys rest

abbrev pub first_of : Option (List ℕ) → Option (List ℕ) → Option (List ℕ)
first_of (some v) other = some v
first_of none other = other

-- The last value that a list gives a key.
abbrev pub last_of : EnvList → List ℕ → Option (List ℕ)
last_of [] k = none
last_of ((j, v) ∷ rest) k = first_of (last_of rest k) (if codes_eq j k then some v else none)

keys_agree : (i j k : List ℕ) → codes_eq i j ≡ true → codes_eq i k ≡ codes_eq j k
keys_agree i j k h = ap (λ x. codes_eq x k) (eq_of_codes_eq i j h)

codes_eq_sym : (i j : List ℕ) → codes_eq i j ≡ codes_eq j i
codes_eq_sym [] [] = refl
codes_eq_sym [] (y ∷ ys) = refl
codes_eq_sym (x ∷ xs) [] = refl
codes_eq_sym (x ∷ xs) (y ∷ ys) = ground (arith, codes_eq_sym xs ys)

env_get-put_env :
    (xs : EnvList) (k v j : List ℕ)
    → env_get (put_env xs k v) j ≡ (if codes_eq k j then some v else env_get xs j)
env_get-put_env [] k v j = refl
env_get-put_env ((i, w) ∷ rest) k v j = ground (
  arith,
  env_get-put_env rest k v j,
  keys_agree i k j,
  keys_agree k j i,
  codes_eq_sym i j,
  codes_eq_sym k i,
)

has_env-put_env :
    (xs : EnvList) (k v j : List ℕ) → has_env (put_env xs k v) j ≡ (codes_eq k j || has_env xs j)
has_env-put_env [] k v j = refl
has_env-put_env ((i, w) ∷ rest) k v j = ground (arith, has_env-put_env rest k v j, keys_agree i k j)

distinct_keys-put_env :
    (xs : EnvList) (k v : List ℕ) → distinct_keys xs ≡ true → distinct_keys (put_env xs k v) ≡ true
distinct_keys-put_env [] k v h = refl
distinct_keys-put_env ((i, w) ∷ rest) k v h = ground (
  arith,
  distinct_keys-put_env rest k v,
  has_env-put_env rest k v i,
  keys_agree k i i,
  codes_eq_sym i k,
)

distinct_keys-put_all :
    (out xs : EnvList) → distinct_keys out ≡ true → distinct_keys (put_all out xs) ≡ true
distinct_keys-put_all out [] h = h
distinct_keys-put_all out ((k, v) ∷ rest) h =
    distinct_keys-put_all (put_env out k v) rest (distinct_keys-put_env out k v h)

env_get-put_all :
    (out xs : EnvList) (k : List ℕ)
    → env_get (put_all out xs) k ≡ first_of (last_of xs k) (env_get out k)
env_get-put_all out [] k = refl
env_get-put_all out ((j, v) ∷ rest) k =
    env_get-put_all (put_env out j v) rest k
    ∙ rw (env_get-put_env out j v k) (assigned (last_of rest k) (codes_eq j k))
  where
    assigned :
        (later : Option (List ℕ)) (b : Bool)
        → first_of later (if b then some v else env_get out k)
          ≡ first_of (first_of later (if b then some v else none)) (env_get out k)
    assigned (some x) b = refl
    assigned none true = refl
    assigned none false = refl

has_env-insert_entry :
    (k v : List ℕ) (xs : EnvList) (j : List ℕ)
    → has_env (insert_entry k v xs) j ≡ (codes_eq k j || has_env xs j)
has_env-insert_entry k v [] j = refl
has_env-insert_entry k v ((i, w) ∷ rest) j = ground (arith, has_env-insert_entry k v rest j)

has_env-sort_entries : (xs : EnvList) (j : List ℕ) → has_env (sort_entries xs) j ≡ has_env xs j
has_env-sort_entries [] j = refl
has_env-sort_entries ((k, v) ∷ rest) j =
    has_env-insert_entry k v (sort_entries rest) j
    ∙ ap (λ b. codes_eq k j || b) (has_env-sort_entries rest j)

last_of-absent : (xs : EnvList) (k : List ℕ) → has_env xs k ≡ false → last_of xs k ≡ none
last_of-absent [] k h = refl
last_of-absent ((j, v) ∷ rest) k h = ground (arith, last_of-absent rest k)

last_of-insert_entry :
    (k v : List ℕ) (xs : EnvList) (j : List ℕ)
    → has_env xs k ≡ false
    → last_of (insert_entry k v xs) j ≡ (if codes_eq k j then some v else last_of xs j)
last_of-insert_entry k v [] j h = refl
last_of-insert_entry k v ((i, w) ∷ rest) j h = ground (
  arith,
  last_of-insert_entry k v rest j,
  keys_agree k j i,
  codes_eq_sym i j,
  codes_eq_sym k i,
  last_of-absent rest j,
  ap (has_env rest) (eq_of_codes_eq k j _),
)

-- Sorting distinct keys changes no value.
last_of-sort_entries :
    (xs : EnvList) (j : List ℕ)
    → distinct_keys xs ≡ true
    → last_of (sort_entries xs) j ≡ env_get xs j
last_of-sort_entries [] j h = refl
last_of-sort_entries ((k, v) ∷ rest) j h = ground (
  arith,
  last_of-insert_entry k v (sort_entries rest) j,
  last_of-sort_entries rest j,
  has_env-sort_entries rest k,
)

first_of-none : (v : Option (List ℕ)) → first_of v none ≡ v
first_of-none none = refl
first_of-none (some x) = refl

env_get-put_home :
    (out : EnvList) (home : String) (k : List ℕ)
    → env_get (put_home out home) k
      ≡ first_of
          (if not (home == "") && codes_eq lima_home_key k then some (codes home) else none)
          (env_get out k)
env_get-put_home out home k = configured (not (home == ""))
  where
    given :
        (c : Bool)
        → (if c then some (codes home) else env_get out k)
          ≡ first_of (if c then some (codes home) else none) (env_get out k)
    given true = refl
    given false = refl

    configured :
        (b : Bool)
        → env_get (if b then put_env out lima_home_key (codes home) else out) k
          ≡ first_of
              (if b && codes_eq lima_home_key k then some (codes home) else none)
              (env_get out k)
    configured true =
        env_get-put_env out lima_home_key (codes home) k ∙ given (codes_eq lima_home_key k)
    configured false = refl

distinct_keys-put_home :
    (out : EnvList) (home : String)
    → distinct_keys out ≡ true
    → distinct_keys (put_home out home) ≡ true
distinct_keys-put_home out home h = configured (not (home == ""))
  where
    configured :
        (b : Bool)
        → distinct_keys (if b then put_env out lima_home_key (codes home) else out) ≡ true
    configured true = distinct_keys-put_env out lima_home_key (codes home) h
    configured false = h

-- A variable has the provider's value if the provider gives one, otherwise the configured home if it
-- is LIMA_HOME and a home is configured, and otherwise the last value inherited; and no variable is
-- given twice.
pub env_entries_lem :
    (base : List String) (home : String) (extra : EnvList) (k : List ℕ)
    → distinct_keys extra ≡ true
    → (env_get (env_entries base home extra) k
        ≡ first_of (env_get extra k) (
            first_of
              (if not (home == "") && codes_eq lima_home_key k then some (codes home) else none)
              (last_of (inherited_entries base) k)))
      × (distinct_keys (env_entries base home extra) ≡ true)
unfolding env_entries
env_entries_lem base home extra k h =
    let inherited = put_all [] (inherited_entries base) in
    (
      env_get-put_all (put_home inherited home) (sort_entries extra) k
          ∙ ap (λ v. first_of v (env_get (put_home inherited home) k))
              (last_of-sort_entries extra k h)
          ∙ ap (first_of (env_get extra k)) (
              env_get-put_home inherited home k
              ∙ ap
                  (first_of (
                    if not (home == "") && codes_eq lima_home_key k
                    then some (codes home)
                    else none))
                  (env_get-put_all [] (inherited_entries base) k
                    ∙ first_of-none (last_of (inherited_entries base) k))),
      distinct_keys-put_all (put_home inherited home) (sort_entries extra) (
          distinct_keys-put_home inherited home
            (distinct_keys-put_all [] (inherited_entries base) refl)),
    )
