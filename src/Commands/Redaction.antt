-- ===== src/Commands/Redaction.antt =====
-- `RedactArgs` of internal/lima/commands.go.
use terraform_provider_lima.Base.{
  ◌≡◌, refl, ap, ◌∙◌, ℕ, Bool, true, not, some, List, [], ◌∷◌, ◌++◌, eqb, all_of, codes, arith,
  if◌then◌else◌,
}
use terraform_provider_lima.Environment.{cut}
use terraform_provider_lima.Commands.{trim_dashes, is_secret, masked, redact_arg, redact_env_value}

-- A flag or a key: text without an equals sign.
abbrev pub is_key : List ℕ → Bool
is_key k = all_of (λ c. not (eqb c b'=')) k

cut-key : (k v : List ℕ) → is_key k ≡ true → cut (k ++ b'=' ∷ v) ≡ some (k, v)
cut-key [] v h = refl
cut-key (c ∷ k) v h = ground (arith, cut-key k v)

trim_dashes-key :
    (k v : List ℕ) → is_key k ≡ true → trim_dashes (k ++ b'=' ∷ v) ≡ trim_dashes k ++ b'=' ∷ v
trim_dashes-key [] v h = refl
trim_dashes-key (c ∷ k) v h = ground (arith, trim_dashes-key k v)

is_key-trim_dashes : (k : List ℕ) → is_key k ≡ true → is_key (trim_dashes k) ≡ true
is_key-trim_dashes [] h = refl
is_key-trim_dashes (c ∷ k) h = ground (arith, is_key-trim_dashes k)

-- An argument `key=value` is logged as it is, unless the key without its dashes is sensitive; then
-- the key is kept and what is logged does not depend on the value.
pub redact_arg_lem :
    (k v : List ℕ)
    → is_key k ≡ true
    → redact_arg (k ++ b'=' ∷ v)
      ≡ (if redact_env_value (trim_dashes k) then k ++ codes "=(redacted)" else k ++ b'=' ∷ v)
unfolding redact_arg
redact_arg_lem k v h =
    let trimmed : cut (trim_dashes (k ++ b'=' ∷ v)) ≡ some (trim_dashes k, v) =
      ap cut (trim_dashes-key k v h) ∙ cut-key (trim_dashes k) v (is_key-trim_dashes k h) in
    ap (λ x. if is_secret x then masked (k ++ b'=' ∷ v) (cut (k ++ b'=' ∷ v)) else k ++ b'=' ∷ v)
      trimmed
    ∙ ap (λ x. if redact_env_value (trim_dashes k) then masked (k ++ b'=' ∷ v) x else k ++ b'=' ∷ v)
        (cut-key k v h)
