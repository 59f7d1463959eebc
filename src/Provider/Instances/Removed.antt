-- ===== src/Provider/Instances/Removed.antt =====
-- `Read` of internal/provider/instance_resource.go over the client that runs limactl: when an
-- instance is dropped from the state.
use terraform_provider_lima.Base.{String, Bool, true, false, Option, none, some, [], ◌∷◌}
use terraform_provider_lima.Instance.{Instance}
use terraform_provider_lima.Session.{Outcome, ok}
use terraform_provider_lima.Commands.{Encoders, list_args}
use terraform_provider_lima.Adapter.{Machine, Decoders, ExecClient, Ran, run}
use terraform_provider_lima.Provider.Records.{Response}

-- What limactl answers when it is asked to list one name.
abbrev pub list_run : {W : Type 0} → Machine W → ExecClient → Encoders → Decoders → String → W → Ran
list_run m c enc dec name w = (run m c enc dec (list_args (name ∷ [])) w).0

abbrev is_some {ℓ} : {A : Type ℓ} → Option A → Bool
is_some none = false
is_some (some a) = true

abbrev holds_state : Outcome Response → Bool
holds_state (ok r) = is_some r.state
holds_state _ = true
