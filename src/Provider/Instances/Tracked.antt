-- ===== src/Provider/Instances/Tracked.antt =====
-- `Create` of internal/provider/instance_resource.go: which instances the state holds afterwards.
use terraform_provider_lima.Base.{String, ◌≡◌, Option, none, some, Bool, true, false}
use terraform_provider_lima.Errors.{Err}
use terraform_provider_lima.Instance.{Instance}
use terraform_provider_lima.Session.{Host, Outcome, ok}
use terraform_provider_lima.Session.Named.{NamesAsked}
use terraform_provider_lima.Poll.{PollOptions}
use terraform_provider_lima.Service.Create.{CreateParams}
use terraform_provider_lima.Provider.Attr.{string_value, bool_value}
use terraform_provider_lima.Provider.Diagnostics.{has_error}
use terraform_provider_lima.Provider.Models.{InstanceModel}
use terraform_provider_lima.Provider.Models.Names.{effective_name}
use terraform_provider_lima.Provider.Document.{Platform, Rendered}
use terraform_provider_lima.Provider.Records.{ProviderData, Response, state_name}

-- What `Create` asks of the service.
abbrev pub create_params : ProviderData → InstanceModel → Rendered → CreateParams
create_params d plan r = record {
  name = effective_name d.name_prefix (string_value plan.name);
  document = r.document;
  start = bool_value plan.start;
  protect = bool_value plan.protect;
  validate = true;
}

abbrev pub is_some {ℓ} : {A : Type ℓ} → Option A → Bool
is_some none = false
is_some (some a) = true

-- The state holds the instance that the handlers will take for `name`, or nothing.
abbrev pub Tracked : ProviderData → String → Bool → Option InstanceModel → Type 0
Tracked d name false state = state ≡ none
Tracked d name true state = (m : InstanceModel) × (state ≡ some m) × (state_name d m ≡ name)

module _ {W : Type 0} (h : Host W) (names : NamesAsked h) where
  module _ (o : PollOptions) (pf : Platform) (d : ProviderData) (plan : InstanceModel)
      (r : Rendered) where
    abbrev name : String
    name = effective_name d.name_prefix (string_value plan.name)

    abbrev pub Answered : Option Err → Bool → Outcome Response → Type 0
    Answered e registered out =
        (resp : Response) × (out ≡ ok resp)
        × (has_error resp.diagnostics ≡ is_some e)
        × Tracked d name registered resp.state
