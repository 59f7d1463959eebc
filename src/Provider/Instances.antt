-- ===== src/Provider/Instances.antt =====
-- The handlers of internal/provider/instance_resource.go, over the service. A response starts from
-- what the framework hands in: no state for a create and an import, the prior state otherwise; it
-- removes the state of a delete that reports no error. Timeouts set the context's deadline, which is
-- the host's.
pub mod Update
pub mod Closed
pub mod Traces
pub mod Tracked
pub mod Removed
pub mod Unprotected
use Prim.Native.String.{◌++◌ as concat}
use terraform_provider_lima.Base.{
  pos, int_lt, String, Bool, true, false, not, ◌&&◌, Option, none, some, List, [], ◌∷◌, ◌++◌, codes,
  text_of, if◌then◌else◌, ◌==◌,
}
use terraform_provider_lima.Errors.{Err, is_not_found, is_protected, is_already_exists}
use terraform_provider_lima.Instance.{
  Instance, InstanceConfigView, running, status, status_eq, trim_space,
}
use terraform_provider_lima.Session.{Host, M, Result, value, fault, pure, attempt, ◌>>=◌, inspect}
use terraform_provider_lima.Poll.{PollOptions}
use terraform_provider_lima.Service.Create.{CreateParams, CreateResult, Created, service_create}
use terraform_provider_lima.Service.Change.{service_delete}
use terraform_provider_lima.Sizes.Written.{format_size_text}
use terraform_provider_lima.Provider.Attr.{
  Attr, null, unknown, known, is_null, string_value, bool_value, optional_string,
}
use terraform_provider_lima.Provider.Diagnostics.{Diagnostic, general_error, general_warning}
use terraform_provider_lima.Provider.Models.{InstanceModel, declared, apply_instance}
use terraform_provider_lima.Provider.Models.Names.{effective_name, logical_name}
use terraform_provider_lima.Provider.Document.{Platform, Rendered, render_model}
use terraform_provider_lima.Provider.Records.{
  ProviderData, Response, placeholder, instance_or_zero, state_name, about, imported,
}
use terraform_provider_lima.Provider.Refresh.{refreshed, with_hash}

module _ {W : Type 0} (h : Host W) (o : PollOptions) (pf : Platform) where
  abbrev pub instance_or_placeholder : String → Result Instance → Instance
  instance_or_placeholder name (value inst) = inst
  instance_or_placeholder name (fault e) = placeholder name

  unfoldable pub best_effort_instance : String → M W Instance
  best_effort_instance name =
      attempt (inspect h name) >>= λ r. pure (instance_or_placeholder name r)

  abbrev pub applied : InstanceModel → Rendered → Instance → InstanceModel
  applied plan r inst = with_hash (apply_instance plan inst) (some r)

  module _ (d : ProviderData) where
    unfoldable pub create_error : String → Err → Diagnostic
    create_error name e = general_error (about "Unable to create Lima instance " name)

    -- The instance is in Lima all the same, and must not be lost.
    unfoldable pub registered_despite :
        InstanceModel → Rendered → String → Err → Instance → M W Response
    registered_despite plan r name e inst =
        pure (record { state = some (applied plan r inst); diagnostics = create_error name e ∷ [] })

    -- After `Service.Create` returned.
    unfoldable pub created : InstanceModel → Rendered → String → Created → M W Response
    created plan r name (result, none) = pure (record {
      state = some (applied plan r (instance_or_zero result.instance_of));
      diagnostics = [];
    })
    created plan r name (result, some e) =
        if result.registered
        then (best_effort_instance name >>= registered_despite plan r name e)
        else pure (record { state = none; diagnostics = create_error name e ∷ [] })

    unfoldable pub create_rendered :
        InstanceModel → String → Option Rendered × List Diagnostic → M W Response
    create_rendered plan name (none, diags) = pure (record { state = none; diagnostics = diags })
    create_rendered plan name (some r, diags) =
        service_create h o (record {
          name = name;
          document = r.document;
          start = bool_value plan.start;
          protect = bool_value plan.protect;
          validate = true;
        })
        >>= created plan r name

    unfoldable pub create_resource : InstanceModel → M W Response
    create_resource plan =
        create_rendered plan (effective_name d.name_prefix (string_value plan.name))
          (render_model pf plan (declared plan))

    unfoldable pub read_found : InstanceModel → String → Result Instance → M W Response
    read_found state name (value inst) =
        pure (record { state = some (refreshed pf state inst); diagnostics = [] })
    read_found state name (fault e) =
        if is_not_found e
        then pure (record { state = none; diagnostics = [] })
        else pure (record {
          state = some state;
          diagnostics = general_error (about "Unable to read Lima instance " name) ∷ [];
        })

    unfoldable pub read_resource : InstanceModel → M W Response
    read_resource state =
        attempt (inspect h (state_name d state)) >>= read_found state (state_name d state)

    unfoldable pub deleted : InstanceModel → String → Result (Unit {0}) → M W Response
    deleted state name (value _) = pure (record { state = none; diagnostics = [] })
    deleted state name (fault e) =
        if is_protected e
        then pure (record {
          state = some state;
          diagnostics = general_error (about "Unable to delete protected Lima instance " name) ∷ [];
        })
        else pure (record {
          state = some state;
          diagnostics = general_error (about "Unable to delete Lima instance " name) ∷ [];
        })

    unfoldable pub delete_resource : InstanceModel → M W Response
    delete_resource state =
        attempt (service_delete h o (state_name d state)) >>= deleted state (state_name d state)

    unfoldable pub import_found : String → Result Instance → M W Response
    import_found actual (value inst) = pure (record {
      state = some (imported (logical_name d.name_prefix actual) inst);
      diagnostics = general_warning "Review the imported configuration" ∷ [];
    })
    import_found actual (fault e) =
        if is_not_found e
        then pure (record {
          state = none;
          diagnostics = general_error (about "Lima instance not found: " actual) ∷ [];
        })
        else pure (record {
          state = none;
          diagnostics = general_error (about "Unable to read Lima instance " actual) ∷ [];
        })

    unfoldable pub import_named : String → M W Response
    import_named actual =
        if actual == ""
        then pure (record { state = none; diagnostics = general_error "Invalid import ID" ∷ [] })
        else attempt (inspect h actual) >>= import_found actual

    unfoldable pub import_resource : String → M W Response
    import_resource id = import_named (text_of (trim_space (codes id)))

  -- A provider that is not configured has no data, and its handlers leave the response as it is.
  abbrev pub untouched : Option InstanceModel → M W Response
  untouched state = pure (record { state = state; diagnostics = [] })

  unfoldable pub create_handler : Option ProviderData → InstanceModel → M W Response
  create_handler none plan = untouched none
  create_handler (some d) plan = create_resource d plan

  unfoldable pub read_handler : Option ProviderData → InstanceModel → M W Response
  read_handler none state = untouched (some state)
  read_handler (some d) state = read_resource d state

  unfoldable pub delete_handler : Option ProviderData → InstanceModel → M W Response
  delete_handler none state = untouched none
  delete_handler (some d) state = delete_resource d state

  unfoldable pub import_handler : Option ProviderData → String → M W Response
  import_handler none id =
      pure (record { state = none; diagnostics = general_error "Provider not configured" ∷ [] })
  import_handler (some d) id = import_resource d id
