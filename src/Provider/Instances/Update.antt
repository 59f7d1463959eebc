-- ===== src/Provider/Instances/Update.antt =====
-- `Update` of internal/provider/instance_resource.go.
use terraform_provider_lima.Base.{
  String, Bool, true, false, not, ◌&&◌, Option, none, some, List, [], ◌∷◌, ◌++◌, if◌then◌else◌,
}
use terraform_provider_lima.Errors.{Err, is_restart_after_edit}
use terraform_provider_lima.Merge.{bool_eq}
use terraform_provider_lima.Instance.{Instance, EditRequest, is_empty}
use terraform_provider_lima.Session.{Host, M, Result, value, fault, pure, attempt, ◌>>=◌, inspect}
use terraform_provider_lima.Poll.{PollOptions}
use terraform_provider_lima.Service.Change.{
  ResizeParams, resize, set_protection, TemplateMatch, template_mismatch, template_unknown,
  template_consistent, verify_template,
}
use terraform_provider_lima.Provider.Attr.{known, is_null, is_known, string_value, bool_value}
use terraform_provider_lima.Provider.Diagnostics.{
  Diagnostic, root, general_error, attribute_warning, has_error,
}
use terraform_provider_lima.Provider.Models.{
  InstanceModel, declared, apply_instance, observed_start,
}
use terraform_provider_lima.Provider.Planned.{
  planned_disks, planned_mounts, configured_mounts, planned_port_forwards, configured_port_forwards,
}
use terraform_provider_lima.Provider.Document.{Platform, Rendered, render_model}
use terraform_provider_lima.Provider.Refresh.{with_hash}
use terraform_provider_lima.Provider.Changes.{resize_request}
use terraform_provider_lima.Provider.Records.{ProviderData, Response, state_name, about}
use terraform_provider_lima.Provider.Instances.{best_effort_instance, applied}

-- recordProtection: the prior state, with the protection that is in effect.
unfoldable pub recorded_protection : InstanceModel → Bool → InstanceModel
recorded_protection state actual =
    if bool_eq actual (bool_value state.protect)
    then state
    else record state { protect = known actual }

-- addResizeError
unfoldable pub resize_error : String → EditRequest → Bool → Err → Diagnostic
resize_error name req want_running e =
    if is_restart_after_edit e
    then general_error (about "reconfigured but could not be restarted: " name)
    else if not (is_empty req)
    then general_error (about "Unable to reconfigure Lima instance " name)
    else if want_running
    then general_error (about "Unable to start Lima instance " name)
    else general_error (about "Unable to stop Lima instance " name)

abbrev pub match_diagnostics : TemplateMatch → List Diagnostic
match_diagnostics template_mismatch =
    attribute_warning (root "template" ∷ []) "Declared template does not match the instance" ∷ []
match_diagnostics template_consistent = []
match_diagnostics template_unknown = []

module _ {W : Type 0} (h : Host W) (o : PollOptions) (pf : Platform) where
  unfoldable pub template_checked : Result TemplateMatch → M W (List Diagnostic)
  template_checked (value m) = pure (match_diagnostics m)
  template_checked (fault e) =
      pure (attribute_warning (root "template" ∷ []) "Could not verify the declared template" ∷ [])

  unfoldable pub verify_found : String → Result Instance → M W (List Diagnostic)
  verify_found template (fault e) = pure []
  verify_found template (value inst) =
      attempt (verify_template h o template inst) >>= template_checked

  unfoldable pub verify_adopted_template : String → String → M W (List Diagnostic)
  verify_adopted_template name template = attempt (inspect h name) >>= verify_found template

  -- if state.Template.IsNull() && !plan.Template.IsNull() && !plan.Template.IsUnknown()
  unfoldable pub adoption_diagnostics :
      String → InstanceModel → InstanceModel → M W (List Diagnostic)
  adoption_diagnostics name plan state =
      if is_null state.template && is_known plan.template
      then verify_adopted_template name (string_value plan.template)
      else pure []

  -- recordAppliedResize
  unfoldable pub applied_resize : InstanceModel → Bool → Instance → InstanceModel
  applied_resize plan protection inst =
      let p = record (apply_instance plan inst) {
        protect = known protection;
        start = observed_start (known false) inst;
      } in
      with_hash p (render_model pf p (declared plan)).0

  unfoldable pub record_applied_resize :
      InstanceModel → String → Bool → List Diagnostic → M W Response
  record_applied_resize plan name protection diags = best_effort_instance h o pf name >>= λ inst.
      pure (record { state = some (applied_resize plan protection inst); diagnostics = diags })

  module _ (name : String) (plan state : InstanceModel) where
    abbrev pub stop_with : Bool → List Diagnostic → M W Response
    stop_with protection diags =
        pure (record { state = some (recorded_protection state protection); diagnostics = diags })

    abbrev pub updated_state : Option Rendered × List Diagnostic → Instance → Response
    updated_state (none, failures) inst = record { state = some state; diagnostics = failures }
    updated_state (some r, failures) inst = record {
      state = some (applied h o pf plan r inst);
      diagnostics = failures;
    }

    -- After the last read.
    unfoldable pub finish_update : Bool → List Diagnostic → Result Instance → M W Response
    finish_update protection diags (fault e) =
        stop_with protection
          (diags ++ general_error (about "Unable to read after updating Lima instance " name) ∷ [])
    finish_update protection diags (value inst) =
        let r = updated_state (render_model pf plan (declared plan)) inst in
        pure (record r { diagnostics = diags ++ r.diagnostics })

    unfoldable pub read_updated : Bool → List Diagnostic → M W Response
    read_updated protection diags = attempt (inspect h name) >>= finish_update protection diags

    unfoldable pub reprotected : List Diagnostic → Result (Unit {0}) → M W Response
    reprotected diags (value _) = read_updated true diags
    reprotected diags (fault e) =
        stop_with false
          (diags ++ general_error (about "Unable to protect Lima instance " name) ∷ [])

    unfoldable pub after_resize :
        EditRequest → Bool → List Diagnostic → Result (Unit {0}) → M W Response
    after_resize req protection diags (value _) =
        if bool_value plan.protect && not protection
        then attempt (set_protection h o name true) >>= reprotected diags
        else read_updated protection diags
    after_resize req protection diags (fault e) =
        let failed = diags ++ resize_error name req (bool_value plan.start) e ∷ [] in
        if is_restart_after_edit e
        then record_applied_resize plan name protection failed
        else stop_with protection failed

    abbrev pub resize_params : EditRequest → ResizeParams
    resize_params req = record {
      name = name;
      additional_disks = planned_disks plan;
      desired = req;
      mounts = planned_mounts pf.surroundings (declared plan);
      previous_mounts = configured_mounts pf.surroundings (declared state);
      port_forwards = planned_port_forwards (declared plan);
      previous_port_forwards = configured_port_forwards (declared state);
      want_running = bool_value plan.start;
    }

    -- After the check of an adopted template.
    unfoldable pub resize_planned : Bool → List Diagnostic → M W Response
    resize_planned protection diags =
        let (req, failures) = resize_request pf.wide_int plan state in
        if has_error (diags ++ failures)
        then pure (record { state = some state; diagnostics = diags ++ failures })
        else attempt (resize h o (resize_params req))
          >>= after_resize req protection (diags ++ failures)

    unfoldable pub reconfigure : Bool → M W Response
    reconfigure protection = adoption_diagnostics name plan state >>= resize_planned protection

    unfoldable pub unprotected : Result (Unit {0}) → M W Response
    unprotected (value _) = reconfigure false
    unprotected (fault e) = pure (record {
      state = some state;
      diagnostics =
          general_error (about "Unable to remove protection from Lima instance " name) ∷ [];
    })

    unfoldable pub update_named : M W Response
    update_named =
        if not (bool_value plan.protect) && bool_value state.protect
        then attempt (set_protection h o name false) >>= unprotected
        else reconfigure (bool_value state.protect)

  unfoldable pub update_resource : ProviderData → InstanceModel → InstanceModel → M W Response
  update_resource d plan state = update_named (state_name d state) plan state

  unfoldable pub update_handler : Option ProviderData → InstanceModel → InstanceModel → M W Response
  update_handler none plan state = pure (record { state = some state; diagnostics = [] })
  update_handler (some d) plan state = update_resource d plan state
