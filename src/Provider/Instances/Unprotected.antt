-- ===== src/Provider/Instances/Unprotected.antt =====
-- `Update` of internal/provider/instance_resource.go when it removes the protection: what the state
-- says of it afterwards.
use terraform_provider_lima.Base.{
  String, ◌≡◌, refl, sym, ◌∙◌, subst, ◌⊎◌, inl, inr, true, false, ◌&&◌, Option, none, some, List,
  [], ◌∷◌, ◌++◌, arith,
}
use terraform_provider_lima.Errors.{is_restart_after_edit}
use terraform_provider_lima.Instance.{Instance, EditRequest}
use terraform_provider_lima.Session.{
  Host, State, M, ok, Result, value, fault, pure, attempt, ◌>>=◌, inspect,
}
use terraform_provider_lima.Session.Discipline.{latest}
use terraform_provider_lima.Session.Leads.{
  Leads, Anything, Leads-pure, Leads-bind, Leads-anything, Leads-if,
}
use terraform_provider_lima.Session.Observed.{Leads-attempt_inspect}
use terraform_provider_lima.Poll.{PollOptions}
use terraform_provider_lima.Service.Change.{
  set_protection, TemplateMatch, template_mismatch, template_unknown, template_consistent,
}
use terraform_provider_lima.Provider.Attr.{known, is_null, is_known, string_value, bool_value}
use terraform_provider_lima.Provider.Diagnostics.{Diagnostic, has_error}
use terraform_provider_lima.Provider.Models.{
  InstanceModel, declared, apply_instance, observed_start,
}
use terraform_provider_lima.Provider.Document.{Platform, Rendered, render_model}
use terraform_provider_lima.Provider.Refresh.{with_hash}
use terraform_provider_lima.Provider.Changes.{resize_request}
use terraform_provider_lima.Provider.Records.{ProviderData, Response, state_name}
use terraform_provider_lima.Provider.Instances.{applied}
use terraform_provider_lima.Provider.Instances.Update.{
  recorded_protection, applied_resize, record_applied_resize, template_checked, verify_found,
  verify_adopted_template, adoption_diagnostics, stop_with, finish_update, read_updated,
  after_resize, resize_planned, reconfigure, unprotected, update_named, update_resource,
  updated_state,
}

has_error-append :
    (ds es : List Diagnostic) → has_error ds ≡ false → has_error (ds ++ es) ≡ has_error es
has_error-append [] es h = refl
has_error-append (d ∷ ds) es h = ground (arith, has_error-append ds es)

-- A precondition that does not depend on the state may be used for the whole method.
Leads-given :
    {W A P : Type 0} {m : M W A} {post : A → State W → Type 0}
    → (P → Leads Anything m post)
    → Leads (λ _. P) m post
Leads-given k = record { at = λ s a p e. (k p).at s a tt e }

module _ {W : Type 0} (h : Host W) (o : PollOptions) (pf : Platform) where
  NoError : List Diagnostic → State W → Type 0
  NoError diags s = has_error diags ≡ false

  template_checked-NoError :
      (r : Result TemplateMatch) → Leads Anything (template_checked h o pf r) NoError
  unfolding template_checked NoError
  template_checked-NoError (value template_mismatch) = Leads-pure _ (λ s _. refl)
  template_checked-NoError (value template_unknown) = Leads-pure _ (λ s _. refl)
  template_checked-NoError (value template_consistent) = Leads-pure _ (λ s _. refl)
  template_checked-NoError (fault e) = Leads-pure _ (λ s _. refl)

  verify_found-NoError :
      (template : String) (r : Result Instance)
      → Leads Anything (verify_found h o pf template r) NoError
  unfolding verify_found NoError
  verify_found-NoError template (fault e) = Leads-pure _ (λ s _. refl)
  verify_found-NoError template (value inst) =
      Leads-bind _ _ (Leads-anything _) (λ r. template_checked-NoError r)

  -- The check of an adopted template only warns.
  adoption-NoError :
      (name : String) (plan state : InstanceModel)
      → Leads Anything (adoption_diagnostics h o pf name plan state) NoError
  unfolding adoption_diagnostics verify_adopted_template NoError
  adoption-NoError name plan state =
      Leads-if (is_null state.template && is_known plan.template)
        (attempt (inspect h name) >>= verify_found h o pf (string_value plan.template)) (pure [])
        (λ _.
          Leads-bind (attempt (inspect h name)) _ (Leads-anything _)
            (verify_found-NoError (string_value plan.template)))
        (λ _. Leads-pure [] (λ s _. refl))

  module _ (name : String) (plan state : InstanceModel) where
    -- The state says that the instance is not protected, or what was observed last.
    abbrev pub Recorded : Response → State W → Type 0
    Recorded resp s =
        (m : InstanceModel) × (resp.state ≡ some m)
        × ((bool_value m.protect ≡ false)
            ⊎ ((inst : Instance) × (latest name s.trace ≡ some (value inst))
                × (m.protect ≡ known inst.protected)))

    module _ (forsaken : bool_value plan.protect ≡ false)
        (guarded : bool_value state.protect ≡ true) (r : Rendered)
        (renders : (render_model pf plan (declared plan)).0 ≡ some r) where
      Leads-stop_with :
          {pre : State W → Type 0} (diags : List Diagnostic)
          → Leads pre (stop_with h o pf name plan state false diags) Recorded
      unfolding recorded_protection
      Leads-stop_with diags =
          Leads-pure _ (λ s _. rw guarded (record state { protect = known false }, refl, inl refl))

      finish_update-Recorded :
          (diags : List Diagnostic) (x : Result Instance)
          → Leads
              (λ s. latest name s.trace ≡ some x)
              (finish_update h o pf name plan state false diags x)
              Recorded
      unfolding finish_update apply_instance
      finish_update-Recorded diags (fault e) = Leads-stop_with _
      finish_update-Recorded diags (value inst) = Leads-pure _ (λ s l.
          subst
            (λ q.
              Recorded
                (let u =
                    updated_state h o pf name plan state
                      (q, (render_model pf plan (declared plan)).1) inst in
                  record u { diagnostics = diags ++ u.diagnostics })
                s)
            (sym renders) (applied h o pf plan r inst, refl, inr (inst, l, refl)))

      read_updated-Recorded :
          (diags : List Diagnostic)
          → Leads Anything (read_updated h o pf name plan state false diags) Recorded
      unfolding read_updated
      read_updated-Recorded diags =
          Leads-bind _ _ (Leads-attempt_inspect h name) (finish_update-Recorded diags)

      record_applied-Recorded :
          (diags : List Diagnostic)
          → Leads Anything (record_applied_resize h o pf plan name false diags) Recorded
      unfolding record_applied_resize applied_resize
      record_applied-Recorded diags = Leads-bind _ _ (Leads-anything _) (λ inst.
          Leads-pure _ (λ s _. (
            applied_resize h o pf plan false inst,
            refl,
            inl (
                sym (
                  unguarded
                    (record (apply_instance plan inst) {
                      protect = known false;
                      start = observed_start (known false) inst;
                    })
                    _)),
          )))
        where
          unguarded :
              (m : InstanceModel) (q : Option Rendered)
              → bool_value m.protect ≡ bool_value (with_hash m q).protect
          unguarded m none = refl
          unguarded m (some x) = refl

      after_resize-Recorded :
          (req : EditRequest) (diags : List Diagnostic) (x : Result (Unit {0}))
          → Leads Anything (after_resize h o pf name plan state req false diags x) Recorded
      unfolding after_resize
      after_resize-Recorded req diags (value _) = rw forsaken (read_updated-Recorded diags)
      after_resize-Recorded req diags (fault e) =
          Leads-if (is_restart_after_edit e) _ _ (λ _. record_applied-Recorded _)
            (λ _. Leads-stop_with _)

      module _ (valid : has_error (resize_request pf.wide_int plan state).1 ≡ false) where
        resize_planned-Recorded :
            (diags : List Diagnostic)
            → Leads (NoError diags) (resize_planned h o pf name plan state false diags) Recorded
        unfolding resize_planned NoError
        resize_planned-Recorded diags = Leads-given (λ n.
            rw (has_error-append diags (resize_request pf.wide_int plan state).1 n ∙ valid)
              (Leads-bind _ _ (Leads-anything _) (after_resize-Recorded _ _)))

        reconfigure-Recorded : Leads Anything (reconfigure h o pf name plan state false) Recorded
        unfolding reconfigure
        reconfigure-Recorded =
            Leads-bind _ _ (adoption-NoError name plan state) resize_planned-Recorded

-- An update that removes the protection records it, however it goes on: if the plan does not want the
-- protection that the state has, removing it succeeds, the plan's sizes are valid and the plan renders,
-- then every response of the update holds a state that says that the instance is not protected, or
-- that says what the last observation of the instance showed.
pub update_unprotected :
    {W : Type 0} (h : Host W) (o : PollOptions) (pf : Platform) (d : ProviderData)
    → (plan state : InstanceModel) (r : Rendered) (s : State W) (resp : Response)
    → bool_value plan.protect ≡ false
    → bool_value state.protect ≡ true
    → (render_model pf plan (declared plan)).0 ≡ some r
    → has_error (resize_request pf.wide_int plan state).1 ≡ false
    → (set_protection h o (state_name d state) false s).0 ≡ ok tt
    → (update_resource h o pf d plan state s).0 ≡ ok resp
    → Recorded h o pf (state_name d state) plan state resp (update_resource h o pf d plan state s).1
unfolding update_resource update_named unprotected ◌>>=◌ attempt
update_unprotected h o pf d plan state r s resp f g renders valid removed e =
    rw (f, g, removed)
      ((reconfigure-Recorded h o pf (state_name d state) plan state f g r renders valid).at _ resp
        tt (rw (f, g, removed) at e))

-- An update that removes the protection and then finds a size of the plan invalid answers with the
-- state as it was, which says that the instance is protected.
pub update_stale :
    {W : Type 0} (h : Host W) (o : PollOptions) (pf : Platform) (d : ProviderData)
    → (plan state : InstanceModel) (s : State W) (resp : Response) → bool_value plan.protect ≡ false
    → bool_value state.protect ≡ true
    → has_error (resize_request pf.wide_int plan state).1 ≡ true
    → (set_protection h o (state_name d state) false s).0 ≡ ok tt
    → (update_resource h o pf d plan state s).0 ≡ ok resp
    → resp.state ≡ some state
unfolding update_resource update_named unprotected reconfigure ◌>>=◌ attempt
update_stale h o pf d plan state s resp f g invalid removed e =
    (Leads-bind _ _ (adoption-NoError h o pf (state_name d state) plan state) kept).at _ resp tt
      (rw (f, g, removed) at e)
  where
    kept :
        (diags : List Diagnostic)
        → Leads
            (NoError h o pf diags)
            (resize_planned h o pf (state_name d state) plan state false diags)
            (λ r _. r.state ≡ some state)
    kept diags =
        unfold NoError resize_planned in
        Leads-given (λ n.
          rw (has_error-append diags (resize_request pf.wide_int plan state).1 n ∙ invalid)
            (Leads-pure _ (λ s _. refl)))
