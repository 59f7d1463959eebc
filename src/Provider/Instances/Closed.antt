-- ===== src/Provider/Instances/Closed.antt =====
-- The handlers of internal/provider/instance_resource.go, by what they are built of: a property of
-- methods that the calls of the service have, and that is kept by `pure`, `>>=` and tests, is one of
-- the handlers.
use terraform_provider_lima.Base.{
  String, Bool, true, false, Option, none, some, List, if◌then◌else◌,
}
use terraform_provider_lima.Instance.{Instance, EditRequest}
use terraform_provider_lima.Session.{Host, M, Result, value, fault, pure, attempt, ◌>>=◌, inspect}
use terraform_provider_lima.Poll.{PollOptions}
use terraform_provider_lima.Service.Create.{CreateParams, Created, service_create}
use terraform_provider_lima.Service.Change.{
  ResizeParams, resize, set_protection, service_delete, TemplateMatch, verify_template,
}
use terraform_provider_lima.Provider.Diagnostics.{Diagnostic}
use terraform_provider_lima.Provider.Models.{InstanceModel}
use terraform_provider_lima.Provider.Document.{Platform, Rendered}
use terraform_provider_lima.Provider.Records.{ProviderData}
use terraform_provider_lima.Provider.Instances.{
  best_effort_instance, created, registered_despite, create_rendered, create_resource, read_found,
  read_resource, deleted, delete_resource, import_found, import_named, import_resource,
  create_handler, read_handler, delete_handler, import_handler,
}
use terraform_provider_lima.Provider.Instances.Update.{
  template_checked, verify_found, verify_adopted_template, adoption_diagnostics,
  record_applied_resize, finish_update, read_updated, reprotected, after_resize, resize_planned,
  reconfigure, unprotected, update_named, update_resource, update_handler,
}

-- The calls of the service are made with their error in hand.
pub record Closed {W : Type 0} (h : Host W) (o : PollOptions) (P : (A : Type 0) → M W A → Type 0)
    : Type 1 where
  pub by_pure : {A : Type 0} (a : A) → P _ (pure a)
  pub by_bind :
      {A B : Type 0} (m : M W A) (f : A → M W B) → P _ m → ((a : A) → P _ (f a)) → P _ (m >>= f)
  pub by_inspect : (name : String) → P _ (attempt (inspect h name))
  pub by_create : (p : CreateParams) → P _ (service_create h o p)
  pub by_resize : (p : ResizeParams) → P _ (attempt (resize h o p))
  pub by_protect : (name : String) (want : Bool) → P _ (attempt (set_protection h o name want))
  pub by_delete : (name : String) → P _ (attempt (service_delete h o name))
  pub by_verify : (ref : String) (i : Instance) → P _ (attempt (verify_template h o ref i))

module _ {W : Type 0} (h : Host W) (o : PollOptions) (pf : Platform)
    (P : (A : Type 0) → M W A → Type 0) (c : Closed h o P) where
  by_if : {A : Type 0} (b : Bool) (m n : M W A) → P _ m → P _ n → P _ (if b then m else n)
  by_if true m n p q = p
  by_if false m n p q = q

  by_best_effort : (name : String) → P _ (best_effort_instance h o pf name)
  unfolding best_effort_instance
  by_best_effort name = c.by_bind _ _ (c.by_inspect name) (λ r. c.by_pure _)

  module _ (d : ProviderData) where
    by_created :
        (plan : InstanceModel) (r : Rendered) (name : String) (res : Created)
        → P _ (created h o pf d plan r name res)
    unfolding created registered_despite
    by_created plan r name (res, none) = c.by_pure _
    by_created plan r name (res, some e) =
        by_if res.registered _ _ (c.by_bind _ _ (by_best_effort name) (λ inst. c.by_pure _))
          (c.by_pure _)

    by_create_rendered :
        (plan : InstanceModel) (name : String) (r : Option Rendered × List Diagnostic)
        → P _ (create_rendered h o pf d plan name r)
    unfolding create_rendered
    by_create_rendered plan name (none, diags) = c.by_pure _
    by_create_rendered plan name (some r, diags) =
        c.by_bind _ _ (c.by_create _) (by_created plan r name)

    by_read_found :
        (state : InstanceModel) (name : String) (r : Result Instance)
        → P _ (read_found h o pf d state name r)
    unfolding read_found
    by_read_found state name (value inst) = c.by_pure _
    by_read_found state name (fault e) = by_if _ _ _ (c.by_pure _) (c.by_pure _)

    by_deleted :
        (state : InstanceModel) (name : String) (r : Result (Unit {0}))
        → P _ (deleted h o pf d state name r)
    unfolding deleted
    by_deleted state name (value _) = c.by_pure _
    by_deleted state name (fault e) = by_if _ _ _ (c.by_pure _) (c.by_pure _)

    by_import_found : (actual : String) (r : Result Instance) → P _ (import_found h o pf d actual r)
    unfolding import_found
    by_import_found actual (value inst) = c.by_pure _
    by_import_found actual (fault e) = by_if _ _ _ (c.by_pure _) (c.by_pure _)

    by_import_named : (actual : String) → P _ (import_named h o pf d actual)
    unfolding import_named
    by_import_named actual =
        by_if _ _ _ (c.by_pure _) (c.by_bind _ _ (c.by_inspect actual) (by_import_found actual))

  pub by_create_handler :
      (d : Option ProviderData) (plan : InstanceModel) → P _ (create_handler h o pf d plan)
  unfolding create_handler create_resource
  by_create_handler none plan = c.by_pure _
  by_create_handler (some d) plan = by_create_rendered d plan _ _

  pub by_read_handler :
      (d : Option ProviderData) (state : InstanceModel) → P _ (read_handler h o pf d state)
  unfolding read_handler read_resource
  by_read_handler none state = c.by_pure _
  by_read_handler (some d) state = c.by_bind _ _ (c.by_inspect _) (by_read_found d state _)

  pub by_delete_handler :
      (d : Option ProviderData) (state : InstanceModel) → P _ (delete_handler h o pf d state)
  unfolding delete_handler delete_resource
  by_delete_handler none state = c.by_pure _
  by_delete_handler (some d) state = c.by_bind _ _ (c.by_delete _) (by_deleted d state _)

  pub by_import_handler : (d : Option ProviderData) (id : String) → P _ (import_handler h o pf d id)
  unfolding import_handler import_resource
  by_import_handler none id = c.by_pure _
  by_import_handler (some d) id = by_import_named d _

  by_template_checked : (r : Result TemplateMatch) → P _ (template_checked h o pf r)
  unfolding template_checked
  by_template_checked (value m) = c.by_pure _
  by_template_checked (fault e) = c.by_pure _

  by_verify_found : (template : String) (r : Result Instance) → P _ (verify_found h o pf template r)
  unfolding verify_found
  by_verify_found template (fault e) = c.by_pure _
  by_verify_found template (value inst) =
      c.by_bind _ _ (c.by_verify template inst) by_template_checked

  by_adoption :
      (name : String) (plan state : InstanceModel)
      → P _ (adoption_diagnostics h o pf name plan state)
  unfolding adoption_diagnostics verify_adopted_template
  by_adoption name plan state =
      by_if _ _ _ (c.by_bind _ _ (c.by_inspect name) (by_verify_found _)) (c.by_pure _)

  module _ (name : String) (plan state : InstanceModel) where
    by_finish_update :
        (protection : Bool) (diags : List Diagnostic) (r : Result Instance)
        → P _ (finish_update h o pf name plan state protection diags r)
    unfolding finish_update
    by_finish_update protection diags (fault e) = c.by_pure _
    by_finish_update protection diags (value inst) = c.by_pure _

    by_read_updated :
        (protection : Bool) (diags : List Diagnostic)
        → P _ (read_updated h o pf name plan state protection diags)
    unfolding read_updated
    by_read_updated protection diags =
        c.by_bind _ _ (c.by_inspect name) (by_finish_update protection diags)

    by_reprotected :
        (diags : List Diagnostic) (r : Result (Unit {0}))
        → P _ (reprotected h o pf name plan state diags r)
    unfolding reprotected
    by_reprotected diags (value _) = by_read_updated true diags
    by_reprotected diags (fault e) = c.by_pure _

    by_after_resize :
        (req : EditRequest) (protection : Bool) (diags : List Diagnostic)
        → (r : Result (Unit {0})) → P _ (after_resize h o pf name plan state req protection diags r)
    unfolding after_resize record_applied_resize
    by_after_resize req protection diags (value _) =
        by_if _ _ _ (c.by_bind _ _ (c.by_protect name true) (by_reprotected diags))
          (by_read_updated protection diags)
    by_after_resize req protection diags (fault e) =
        by_if _ _ _ (c.by_bind _ _ (by_best_effort name) (λ inst. c.by_pure _)) (c.by_pure _)

    by_resize_planned :
        (protection : Bool) (diags : List Diagnostic)
        → P _ (resize_planned h o pf name plan state protection diags)
    unfolding resize_planned
    by_resize_planned protection diags =
        by_if _ _ _ (c.by_pure _) (c.by_bind _ _ (c.by_resize _) (by_after_resize _ _ _))

    by_reconfigure : (protection : Bool) → P _ (reconfigure h o pf name plan state protection)
    unfolding reconfigure
    by_reconfigure protection =
        c.by_bind _ _ (by_adoption name plan state) (by_resize_planned protection)

    by_unprotected : (r : Result (Unit {0})) → P _ (unprotected h o pf name plan state r)
    unfolding unprotected
    by_unprotected (value _) = by_reconfigure false
    by_unprotected (fault e) = c.by_pure _

    by_update_named : P _ (update_named h o pf name plan state)
    unfolding update_named
    by_update_named =
        by_if _ _ _ (c.by_bind _ _ (c.by_protect name false) by_unprotected) (by_reconfigure _)

  pub by_update_handler :
      (d : Option ProviderData) (plan state : InstanceModel)
      → P _ (update_handler h o pf d plan state)
  unfolding update_handler update_resource
  by_update_handler none plan state = c.by_pure _
  by_update_handler (some d) plan state = by_update_named _ plan state
