-- ===== src/Provider/Instances/Traces.antt =====
-- What every handler of internal/provider/instance_resource.go does to the trace, and that it
-- answers.
use terraform_provider_lima.Base.{String, ◌≡◌, ◌≢◌, refl, ap, ◌∙◌, Option, List, [], ◌∷◌, arith}
use terraform_provider_lima.Errors.{Err}
use terraform_provider_lima.Session.{
  Host, State, M, Outcome, ok, err, hang, Result, value, fault, pure, attempt, settle, ◌>>=◌,
  continue,
}
use terraform_provider_lima.Session.Discipline.{Orderly}
use terraform_provider_lima.Session.Rules.{
  Keeps, Keeps-pure, Keeps-attempt, Keeps-bind, inspect-Orderly, resolve_template-Orderly,
}
use terraform_provider_lima.Session.Ends.{
  HasDeadline, Returns, Returns-pure, Returns-bind, inspect-Returns, resolve_template-Returns,
}
use terraform_provider_lima.Session.Fails.{Fails, Fails-pure, Fails-attempt, Fails-bind}
use terraform_provider_lima.Poll.{PollOptions}
use terraform_provider_lima.Service.Create.{
  CreateParams, Created, Setup, or_return, or_return_case, create_instance, unregistered,
  create_with, await_shared_setup, service_create,
}
use terraform_provider_lima.Service.Create.Ordered.{service_create-Orderly}
use terraform_provider_lima.Service.Create.Ends.{service_create_returns}
use terraform_provider_lima.Service.Change.{compare_template, verify_template}
use terraform_provider_lima.Service.Ordered.{
  resize-Orderly, set_protection-Orderly, service_delete-Orderly,
}
use terraform_provider_lima.Service.Ends.{
  resize-Returns, set_protection-Returns, service_delete-Returns,
}
use terraform_provider_lima.Provider.Models.{InstanceModel}
use terraform_provider_lima.Provider.Document.{Platform}
use terraform_provider_lima.Provider.Records.{ProviderData, Response}
use terraform_provider_lima.Provider.Instances.{
  create_handler, read_handler, delete_handler, import_handler,
}
use terraform_provider_lima.Provider.Instances.Update.{update_handler}
use terraform_provider_lima.Provider.Instances.Closed.{
  Closed, by_create_handler, by_read_handler, by_delete_handler, by_import_handler,
  by_update_handler,
}

module _ {W : Type 0} (h : Host W) (o : PollOptions) where
  abbrev KeepsOrder : (A : Type 0) → M W A → Type 0
  KeepsOrder A m = Keeps (Orderly []) m

  verify_template-Orderly :
      (ref : String) (locs : List String) → Keeps (Orderly []) (compare_template h o ref locs)
  unfolding compare_template
  verify_template-Orderly ref [] = Keeps-pure _
  verify_template-Orderly ref (loc ∷ locs) =
      Keeps-bind _ _ (resolve_template-Orderly h ref) (λ tmpl. Keeps-pure _)

  order-Closed : Closed h o KeepsOrder
  order-Closed = record {
    by_pure = λ a. Keeps-pure a;
    by_bind = λ m f k l. Keeps-bind m f k l;
    by_inspect = λ name. Keeps-attempt _ (inspect-Orderly h name);
    by_create = λ p. service_create-Orderly h o p;
    by_resize = λ p. Keeps-attempt _ (resize-Orderly h o p);
    by_protect = λ name want. Keeps-attempt _ (set_protection-Orderly h o name want);
    by_delete = λ name. Keeps-attempt _ (service_delete-Orderly h o name);
    by_verify = λ ref i. Keeps-attempt _ (unfold verify_template in verify_template-Orderly ref _);
  }

  -- A method that gives a value, from every state.
  Answers : (A : Type 0) → M W A → Type 0
  Answers A m = (s : State W) → (a : A) × ((m s).0 ≡ ok a)

  Answers-pure : {A : Type 0} (a : A) → Answers A (pure a)
  unfolding pure Answers
  Answers-pure a = λ s. (a, refl)

  Answers-bind :
      {A B : Type 0} (m : M W A) (f : A → M W B)
      → Answers A m
      → ((a : A) → Answers B (f a))
      → Answers B (m >>= f)
  unfolding ◌>>=◌ Answers
  Answers-bind {A} {B} m f k l = λ s. continues s (m s).0 (k s)
    where
      continues :
          (s : State W) (r : Outcome A)
          → (a : A) × (r ≡ ok a)
          → (b : B) × ((continue r f (m s).1).0 ≡ ok b)
      continues s r (a, e) =
          ((l a (m s).1).0, ap (λ x. (continue x f (m s).1).0) e ∙ (l a (m s).1).1)

  Answers-attempt : {A : Type 0} (m : M W A) → Returns h m → Answers (Result A) (attempt m)
  unfolding attempt Answers
  Answers-attempt {A} m k = λ s. settled (m s).0 (k.returns s)
    where
      settled : (r : Outcome A) → r ≢ hang → (x : Result A) × (settle r ≡ ok x)
      settled (ok a) n = (value a, refl)
      settled (err e) n = (fault e, refl)
      settled hang n = absurd (n refl)

  -- `Create` reports its errors in its result.
  create_instance-Fails : (p : CreateParams) → Fails (λ e. ⊥) (create_instance h o p)
  unfolding create_instance or_return
  create_instance-Fails p = Fails-bind _ _ (Fails-attempt _) reported
    where
      reported : (r : Result Created) → Fails {W = W} (λ e. ⊥) (or_return_case unregistered pure r)
      reported (value c) = unfold or_return_case in Fails-pure c
      reported (fault e) = unfold or_return_case in Fails-pure _

  no_error : (s : State W) (p : CreateParams) (e : Err) → (service_create h o p s).0 ≢ err e
  unfolding service_create
  no_error s p e = after (await_shared_setup h o s).0 (await_shared_setup h o s).1
    where
      after : (r : Outcome Setup) (s' : State W) → (create_with h o p r s').0 ≢ err e
      after (ok setup) s' x = (create_instance-Fails p).at s' e x
      after (err y) s' x = ground arith
      after hang s' x = ground arith

  service_create-Answers :
      HasDeadline h → (p : CreateParams) → Answers Created (service_create h o p)
  unfolding Answers
  service_create-Answers deadline p =
      λ s. answered s (service_create h o p s).0 refl (service_create_returns h deadline o p s)
    where
      answered :
          (s : State W) (r : Outcome Created)
          → (service_create h o p s).0 ≡ r
          → (service_create h o p s).0 ≢ hang
          → (c : Created) × ((service_create h o p s).0 ≡ ok c)
      answered s (ok c) e n = (c, e)
      answered s (err x) e n = absurd (no_error s p x e)
      answered s hang e n = absurd (n e)

  answer-Closed : HasDeadline h → Closed h o Answers
  answer-Closed deadline = record {
    by_pure = λ a. Answers-pure a;
    by_bind = λ m f k l. Answers-bind m f k l;
    by_inspect = λ name. Answers-attempt _ (inspect-Returns h deadline name);
    by_create = λ p. service_create-Answers deadline p;
    by_resize = λ p. Answers-attempt _ (resize-Returns h deadline o p);
    by_protect = λ name want. Answers-attempt _ (set_protection-Returns h deadline o name want);
    by_delete = λ name. Answers-attempt _ (service_delete-Returns h deadline o name);
    by_verify = λ ref i. Answers-attempt _ (unfold verify_template in compared-Returns ref _);
  }
    where
      compared-Returns :
          (ref : String) (locs : List String) → Returns h (compare_template h o ref locs)
      compared-Returns ref [] = unfold compare_template in Returns-pure h _
      compared-Returns ref (loc ∷ locs) =
          unfold compare_template in
          Returns-bind h _ _ (resolve_template-Returns h deadline ref) (λ tmpl. Returns-pure h _)

-- Whatever Lima answers and however a call of the service ends, each handler of the instance resource
-- that is called with no lock held and a trace in order leaves them so: an instance is changed only
-- under its lock and after an up-to-date observation that calls for the change, also over the several
-- calls of an update.
pub handlers_ordered :
    {W : Type 0} (h : Host W) (o : PollOptions) (pf : Platform) (d : Option ProviderData)
    → (plan state : InstanceModel) (id : String) (s : State W) → Orderly [] s
    → Orderly [] (create_handler h o pf d plan s).1
      × Orderly [] (read_handler h o pf d state s).1
      × Orderly [] (update_handler h o pf d plan state s).1
      × Orderly [] (delete_handler h o pf d state s).1
      × Orderly [] (import_handler h o pf d id s).1
handlers_ordered h o pf d plan state id s v =
    let c = order-Closed h o in
    (
      (by_create_handler h o pf _ c d plan).at s v,
      (by_read_handler h o pf _ c d state).at s v,
      (by_update_handler h o pf _ c d plan state).at s v,
      (by_delete_handler h o pf _ c d state).at s v,
      (by_import_handler h o pf _ c d id).at s v,
    )

pub handlers_answer :
    {W : Type 0} (h : Host W) (o : PollOptions)
    → HasDeadline h
    → (pf : Platform) (d : Option ProviderData) (plan state : InstanceModel) (id : String)
    → (s : State W)
    → ((r : Response) × ((create_handler h o pf d plan s).0 ≡ ok r))
      × ((r : Response) × ((read_handler h o pf d state s).0 ≡ ok r))
      × ((r : Response) × ((update_handler h o pf d plan state s).0 ≡ ok r))
      × ((r : Response) × ((delete_handler h o pf d state s).0 ≡ ok r))
      × ((r : Response) × ((import_handler h o pf d id s).0 ≡ ok r))
unfolding Answers
handlers_answer h o deadline pf d plan state id s =
    let c = answer-Closed h o deadline in
    (
      by_create_handler h o pf _ c d plan s,
      by_read_handler h o pf _ c d state s,
      by_update_handler h o pf _ c d plan state s,
      by_delete_handler h o pf _ c d state s,
      by_import_handler h o pf _ c d id s,
    )
