-- ===== src/Service/Create/Ends.antt =====
-- `Service.Create` of internal/lima/lifecycle.go: its end under a deadline.
use terraform_provider_lima.Base.{◌≢◌, refl, Bool, true, false, arith, if◌then◌else◌}
use terraform_provider_lima.Errors.{Err}
use terraform_provider_lima.Locks.{home_key}
use terraform_provider_lima.Session.{
  Host, State, M, Outcome, ok, err, hang, Result, value, fault, lock,
}
use terraform_provider_lima.Session.Ends.{
  HasDeadline, Returns, Returns-pure, Returns-attempt, Returns-if, Returns-bind, inspect-Returns,
  issue-Returns, lock-Returns, with_lock-Returns,
}
use terraform_provider_lima.Poll.{PollOptions}
use terraform_provider_lima.Service.Ends.{
  exists-Returns, wait_for_status-Returns, start_locked-Returns,
}
use terraform_provider_lima.Service.Create.{
  CreateParams, CreateResult, Created, or_return_case, or_return, Setup, recheck_setup,
  after_home_lock, await_shared_setup, finish_create, failed_create, after_create, create_absent,
  create_unlocked, create_instance, create_with, service_create,
}

module _ {W : Type 0} (h : Host W) (deadline : HasDeadline h) (o : PollOptions) where
  or_return-Returns :
      {A : Type 0} (res : CreateResult) (m : M W A) (next : A → M W Created)
      → Returns h m
      → ((a : A) → Returns h (next a))
      → Returns h (or_return res m next)
  unfolding or_return
  or_return-Returns {A} res m next k l = Returns-bind h _ _ (Returns-attempt h m k) go
    where
      go : (r : Result A) → Returns h (or_return_case res next r)
      go (value a) = unfold or_return_case in l a
      go (fault e) = unfold or_return_case in Returns-pure h _

  finish_create-Returns : (p : CreateParams) → Returns h (finish_create h o p)
  unfolding finish_create
  finish_create-Returns p =
      or_return-Returns _ _ _ (wait_for_status-Returns h deadline o _ _ _) λ _.
        or_return-Returns _ _ _
          (Returns-if h _ _ _ (start_locked-Returns h deadline o _) (Returns-pure h tt))
          λ _.
            or_return-Returns _ _ _
              (Returns-if h _ _ _ (issue-Returns h deadline _) (Returns-pure h tt))
              λ _. or_return-Returns _ _ _ (inspect-Returns h deadline _) λ inst. Returns-pure h _

  failed_create-Returns : (e : Err) (r : Result Bool) → Returns h (failed_create h o e r)
  unfolding failed_create
  failed_create-Returns e (value true) = Returns-pure h _
  failed_create-Returns e (value false) = Returns-pure h _
  failed_create-Returns e (fault x) = Returns-pure h _

  after_create-Returns :
      (p : CreateParams) (r : Result (Unit {0})) → Returns h (after_create h o p r)
  unfolding after_create
  after_create-Returns p (value _) = finish_create-Returns p
  after_create-Returns p (fault e) =
      Returns-bind h _ _ (Returns-attempt h _ (exists-Returns h deadline o p.name))
        (failed_create-Returns e)

  create_instance-Returns : (p : CreateParams) → Returns h (create_instance h o p)
  unfolding create_instance create_unlocked create_absent
  create_instance-Returns p =
      or_return-Returns _ _ _
        (with_lock-Returns h deadline _ _ (
          or_return-Returns _ _ _ (exists-Returns h deadline o p.name) λ taken.
            Returns-if h _ _ _ (Returns-pure h _) (
              or_return-Returns _ _ _
                (Returns-if h _ _ _ (issue-Returns h deadline _) (Returns-pure h tt))
                λ _.
                  Returns-bind h _ _ (Returns-attempt h _ (issue-Returns h deadline _))
                    (after_create-Returns p))))
        (λ r. Returns-pure h r)

  abbrev Ready : Outcome Setup → Type 0
  Ready r = r ≢ hang

  if_Ready :
      (b : Bool) (x y : Outcome Setup × State W)
      → Ready x.0
      → Ready y.0
      → Ready (if b then x else y).0
  if_Ready true x y p q = p
  if_Ready false x y p q = q

  await-Ready : (s : State W) → Ready (await_shared_setup h o s).0
  unfolding await_shared_setup recheck_setup
  await-Ready s =
      if_Ready s.ready _ _ (λ e. ground arith)
        (after (lock h home_key s).0 (lock h home_key s).1
          ((lock-Returns h deadline home_key).returns s))
    where
      after : (r : Outcome (Unit {0})) (s' : State W) → r ≢ hang → Ready (after_home_lock r s').0
      after (ok _) s' n = if_Ready s'.ready _ _ (λ e. ground arith) (λ e. ground arith)
      after (err e) s' n = λ x. ground arith
      after hang s' n = absurd (n refl)

  -- Under a context with a deadline, `Create` returns, whatever the host answers.
  pub service_create_returns : (p : CreateParams) (s : State W) → (service_create h o p s).0 ≢ hang
  unfolding service_create
  service_create_returns p s =
      after (await_shared_setup h o s).0 (await_shared_setup h o s).1 (await-Ready s)
    where
      after : (r : Outcome Setup) (s' : State W) → Ready r → (create_with h o p r s').0 ≢ hang
      after (ok setup) s' n = (create_instance-Returns p).returns s'
      after (err e) s' n = λ x. ground arith
      after hang s' n = absurd (n refl)
