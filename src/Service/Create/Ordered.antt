-- ===== src/Service/Create/Ordered.antt =====
-- `Service.Create` of internal/lima/lifecycle.go, with the shared setup: the order of the trace.
use terraform_provider_lima.Base.{
  String, ◌≡◌, refl, Bool, true, false, List, [], ◌∷◌, contains_text, if◌then◌else◌,
}
use terraform_provider_lima.Errors.{Err}
use terraform_provider_lima.Locks.{instance_key, home_key}
use terraform_provider_lima.Session.{
  Host, State, M, Outcome, ok, err, hang, Result, value, fault, validate, create, protect, lock,
}
use terraform_provider_lima.Session.Rules.{
  Keeps, Keeps-pure, Keeps-attempt, Keeps-if, Keeps-bind, inspect-Orderly, Taken, lock-Orderly,
  unlock-Orderly, with_lock-Orderly,
}
use terraform_provider_lima.Session.Leads.{Leads, Caught, Leads-attempt, Leads-anything}
use terraform_provider_lima.Session.Observed.{
  KeepsFrom, KeepsFrom-always, KeepsFrom-attempt, KeepsFrom-if, KeepsFrom-bind, KeepsFrom-then,
  KeepsFrom-issue, Keeps-KeepsFrom,
}
use terraform_provider_lima.Session.Discipline.{Orderly, is_ordered}
use terraform_provider_lima.Poll.{PollOptions}
use terraform_provider_lima.Service.Orderly.{
  exists-Orderly, wait_for_status-Orderly, start_locked-Orderly,
}
use terraform_provider_lima.Service.Ordered.{free_alone, free_after_home, covered_first}
use terraform_provider_lima.Service.Create.{
  CreateParams, CreateResult, Created, unregistered, partial, or_return_case, or_return, Setup,
  nothing, home_locked, release_setup, recheck_setup, after_home_lock, await_shared_setup,
  finish_create, failed_create, after_create, create_absent, create_unlocked, create_instance,
  create_with, service_create,
}
use terraform_provider_lima.Service.Create.Seen.{
  SeenAbsent, exists_absent, start_present, created_present, validated_absent,
}

module _ {W A : Type 0} {P pre : State W → Type 0} {mid : A → State W → Type 0} where
  KeepsFrom-or_return :
      (res : CreateResult) (m : M W A) (next : A → M W Created)
      → KeepsFrom P pre m
      → Leads pre m mid
      → ((a : A) → KeepsFrom P (mid a) (next a))
      → KeepsFrom P pre (or_return res m next)
  unfolding or_return
  KeepsFrom-or_return res m next k l f =
      KeepsFrom-then _ _ (KeepsFrom-attempt _ k) (Leads-attempt m l) go
    where
      go : (r : Result A) → KeepsFrom P (Caught mid r) (or_return_case res next r)
      go (value a) = unfold or_return_case in f a
      go (fault e) = unfold or_return_case in KeepsFrom-always _ (Keeps-pure _)

module _ {W : Type 0} (h : Host W) (o : PollOptions) where
  module _ {held : List String} (p : CreateParams)
      (covered : contains_text held (instance_key p.name) ≡ true) where
    finish_create-Orderly : Keeps (Orderly held) (finish_create h o p)
    unfolding finish_create
    finish_create-Orderly = Keeps-KeepsFrom _ (
        KeepsFrom-or_return partial _ _
          (KeepsFrom-always _ (wait_for_status-Orderly h o p.name _ _)) (created_present h o p)
          λ _.
            KeepsFrom-or_return partial _ _
              (KeepsFrom-always _
                (Keeps-if p.start _ _ (start_locked-Orderly h o p.name covered) (Keeps-pure tt)))
              (start_present h o p)
              λ _.
                KeepsFrom-or_return partial _ _
                  (KeepsFrom-if p.protect _ _
                    (λ _. KeepsFrom-issue h (protect p.name) covered (λ s v. v))
                    (λ _. KeepsFrom-always _ (Keeps-pure tt)))
                  (Leads-anything _)
                  λ _.
                    KeepsFrom-or_return partial _ _ (KeepsFrom-always _ (inspect-Orderly h p.name))
                      (Leads-anything _) λ inst. KeepsFrom-always _ (Keeps-pure _))

    failed_create-Orderly :
        (e : Err) (r : Result Bool) → Keeps (Orderly held) (failed_create h o e r)
    unfolding failed_create
    failed_create-Orderly e (value true) = Keeps-pure _
    failed_create-Orderly e (value false) = Keeps-pure _
    failed_create-Orderly e (fault x) = Keeps-pure _

    after_create-Orderly : (r : Result (Unit {0})) → Keeps (Orderly held) (after_create h o p r)
    unfolding after_create
    after_create-Orderly (value _) = finish_create-Orderly
    after_create-Orderly (fault e) =
        Keeps-bind _ _ (Keeps-attempt _ (exists-Orderly h o p.name)) (failed_create-Orderly e)

    create_absent-Orderly : KeepsFrom (Orderly held) (SeenAbsent p.name) (create_absent h o p)
    unfolding create_absent
    create_absent-Orderly =
        KeepsFrom-or_return unregistered _ _
          (KeepsFrom-if p.validate _ _
            (λ _. KeepsFrom-issue h (validate p.document) refl (λ s v. refl))
            (λ _. KeepsFrom-always _ (Keeps-pure tt)))
          (validated_absent h o p)
          λ _.
            KeepsFrom-bind _ _
              (KeepsFrom-attempt _
                (KeepsFrom-issue h (create p.name p.document) covered (λ s v. v)))
              after_create-Orderly

    create_unlocked-Orderly : Keeps (Orderly held) (create_unlocked h o p)
    unfolding create_unlocked
    create_unlocked-Orderly = Keeps-KeepsFrom _ (
        KeepsFrom-or_return unregistered _ _ (KeepsFrom-always _ (exists-Orderly h o p.name))
          (exists_absent h o p.name)
          λ taken.
            KeepsFrom-if taken _ _ (λ _. KeepsFrom-always _ (Keeps-pure _))
              (λ e. record { at = λ s v a. create_absent-Orderly.at s v (a e) }))

  create_instance-Orderly :
      {held : List String} (p : CreateParams)
      → is_ordered held (instance_key p.name) ≡ true
      → Keeps (Orderly held) (create_instance h o p)
  unfolding create_instance
  create_instance-Orderly p free = Keeps-KeepsFrom _ (
      KeepsFrom-or_return unregistered _ _
        (KeepsFrom-always _ (
          with_lock-Orderly h (instance_key p.name) _ free
            (create_unlocked-Orderly p (covered_first p.name _))))
        (Leads-anything _) (λ r. KeepsFrom-always _ (Keeps-pure r)))

  abbrev Prepared : Outcome Setup → State W → Type 0
  Prepared (ok nothing) s = Orderly [] s
  Prepared (ok home_locked) s = Orderly (home_key ∷ []) s
  Prepared (err e) s = Orderly [] s
  Prepared hang s = ⊥

  if_Prepared :
      (b : Bool) (x y : Outcome Setup × State W)
      → Prepared x.0 x.1
      → Prepared y.0 y.1
      → Prepared (if b then x else y).0 (if b then x else y).1
  if_Prepared true x y p q = p
  if_Prepared false x y p q = q

  recheck-Prepared :
      (s : State W) → Orderly (home_key ∷ []) s → Prepared (recheck_setup s).0 (recheck_setup s).1
  unfolding recheck_setup
  recheck-Prepared s v = if_Prepared s.ready _ _ (unlock-Orderly h home_key s v) v

  await-Prepared :
      (s : State W)
      → Orderly [] s
      → Prepared (await_shared_setup h o s).0 (await_shared_setup h o s).1
  unfolding await_shared_setup
  await-Prepared s v = if_Prepared s.ready _ _ v (
      after (lock h home_key s).0 (lock h home_key s).1
        (lock-Orderly h home_key s (unfold home_key in refl) v))
    where
      after :
          (r : Outcome (Unit {0})) (s' : State W)
          → Taken [] home_key r s'
          → Prepared (after_home_lock r s').0 (after_home_lock r s').1
      after (ok _) s' v = recheck-Prepared s' v
      after (err e) s' v = v
      after hang s' v = v

  release-Orderly :
      (created : Bool) (s : State W)
      → Orderly (home_key ∷ []) s
      → Orderly [] (release_setup home_locked created s)
  unfolding release_setup
  release-Orderly true s v =
      unlock-Orderly h home_key (record s { ready = true })
        (record { holds = v.holds; orderly = v.orderly })
  release-Orderly false s v = unlock-Orderly h home_key s v

  pub service_create-Orderly : (p : CreateParams) → Keeps (Orderly []) (service_create h o p)
  unfolding service_create
  service_create-Orderly p = record {
    at =
        λ s v. after (await_shared_setup h o s).0 (await_shared_setup h o s).1 (await-Prepared s v);
  }
    where
      after :
          (r : Outcome Setup) (s : State W) → Prepared r s → Orderly [] (create_with h o p r s).1
      after (ok nothing) s v =
          unfold release_setup in (create_instance-Orderly p (free_alone p.name)).at s v
      after (ok home_locked) s v =
          release-Orderly _ _ ((create_instance-Orderly p (free_after_home p.name)).at s v)
      after (err e) s v = v
      after hang s v = absurd v
