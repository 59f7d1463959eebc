-- ===== src/Service/Create/Done.antt =====
-- `Service.Create` of internal/lima/lifecycle.go: the result of a success.
use terraform_provider_lima.Base.{String, ◌≡◌, refl, Bool, true, false, none, some, arith}
use terraform_provider_lima.Errors.{Err}
use terraform_provider_lima.Instance.{Instance}
use terraform_provider_lima.Locks.{instance_key}
use terraform_provider_lima.Session.{
  Host, State, M, Outcome, ok, err, hang, Result, value, fault, inspect, unlock,
}
use terraform_provider_lima.Session.Leads.{
  Leads, Anything, Caught, Leads-pure, Leads-attempt, Leads-bind, Leads-anything, Leads-if,
  Leads-with_lock,
}
use terraform_provider_lima.Session.Observed.{Leads-inspect}
use terraform_provider_lima.Session.Discipline.{latest}
use terraform_provider_lima.Poll.{PollOptions}
use terraform_provider_lima.Service.Create.{
  CreateParams, CreateResult, Created, or_return_case, or_return, Setup, nothing, home_locked,
  release_setup, await_shared_setup, finish_create, failed_create, after_create, create_absent,
  create_unlocked, create_instance, create_with, service_create,
}

-- A result without an error is registered, and a fact holds of its instance.
abbrev pub Delivered : {W : Type 0} → (Instance → State W → Type 0) → Created → State W → Type 0
Delivered Q (res, none) s =
    (inst : Instance) × Q inst s × (res ≡ (record { instance_of = some inst; registered = true }))
Delivered Q (res, some e) s = Unit

module _ {W A : Type 0} {pre : State W → Type 0} {mid : A → State W → Type 0}
    (Q : Instance → State W → Type 0) where
  Leads-or_return :
      (res : CreateResult) (m : M W A) (next : A → M W Created)
      → Leads pre m mid
      → ((a : A) → Leads (mid a) (next a) (Delivered Q))
      → Leads pre (or_return res m next) (Delivered Q)
  unfolding or_return
  Leads-or_return res m next l f = Leads-bind _ _ (Leads-attempt m l) go
    where
      go : (r : Result A) → Leads (Caught mid r) (or_return_case res next r) (Delivered Q)
      go (value a) = unfold or_return_case in f a
      go (fault e) = unfold or_return_case in Leads-pure _ (λ s v. tt)

-- A fact about an instance that an inspection of its name establishes, and that no change of the
-- locks undoes.
pub record Inspected {W : Type 0} (h : Host W) (name : String) (Q : Instance → State W → Type 0)
    : Type 0 where
  pub found : Leads Anything (inspect h name) Q
  pub stable : (inst : Instance) (k : String) (s : State W) → Q inst s → Q inst (unlock k s)
  pub stable_ready : (inst : Instance) (s : State W) → Q inst s → Q inst (record s { ready = true })

module _ {W : Type 0} (h : Host W) (o : PollOptions) (p : CreateParams)
    (Q : Instance → State W → Type 0) (q : Inspected h p.name Q) where
  Delivered-unlock :
      (k : String) (c : Created) (s : State W) → Delivered Q c s → Delivered Q c (unlock k s)
  Delivered-unlock k (res, none) s (inst, v, e) = (inst, q.stable inst k s v, e)
  Delivered-unlock k (res, some e) s v = tt

  Delivered-ready :
      (c : Created) (s : State W) → Delivered Q c s → Delivered Q c (record s { ready = true })
  Delivered-ready (res, none) s (inst, v, e) = (inst, q.stable_ready inst s v, e)
  Delivered-ready (res, some e) s v = tt

  Delivered-release :
      (setup : Setup) (created : Bool) (c : Created) (s : State W)
      → Delivered Q c s
      → Delivered Q c (release_setup setup created s)
  unfolding release_setup
  Delivered-release nothing created c s v = v
  Delivered-release home_locked true c s v = Delivered-unlock _ c _ (Delivered-ready c s v)
  Delivered-release home_locked false c s v = Delivered-unlock _ c s v

  finish_create_done : Leads Anything (finish_create h o p) (Delivered Q)
  unfolding finish_create
  finish_create_done = Leads-or_return Q _ _ _ (Leads-anything _) λ _.
      Leads-or_return Q _ _ _ (Leads-anything _) λ _.
        Leads-or_return Q _ _ _ (Leads-anything _)
          λ _. Leads-or_return Q _ _ _ q.found λ inst. Leads-pure _ (λ s l. (inst, l, refl))

  failed_create_done :
      (e : Err) (r : Result Bool) → Leads Anything (failed_create h o e r) (Delivered Q)
  unfolding failed_create
  failed_create_done e (value true) = Leads-pure _ (λ s l. tt)
  failed_create_done e (value false) = Leads-pure _ (λ s l. tt)
  failed_create_done e (fault x) = Leads-pure _ (λ s l. tt)

  after_create_done : (r : Result (Unit {0})) → Leads Anything (after_create h o p r) (Delivered Q)
  unfolding after_create
  after_create_done (value _) = finish_create_done
  after_create_done (fault e) = Leads-bind _ _ (Leads-anything _) (failed_create_done e)

  create_unlocked_done : Leads Anything (create_unlocked h o p) (Delivered Q)
  unfolding create_unlocked create_absent
  create_unlocked_done = Leads-or_return Q _ _ _ (Leads-anything _) λ taken.
      Leads-if taken _ _ (λ _. Leads-pure _ (λ s l. tt))
        λ _.
          Leads-or_return Q _ _ _ (Leads-anything _)
            λ _. Leads-bind _ _ (Leads-anything _) after_create_done

  create_instance_done : Leads Anything (create_instance h o p) (Delivered Q)
  unfolding create_instance
  create_instance_done =
      Leads-or_return Q _ _ _
        (Leads-with_lock h (instance_key p.name) _ (Delivered-unlock (instance_key p.name))
          create_unlocked_done)
        λ r. Leads-pure r (λ s v. v)

  create_with_done :
      (r : Outcome Setup) (s : State W) (c : Created)
      → (create_with h o p r s).0 ≡ ok c
      → Delivered Q c (create_with h o p r s).1
  create_with_done (ok setup) s c e =
      Delivered-release setup _ c _ (create_instance_done.at s c tt e)
  create_with_done (err x) s (res, some y) e = tt
  create_with_done (err x) s (res, none) e = absurd (ground arith)
  create_with_done hang s c e = absurd (ground arith)

  pub create_delivers :
      (s : State W) (c : Created)
      → (service_create h o p s).0 ≡ ok c
      → Delivered Q c (service_create h o p s).1
  unfolding service_create
  create_delivers s c e =
      create_with_done (await_shared_setup h o s).0 (await_shared_setup h o s).1 c e

seen_last-Inspected :
    {W : Type 0} (h : Host W) (name : String)
    → Inspected h name (λ inst s. latest name s.trace ≡ some (value inst))
unfolding unlock
seen_last-Inspected h name = record {
  found = Leads-inspect h name;
  stable = λ inst k s v. v;
  stable_ready = λ inst s v. v;
}

-- When `Create` succeeds, its result is registered and holds the instance exactly as the last
-- inspection found it, after the last command on the instance.
pub service_create_done :
    {W : Type 0} (h : Host W) (o : PollOptions) (p : CreateParams) (s : State W)
    → (res : CreateResult) → (service_create h o p s).0 ≡ ok (res, none)
    → (inst : Instance) × (latest p.name (service_create h o p s).1.trace ≡ some (value inst))
      × (res ≡ (record { instance_of = some inst; registered = true }))
service_create_done h o p s res e =
    create_delivers h o p _ (seen_last-Inspected h p.name) s (res, none) e
