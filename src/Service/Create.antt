-- ===== src/Service/Create.antt =====
-- `Service.Create` and `awaitSharedSetup` of internal/lima/lifecycle.go.
pub mod Seen
pub mod Ordered
pub mod Ends
pub mod Done
use terraform_provider_lima.Base.{
  String, Bool, true, false, Option, none, some, List, [], ◌∷◌, if◌then◌else◌,
}
use terraform_provider_lima.Errors.{Err, already_exists}
use terraform_provider_lima.Instance.{Instance, running, stopped}
use terraform_provider_lima.Locks.{instance_key, home_key}
use terraform_provider_lima.Session.{
  Host, State, M, Outcome, ok, err, hang, Result, value, fault, validate, create, protect, pure,
  raise, attempt, ◌>>=◌, inspect, issue, lock, unlock, with_lock,
}
use terraform_provider_lima.Poll.{PollOptions}
use terraform_provider_lima.Service.{exists, wait_for_status, start_locked}

pub record CreateParams : Type 0 where
  pub name : String
  pub document : String
  pub start : Bool
  pub protect : Bool
  pub validate : Bool

-- `instance` is the zero value, here `none`, until the last step.
pub record CreateResult : Type 0 where
  pub instance_of : Option Instance
  pub registered : Bool

-- (CreateResult, error)
abbrev pub Created : Type 0
Created = CreateResult × Option Err

abbrev pub unregistered : CreateResult
unregistered = record { instance_of = none; registered = false }

abbrev pub partial : CreateResult
partial = record { instance_of = none; registered = true }

-- if err != nil { return res, err }
unfoldable pub or_return_case :
    {W A : Type 0} → CreateResult → (A → M W Created) → Result A → M W Created
or_return_case res next (value a) = next a
or_return_case res next (fault e) = pure (res, some e)

unfoldable pub or_return : {W A : Type 0} → CreateResult → M W A → (A → M W Created) → M W Created
or_return res m next = attempt m >>= or_return_case res next

abbrev pub only_if : {W : Type 0} → Bool → M W (Unit {0}) → M W (Unit {0})
only_if b m = if b then m else pure tt

-- The lock of the home is held until a create succeeded, or it was not needed.
pub data Setup : Type 0 where
  nothing home_locked : Setup

-- The returned function of `awaitSharedSetup`.
unfoldable pub release_setup : {W : Type 0} → Setup → Bool → State W → State W
release_setup nothing created s = s
release_setup home_locked created s =
    unlock home_key (if created then record s { ready = true } else s)

-- Another create may have finished the setup while this one waited.
unfoldable pub recheck_setup : {W : Type 0} → State W → Outcome Setup × State W
recheck_setup s = if s.ready then (ok nothing, unlock home_key s) else (ok home_locked, s)

abbrev pub after_home_lock : {W : Type 0} → Outcome (Unit {0}) → State W → Outcome Setup × State W
after_home_lock (ok _) s = recheck_setup s
after_home_lock (err e) s = (err e, s)
after_home_lock hang s = (hang, s)

abbrev pub is_registered : Outcome Created → Bool
is_registered (ok (res, e)) = res.registered
is_registered (err e) = false
is_registered hang = false

module _ {W : Type 0} (h : Host W) (o : PollOptions) where
  unfoldable pub await_shared_setup : M W Setup
  await_shared_setup s =
      if s.ready then (ok nothing, s) else (let (r, s') = lock h home_key s in after_home_lock r s')

  -- After `client.Create` succeeded.
  unfoldable pub finish_create : CreateParams → M W Created
  finish_create p =
      or_return partial (wait_for_status h o p.name "creation" (stopped ∷ running ∷ [])) λ _.
        or_return partial (only_if p.start (start_locked h o p.name)) λ _.
          or_return partial (only_if p.protect (issue h (protect p.name))) λ _.
            or_return partial (inspect h p.name)
              λ inst. pure (record { instance_of = some inst; registered = true }, none)

  -- A create that failed may have registered the instance all the same.
  unfoldable pub failed_create : Err → Result Bool → M W Created
  failed_create e (value true) = pure (partial, some e)
  failed_create e (value false) = pure (unregistered, some e)
  failed_create e (fault _) = pure (unregistered, some e)

  unfoldable pub after_create : CreateParams → Result (Unit {0}) → M W Created
  after_create p (value _) = finish_create p
  after_create p (fault e) = attempt (exists h o p.name) >>= failed_create e

  unfoldable pub create_absent : CreateParams → M W Created
  create_absent p =
      or_return unregistered (only_if p.validate (issue h (validate p.document)))
        λ _. attempt (issue h (create p.name p.document)) >>= after_create p

  unfoldable pub create_unlocked : CreateParams → M W Created
  create_unlocked p =
      or_return unregistered (exists h o p.name) λ taken.
        if taken then pure (unregistered, some (already_exists p.name)) else create_absent p

  unfoldable pub create_instance : CreateParams → M W Created
  create_instance p =
      or_return unregistered (with_lock h (instance_key p.name) (create_unlocked p)) pure

  abbrev pub create_with : CreateParams → Outcome Setup → State W → Outcome Created × State W
  create_with p (ok setup) s =
      let (r, s') = create_instance p s in (r, release_setup setup (is_registered r) s')
  create_with p (err e) s = (ok (unregistered, some e), s)
  create_with p hang s = (hang, s)

  unfoldable pub service_create : CreateParams → M W Created
  service_create p s = let (r, s') = await_shared_setup s in create_with p r s'
