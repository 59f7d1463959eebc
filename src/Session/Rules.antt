-- ===== src/Session/Rules.antt =====
-- Invariants of methods, by the way a method is built: with one rule each for the operations of the
-- monad, of the host and of the lock.
use terraform_provider_lima.Base.{
  ℕ, String, ◌≡◌, Bool, true, false, List, ◌∷◌, arith, if◌then◌else◌, eq_refl,
}
use terraform_provider_lima.Errors.{Err}
use terraform_provider_lima.Session.{
  Host, State, M, Outcome, ok, err, hang, Command, pure, raise, never, attempt, ◌>>=◌, continue,
  inspect, inspect_disk, list_instances, list_disks, resolve_template, issue, sleep, lock, unlock,
  run_locked, with_lock,
}
use terraform_provider_lima.Session.Discipline.{Orderly, is_ordered, is_covered, is_justified}

-- `m` keeps `P`, whether it returns a value, an error or nothing.
pub record Keeps {W A : Type 0} (P : State W → Type 0) (m : M W A) : Type 0 where
  pub at : (s : State W) → P s → P (m s).1

module _ {W A : Type 0} {P : State W → Type 0} where
  pub Keeps-pure : (a : A) → Keeps P (pure a)
  unfolding pure
  Keeps-pure a = record { at = λ s h. h }

  pub Keeps-raise : (e : Err) → Keeps P (raise {A = A} e)
  unfolding raise
  Keeps-raise e = record { at = λ s h. h }

  pub Keeps-never : Keeps P (never {A = A})
  unfolding never
  Keeps-never = record { at = λ s h. h }

  pub Keeps-attempt : (m : M W A) → Keeps P m → Keeps P (attempt m)
  unfolding attempt
  Keeps-attempt m k = record { at = λ s h. k.at s h }

  pub Keeps-if : (b : Bool) (m n : M W A) → Keeps P m → Keeps P n → Keeps P (if b then m else n)
  Keeps-if true m n km kn = km
  Keeps-if false m n km kn = kn

module _ {W A B : Type 0} {P : State W → Type 0} where
  pub Keeps-bind :
      (m : M W A) (f : A → M W B) → Keeps P m → ((a : A) → Keeps P (f a)) → Keeps P (m >>= f)
  unfolding ◌>>=◌
  Keeps-bind m f km kf = record { at = λ s h. continues (m s).0 (m s).1 (km.at s h) }
    where
      continues : (r : Outcome A) (s' : State W) → P s' → P (continue r f s').1
      continues (ok a) s' h = (kf a).at s' h
      continues (err e) s' h = h
      continues hang s' h = h

-- After an attempt to take a lock.
abbrev pub Taken : {W : Type 0} → List String → String → Outcome (Unit {0}) → State W → Type 0
Taken held k (ok _) s = Orderly (k ∷ held) s
Taken held k (err e) s = Orderly held s
Taken held k hang s = ⊥

module _ {W : Type 0} {held : List String} (h : Host W) where
  pub inspect-Orderly : (name : String) → Keeps (Orderly held) (inspect h name)
  unfolding inspect
  inspect-Orderly name = record { at = λ s v. ground arith }

  pub inspect_disk-Orderly : (name : String) → Keeps (Orderly held) (inspect_disk h name)
  unfolding inspect_disk
  inspect_disk-Orderly name = record { at = λ s v. ground arith }

  pub list_instances-Orderly : Keeps (Orderly held) (list_instances h)
  unfolding list_instances
  list_instances-Orderly = record { at = λ s v. ground arith }

  pub list_disks-Orderly : Keeps (Orderly held) (list_disks h)
  unfolding list_disks
  list_disks-Orderly = record { at = λ s v. ground arith }

  pub resolve_template-Orderly : (ref : String) → Keeps (Orderly held) (resolve_template h ref)
  unfolding resolve_template
  resolve_template-Orderly ref = record { at = λ s v. ground arith }

  pub sleep-Orderly : (d : ℕ) → Keeps (Orderly held) (sleep h d)
  unfolding sleep
  sleep-Orderly d = record { at = λ s v. ground arith }

  -- A command wants its lock and its observation.
  pub issue-Orderly :
      (c : Command) (s : State W)
      → is_covered held c ≡ true
      → is_justified c s.trace ≡ true
      → Orderly held s
      → Orderly held (issue h c s).1
  unfolding issue
  issue-Orderly c s covered justified v = ground arith

  pub lock-Orderly :
      (k : String) (s : State W)
      → is_ordered held k ≡ true
      → Orderly held s
      → Taken held k (lock h k s).0 (lock h k s).1
  unfolding lock
  lock-Orderly k s free v = ground arith

  pub unlock-Orderly : (k : String) (s : State W) → Orderly (k ∷ held) s → Orderly held (unlock k s)
  unfolding unlock
  unlock-Orderly k s v = ground (arith, eq_refl k)

  -- A lock that is free and in order is given back on every path.
  pub with_lock-Orderly :
      {A : Type 0} (k : String) (m : M W A)
      → is_ordered held k ≡ true
      → Keeps (Orderly (k ∷ held)) m
      → Keeps (Orderly held) (with_lock h k m)
  unfolding with_lock
  with_lock-Orderly {A} k m free km = record {
    at = λ s v. runs (lock h k s).0 (lock h k s).1 (lock-Orderly k s free v);
  }
    where
      runs :
          (r : Outcome (Unit {0})) (s' : State W)
          → Taken held k r s'
          → Orderly held (run_locked k m r s').1
      runs (ok _) s' v = unlock-Orderly k (m s').1 (km.at s' v)
      runs (err e) s' v = v
      runs hang s' v = absurd v
