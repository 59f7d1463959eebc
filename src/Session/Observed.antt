-- ===== src/Session/Observed.antt =====
-- Invariants of methods that act on what they have just observed.
use terraform_provider_lima.Base.{
  String, ◌≡◌, refl, ap, ◌∙◌, Bool, true, false, some, List, arith, if◌then◌else◌, eq_refl,
}
use terraform_provider_lima.Session.{
  Host, State, M, Outcome, ok, err, hang, Result, value, fault, Command, attempt, ◌>>=◌, continue,
  lift_result, settle, inspect, inspect_disk, issue,
}
use terraform_provider_lima.Session.Leads.{Leads}
use terraform_provider_lima.Session.Rules.{
  Keeps, issue-Orderly, inspect-Orderly, inspect_disk-Orderly,
}
use terraform_provider_lima.Session.Discipline.{
  Orderly, latest, latest_disk, is_covered, is_justified,
}
use terraform_provider_lima.Instance.{Instance, Disk}

-- `m` keeps `P` from the states that `pre` holds of.
pub record KeepsFrom {W A : Type 0} (P pre : State W → Type 0) (m : M W A) : Type 0 where
  pub at : (s : State W) → P s → pre s → P (m s).1

module _ {W A : Type 0} {P : State W → Type 0} where
  pub Keeps-KeepsFrom : (m : M W A) → KeepsFrom P (λ s. Unit) m → Keeps P m
  Keeps-KeepsFrom m k = record { at = λ s v. k.at s v tt }

module _ {W A : Type 0} {P pre : State W → Type 0} where
  pub KeepsFrom-always : (m : M W A) → Keeps P m → KeepsFrom P pre m
  KeepsFrom-always m k = record { at = λ s v p. k.at s v }

  pub KeepsFrom-attempt : (m : M W A) → KeepsFrom P pre m → KeepsFrom P pre (attempt m)
  unfolding attempt
  KeepsFrom-attempt m k = record { at = λ s v p. k.at s v p }

  pub KeepsFrom-if :
      (b : Bool) (m n : M W A)
      → (b ≡ true → KeepsFrom P pre m)
      → (b ≡ false → KeepsFrom P pre n)
      → KeepsFrom P pre (if b then m else n)
  KeepsFrom-if true m n k l = k refl
  KeepsFrom-if false m n k l = l refl

module _ {W A B : Type 0} {P pre : State W → Type 0} where
  pub KeepsFrom-bind :
      (m : M W A) (f : A → M W B)
      → KeepsFrom P pre m
      → ((a : A) → Keeps P (f a))
      → KeepsFrom P pre (m >>= f)
  unfolding ◌>>=◌
  KeepsFrom-bind m f k l = record { at = λ s v p. continues (m s).0 (m s).1 (k.at s v p) }
    where
      continues : (o : Outcome A) (s : State W) → P s → P (continue o f s).1
      continues (ok a) s v = (l a).at s v
      continues (err e) s v = v
      continues hang s v = v

module _ {W : Type 0} (h : Host W) where
  latest-inspect :
      (name : String) (s : State W)
      → latest name (inspect h name s).1.trace ≡ some (h.inspect name s.world).0
  unfolding inspect
  latest-inspect name s = ground (arith, eq_refl name)

  pub latest-inspect_disk :
      (name : String) (s : State W)
      → latest_disk name (inspect_disk h name s).1.trace ≡ some (h.inspect_disk name s.world).0
  unfolding inspect_disk
  latest-inspect_disk name s = ground (arith, eq_refl name)

module _ {W : Type 0} {pre : State W → Type 0} (h : Host W) where
  pub Leads-inspect :
      (name : String)
      → Leads pre (inspect h name) (λ inst s. latest name s.trace ≡ some (value inst))
  unfolding inspect
  Leads-inspect name = record {
    at = λ s inst v e. latest-inspect h name s ∙ ap some (was (h.inspect name s.world).0 inst e);
  }
    where
      was : (r : Result Instance) (inst : Instance) → lift_result r ≡ ok inst → r ≡ value inst
      was (value i) inst e = ground arith
      was (fault x) inst e = absurd (ground arith)

  pub Leads-attempt_inspect :
      (name : String) → Leads pre (attempt (inspect h name)) (λ r s. latest name s.trace ≡ some r)
  unfolding inspect attempt
  Leads-attempt_inspect name = record {
    at = λ s r v e. latest-inspect h name s ∙ ap some (was (h.inspect name s.world).0 r e);
  }
    where
      was : (r r' : Result Instance) → settle (lift_result r) ≡ ok r' → r ≡ r'
      was (value i) r' e = ground arith
      was (fault x) r' e = ground arith

module _ {W A B : Type 0} {P pre : State W → Type 0} {mid : A → State W → Type 0} where
  -- The rest of the block knows what the first step leads to.
  pub KeepsFrom-then :
      (m : M W A) (f : A → M W B)
      → KeepsFrom P pre m
      → Leads pre m mid
      → ((a : A) → KeepsFrom P (mid a) (f a))
      → KeepsFrom P pre (m >>= f)
  unfolding ◌>>=◌
  KeepsFrom-then m f k g l = record { at = λ s v p. continues s p (m s).0 refl (k.at s v p) }
    where
      continues :
          (s : State W)
          → pre s
          → (o : Outcome A) → (m s).0 ≡ o
          → P (m s).1
          → P (continue o f (m s).1).1
      continues s p (ok a) e v = (l a).at (m s).1 v (g.at s a p e)
      continues s p (err x) e v = v
      continues s p hang e v = v

module _ {W : Type 0} {held : List String} (h : Host W) where
  pub KeepsFrom-issue :
      (c : Command)
      → is_covered held c ≡ true
      → {pre : State W → Type 0} → ((s : State W) → pre s → is_justified c s.trace ≡ true)
      → KeepsFrom (Orderly held) pre (issue h c)
  KeepsFrom-issue c covered j = record { at = λ s v p. issue-Orderly h c s covered (j s p) v }

  module _ {A : Type 0} where
    -- What follows an inspection knows its result.
    pub Keeps-inspect :
        (name : String) (k : Instance → M W A)
        → ((inst : Instance)
            → KeepsFrom (Orderly held) (λ s. latest name s.trace ≡ some (value inst)) (k inst))
        → Keeps (Orderly held) (inspect h name >>= k)
    unfolding ◌>>=◌ inspect
    Keeps-inspect name k f = record {
      at = λ s v.
          let s' = (inspect h name s).1 in
          known (h.inspect name s.world).0 s' ((inspect-Orderly h name).at s v)
            (latest-inspect h name s);
    }
      where
        known :
            (r : Result Instance) (s' : State W)
            → Orderly held s'
            → latest name s'.trace ≡ some r
            → Orderly held (continue (lift_result r) k s').1
        known (value inst) s' v l = (f inst).at s' v l
        known (fault e) s' v l = v

    pub Keeps-attempt_inspect :
        (name : String) (k : Result Instance → M W A)
        → ((r : Result Instance)
            → KeepsFrom (Orderly held) (λ s. latest name s.trace ≡ some r) (k r))
        → Keeps (Orderly held) (attempt (inspect h name) >>= k)
    unfolding ◌>>=◌ attempt inspect
    Keeps-attempt_inspect name k f = record {
      at = λ s v.
          let s' = (inspect h name s).1 in
          known (h.inspect name s.world).0 s' ((inspect-Orderly h name).at s v)
            (latest-inspect h name s);
    }
      where
        known :
            (r : Result Instance) (s' : State W)
            → Orderly held s'
            → latest name s'.trace ≡ some r
            → Orderly held (continue (settle (lift_result r)) k s').1
        known (value inst) s' v l = (f (value inst)).at s' v l
        known (fault e) s' v l = (f (fault e)).at s' v l

    pub Keeps-inspect_disk :
        (name : String) (k : Disk → M W A)
        → ((d : Disk)
            → KeepsFrom (Orderly held) (λ s. latest_disk name s.trace ≡ some (value d)) (k d))
        → Keeps (Orderly held) (inspect_disk h name >>= k)
    unfolding ◌>>=◌ inspect_disk
    Keeps-inspect_disk name k f = record {
      at = λ s v.
          let s' = (inspect_disk h name s).1 in
          known (h.inspect_disk name s.world).0 s' ((inspect_disk-Orderly h name).at s v)
            (latest-inspect_disk h name s);
    }
      where
        known :
            (r : Result Disk) (s' : State W)
            → Orderly held s'
            → latest_disk name s'.trace ≡ some r
            → Orderly held (continue (lift_result r) k s').1
        known (value d) s' v l = (f d).at s' v l
        known (fault e) s' v l = v

    pub Keeps-attempt_inspect_disk :
        (name : String) (k : Result Disk → M W A)
        → ((r : Result Disk)
            → KeepsFrom (Orderly held) (λ s. latest_disk name s.trace ≡ some r) (k r))
        → Keeps (Orderly held) (attempt (inspect_disk h name) >>= k)
    unfolding ◌>>=◌ attempt inspect_disk
    Keeps-attempt_inspect_disk name k f = record {
      at = λ s v.
          let s' = (inspect_disk h name s).1 in
          known (h.inspect_disk name s.world).0 s' ((inspect_disk-Orderly h name).at s v)
            (latest-inspect_disk h name s);
    }
      where
        known :
            (r : Result Disk) (s' : State W)
            → Orderly held s'
            → latest_disk name s'.trace ≡ some r
            → Orderly held (continue (settle (lift_result r)) k s').1
        known (value d) s' v l = (f (value d)).at s' v l
        known (fault e) s' v l = (f (fault e)).at s' v l
