-- ===== src/Session/Ends.antt =====
-- Methods that return: they do not hang, and they give the deadline no more time.
use terraform_provider_lima.Base.{
  ℕ, ◌≤◌, ◌<◌, ◌≡◌, ◌≢◌, refl, String, Bool, true, false, arith, if◌then◌else◌,
}
use terraform_provider_lima.Errors.{Err}
use terraform_provider_lima.Session.{
  Host, State, M, Outcome, ok, err, hang, value, Command, pure, raise, attempt, ◌>>=◌, continue,
  inspect, resolve_template, issue, lock, run_locked, with_lock, unlock,
}

-- A context with a deadline: no call of the host gives it more time, and a wait between two polls
-- that ends without an error takes one of the sleeps that were left.
pub record HasDeadline {W : Type 0} (h : Host W) : Type 0 where
  pub inspect_spends : (n : String) (w : W) → h.attempts (h.inspect n w).1 ≤ h.attempts w
  pub resolve_spends : (n : String) (w : W) → h.attempts (h.resolve_template n w).1 ≤ h.attempts w
  pub mutate_spends : (c : Command) (w : W) → h.attempts (h.mutate c w).1 ≤ h.attempts w
  pub wait_spends : (k : String) (w : W) → h.attempts (h.wait k w).1 ≤ h.attempts w
  pub sleep_spends : (d : ℕ) (w : W) → h.attempts (h.sleep d w).1 ≤ h.attempts w
  pub sleep_counts :
      (d : ℕ) (w : W) → (h.sleep d w).0 ≡ value tt → h.attempts (h.sleep d w).1 < h.attempts w

abbrev pub left : {W : Type 0} → Host W → State W → ℕ
left h s = h.attempts s.world

pub record Returns {W A : Type 0} (h : Host W) (m : M W A) : Type 0 where
  pub returns : (s : State W) → (m s).0 ≢ hang
  pub spends : (s : State W) → left h (m s).1 ≤ left h s

module _ {W A : Type 0} (h : Host W) where
  pub Returns-pure : (a : A) → Returns h (pure a)
  unfolding pure
  Returns-pure a = record { returns = λ s e. ground arith; spends = λ s. ground arith }

  pub Returns-raise : (e : Err) → Returns h (raise {A = A} e)
  unfolding raise
  Returns-raise e = record { returns = λ s e. ground arith; spends = λ s. ground arith }

  pub Returns-attempt : (m : M W A) → Returns h m → Returns h (attempt m)
  unfolding attempt
  Returns-attempt m k = record {
    returns = λ s e. ground (arith, k.returns s);
    spends = λ s. k.spends s;
  }

  pub Returns-if :
      (b : Bool) (m n : M W A) → Returns h m → Returns h n → Returns h (if b then m else n)
  Returns-if true m n k l = k
  Returns-if false m n k l = l

module _ {W A B : Type 0} (h : Host W) where
  pub Returns-bind :
      (m : M W A) (f : A → M W B) → Returns h m → ((a : A) → Returns h (f a)) → Returns h (m >>= f)
  unfolding ◌>>=◌
  Returns-bind m f k l = record {
    returns = λ s. goes (m s).0 (m s).1 (k.returns s);
    spends = λ s. costs s (m s).0 (m s).1 (k.spends s);
  }
    where
      goes : (o : Outcome A) (s : State W) → o ≢ hang → (continue o f s).0 ≢ hang
      goes (ok a) s n x = (l a).returns s x
      goes (err e) s n x = ground arith
      goes hang s n x = absurd (n refl)

      costs :
          (s : State W) (o : Outcome A) (s' : State W)
          → left h s' ≤ left h s
          → left h (continue o f s').1 ≤ left h s
      costs s (ok a) s' v = ground (arith, (l a).spends s')
      costs s (err e) s' v = v
      costs s hang s' v = v

module _ {W : Type 0} (h : Host W) (deadline : HasDeadline h) where
  pub inspect-Returns : (name : String) → Returns h (inspect h name)
  unfolding inspect
  inspect-Returns name = record {
    returns = λ s e. ground arith;
    spends = λ s. deadline.inspect_spends name s.world;
  }

  pub issue-Returns : (c : Command) → Returns h (issue h c)
  unfolding issue
  issue-Returns c = record {
    returns = λ s e. ground arith;
    spends = λ s. deadline.mutate_spends c s.world;
  }

  pub resolve_template-Returns : (ref : String) → Returns h (resolve_template h ref)
  unfolding resolve_template
  resolve_template-Returns ref = record {
    returns = λ s e. ground arith;
    spends = λ s. deadline.resolve_spends ref s.world;
  }

  pub lock-Returns : (k : String) → Returns h (lock h k)
  unfolding lock
  lock-Returns k = record {
    returns = λ s e. ground arith;
    spends = λ s. ground (arith, deadline.wait_spends k s.world);
  }

  pub with_lock-Returns :
      {A : Type 0} (k : String) (m : M W A) → Returns h m → Returns h (with_lock h k m)
  unfolding with_lock unlock
  with_lock-Returns {A} k m v = record {
    returns = λ s. goes (lock h k s).0 (lock h k s).1 ((lock-Returns k).returns s);
    spends = λ s. costs s (lock h k s).0 (lock h k s).1 ((lock-Returns k).spends s);
  }
    where
      goes : (o : Outcome (Unit {0})) (s : State W) → o ≢ hang → (run_locked k m o s).0 ≢ hang
      goes (ok _) s n x = v.returns s x
      goes (err e) s n x = ground arith
      goes hang s n x = absurd (n refl)

      costs :
          (s : State W) (o : Outcome (Unit {0})) (s' : State W)
          → left h s' ≤ left h s
          → left h (run_locked k m o s').1 ≤ left h s
      costs s (ok _) s' u = ground (arith, v.spends s')
      costs s (err e) s' u = u
      costs s hang s' u = u
