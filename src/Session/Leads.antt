-- ===== src/Session/Leads.antt =====
-- What is known when a method has returned a value: from a fact about the state before, a fact about
-- the value and the state after.
use terraform_provider_lima.Base.{
  ◌≡◌, refl, ap, ◌∙◌, Bool, true, false, String, arith, if◌then◌else◌,
}
use terraform_provider_lima.Errors.{Err}
use terraform_provider_lima.Session.{
  Host, State, M, Outcome, ok, err, hang, Result, value, fault, pure, raise, never, attempt, settle,
  ◌>>=◌, continue, lock, with_lock, run_locked, unlock,
}

pub record Leads {W A : Type 0} (pre : State W → Type 0) (m : M W A) (post : A → State W → Type 0)
    : Type 0 where
  pub at : (s : State W) (a : A) → pre s → (m s).0 ≡ ok a → post a (m s).1

-- No fact.
abbrev pub Anything : {W : Type 0} → State W → Type 0
Anything s = Unit

-- A fact about the value of a method that may have failed.
abbrev pub Caught : {W A : Type 0} → (A → State W → Type 0) → Result A → State W → Type 0
Caught post (value a) s = post a s
Caught post (fault e) s = Unit

module _ {W A : Type 0} {pre : State W → Type 0} where
  pub Leads-anything : (m : M W A) → Leads pre m (λ a s. Unit)
  Leads-anything m = record { at = λ s a v e. tt }

module _ {W A : Type 0} {pre : State W → Type 0} {post : A → State W → Type 0} where
  pub Leads-pure : (a : A) → ((s : State W) → pre s → post a s) → Leads pre (pure a) post
  unfolding pure
  Leads-pure a k = record { at = λ s b v e. returned s b v (ground arith) }
    where
      returned : (s : State W) (b : A) → pre s → a ≡ b → post b s
      returned s b v e = rw (← e) (k s v)

  pub Leads-raise : (e : Err) → Leads pre (raise e) post
  unfolding raise
  Leads-raise e = record { at = λ s b v x. absurd (ground arith) }

  pub Leads-from : (m : M W A) → Leads Anything m post → Leads pre m post
  Leads-from m k = record { at = λ s a v e. k.at s a tt e }

  pub Leads-if :
      (b : Bool) (m n : M W A)
      → (b ≡ true → Leads pre m post)
      → (b ≡ false → Leads pre n post)
      → Leads pre (if b then m else n) post
  Leads-if true m n k l = k refl
  Leads-if false m n k l = l refl

  pub Leads-never : Leads pre never post
  unfolding never
  Leads-never = record { at = λ s b v x. absurd (ground arith) }

  pub Leads-attempt : (m : M W A) → Leads pre m post → Leads pre (attempt m) (Caught post)
  unfolding attempt
  Leads-attempt m k = record { at = λ s r v e. caught s v (m s).0 refl r e }
    where
      caught :
          (s : State W)
          → pre s
          → (o : Outcome A) → (m s).0 ≡ o
          → (r : Result A) → settle o ≡ ok r
          → Caught post r (m s).1
      caught s v (ok a) f (value b) e = let p : a ≡ b = ground arith in k.at s b v (f ∙ ap ok p)
      caught s v o f (fault x) e = tt
      caught s v (err x) f (value b) e = absurd (ground arith)
      caught s v hang f (value b) e = absurd (ground arith)

module _ {W A B : Type 0} {pre : State W → Type 0} {mid : A → State W → Type 0}
    {post : B → State W → Type 0} where
  pub Leads-bind :
      (m : M W A) (f : A → M W B)
      → Leads pre m mid
      → ((a : A) → Leads (mid a) (f a) post)
      → Leads pre (m >>= f) post
  unfolding ◌>>=◌
  Leads-bind m f k l = record { at = λ s b v e. continues s b v (m s).0 refl e }
    where
      continues :
          (s : State W) (b : B)
          → pre s
          → (o : Outcome A) → (m s).0 ≡ o
          → (continue o f (m s).1).0 ≡ ok b
          → post b (continue o f (m s).1).1
      continues s b v (ok a) p e = (l a).at (m s).1 b (k.at s a v p) e
      continues s b v (err x) p e = absurd (ground arith)
      continues s b v hang p e = absurd (ground arith)

-- The lock changes neither the value nor the world; `post` must not read what it changes.
module _ {W A : Type 0} (h : Host W) {post : A → State W → Type 0} where
  pub Leads-with_lock :
      (k : String) (m : M W A)
      → ((a : A) (s : State W) → post a s → post a (unlock k s))
      → Leads Anything m post
      → Leads Anything (with_lock h k m) post
  unfolding with_lock
  Leads-with_lock k m stable l = record { at = λ s b v e. runs (lock h k s).0 (lock h k s).1 b e }
    where
      runs :
          (o : Outcome (Unit {0})) (s : State W) (b : A)
          → (run_locked k m o s).0 ≡ ok b
          → post b (run_locked k m o s).1
      runs (ok _) s b e = stable b (m s).1 (l.at s b tt e)
      runs (err x) s b e = absurd (ground arith)
      runs hang s b e = absurd (ground arith)
