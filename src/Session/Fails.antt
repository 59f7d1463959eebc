-- ===== src/Session/Fails.antt =====
-- What is known of the error that a method returns.
use terraform_provider_lima.Base.{
  ◌≡◌, refl, ap, ◌∙◌, subst, Bool, true, false, arith, if◌then◌else◌,
}
use terraform_provider_lima.Errors.{Err}
use terraform_provider_lima.Session.{
  State, M, Outcome, ok, err, hang, pure, raise, never, attempt, ◌>>=◌, continue,
}

pub record Fails {W A : Type 0} (Q : Err → Type 0) (m : M W A) : Type 0 where
  pub at : (s : State W) (e : Err) → (m s).0 ≡ err e → Q e

module _ {W A : Type 0} {Q : Err → Type 0} where
  pub Fails-pure : (a : A) → Fails Q (pure {W = W} a)
  unfolding pure
  Fails-pure a = record { at = λ s e x. absurd (ground arith) }

  pub Fails-raise : (e : Err) → Q e → Fails Q (raise {W = W} {A = A} e)
  unfolding raise
  Fails-raise e q = record { at = λ s e' x. let p : e ≡ e' = ground arith in subst Q p q }

  pub Fails-never : Fails Q (never {W = W} {A = A})
  unfolding never
  Fails-never = record { at = λ s e x. absurd (ground arith) }

  pub Fails-attempt : (m : M W A) → Fails Q (attempt m)
  unfolding attempt
  Fails-attempt m = record { at = λ s e x. absurd (ground arith) }

  pub Fails-if : (b : Bool) (m n : M W A) → Fails Q m → Fails Q n → Fails Q (if b then m else n)
  Fails-if true m n k l = k
  Fails-if false m n k l = l

module _ {W A B : Type 0} {Q : Err → Type 0} where
  pub Fails-bind :
      (m : M W A) (f : A → M W B) → Fails Q m → ((a : A) → Fails Q (f a)) → Fails Q (m >>= f)
  unfolding ◌>>=◌
  Fails-bind m f k l = record { at = λ s e x. continues s e (m s).0 refl x }
    where
      continues :
          (s : State W) (e : Err) (o : Outcome A)
          → (m s).0 ≡ o
          → (continue o f (m s).1).0 ≡ err e
          → Q e
      continues s e (ok a) p x = (l a).at (m s).1 e x
      continues s e (err y) p x = let q : y ≡ e = ground arith in k.at s e (p ∙ ap err q)
      continues s e hang p x = absurd (ground arith)
