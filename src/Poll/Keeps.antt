-- ===== src/Poll/Keeps.antt =====
-- `Poll` of internal/lima/poll.go: its invariants and its success, from those of the check.
use terraform_provider_lima.Base.{ℕ, zero, suc, ◌≡◌, refl, inl, inr, String, true, Bool-cases}
use terraform_provider_lima.Session.{Host, State, M, ok, Result, value, fault, sleep}
use terraform_provider_lima.Session.Leads.{
  Leads, Anything, Caught, Leads-pure, Leads-raise, Leads-never, Leads-attempt, Leads-bind,
  Leads-anything,
}
use terraform_provider_lima.Session.Rules.{
  Keeps, Keeps-pure, Keeps-raise, Keeps-never, Keeps-attempt, Keeps-bind, Keeps-if,
}
use terraform_provider_lima.Poll.{
  PollOptions, Cadence, PollResult, with_defaults, on_slept, on_checked, poll_loop, poll,
}

module _ {W : Type 0} (h : Host W) (P : State W → Type 0) (waits : (d : ℕ) → Keeps P (sleep h d))
    (check : M W PollResult) (checks : Keeps P check) (operation want : String) where
  on_slept-Keeps :
      (c : Cadence) (rest : ℕ → String → M W (Unit {0}))
      → ((interval : ℕ) (last : String) → Keeps P (rest interval last))
      → (interval : ℕ) (last : String) (r : Result (Unit {0}))
      → Keeps P (on_slept h c operation want check rest interval last r)
  unfolding on_slept
  on_slept-Keeps c rest k interval last (fault e) = Keeps-raise _
  on_slept-Keeps c rest k interval last (value _) = k _ last

  on_checked-Keeps :
      (c : Cadence) (rest : ℕ → String → M W (Unit {0}))
      → ((interval : ℕ) (last : String) → Keeps P (rest interval last))
      → (interval : ℕ) (last : String) (r : Result PollResult)
      → Keeps P (on_checked h c operation want check rest interval last r)
  unfolding on_checked
  on_checked-Keeps c rest k interval last (fault e) = Keeps-raise _
  on_checked-Keeps c rest k interval last (value r) =
      Keeps-if r.done _ _ (Keeps-pure tt)
        (Keeps-bind _ _ (Keeps-attempt _ (waits interval)) (on_slept-Keeps c rest k interval _))

  poll_loop-Keeps :
      (c : Cadence) (fuel interval : ℕ) (last : String)
      → Keeps P (poll_loop h c operation want check fuel interval last)
  unfolding poll_loop
  poll_loop-Keeps c zero interval last = Keeps-never
  poll_loop-Keeps c (suc fuel) interval last = Keeps-bind _ _ (Keeps-attempt _ checks) (
      on_checked-Keeps c (poll_loop h c operation want check fuel) (poll_loop-Keeps c fuel) interval
        last)

  -- What every check and every wait keeps, polling keeps.
  pub poll-Keeps : (o : PollOptions) → Keeps P (poll h o operation want check)
  unfolding poll
  poll-Keeps o = record {
    at = λ s v. (poll_loop-Keeps (with_defaults o) (suc (h.attempts s.world)) _ "").at s v;
  }

module _ {W : Type 0} (h : Host W) (operation want : String) (check : M W PollResult)
    (post : State W → Type 0) (done : Leads Anything check (λ r s. r.done ≡ true → post s)) where
  on_slept_done :
      (c : Cadence) (rest : ℕ → String → M W (Unit {0}))
      → ((interval : ℕ) (last : String) → Leads Anything (rest interval last) (λ _. post))
      → (interval : ℕ) (last : String) (r : Result (Unit {0}))
      → Leads Anything (on_slept h c operation want check rest interval last r) (λ _. post)
  unfolding on_slept
  on_slept_done c rest k interval last (fault e) = Leads-raise _
  on_slept_done c rest k interval last (value _) = k _ last

  on_checked_done :
      (c : Cadence) (rest : ℕ → String → M W (Unit {0}))
      → ((interval : ℕ) (last : String) → Leads Anything (rest interval last) (λ _. post))
      → (interval : ℕ) (last : String) (r : Result PollResult)
      → Leads
          (Caught (λ r s. r.done ≡ true → post s) r)
          (on_checked h c operation want check rest interval last r)
          (λ _. post)
  unfolding on_checked
  on_checked_done c rest k interval last (fault e) = Leads-raise _
  on_checked_done c rest k interval last (value r) = elim (Bool-cases r.done) [
    | inl e ↦ rw e (Leads-pure tt (λ s v. v refl))
    | inr e ↦ rw e (Leads-bind _ _ (Leads-anything _) (on_slept_done c rest k interval _))
  ]

  poll_loop_done :
      (c : Cadence) (fuel interval : ℕ) (last : String)
      → Leads Anything (poll_loop h c operation want check fuel interval last) (λ _. post)
  unfolding poll_loop
  poll_loop_done c zero interval last = Leads-never
  poll_loop_done c (suc fuel) interval last = Leads-bind _ _ (Leads-attempt check done) (
      on_checked_done c (poll_loop h c operation want check fuel) (poll_loop_done c fuel) interval
        last)

  -- Polling succeeds only by a check that is done.
  pub poll_done : (o : PollOptions) → Leads Anything (poll h o operation want check) (λ _. post)
  unfolding poll
  poll_done o = record {
    at = λ s a v e. (poll_loop_done (with_defaults o) (suc (h.attempts s.world)) _ "").at s a tt e;
  }

-- If whatever a check leaves behind when it says it is done has a property, then so has what a
-- successful poll leaves behind: a poll never succeeds because time ran out.
pub poll_succeeds :
    {W : Type 0} (h : Host W) (o : PollOptions) (operation want : String)
    → (check : M W PollResult) (post : State W → Type 0)
    → ((s : State W) (r : PollResult) → (check s).0 ≡ ok r → r.done ≡ true → post (check s).1)
    → (s : State W) → (poll h o operation want check s).0 ≡ ok tt
    → post (poll h o operation want check s).1
poll_succeeds h o operation want check post k s e =
    (poll_done h operation want check post (record { at = λ s r _ p d. k s r p d }) o).at s tt tt e
