-- ===== src/Poll/Ends.antt =====
-- `Poll` of internal/lima/poll.go: its errors and its end.
use terraform_provider_lima.Base.{ℕ, zero, suc, ◌≤◌, ◌<◌, ◌≡◌, ◌≢◌, refl, ◌⊎◌, String, false, arith}
use terraform_provider_lima.Errors.{Err, timeout, is_cancellation}
use terraform_provider_lima.Session.{
  Host, State, M, Outcome, ok, err, hang, value, pure, raise, attempt, ◌>>=◌, continue, settle,
  sleep,
}
use terraform_provider_lima.Session.Fails.{Fails}
use terraform_provider_lima.Session.Rules.{Keeps}
use terraform_provider_lima.Session.Ends.{HasDeadline, Returns, left}
use terraform_provider_lima.Poll.Keeps.{poll-Keeps}
use terraform_provider_lima.Poll.{
  PollOptions, Cadence, PollResult, with_defaults, next_interval, last_seen, on_slept, on_checked,
  poll_loop, poll,
}

-- The error of a poll that no caller takes for its own deadline.
abbrev pub Reported : String → String → Err → Type 0
Reported operation want e =
    (is_cancellation e ≡ false)
    ⊎ ((last : String) × (cause : Err) × (e ≡ timeout operation want last cause))

module _ {W : Type 0} (h : Host W) (operation want : String) (check : M W PollResult)
    (checks_return : (s : State W) → (check s).0 ≢ hang)
    (checks_count : (s : State W) → h.attempts (check s).1.world ≤ h.attempts s.world)
    (waits_count : (d : ℕ) (w : W)
      → (h.sleep d w).0 ≡ value tt
      → h.attempts (h.sleep d w).1 < h.attempts w) where
  round_returns :
      (c : Cadence) (fuel : ℕ) (rest : ℕ → String → M W (Unit {0}))
      → ((i : ℕ) (last : String) (s : State W)
          → h.attempts s.world < fuel
          → (rest i last s).0 ≢ hang)
      → (i : ℕ) (last : String) (s : State W) → h.attempts s.world < suc fuel
      → (o : Outcome PollResult) → (check s).0 ≡ o
      → (continue (settle o) (on_checked h c operation want check rest i last) (check s).1).0 ≢ hang
  unfolding on_checked on_slept ◌>>=◌ attempt raise pure sleep
  round_returns c fuel rest k i last s lt (ok r) p =
      let s' = (sleep h i (check s).1).1 in
      ground (
        arith,
        k (next_interval c i) (last_seen last r) s',
        checks_count s,
        waits_count i (check s).1.world,
      )
  round_returns c fuel rest k i last s lt (err e) p = ground arith
  round_returns c fuel rest k i last s lt hang p = absurd (checks_return s p)

  poll_loop_returns :
      (c : Cadence) (fuel i : ℕ) (last : String) (s : State W)
      → h.attempts s.world < fuel
      → (poll_loop h c operation want check fuel i last s).0 ≢ hang
  unfolding poll_loop ◌>>=◌ attempt
  poll_loop_returns c zero i last s lt = absurd (omega arith)
  poll_loop_returns c (suc fuel) i last s lt =
      round_returns c fuel (poll_loop h c operation want check fuel) (poll_loop_returns c fuel) i
        last s lt (check s).0 refl

  -- If a check returns, and a wait that ends takes one of the attempts that the deadline leaves,
  -- then `Poll` returns.
  pub poll_returns : (o : PollOptions) (s : State W) → (poll h o operation want check s).0 ≢ hang
  unfolding poll
  poll_returns o s =
      poll_loop_returns (with_defaults o) (suc (h.attempts s.world)) _ "" s (omega arith)

module _ {W : Type 0} (h : Host W) (deadline : HasDeadline h) where
  Within : (n : ℕ) → State W → Type 0
  Within n s = left h s ≤ n

  poll_spends :
      (operation want : String) (check : M W PollResult) (o : PollOptions) (s : State W)
      → Returns h check
      → left h (poll h o operation want check s).1 ≤ left h s
  unfolding Within
  poll_spends operation want check o s k =
      (poll-Keeps h (Within (left h s)) waits check checks operation want o).at s (omega arith)
    where
      waits : (d : ℕ) → Keeps (Within (left h s)) (sleep h d)
      waits d = record {
        at = λ t v. unfold sleep in omega (arith, deadline.sleep_spends d t.world);
      }

      checks : Keeps (Within (left h s)) check
      checks = record { at = λ t v. omega (arith, k.spends t) }

  pub poll-Returns :
      (operation want : String) (check : M W PollResult) (o : PollOptions)
      → Returns h check
      → Returns h (poll h o operation want check)
  poll-Returns operation want check o k = record {
    returns = λ s. poll_returns h operation want check k.returns k.spends deadline.sleep_counts o s;
    spends = λ s. poll_spends operation want check o s k;
  }
