-- ===== src/Poll.antt =====
-- internal/lima/poll.go. Durations are nanoseconds. The factor is a float64: `grow` stands for
-- `time.Duration(float64(interval) * Factor)`, after the default for a factor below 1.
pub mod Keeps
pub mod Ends
use terraform_provider_lima.Base.{
  ℕ, zero, suc, ◌*◌, min, ℤ, pos, negsuc, String, Bool, true, false, if◌then◌else◌, ◌==◌,
}
use terraform_provider_lima.Errors.{Err, timeout, is_cancellation}
use terraform_provider_lima.Session.{
  Host, State, M, Outcome, ok, err, hang, Result, value, fault, pure, raise, never, attempt, ◌>>=◌,
  sleep,
}

pub record PollOptions : Type 0 where
  pub interval : ℤ
  pub max_interval : ℤ
  pub grow : ℕ → ℕ

-- The options after `withDefaults`.
pub record Cadence : Type 0 where
  pub first : ℕ
  pub cap : ℕ
  pub grow : ℕ → ℕ

abbrev pub default_interval : ℕ
default_interval = 2 * 1_000_000_000

abbrev pub default_max_interval : ℕ
default_max_interval = 15 * 1_000_000_000

abbrev positive_or : ℤ → ℕ → ℕ
positive_or (pos zero) d = d
positive_or (pos (suc n)) d = suc n
positive_or (negsuc n) d = d

unfoldable pub with_defaults : PollOptions → Cadence
with_defaults o = record {
  first = positive_or o.interval default_interval;
  cap = positive_or o.max_interval default_max_interval;
  grow = o.grow;
}

pub record PollResult : Type 0 where
  pub done : Bool
  pub observed : String

-- A context error becomes a timeout that tells what was observed last.
unfoldable pub timed_out : String → String → String → Err → Err
timed_out operation want last e = if is_cancellation e then timeout operation want last e else e

abbrev pub last_seen : String → PollResult → String
last_seen last r = if r.observed == "" then last else r.observed

unfoldable pub next_interval : Cadence → ℕ → ℕ
next_interval c interval = min (c.grow interval) c.cap

module _ {W : Type 0} (h : Host W) (c : Cadence) (operation want : String)
    (check : M W PollResult) where
  -- After the wait between two checks; `rest` is the next round.
  unfoldable pub on_slept :
      (ℕ → String → M W (Unit {0})) → ℕ → String → Result (Unit {0}) → M W (Unit {0})
  on_slept rest interval last (fault e) = raise (timed_out operation want last e)
  on_slept rest interval last (value _) = rest (next_interval c interval) last

  unfoldable pub on_checked :
      (ℕ → String → M W (Unit {0})) → ℕ → String → Result PollResult → M W (Unit {0})
  on_checked rest interval last (fault e) = raise (timed_out operation want last e)
  on_checked rest interval last (value r) =
      if r.done
      then pure tt
      else attempt (sleep h interval) >>= on_slept rest interval (last_seen last r)

  -- The `for` loop; the fuel is the number of checks.
  unfoldable pub poll_loop : ℕ → ℕ → String → M W (Unit {0})
  poll_loop zero interval last = never
  poll_loop (suc fuel) interval last = attempt check >>= on_checked (poll_loop fuel) interval last

-- One check more than the sleeps that the deadline admits.
unfoldable pub poll :
    {W : Type 0} → Host W → PollOptions → String → String → M W PollResult → M W (Unit {0})
poll h o operation want check s =
    let c = with_defaults o in
    poll_loop h c operation want check (suc (h.attempts s.world)) c.first "" s
