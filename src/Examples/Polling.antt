-- ===== src/Examples/Polling.antt =====
-- The theorems on internal/lima/poll.go in the sandbox.
use terraform_provider_lima.Base.{◌≡◌, ◌≢◌, ◌≤◌, refl, true, false, none, arith, eqb}
use terraform_provider_lima.Session.{State, M, ok, hang, attempt, ◌>>=◌, pure, sleep}
use terraform_provider_lima.Poll.{PollResult, poll, poll_loop, on_checked, on_slept, with_defaults}
use terraform_provider_lima.Poll.Keeps.{poll_succeeds}
use terraform_provider_lima.Sandbox.{Sandbox, sandbox_host, sandbox_options, at_rest}

-- Done when no sleep is left.
abbrev until_spent : M Sandbox PollResult
until_spent s = (ok (record { done = eqb s.world.budget 0; observed = "waiting" }), s)

-- Never done.
abbrev not_yet : M Sandbox PollResult
not_yet s = (ok (record { done = false; observed = "stopped" }), s)

spent : (poll sandbox_host sandbox_options "test" "spent" until_spent (at_rest none none)).0 ≡ ok tt
unfolding poll poll_loop on_checked on_slept with_defaults attempt ◌>>=◌ pure sleep
spent = refl

until_spent_done :
    (s : State Sandbox) (r : PollResult)
    → (until_spent s).0 ≡ ok r
    → r.done ≡ true
    → s.world.budget ≡ 0
until_spent_done s r e d = ground arith

poll_succeeds_example :
    (poll sandbox_host sandbox_options "test" "spent" until_spent
      (at_rest none none)).1.world.budget
    ≡ 0
poll_succeeds_example =
    poll_succeeds sandbox_host sandbox_options "test" "spent" until_spent (λ s. s.world.budget ≡ 0)
      until_spent_done (at_rest none none) spent

not_yet_returns : (s : State Sandbox) → (not_yet s).0 ≢ hang
not_yet_returns s e = ground arith

not_yet_spends :
    (s : State Sandbox) → sandbox_host.attempts (not_yet s).1.world ≤ sandbox_host.attempts s.world
not_yet_spends s = omega arith
