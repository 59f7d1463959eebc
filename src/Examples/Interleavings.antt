-- ===== src/Examples/Interleavings.antt =====
-- The theorems on internal/lima/locks.go for two goroutines, and on internal/lima/version.go.
use terraform_provider_lima.Base.{ℕ, ◌≡◌, ◌≢◌, ◌↔◌, ◌≤◌, refl, Option, none, some}
use terraform_provider_lima.Mutex.{
  LockEntry, waiting, holding, enters, receives, System, get_elem?, step, initial, Reachable,
  started, stepped, act, enter, set_tokens,
}
use terraform_provider_lima.Mutex.Counts.{users, holders}
use terraform_provider_lima.Mutex.Exclusion.{lock_excludes, waiter_unblocked}
use terraform_provider_lima.Version.{Version}

abbrev no_heap : ℕ → LockEntry
no_heap a = record { tokens = 0; refs = 0 }

abbrev or_initial : Option System → System
or_initial none = initial 2 no_heap
or_initial (some s) = s

-- The first goroutine enters, the second enters, the first takes the token.
one_entered : System
one_entered = or_initial (step (initial 2 no_heap) 0 enters)

both_entered : System
both_entered = or_initial (step one_entered 1 enters)

one_holds : System
one_holds = or_initial (step both_entered 0 receives)

both_entered-Reachable : Reachable 2 no_heap both_entered
unfolding both_entered one_entered step act enter
both_entered-Reachable = stepped (stepped started 0 enters refl) 1 enters refl

one_holds-Reachable : Reachable 2 no_heap one_holds
unfolding one_holds both_entered one_entered step act enter set_tokens
one_holds-Reachable = stepped both_entered-Reachable 0 receives refl

first_holds : get_elem? one_holds.goroutines 0 ≡ some (holding 0)
unfolding one_holds both_entered one_entered step act enter set_tokens
first_holds = refl

second_waits : get_elem? both_entered.goroutines 1 ≡ some (waiting 0)
unfolding both_entered one_entered step act enter
second_waits = refl

nobody_holds : holders both_entered.goroutines ≡ 0
unfolding both_entered one_entered step act enter
nobody_holds = refl

lock_excludes_example :
    (holders one_holds.goroutines ≤ 1)
    × ((one_holds.table.current ≡ none) ↔ (users one_holds.goroutines ≡ 0))
lock_excludes_example = lock_excludes 2 no_heap one_holds one_holds-Reachable

waiter_unblocked_example : step both_entered 1 receives ≢ none
waiter_unblocked_example =
    waiter_unblocked 2 no_heap both_entered 1 0 both_entered-Reachable second_waits nobody_holds

abbrev too_old : Version
too_old = record { major = 1; minor = 2; patch = 1; pre = ""; raw = "limactl version 1.2.1" }
