-- ===== src/Mutex/Exclusion.antt =====
-- `KeyedMutex` of internal/lima/locks.go: exclusion and progress over the interleavings.
use terraform_provider_lima.Base.{
  ℕ, ◌≡◌, ◌≢◌, ◌↔◌, ◌≤◌, refl, true, false, Option, none, some, arith, eqb,
}
use terraform_provider_lima.Mutex.{
  LockEntry, outside, waiting, holding, receives, sends, act, System, get_elem?, step, Reachable,
}
use terraform_provider_lima.Mutex.Counts.{
  users, holders, users-split, holders-split, all_at-split, holders_le_users,
}
use terraform_provider_lima.Mutex.Kept.{Counted, Reachable-IsCounted}

-- In every interleaving of any number of goroutines, at most one of them holds the lock of the key,
-- and the table has an entry for the key exactly if some goroutine uses one.
pub lock_excludes :
    (n : ℕ) (heap : ℕ → LockEntry) (s : System)
    → Reachable n heap s
    → (holders s.goroutines ≤ 1) × ((s.table.current ≡ none) ↔ (users s.goroutines ≡ 0))
lock_excludes n heap s r = go s.table.current refl (Reachable-IsCounted n heap s r)
  where
    go :
        (c : Option ℕ)
        → s.table.current ≡ c
        → Counted s.goroutines c s.table.heap
        → (holders s.goroutines ≤ 1) × ((s.table.current ≡ none) ↔ (users s.goroutines ≡ 0))
    go none e v = (omega (arith, holders_le_users s.goroutines, v), ((λ _. v), (λ _. e)))
    go (some a) e v = ground (arith, e, v)

some_ne_none : {A : Type 0} {a : A} → some a ≡ none → ⊥
some_ne_none e = ground arith

module _ (s : System) (i a : ℕ) where
  -- Does the i-th goroutine wait with the token in the channel, or hold the lock with the channel
  -- empty?
  token_there :
      (c : Option ℕ)
      → Counted s.goroutines c s.table.heap
      → get_elem? s.goroutines i ≡ some (waiting a)
      → holders s.goroutines ≡ 0
      → eqb (s.table.heap a).tokens 0 ≡ false
  token_there none v at free =
      let (u, u') = users-split s.goroutines i (waiting a) outside at in
      absurd (omega (arith, u, v))
  token_there (some b) v at free =
      let (l, l') = all_at-split b s.goroutines i (waiting a) outside at in ground (arith, l)

  room_there :
      (c : Option ℕ)
      → Counted s.goroutines c s.table.heap
      → get_elem? s.goroutines i ≡ some (holding a)
      → eqb (s.table.heap a).tokens 0 ≡ true
  room_there none v at =
      let (u, u') = users-split s.goroutines i (holding a) outside at in
      absurd (omega (arith, u, v))
  room_there (some b) v at =
      let (l, l') = all_at-split b s.goroutines i (holding a) outside at in
      let (h, h') = holders-split s.goroutines i (holding a) outside at in ground (arith, l, h)

-- In every interleaving the holder can give the lock back without blocking: the channel has room.
pub holder_unblocked :
    (n : ℕ) (heap : ℕ → LockEntry) (s : System) (i a : ℕ)
    → Reachable n heap s
    → get_elem? s.goroutines i ≡ some (holding a)
    → step s i sends ≢ none
unfolding step act
holder_unblocked n heap s i a r at e =
    let room = room_there s i a s.table.current (Reachable-IsCounted n heap s r) at in
    some_ne_none (rw (at, room) at e)

-- In every interleaving, while nobody holds the lock, each waiting
-- goroutine can take it: the token is not lost, also when the table dropped an entry before.
pub waiter_unblocked :
    (n : ℕ) (heap : ℕ → LockEntry) (s : System) (i a : ℕ)
    → Reachable n heap s
    → get_elem? s.goroutines i ≡ some (waiting a)
    → holders s.goroutines ≡ 0
    → step s i receives ≢ none
unfolding step act
waiter_unblocked n heap s i a r at free e =
    let there = token_there s i a s.table.current (Reachable-IsCounted n heap s r) at free in
    some_ne_none (rw (at, there) at e)
