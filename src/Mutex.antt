-- ===== src/Mutex.antt =====
-- `KeyedMutex` of internal/lima/locks.go, for the goroutines that use one key: the entries of other
-- keys are other objects, and `mu` makes each of its critical sections one step. An entry is an
-- address of a heap, since a goroutine keeps the entry it found while the table may drop the key.
pub mod Counts
pub mod Kept
pub mod Exclusion
use terraform_provider_lima.Base.{
  ℕ, zero, suc, ◌+◌, ◌-◌, Bool, true, false, ◌≡◌, Option, none, some, List, [], ◌∷◌, eqb,
  if◌then◌else◌,
}

-- `tokens` is the number of values in the channel `ch`, which holds one at most.
pub record LockEntry : Type 0 where
  pub tokens : ℕ
  pub refs : ℕ

-- `current` is the entry of the key in `locks`; `next` is the next free address.
pub record LockTable : Type 0 where
  pub current : Option ℕ
  pub heap : ℕ → LockEntry
  pub next : ℕ

-- Where a goroutine is: outside of Lock, at the `select`, with the lock, or between the two
-- statements of the unlock function. The entry is the variable `e`.
pub data Goroutine : Type 0 where
  outside : Goroutine
  waiting holding releasing : ℕ → Goroutine

abbrev pub set_entry : (ℕ → LockEntry) → ℕ → LockEntry → ℕ → LockEntry
set_entry heap a e b = if eqb a b then e else heap b

-- The critical section of Lock.
abbrev pub enter_at : LockTable → Option ℕ → LockTable × ℕ
enter_at t (some a) =
    let e = t.heap a in (record t { heap = set_entry t.heap a (record e { refs = e.refs + 1 }) }, a)
enter_at t none = (
  record {
    current = some t.next;
    heap = set_entry t.heap t.next (record { tokens = 1; refs = 1 });
    next = suc t.next;
  },
  t.next,
)

unfoldable pub enter : LockTable → LockTable × ℕ
enter t = enter_at t t.current

unfoldable pub set_tokens : LockTable → ℕ → ℕ → LockTable
set_tokens t a n = record t { heap = set_entry t.heap a (record (t.heap a) { tokens = n }) }

-- The critical section of `release`.
unfoldable pub drop_ref : LockTable → ℕ → LockTable
drop_ref t a =
    let e = t.heap a in
    let left = record t { heap = set_entry t.heap a (record e { refs = e.refs - 1 }) } in
    if eqb (e.refs - 1) 0 then record left { current = none } else left

-- What a goroutine may do next. A send on the full channel blocks.
pub data Action : Type 0 where
  enters receives cancels sends drops : Action

unfoldable pub act : Action → Goroutine → LockTable → Option (Goroutine × LockTable)
act enters outside t = let (t', a) = enter t in some (waiting a, t')
act receives (waiting a) t =
    if eqb (t.heap a).tokens 0
    then none
    else some (holding a, set_tokens t a ((t.heap a).tokens - 1))
act cancels (waiting a) t = some (outside, drop_ref t a)
act sends (holding a) t =
    if eqb (t.heap a).tokens 0 then some (releasing a, set_tokens t a 1) else none
act drops (releasing a) t = some (outside, drop_ref t a)
act _ _ t = none

pub record System : Type 0 where
  pub goroutines : List Goroutine
  pub table : LockTable

abbrev pub get_elem? : List Goroutine → ℕ → Option Goroutine
get_elem? [] i = none
get_elem? (g ∷ gs) zero = some g
get_elem? (g ∷ gs) (suc i) = get_elem? gs i

abbrev pub replace : List Goroutine → ℕ → Goroutine → List Goroutine
replace [] i new = []
replace (g ∷ gs) zero new = new ∷ gs
replace (g ∷ gs) (suc i) new = g ∷ replace gs i new

abbrev pub acted : System → ℕ → Option (Goroutine × LockTable) → Option System
acted s i none = none
acted s i (some (g, t)) = some (record { goroutines = replace s.goroutines i g; table = t })

abbrev pub step_of : System → ℕ → Action → Option Goroutine → Option System
step_of s i a none = none
step_of s i a (some g) = acted s i (act a g s.table)

-- The i-th goroutine does the action, if it can.
unfoldable pub step : System → ℕ → Action → Option System
step s i a = step_of s i a (get_elem? s.goroutines i)

abbrev pub all_outside : ℕ → List Goroutine
all_outside zero = []
all_outside (suc n) = outside ∷ all_outside n

-- Nobody has called Lock yet.
abbrev pub initial : ℕ → (ℕ → LockEntry) → System
initial n heap = record {
  goroutines = all_outside n;
  table = record { current = none; heap = heap; next = 0 };
}

-- What any interleaving of the goroutines can bring about.
pub data Reachable (n : ℕ) (heap : ℕ → LockEntry) : System → Type 0 where
  started : Reachable n heap (initial n heap)
  stepped :
      {s t : System}
      → Reachable n heap s
      → (i : ℕ) (a : Action) → step s i a ≡ some t
      → Reachable n heap t
