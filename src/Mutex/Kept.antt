-- ===== src/Mutex/Kept.antt =====
-- `KeyedMutex` of internal/lima/locks.go: the invariant of its users and of the token.
use terraform_provider_lima.Base.{
  ℕ, ◌+◌, ◌-◌, ◌≡◌, ◌<◌, refl, subst, Bool, true, false, Option, none, some, List, arith, eqb,
  if◌then◌else◌,
}
use terraform_provider_lima.Mutex.{
  LockEntry, LockTable, Goroutine, outside, waiting, holding, releasing, enter_at, enter,
  set_tokens, drop_ref, Action, enters, receives, cancels, sends, drops, act, System, get_elem?,
  replace, acted, step_of, step, Reachable, started, stepped,
}
use terraform_provider_lima.Mutex.Counts.{
  use_of, hold_of, only_at, users, holders, all_at, others, users-split, holders-split,
  all_at-split, users-all_outside, holders_le_users, all_at-unused,
}

-- The reference count is the number of users, all of one entry, and the token is in the channel or
-- with one holder. Without an entry in the table there are no users.
abbrev pub Counted : List Goroutine → Option ℕ → (ℕ → LockEntry) → Type 0
Counted gs none heap = users gs ≡ 0
Counted gs (some a) heap =
    (all_at a gs ≡ true)
    × ((heap a).refs ≡ users gs)
    × (0 < users gs)
    × ((heap a).tokens + holders gs ≡ 1)

abbrev pub IsCounted : System → Type 0
IsCounted s = Counted s.goroutines s.table.current s.table.heap

module _ (gs : List Goroutine) (i : ℕ) where
  -- What an action of the i-th goroutine leaves.
  abbrev KeepsCount : Option (Goroutine × LockTable) → Type 0
  KeepsCount none = Unit
  KeepsCount (some (new, t)) = Counted (replace gs i new) t.current t.heap

  KeepsCount-if :
      (b : Bool) (x y : Option (Goroutine × LockTable))
      → (b ≡ true → KeepsCount x)
      → (b ≡ false → KeepsCount y)
      → KeepsCount (if b then x else y)
  KeepsCount-if true x y k l = k refl
  KeepsCount-if false x y k l = l refl

  enter-Counted :
      (c : Option ℕ) (t : LockTable)
      → get_elem? gs i ≡ some outside
      → Counted gs c t.heap
      → t.current ≡ c
      → KeepsCount (let (t', a) = enter_at t c in some (waiting a, t'))
  enter-Counted none t at v e =
      let new = waiting t.next in
      let (u, u') = users-split gs i outside new at in
      let (h, h') = holders-split gs i outside new at in
      let (_, l') = all_at-split t.next gs i outside new at in
      ground (
        arith,
        u,
        u',
        h,
        h',
        l',
        all_at-unused t.next (others gs i),
        holders_le_users (others gs i),
      )
  enter-Counted (some a) t at v e =
      let new = waiting a in
      let (u, u') = users-split gs i outside new at in
      let (h, h') = holders-split gs i outside new at in
      let (l, l') = all_at-split a gs i outside new at in ground (arith, u, u', h, h', l, l')

  drop-Counted :
      (a : ℕ) (g : Goroutine) (c : Option ℕ) (t : LockTable)
      → get_elem? gs i ≡ some g
      → use_of g ≡ 1
      → hold_of g ≡ 0
      → ((b : ℕ) → only_at b g ≡ eqb b a)
      → t.current ≡ c
      → Counted gs c t.heap
      → KeepsCount (some (outside, drop_ref t a))
  unfolding drop_ref
  drop-Counted a g none t at used free only e v =
      let (u, u') = users-split gs i g outside at in absurd (omega (arith, u, used, v))
  drop-Counted a g (some b) t at used free only e v =
      let (u, u') = users-split gs i g outside at in
      let (h, h') = holders-split gs i g outside at in
      let (l, l') = all_at-split b gs i g outside at in
      ground (arith, u, u', h, h', l, l', used, free, only b)

  receive-Counted :
      (a : ℕ) (c : Option ℕ) (t : LockTable)
      → get_elem? gs i ≡ some (waiting a)
      → t.current ≡ c
      → Counted gs c t.heap
      → eqb (t.heap a).tokens 0 ≡ false
      → KeepsCount (some (holding a, set_tokens t a ((t.heap a).tokens - 1)))
  unfolding set_tokens
  receive-Counted a none t at e v full =
      let (u, u') = users-split gs i (waiting a) outside at in absurd (omega (arith, u, v))
  receive-Counted a (some b) t at e v full =
      let new = holding a in
      let (u, u') = users-split gs i (waiting a) new at in
      let (h, h') = holders-split gs i (waiting a) new at in
      let (l, l') = all_at-split b gs i (waiting a) new at in ground (arith, u, u', h, h', l, l')

  send-Counted :
      (a : ℕ) (c : Option ℕ) (t : LockTable)
      → get_elem? gs i ≡ some (holding a)
      → t.current ≡ c
      → Counted gs c t.heap
      → eqb (t.heap a).tokens 0 ≡ true
      → KeepsCount (some (releasing a, set_tokens t a 1))
  unfolding set_tokens
  send-Counted a none t at e v room =
      let (u, u') = users-split gs i (holding a) outside at in absurd (omega (arith, u, v))
  send-Counted a (some b) t at e v room =
      let new = releasing a in
      let (u, u') = users-split gs i (holding a) new at in
      let (h, h') = holders-split gs i (holding a) new at in
      let (l, l') = all_at-split b gs i (holding a) new at in ground (arith, u, u', h, h', l, l')

  act-Counted :
      (x : Action) (g : Goroutine) (t : LockTable)
      → get_elem? gs i ≡ some g
      → Counted gs t.current t.heap
      → KeepsCount (act x g t)
  unfolding act enter
  act-Counted enters outside t at v = enter-Counted t.current t at v refl
  act-Counted receives (waiting a) t at v =
      KeepsCount-if (eqb (t.heap a).tokens 0) _ _ (λ _. tt)
        (λ full. receive-Counted a t.current t at refl v full)
  act-Counted cancels (waiting a) t at v =
      drop-Counted a (waiting a) t.current t at refl refl (λ b. refl) refl v
  act-Counted sends (holding a) t at v =
      KeepsCount-if (eqb (t.heap a).tokens 0) _ _
        (λ room. send-Counted a t.current t at refl v room) (λ _. tt)
  act-Counted drops (releasing a) t at v =
      drop-Counted a (releasing a) t.current t at refl refl (λ b. refl) refl v
  act-Counted enters (waiting a) t at v = tt
  act-Counted enters (holding a) t at v = tt
  act-Counted enters (releasing a) t at v = tt
  act-Counted receives outside t at v = tt
  act-Counted receives (holding a) t at v = tt
  act-Counted receives (releasing a) t at v = tt
  act-Counted cancels outside t at v = tt
  act-Counted cancels (holding a) t at v = tt
  act-Counted cancels (releasing a) t at v = tt
  act-Counted sends outside t at v = tt
  act-Counted sends (waiting a) t at v = tt
  act-Counted sends (releasing a) t at v = tt
  act-Counted drops outside t at v = tt
  act-Counted drops (waiting a) t at v = tt
  act-Counted drops (holding a) t at v = tt

abbrev CountedAfter : Option System → Type 0
CountedAfter none = Unit
CountedAfter (some s) = IsCounted s

step-IsCounted : (s : System) (i : ℕ) (x : Action) → IsCounted s → CountedAfter (step s i x)
unfolding step
step-IsCounted s i x v = looked (get_elem? s.goroutines i) refl
  where
    moved :
        (r : Option (Goroutine × LockTable))
        → KeepsCount s.goroutines i r
        → CountedAfter (acted s i r)
    moved none k = tt
    moved (some (new, t)) k = k

    looked : (g : Option Goroutine) → get_elem? s.goroutines i ≡ g → CountedAfter (step_of s i x g)
    looked none at = tt
    looked (some g) at = moved (act x g s.table) (act-Counted s.goroutines i x g s.table at v)

pub Reachable-IsCounted :
    (n : ℕ) (heap : ℕ → LockEntry) (s : System) → Reachable n heap s → IsCounted s
Reachable-IsCounted n heap s started = users-all_outside n
Reachable-IsCounted n heap t (stepped {s} r i x e) =
    subst CountedAfter e (step-IsCounted s i x (Reachable-IsCounted n heap s r))
