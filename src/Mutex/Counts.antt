-- ===== src/Mutex/Counts.antt =====
-- `KeyedMutex` of internal/lima/locks.go: the users and the holders of an entry, when one acts.
use terraform_provider_lima.Base.{
  ℕ, zero, suc, ◌+◌, ◌≤◌, ◌≡◌, refl, Bool, true, ◌&&◌, some, List, [], ◌∷◌, arith, eqb,
}
use terraform_provider_lima.Mutex.{
  Goroutine, outside, waiting, holding, releasing, get_elem?, replace, all_outside,
}

abbrev pub use_of : Goroutine → ℕ
use_of outside = 0
use_of (waiting a) = 1
use_of (holding a) = 1
use_of (releasing a) = 1

abbrev pub hold_of : Goroutine → ℕ
hold_of outside = 0
hold_of (waiting a) = 0
hold_of (holding a) = 1
hold_of (releasing a) = 0

-- The goroutine uses no entry but this.
abbrev pub only_at : ℕ → Goroutine → Bool
only_at a outside = true
only_at a (waiting b) = eqb a b
only_at a (holding b) = eqb a b
only_at a (releasing b) = eqb a b

abbrev pub users : List Goroutine → ℕ
users [] = 0
users (g ∷ gs) = use_of g + users gs

abbrev pub holders : List Goroutine → ℕ
holders [] = 0
holders (g ∷ gs) = hold_of g + holders gs

abbrev pub all_at : ℕ → List Goroutine → Bool
all_at a [] = true
all_at a (g ∷ gs) = only_at a g && all_at a gs

-- The goroutines but the i-th.
abbrev pub others : List Goroutine → ℕ → List Goroutine
others [] i = []
others (g ∷ gs) zero = gs
others (g ∷ gs) (suc i) = g ∷ others gs i

pub users-split :
    (gs : List Goroutine) (i : ℕ) (g new : Goroutine)
    → get_elem? gs i ≡ some g
    → (users gs ≡ use_of g + users (others gs i))
      × (users (replace gs i new) ≡ use_of new + users (others gs i))
users-split [] i g new h = absurd (ground arith)
users-split (x ∷ xs) zero g new h = ground arith
users-split (x ∷ xs) (suc i) g new h = let (p, q) = users-split xs i g new h in omega (arith, p, q)

pub holders-split :
    (gs : List Goroutine) (i : ℕ) (g new : Goroutine)
    → get_elem? gs i ≡ some g
    → (holders gs ≡ hold_of g + holders (others gs i))
      × (holders (replace gs i new) ≡ hold_of new + holders (others gs i))
holders-split [] i g new h = absurd (ground arith)
holders-split (x ∷ xs) zero g new h = ground arith
holders-split (x ∷ xs) (suc i) g new h =
    let (p, q) = holders-split xs i g new h in omega (arith, p, q)

pub all_at-split :
    (a : ℕ) (gs : List Goroutine) (i : ℕ) (g new : Goroutine)
    → get_elem? gs i ≡ some g
    → (all_at a gs ≡ (only_at a g && all_at a (others gs i)))
      × (all_at a (replace gs i new) ≡ (only_at a new && all_at a (others gs i)))
all_at-split a [] i g new h = absurd (ground arith)
all_at-split a (x ∷ xs) zero g new h = ground arith
all_at-split a (x ∷ xs) (suc i) g new h =
    let (p, q) = all_at-split a xs i g new h in ground (arith, p, q)

pub users-all_outside : (n : ℕ) → users (all_outside n) ≡ 0
users-all_outside zero = refl
users-all_outside (suc n) = omega (arith, users-all_outside n)

pub holders_le_users : (gs : List Goroutine) → holders gs ≤ users gs
holders_le_users [] = omega arith
holders_le_users (g ∷ gs) = ground (arith, holders_le_users gs)

pub all_at-unused : (a : ℕ) (gs : List Goroutine) → users gs ≡ 0 → all_at a gs ≡ true
all_at-unused a [] h = refl
all_at-unused a (g ∷ gs) h = ground (arith, all_at-unused a gs)
