-- ===== src/Merge/Loops.antt =====
-- The loops that `mergeMounts` and `mergePortForwards` share: a search for the index of the first
-- match, the removal of what was configured before, and the entries that survive.
use terraform_provider_lima.Base.{
  ℕ, zero, suc, Bool, Option, none, some, List, [], ◌∷◌, if◌then◌else◌,
}

abbrev next_index : Option ℕ → Option ℕ
next_index none = none
next_index (some i) = some (suc i)

module _ {ℓ} {A : Type ℓ} where
  -- indexByLocation, indexByForward; -1 is `none`
  unfoldable pub index_by : (A → Bool) → List A → Option ℕ
  index_by p [] = none
  index_by p (x ∷ xs) = if p x then some 0 else next_index (index_by p xs)

  -- append(keep[:idx], keep[idx+1:]...)
  unfoldable pub remove_at : List A → ℕ → List A
  remove_at [] i = []
  remove_at (x ∷ xs) zero = xs
  remove_at (x ∷ xs) (suc i) = x ∷ remove_at xs i

  unfoldable pub remove_index : List A → Option ℕ → List A
  unfolding remove_at
  remove_index keep none = keep
  remove_index keep (some i) = remove_at keep i

abbrev pub keep_unless {κ} : {B : Type κ} → Option ℕ → B → List B → List B
keep_unless none b rest = b ∷ rest
keep_unless (some i) b rest = rest

module _ {ℓ κ} {A : Type ℓ} {B : Type κ} where
  -- for _, prev := range previous
  unfoldable pub drop_previous : (B → A → Bool) → List A → List B → List A
  drop_previous hit keep [] = keep
  drop_previous hit keep (prev ∷ rest) =
      drop_previous hit (remove_index keep (index_by (hit prev) keep)) rest

  -- for _, m := range keep
  unfoldable pub inherited : (A → B → Bool) → (A → B) → List B → List A → List B
  inherited declared convert desired [] = []
  inherited declared convert desired (m ∷ ms) =
      keep_unless (index_by (declared m) desired) (convert m)
        (inherited declared convert desired ms)
