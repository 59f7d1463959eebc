-- ===== src/Merge/Spec.antt =====
-- The merge of an in-place edit against its specification, for any entries that are matched by a
-- key: `hit` finds a resolved entry and `declared` a desired one.
use terraform_provider_lima.Base.{
  ◌≡◌, refl, sym, ap, ◌∙◌, Bool, true, false, not, ◌&&◌, ◌||◌, List, [], ◌∷◌, ◌++◌, map, arith,
  any_of, if◌then◌else◌,
}
use terraform_provider_lima.Merge.Loops.{
  index_by, remove_index, drop_previous, inherited, keep_unless,
}

not-or : (a b : Bool) → (not a && not b) ≡ not (a || b)
not-or true b = refl
not-or false b = refl

module _ {ℓ} {A : Type ℓ} where
  -- The entries that a test passes, in their order.
  abbrev pub select : (A → Bool) → List A → List A
  select p [] = []
  select p (x ∷ xs) = let rest = select p xs in if p x then x ∷ rest else rest

  -- At most one entry passes each test of a family: no key occurs twice.
  abbrev pub Unmatched : (A → Bool) → List A → Type 0
  Unmatched p xs = any_of p xs ≡ false

  pub remove_first :
      (p : A → Bool) (x : A) (xs : List A)
      → remove_index (x ∷ xs) (index_by p (x ∷ xs))
        ≡ (if p x then xs else x ∷ remove_index xs (index_by p xs))
  unfolding index_by remove_index
  remove_first p x xs = ground arith

  pub keep_unless-index_by {κ} :
      {B : Type κ} (p : A → Bool) (xs : List A) (b : B) (rest : List B)
      → keep_unless (index_by p xs) b rest ≡ (if any_of p xs then rest else b ∷ rest)
  unfolding index_by
  keep_unless-index_by p [] b rest = refl
  keep_unless-index_by p (x ∷ xs) b rest = ground (arith, keep_unless-index_by p xs b rest)

  select-Unmatched : (p : A → Bool) (xs : List A) → Unmatched p xs → select (λ a. not (p a)) xs ≡ xs
  select-Unmatched p [] h = refl
  select-Unmatched p (x ∷ xs) h = ground (arith, select-Unmatched p xs)

  select-select :
      (p q : A → Bool) (xs : List A) → select q (select p xs) ≡ select (λ a. p a && q a) xs
  select-select p q [] = refl
  select-select p q (x ∷ xs) = ground (arith, select-select p q xs)

  any_of-select : (p q : A → Bool) (xs : List A) → Unmatched q xs → Unmatched q (select p xs)
  any_of-select p q [] h = refl
  any_of-select p q (x ∷ xs) h = ground (arith, any_of-select p q xs)

  select-eq : (p q : A → Bool) (xs : List A) → ((a : A) → p a ≡ q a) → select p xs ≡ select q xs
  select-eq p q [] h = refl
  select-eq p q (x ∷ xs) h = ground (arith, h x, select-eq p q xs h)

  -- No two entries are the same to the test.
  abbrev pub distinct_by : (A → A → Bool) → List A → Bool
  distinct_by same [] = true
  distinct_by same (x ∷ xs) = not (any_of (same x) xs) && distinct_by same xs

  distinct_by-select :
      (same : A → A → Bool) (p : A → Bool) (xs : List A)
      → distinct_by same xs ≡ true
      → distinct_by same (select p xs) ≡ true
  distinct_by-select same p [] h = refl
  distinct_by-select same p (x ∷ xs) h =
      ground (arith, distinct_by-select same p xs, any_of-select p (same x) xs)

module _ {ℓ κ} {A : Type ℓ} {B : Type κ} (hit : B → A → Bool) (same : A → A → Bool)
    (alike : (b : B) (x y : A) → hit b x ≡ true → hit b y ≡ true → same x y ≡ true) where
  Unmatched-after :
      (b : B) (x : A) (xs : List A) → hit b x ≡ true → Unmatched (same x) xs → Unmatched (hit b) xs
  Unmatched-after b x [] hx h = refl
  Unmatched-after b x (y ∷ ys) hx h = ground (arith, alike b x y, Unmatched-after b x ys)

  -- Without repeated entries, removing the first match removes every match.
  remove-eq-select :
      (b : B) (xs : List A)
      → distinct_by same xs ≡ true
      → remove_index xs (index_by (hit b) xs) ≡ select (λ a. not (hit b a)) xs
  remove-eq-select b [] h = unfold index_by remove_index in refl
  remove-eq-select b (x ∷ xs) h =
      rw remove_first
        (ground (arith, remove-eq-select b xs, Unmatched-after b x xs, select-Unmatched (hit b) xs))

  pub drop_previous-eq-select :
      (keep : List A) (previous : List B)
      → distinct_by same keep ≡ true
      → drop_previous hit keep previous ≡ select (λ a. not (any_of (λ b. hit b a) previous)) keep
  unfolding drop_previous
  drop_previous-eq-select keep [] h = sym (select_all keep)
    where
      select_all : (xs : List A) → select (λ a. true) xs ≡ xs
      select_all [] = refl
      select_all (x ∷ xs) = ap (◌∷◌ x) (select_all xs)
  drop_previous-eq-select keep (p ∷ ps) h = rw (remove-eq-select p keep h) (
      drop_previous-eq-select (select (λ a. not (hit p a)) keep) ps
        (distinct_by-select same (λ a. not (hit p a)) keep h)
      ∙ select-select (λ a. not (hit p a)) (λ a. not (any_of (λ b. hit b a) ps)) keep
      ∙ select-eq _ _ keep (λ a. not-or (hit p a) (any_of (λ b. hit b a) ps)))

module _ {ℓ κ} {A : Type ℓ} {B : Type κ} (declared : A → B → Bool) (convert : A → B) where
  pub inherited_step :
      (desired : List B) (m : A) (ms : List A)
      → inherited declared convert desired (m ∷ ms) ≡ (
          if any_of (declared m) desired
          then inherited declared convert desired ms
          else convert m ∷ inherited declared convert desired ms)
  inherited_step desired m ms = unfold inherited in keep_unless-index_by (declared m) desired _ _

  pub inherited-eq-select :
      (desired : List B) (ms : List A)
      → inherited declared convert desired ms
        ≡ map convert (select (λ a. not (any_of (declared a) desired)) ms)
  inherited-eq-select desired [] = unfold inherited in refl
  inherited-eq-select desired (m ∷ ms) =
      rw inherited_step (ground (arith, inherited-eq-select desired ms))

  -- The whole merge, for resolved entries that no configured entry finds twice: the desired
  -- entries, then the resolved ones that were neither configured before nor are declared now.
  pub merge-eq-select :
      (hit : B → A → Bool) (same : A → A → Bool)
      → ((b : B) (x y : A) → hit b x ≡ true → hit b y ≡ true → same x y ≡ true)
      → (resolved : List A) (previous desired : List B) → distinct_by same resolved ≡ true
      → desired ++ inherited declared convert desired (drop_previous hit resolved previous)
        ≡ desired
          ++ map convert (
              select
                (λ a. not (any_of (λ b. hit b a) previous) && not (any_of (declared a) desired))
                resolved)
  merge-eq-select hit same alike resolved previous desired h =
      rw (drop_previous-eq-select hit same alike resolved previous h) (
        ap (◌++◌ desired) (
          inherited-eq-select desired (select (λ a. not (any_of (λ b. hit b a) previous)) resolved)
          ∙ ap (map convert) (select-select _ _ resolved)))
