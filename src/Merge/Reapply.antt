-- ===== src/Merge/Reapply.antt =====
-- The merges of internal/lima/lifecycle.go over what Lima reports of their own result. `reported`
-- relates a written entry to its report.
use terraform_provider_lima.Base.{
  ◌≡◌, refl, Bool, true, false, ◌&&◌, List, [], ◌∷◌, ◌++◌, map, arith, any_of, Bool-cases, inl, inr,
}
use terraform_provider_lima.Merge.Loops.{drop_previous, inherited}
use terraform_provider_lima.Merge.Spec.{remove_first, inherited_step}

module _ {ℓ κ} {A : Type ℓ} {B : Type κ} where
  -- Entry by entry, in order.
  abbrev pub Reports : (B → A → Type 0) → List B → List A → Type 0
  Reports reported [] [] = Unit
  Reports reported [] (v ∷ vs) = ⊥
  Reports reported (b ∷ bs) [] = ⊥
  Reports reported (b ∷ bs) (v ∷ vs) = reported b v × Reports reported bs vs

  -- The reports behind those of the declared entries.
  rest_after : List B → List A → List A
  rest_after [] vs = vs
  rest_after (d ∷ ds) [] = []
  rest_after (d ∷ ds) (v ∷ vs) = rest_after ds vs

  -- Two lists that a loop compares position by position.
  unfoldable pub pairwise : (B → A → Bool) → List B → List A → Bool
  pairwise same [] [] = true
  pairwise same [] (v ∷ vs) = false
  pairwise same (w ∷ ws) [] = false
  pairwise same (w ∷ ws) (v ∷ vs) = same w v && pairwise same ws vs

module _ {ℓ κ} {A : Type ℓ} {B : Type κ} (hit : B → A → Bool) (declared : A → B → Bool)
    (convert : A → B) (same : B → A → Bool) (reported : B → A → Type 0)
    (hit_reported : (b : B) (v : A) → reported b v → hit b v ≡ true)
    (same_reported : (b : B) (v : A) → reported b v → same b v ≡ true)
    (same_converted : (v : A) → same (convert v) v ≡ true)
    (declared_reported : (m v : A) (d : B)
      → reported (convert m) v
      → declared v d ≡ declared m d) where
  drop_previous-reported :
      (ds bs : List B) (vs : List A)
      → Reports reported (ds ++ bs) vs
      → drop_previous hit vs ds ≡ rest_after ds vs
  unfolding drop_previous rest_after
  drop_previous-reported [] bs vs h = refl
  drop_previous-reported (d ∷ ds) bs [] h = absurd h
  drop_previous-reported (d ∷ ds) bs (v ∷ vs) h =
      rw (remove_first, hit_reported d v h.0) (drop_previous-reported ds bs vs h.1)

  any_of-reported :
      (m v : A) (ds : List B)
      → reported (convert m) v
      → any_of (declared v) ds ≡ any_of (declared m) ds
  any_of-reported m v [] h = refl
  any_of-reported m v (d ∷ ds) h = ground (arith, declared_reported m v d, any_of-reported m v ds)

  inherited_kept :
      (desired : List B) (m : A) (bs : List B) (vs : List A)
      → any_of (declared m) desired ≡ false
      → Reports reported (convert m ∷ bs) vs
      → ((ws : List A)
          → Reports reported bs ws
          → inherited declared convert desired ws ≡ map convert ws)
      → inherited declared convert desired vs ≡ map convert vs
  inherited_kept desired m bs [] new h rest = absurd h
  inherited_kept desired m bs (v ∷ vs) new h rest = rw (
    inherited_step declared convert desired v vs,
    any_of-reported m v desired h.0,
    new,
    rest vs h.1,
  )

  -- An entry that was inherited once is inherited again.
  inherited-reported :
      (desired : List B) (ms vs : List A)
      → Reports reported (inherited declared convert desired ms) vs
      → inherited declared convert desired vs ≡ map convert vs
  inherited-reported desired [] [] h = unfold inherited in refl
  inherited-reported desired [] (v ∷ vs) h = absurd (unfold inherited in h)
  inherited-reported desired (m ∷ ms) vs h = elim (Bool-cases (any_of (declared m) desired)) [
    | inl old ↦
        inherited-reported desired ms vs
          (rw (inherited_step declared convert desired m ms, old) at h)
    | inr new ↦
        inherited_kept desired m (inherited declared convert desired ms) vs new
          (rw (inherited_step declared convert desired m ms, new) at h)
          (inherited-reported desired ms)
  ]

  pairwise-reported :
      (ds bs : List B) (vs : List A)
      → Reports reported (ds ++ bs) vs
      → pairwise same (ds ++ map convert (rest_after ds vs)) vs ≡ true
  unfolding pairwise rest_after
  pairwise-reported [] bs vs h = pairwise-converted vs
    where
      pairwise-converted : (vs : List A) → pairwise same (map convert vs) vs ≡ true
      pairwise-converted [] = refl
      pairwise-converted (v ∷ vs) = ground (arith, same_converted v, pairwise-converted vs)
  pairwise-reported (d ∷ ds) bs [] h = absurd h
  pairwise-reported (d ∷ ds) bs (v ∷ vs) h =
      ground (arith, same_reported d v, pairwise-reported ds bs vs)

  Reports-rest_after :
      (ds bs : List B) (vs : List A)
      → Reports reported (ds ++ bs) vs
      → Reports reported bs (rest_after ds vs)
  unfolding rest_after
  Reports-rest_after [] bs vs h = h
  Reports-rest_after (d ∷ ds) bs [] h = absurd h
  Reports-rest_after (d ∷ ds) bs (v ∷ vs) h = Reports-rest_after ds bs vs h.1

  -- The list that a second apply computes compares as the same.
  pub reapplied :
      (desired : List B) (ms vs : List A)
      → Reports reported (desired ++ inherited declared convert desired ms) vs
      → pairwise same
          (desired ++ inherited declared convert desired (drop_previous hit vs desired))
          vs
        ≡ true
  reapplied desired ms vs h =
      let kept = inherited declared convert desired ms in
      rw
        (
          drop_previous-reported desired kept vs h,
          inherited-reported desired ms (rest_after desired vs)
              (Reports-rest_after desired kept vs h),
        )
        (pairwise-reported desired kept vs h)
