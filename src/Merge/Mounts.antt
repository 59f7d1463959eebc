-- ===== src/Merge/Mounts.antt =====
-- `mergeMounts` and `sameMounts` against their specification.
use terraform_provider_lima.Base.{
  ◌≡◌, refl, ◌∙◌, ◌⊎◌, Bool, true, not, ◌&&◌, String, List, [], ◌∷◌, ◌++◌, map, arith, any_of,
  eq_iff,
}
use terraform_provider_lima.Paths.{same_path, same_path_iff}
use terraform_provider_lima.Instance.{Mount, MountView}
use terraform_provider_lima.Merge.{
  mount_of_view, mount_view_at, mount_at, merge_mounts, same_mount, same_mounts,
}
use terraform_provider_lima.Merge.Loops.{drop_previous}
use terraform_provider_lima.Merge.Spec.{select, distinct_by, merge-eq-select}
use terraform_provider_lima.Merge.Reapply.{Reports, pairwise, reapplied}

same_path_sym : (a b : String) → same_path a b ≡ same_path b a
same_path_sym a b = ground (arith, same_path_iff a b, same_path_iff b a)

pub same_path_trans :
    (a b c : String) → same_path a b ≡ true → same_path b c ≡ true → same_path a c ≡ true
same_path_trans a b c h k =
    (same_path_iff a c).1 ((same_path_iff a b).0 h ∙ (same_path_iff b c).0 k)

pub same_path_refl : (a : String) → same_path a a ≡ true
same_path_refl a = (same_path_iff a a).1 refl

-- Two resolved mounts at one location.
abbrev pub same_location : MountView → MountView → Bool
same_location x y = same_path x.location y.location

-- If the resolved mounts have distinct locations, the list written back is the declared mounts,
-- then, in their order, the resolved ones whose location was neither configured before nor is
-- declared now.
pub merge_mounts_lem :
    (resolved : List MountView) (previous desired : List Mount)
    → distinct_by same_location resolved ≡ true
    → merge_mounts resolved previous desired
      ≡ desired
        ++ map mount_of_view (
            select
              (λ m.
                not (any_of (λ b. same_path m.location b.location) previous)
                && not (any_of (λ b. same_path b.location m.location) desired))
              resolved)
unfolding merge_mounts mount_view_at mount_at
merge_mounts_lem resolved previous desired h =
    merge-eq-select mount_at mount_of_view mount_view_at same_location
      (λ b x y hx hy.
        same_path_trans x.location b.location y.location hx
          (same_path_sym b.location y.location ∙ hy))
      resolved previous desired h

-- Lima reports the mount with its location and writability; a mount point that was left empty may
-- have been filled in.
abbrev pub MountReported : Mount → MountView → Type 0
MountReported m v =
    (v.location ≡ m.location)
    × (v.writable ≡ m.writable)
    × ((m.mount_point ≡ "") ⊎ (v.mount_point ≡ m.mount_point))

same_mounts-eq-pairwise :
    (ws : List Mount) (vs : List MountView) → same_mounts ws vs ≡ pairwise same_mount ws vs
unfolding same_mounts pairwise
same_mounts-eq-pairwise [] [] = refl
same_mounts-eq-pairwise [] (v ∷ vs) = refl
same_mounts-eq-pairwise (w ∷ ws) [] = refl
same_mounts-eq-pairwise (w ∷ ws) (v ∷ vs) = ground (arith, same_mounts-eq-pairwise ws vs)

same_mount-reported : (m : Mount) (v : MountView) → MountReported m v → same_mount m v ≡ true
unfolding same_mount
same_mount-reported m v h =
    ground (arith, same_path_refl m.location, same_path_refl m.mount_point, eq_iff m.mount_point "")

same_mount-converted : (v : MountView) → same_mount (mount_of_view v) v ≡ true
unfolding same_mount mount_of_view
same_mount-converted v = ground (arith, same_path_refl v.location, same_path_refl v.mount_point)

mount_view_at-reported : (m : Mount) (v : MountView) → MountReported m v → mount_view_at m v ≡ true
unfolding mount_view_at
mount_view_at-reported m v h = ground (arith, same_path_refl m.location)

mount_at-reported :
    (m v : MountView) (d : Mount) → MountReported (mount_of_view m) v → mount_at v d ≡ mount_at m d
unfolding mount_at mount_of_view
mount_at-reported m v d h = ground arith

-- After an edit wrote the merged mounts, and whatever mount points Lima filled in for empty ones,
-- applying the same configuration again finds the mounts unchanged.
pub merge_mounts_reapplied :
    (resolved reported : List MountView) (previous desired : List Mount)
    → Reports MountReported (merge_mounts resolved previous desired) reported
    → same_mounts (merge_mounts reported desired desired) reported ≡ true
unfolding merge_mounts
merge_mounts_reapplied resolved reported previous desired h = rw same_mounts-eq-pairwise (
    reapplied mount_view_at mount_at mount_of_view same_mount MountReported mount_view_at-reported
      same_mount-reported same_mount-converted mount_at-reported desired
      (drop_previous mount_view_at resolved previous) reported h)
