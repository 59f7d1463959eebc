-- ===== src/Service/Resized.antt =====
-- `Service.Resize` of internal/lima/lifecycle.go: what it asks Lima to change, now and once more.
use terraform_provider_lima.Base.{
  ℤ, pos, int_eq, int_eq_refl, is_zero, ◌≡◌, refl, ◌⊎◌, inl, inr, Bool, true, false, ◌&&◌, Option,
  none, some, List, [], ◌∷◌, if◌then◌else◌, eq_refl,
}
use terraform_provider_lima.Instance.{
  Instance, Mount, PortForward, AdditionalDisk, AdditionalDiskView, EditRequest, is_empty, is_nil,
}
use terraform_provider_lima.Merge.{
  merge_mounts, merge_port_forwards, same_disks, filter_to_actual_changes,
}
use terraform_provider_lima.Merge.Reapply.{Reports}
use terraform_provider_lima.Merge.Mounts.{MountReported, merge_mounts_reapplied}
use terraform_provider_lima.Merge.Forwards.{ForwardReported, merge_port_forwards_reapplied}
use terraform_provider_lima.Service.Change.{
  ResizeParams, with_mounts, with_port_forwards, with_disks, changes_for,
}

-- Lima reports what an edit for `p` on `old` wrote: `new` has the merged lists and the wanted sizes.
abbrev pub MountsApplied : Option (List Mount) → List Mount → Instance → Instance → Type 0
MountsApplied none previous old new = Unit
MountsApplied (some mounts) previous old new =
    Reports MountReported (merge_mounts old.config.mounts previous mounts) new.config.mounts

abbrev pub ForwardsApplied :
    Option (List PortForward) → List PortForward → Instance → Instance → Type 0
ForwardsApplied none previous old new = Unit
ForwardsApplied (some forwards) previous old new =
    Reports ForwardReported (merge_port_forwards old.config.port_forwards previous forwards)
      new.config.port_forwards

abbrev pub DisksApplied : Option (List AdditionalDisk) → Instance → Type 0
DisksApplied none new = Unit
DisksApplied (some disks) new = Reports (λ d v. v.name ≡ d.name) disks new.config.additional_disks

abbrev pub SizeApplied : ℤ → ℤ → Type 0
SizeApplied want have = (want ≡ pos 0) ⊎ (have ≡ want)

pub record EditApplied (p : ResizeParams) (old new : Instance) : Type 0 where
  pub mounts : MountsApplied p.mounts p.previous_mounts old new
  pub port_forwards : ForwardsApplied p.port_forwards p.previous_port_forwards old new
  pub additional_disks : DisksApplied p.additional_disks new
  pub cpus : SizeApplied p.desired.cpus new.cpus
  pub memory_bytes : SizeApplied p.desired.memory_bytes new.memory_bytes
  pub disk_bytes : SizeApplied p.desired.disk_bytes new.disk_bytes

-- The next apply of the same configuration: what was declared is now what was declared before.
abbrev pub previous_after {ℓ} : {A : Type ℓ} → Option (List A) → List A → List A
previous_after none previous = previous
previous_after (some declared) previous = declared

abbrev pub next_apply : ResizeParams → ResizeParams
next_apply p = record p {
  previous_mounts = previous_after p.mounts p.previous_mounts;
  previous_port_forwards = previous_after p.port_forwards p.previous_port_forwards;
}

-- `Desired` carries sizes only.
abbrev pub has_sizes_only : EditRequest → Bool
has_sizes_only e = is_nil e.mounts && is_nil e.port_forwards && is_nil e.additional_disks

with_mounts_settled :
    (m : Option (List Mount)) (previous : List Mount) (old new : Instance) (req : EditRequest)
    → MountsApplied m previous old new
    → with_mounts m (previous_after m previous) new req ≡ req
with_mounts_settled none previous old new req h = refl
with_mounts_settled (some mounts) previous old new req h =
    rw (merge_mounts_reapplied old.config.mounts new.config.mounts previous mounts h) refl

with_forwards_settled :
    (f : Option (List PortForward)) (previous : List PortForward) (old new : Instance)
    → (req : EditRequest) → ForwardsApplied f previous old new
    → with_port_forwards f (previous_after f previous) new req ≡ req
with_forwards_settled none previous old new req h = refl
with_forwards_settled (some forwards) previous old new req h =
    rw
      (merge_port_forwards_reapplied old.config.port_forwards new.config.port_forwards previous
        forwards h)
      refl

same_disks-reported :
    (ds : List AdditionalDisk) (vs : List AdditionalDiskView)
    → Reports (λ d v. v.name ≡ d.name) ds vs
    → same_disks ds vs ≡ true
unfolding same_disks
same_disks-reported [] [] h = refl
same_disks-reported [] (v ∷ vs) h = absurd h
same_disks-reported (d ∷ ds) [] h = absurd h
same_disks-reported (d ∷ ds) (v ∷ vs) h = rw (h.0, eq_refl d.name, same_disks-reported ds vs h.1)

with_disks_settled :
    (d : Option (List AdditionalDisk)) (new : Instance) (req : EditRequest)
    → DisksApplied d new
    → with_disks d new req ≡ req
with_disks_settled none new req h = refl
with_disks_settled (some disks) new req h =
    rw (same_disks-reported disks new.config.additional_disks h) refl

size_settled :
    (want have : ℤ)
    → SizeApplied want have
    → is_zero (if int_eq want have then pos 0 else want) ≡ true
size_settled want have (inl z) = rw z (zero_kept (int_eq (pos 0) have))
  where
    zero_kept : (b : Bool) → is_zero (if b then pos 0 else pos 0) ≡ true
    zero_kept true = refl
    zero_kept false = refl
size_settled want have (inr e) = rw (e, int_eq_refl want)

filtered-is_empty :
    (p : ResizeParams) (old new : Instance)
    → has_sizes_only p.desired ≡ true
    → EditApplied p old new
    → is_empty (filter_to_actual_changes p.desired new) ≡ true
unfolding is_empty filter_to_actual_changes
filtered-is_empty p old new only v =
    rw
      (
        size_settled p.desired.cpus new.cpus v.cpus,
        size_settled p.desired.memory_bytes new.memory_bytes v.memory_bytes,
        size_settled p.desired.disk_bytes new.disk_bytes v.disk_bytes,
      )
      only

-- Once Lima reports what an edit wrote, where it may have filled in empty mount points and protocols
-- and unset host ports, applying the same configuration again asks for no change.
pub changes_for_settled :
    (p : ResizeParams) (old new : Instance)
    → has_sizes_only p.desired ≡ true
    → EditApplied p old new
    → is_empty (changes_for (next_apply p) new) ≡ true
unfolding changes_for
changes_for_settled p old new only v =
    rw
      (
        with_mounts_settled p.mounts p.previous_mounts old new
            (filter_to_actual_changes p.desired new) v.mounts,
        with_forwards_settled p.port_forwards p.previous_port_forwards old new
            (filter_to_actual_changes p.desired new) v.port_forwards,
        with_disks_settled p.additional_disks new (filter_to_actual_changes p.desired new)
            v.additional_disks,
      )
      (filtered-is_empty p old new only v)
