-- ===== src/Provider/Changes/Growth.antt =====
-- The plan modifier `DiskGrowOnly` of internal/provider/plan_modifiers.go and `resizeRequest` of
-- instance_resource.go: what may be asked of a disk.
use terraform_provider_lima.Base.{
  ℕ, ◌<◌, ◌≡◌, refl, sym, ap, ◌∙◌, subst, ◌⊎◌, inl, inr, ℤ, pos, int_lt, String, true, false, not,
  ◌&&◌, Option, none, some, Bool-cases, arith, ltb,
}
use terraform_provider_lima.Instance.{Instance}
use terraform_provider_lima.Sizes.Float.{two_53}
use terraform_provider_lima.Sizes.Parse.{parse_size}
use terraform_provider_lima.Provider.Attr.{Attr, is_null, is_known, string_value}
use terraform_provider_lima.Provider.Models.{InstanceModel, observed_size, parses_to}
use terraform_provider_lima.Provider.Document.{Platform}
use terraform_provider_lima.Provider.Refresh.{refreshed}
use terraform_provider_lima.Provider.Refresh.Resources.{refreshed-ReadResources}
use terraform_provider_lima.Provider.Changes.{
  size_wanted, size_change, resize_request, refuses_shrink, shrinks,
}
use terraform_provider_lima.Provider.Changes.Quiet.{observed_size-parses}

module _ (w : ℕ → ℤ) where
  -- Nothing is asked for, or no less than there is.
  abbrev pub KeepsSize : ℕ → ℤ → Type 0
  KeepsSize n asked = (asked ≡ pos 0) ⊎ (int_lt asked (pos n) ≡ false)

  wanted-KeepsSize :
      (n : ℕ) (current : Attr String) (attribute : String) (o : Option ℤ)
      → shrinks w (some (pos n)) o ≡ false
      → KeepsSize n (size_wanted w current attribute o).0
  wanted-KeepsSize n current attribute none h = inl refl
  wanted-KeepsSize n current attribute (some want) h =
      elim (Bool-cases
        (not (is_null current) && parses_to w (parse_size w (string_value current)) want)) [
          | inl e ↦ rw e (inl refl)
          | inr e ↦ rw e (inr h)
        ]

  size_change-KeepsSize :
      (n : ℕ) (planned current : Attr String) (attribute : String)
      → is_known current ≡ true
      → parse_size w (string_value current) ≡ some (pos n)
      → refuses_shrink w current planned ≡ false
      → KeepsSize n (size_change w planned current attribute).0
  unfolding refuses_shrink
  size_change-KeepsSize n planned current attribute k p h = elim (Bool-cases (is_known planned)) [
    | inl e ↦ rw e (wanted-KeepsSize n current attribute _ (rw (k, e, p) at h))
    | inr e ↦ rw e (inl refl)
  ]

  observed_size-known :
      (c : Attr String) (n : ℕ) → is_known c ≡ true → is_known (observed_size w c (pos n)) ≡ true
  unfolding observed_size
  observed_size-known c n h = ground arith

-- An accepted plan never asks Lima for a smaller disk than it reported at the refresh before, if the
-- state declares a size and the reported one is positive and below 2 ^ 53: an update asks for no change
-- of the disk or for at least as many bytes.
pub accepted_disk_kept :
    (pf : Platform) (m plan : InstanceModel) (inst : Instance) (n : ℕ)
    → is_known m.disk ≡ true
    → inst.disk_bytes ≡ pos n
    → ltb 0 n ≡ true
    → n < two_53
    → refuses_shrink pf.wide_int (refreshed pf m inst).disk plan.disk ≡ false
    → KeepsSize pf.wide_int n (resize_request pf.wide_int plan (refreshed pf m inst)).0.disk_bytes
unfolding resize_request
accepted_disk_kept pf m plan inst n k b p s h =
    let w = pf.wide_int in
    let state = refreshed pf m inst in
    let (_, _, disk) = refreshed-ReadResources pf m inst in
    let read : state.disk ≡ observed_size w m.disk (pos n) = disk ∙ ap (observed_size w m.disk) b in
    let declared : is_null m.disk ≡ false = ground (arith, k) in
    size_change-KeepsSize w n plan.disk state.disk "disk"
      (subst (λ x. is_known x ≡ true) (sym read) (observed_size-known w m.disk n k))
      (subst (λ x. parse_size w (string_value x) ≡ some (pos n)) (sym read)
        (observed_size-parses w m.disk n declared p s))
      h
