-- ===== src/Provider/Refresh/Entries.antt =====
-- What a refresh of internal/provider/instance_resource.go does to the declared mounts and port
-- forwards, done twice.
use terraform_provider_lima.Base.{
  ◌≡◌, refl, ap, ◌∙◌, subst, ℤ, int_eq_refl, String, Option, none, some, List, [], ◌∷◌,
  Option-cases, inl, inr, arith,
}
use terraform_provider_lima.Paths.Expand.{Surroundings, expand_path}
use terraform_provider_lima.Instance.{Instance, MountView, PortForwardView}
use terraform_provider_lima.Lookup.{find_mount, find_port_forward}
use terraform_provider_lima.Provider.Attr.{Attr, null, unknown, known, string_value}
use terraform_provider_lima.Provider.Models.{MountModel, PortModel}
use terraform_provider_lima.Provider.Reconcile.{
  observed_mount_point, observed_mount, observed_port_forward, observed_host_port, kept_mounts,
  kept_forwards, mount_expanded, mount_located, reported_mount, reported_forward, forward_located,
}
use terraform_provider_lima.Provider.Refresh.Attributes.{observed_mount_point_again}

module _ (s : Surroundings) (inst : Instance) where
  -- An entry that was observed is observed again as it is.
  abbrev MountAgain : Option MountModel → Type 0
  MountAgain none = Unit
  MountAgain (some a) = observed_mount s inst a ≡ some a

  reported_mount_again :
      (d : MountModel) (l p : String)
      → d.location ≡ known l
      → expand_path s l ≡ some p
      → (o : Option MountView) → find_mount inst.config p ≡ o
      → MountAgain (reported_mount d o)
  reported_mount_again d l p at e none f = tt
  reported_mount_again d l p at e (some found) f =
      let a : MountModel = record d {
        writable = known found.writable;
        mount_point = observed_mount_point d.mount_point found;
      } in
      unfold observed_mount in
      ap (mount_located s inst a) at
      ∙ ap (mount_expanded s inst a) e
      ∙ ap (reported_mount a) f
      ∙ ap (λ mp. some (record d { writable = known found.writable; mount_point = mp }))
          (observed_mount_point_again d.mount_point found)

  expanded_again :
      (d : MountModel) (l : String)
      → d.location ≡ known l
      → (o : Option String) → expand_path s l ≡ o
      → MountAgain (mount_expanded s inst d o)
  expanded_again d l at none e = unfold observed_mount in rw (at, e) refl
  expanded_again d l at (some p) e = reported_mount_again d l p at e _ refl

  located_again :
      (d : MountModel) (loc : Attr String)
      → d.location ≡ loc
      → MountAgain (mount_located s inst d loc)
  located_again d null at = unfold observed_mount in rw at refl
  located_again d unknown at = unfold observed_mount in rw at refl
  located_again d (known l) at = expanded_again d l at _ refl

  observed_mount_again :
      (d a : MountModel) → observed_mount s inst d ≡ some a → observed_mount s inst a ≡ some a
  observed_mount_again d a h =
      subst MountAgain h (unfold observed_mount in located_again d d.location refl)

  abbrev ForwardAgain : Option PortModel → Type 0
  ForwardAgain none = Unit
  ForwardAgain (some a) = observed_port_forward s inst a ≡ some a

  observed_host_port_again :
      (d : Attr ℤ) (f : PortForwardView)
      → observed_host_port s inst (observed_host_port s inst d f) f ≡ observed_host_port s inst d f
  observed_host_port_again d f = ground (arith, int_eq_refl f.host_port)

  reported_forward_again :
      (d : PortModel) (port : ℤ)
      → d.guest_port ≡ known port
      → (o : Option PortForwardView)
      → find_port_forward inst.config port (string_value d.protocol) ≡ o
      → ForwardAgain (reported_forward s inst d o)
  reported_forward_again d port at none f = tt
  reported_forward_again d port at (some found) f =
      let a : PortModel = record d { host_port = observed_host_port s inst d.host_port found } in
      unfold observed_port_forward in
      ap (forward_located s inst a) at
      ∙ ap (reported_forward s inst a) f
      ∙ ap (λ hp. some (record d { host_port = hp })) (observed_host_port_again d.host_port found)

  forward_again :
      (d : PortModel) (port : Attr ℤ)
      → d.guest_port ≡ port
      → ForwardAgain (forward_located s inst d port)
  forward_again d null at = unfold observed_port_forward in rw at refl
  forward_again d unknown at = unfold observed_port_forward in rw at refl
  forward_again d (known port) at = reported_forward_again d port at _ refl

  observed_port_forward_again :
      (d a : PortModel)
      → observed_port_forward s inst d ≡ some a
      → observed_port_forward s inst a ≡ some a
  observed_port_forward_again d a h =
      subst ForwardAgain h (unfold observed_port_forward in forward_again d d.guest_port refl)

  pub kept_mounts_again :
      (ms : List MountModel) → kept_mounts s inst (kept_mounts s inst ms) ≡ kept_mounts s inst ms
  kept_mounts_again [] = refl
  kept_mounts_again (m ∷ ms) = elim (Option-cases (observed_mount s inst m)) [
    | inl e ↦ rw e (kept_mounts_again ms)
    | inr (a, e) ↦ rw (e, observed_mount_again m a e, kept_mounts_again ms) refl
  ]

  pub kept_forwards_again :
      (ps : List PortModel)
      → kept_forwards s inst (kept_forwards s inst ps) ≡ kept_forwards s inst ps
  kept_forwards_again [] = refl
  kept_forwards_again (p ∷ ps) = elim (Option-cases (observed_port_forward s inst p)) [
    | inl e ↦ rw e (kept_forwards_again ps)
    | inr (a, e) ↦ rw (e, observed_port_forward_again p a e, kept_forwards_again ps) refl
  ]
