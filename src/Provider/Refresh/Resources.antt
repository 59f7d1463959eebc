-- ===== src/Provider/Refresh/Resources.antt =====
-- The resources that a refresh of internal/provider/instance_resource.go leaves in the state.
use terraform_provider_lima.Base.{◌≡◌, refl, subst, sym, Option, none, some}
use terraform_provider_lima.Instance.{Instance}
use terraform_provider_lima.Provider.Models.{
  InstanceModel, declared, observed_cpus, observed_size, apply_instance, apply_observed_config,
}
use terraform_provider_lima.Provider.Document.{Platform, Rendered, render_model}
use terraform_provider_lima.Provider.Refresh.{refreshed, rehashed, with_hash}
use terraform_provider_lima.Provider.Refresh.Settled.{by_attribute, observed-by_attribute}

module _ (pf : Platform) (m : InstanceModel) (inst : Instance) where
  -- The three are read one by one, each from what the state declares and what Lima reports.
  abbrev pub ReadResources : InstanceModel → Type 0
  ReadResources y =
      (y.cpus ≡ observed_cpus m.cpus inst.cpus)
      × (y.memory ≡ observed_size pf.wide_int m.memory inst.memory_bytes)
      × (y.disk ≡ observed_size pf.wide_int m.disk inst.disk_bytes)

  pub refreshed-ReadResources : ReadResources (refreshed pf m inst)
  unfolding refreshed rehashed apply_observed_config apply_instance
  refreshed-ReadResources =
      subst (λ y. ReadResources (with_hash y (render_model pf y (declared y)).0))
        (sym (observed-by_attribute pf m inst)) (hashed _)
    where
      hashed : (o : Option Rendered) → ReadResources (with_hash (by_attribute pf m inst) o)
      hashed none = (refl, refl, refl)
      hashed (some r) = (refl, refl, refl)
