-- ===== src/Session/Named.antt =====
-- What the service may rely on of a client's `Inspect`.
use terraform_provider_lima.Base.{String, ◌≡◌}
use terraform_provider_lima.Instance.{Instance}
use terraform_provider_lima.Session.{Host, value}

-- An inspection of a name that finds an instance finds one of that name.
pub record NamesAsked {W : Type 0} (h : Host W) : Type 0 where
  pub asked : (n : String) (w : W) (i : Instance) → (h.inspect n w).0 ≡ value i → i.name ≡ n
