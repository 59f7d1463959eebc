-- ===== src/Version/Order.antt =====
-- `Compare` and `CheckVersion` of internal/lima/version.go and lifecycle.go, by the numbers.
use terraform_provider_lima.Base.{◌≡◌, ◌↔◌, ◌⊎◌, ◌<◌, arith}
use terraform_provider_lima.Version.{
  Version, Comparison, older, same, newer, compare_versions, at_least, newer_than,
  max_tested_version, rejected, warned, check_version,
}

-- The numbers of `v` come before those of `o` in the order of the dictionary.
abbrev pub Before : Version → Version → Type 0
Before v o =
    (v.major < o.major)
    ⊎ ((v.major ≡ o.major) × ((v.minor < o.minor) ⊎ ((v.minor ≡ o.minor) × (v.patch < o.patch))))

abbrev pub flipped : Comparison → Comparison
flipped older = newer
flipped same = same
flipped newer = older

-- `Compare` says older exactly when the numbers come before, it says the opposite of the versions
-- exchanged, and it says the same exactly when all three numbers agree, whatever the suffixes.
pub compare_versions_lem :
    (v o : Version)
    → ((compare_versions v o ≡ older) ↔ Before v o)
      × (compare_versions o v ≡ flipped (compare_versions v o))
      × ((compare_versions v o ≡ same)
          ↔ ((v.major ≡ o.major) × (v.minor ≡ o.minor) × (v.patch ≡ o.patch)))
unfolding compare_versions
compare_versions_lem v o = ground arith

-- `CheckVersion` rejects exactly the versions before 2.0.0, and warns exactly of those after 2.2.0.
pub check_version_lem :
    (v : Version)
    → ((check_version v ≡ rejected) ↔ (v.major < 2))
      × ((check_version v ≡ warned) ↔ Before max_tested_version v)
unfolding check_version at_least newer_than compare_versions
check_version_lem v = ground arith
