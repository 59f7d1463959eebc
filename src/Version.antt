-- ===== src/Version.antt =====
-- The comparison of Lima versions of internal/lima/version.go, and `CheckVersion` of
-- internal/lima/lifecycle.go. A version is the parsed numbers; the suffix and the raw text are for
-- diagnostics only. The numbers come from digits, so they are natural.
pub mod Order
use terraform_provider_lima.Base.{
  ℕ, String, Bool, true, false, not, Option, none, some, eqb, ltb, if◌then◌else◌,
}

pub record Version : Type 0 where
  pub major : ℕ
  pub minor : ℕ
  pub patch : ℕ
  pub pre : String
  pub raw : String

-- The result of cmp.Compare, -1, 0 or 1.
pub data Comparison : Type 0 where
  older same newer : Comparison

abbrev pub compare_parts : ℕ → ℕ → Comparison
compare_parts a b = if ltb a b then older else if ltb b a then newer else same

unfoldable pub compare_versions : Version → Version → Comparison
compare_versions v o =
    if not (eqb v.major o.major)
    then compare_parts v.major o.major
    else if not (eqb v.minor o.minor)
    then compare_parts v.minor o.minor
    else if not (eqb v.patch o.patch)
    then compare_parts v.patch o.patch
    else same

abbrev not_older : Comparison → Bool
not_older older = false
not_older same = true
not_older newer = true

abbrev is_newer : Comparison → Bool
is_newer older = false
is_newer same = false
is_newer newer = true

unfoldable pub at_least : Version → Version → Bool
at_least v o = not_older (compare_versions v o)

unfoldable pub newer_than : Version → Version → Bool
newer_than v o = is_newer (compare_versions v o)

abbrev pub minimum_version : Version
minimum_version = record { major = 2; minor = 0; patch = 0; pre = ""; raw = "" }

abbrev pub max_tested_version : Version
max_tested_version = record { major = 2; minor = 2; patch = 0; pre = ""; raw = "" }

-- An error, a warning, or neither.
pub data Verdict : Type 0 where
  rejected warned accepted : Verdict

unfoldable pub check_version : Version → Verdict
check_version v =
    if not (at_least v minimum_version)
    then rejected
    else if newer_than v max_tested_version
    then warned
    else accepted
