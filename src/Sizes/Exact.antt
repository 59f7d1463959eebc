-- ===== src/Sizes/Exact.antt =====
-- `FormatSize` of internal/lima/sizes.go: its number and its unit.
use terraform_provider_lima.Base.{ℕ, ◌*◌, ◌%◌, ◌<◌, pos, ◌≡◌, ◌≢◌, arith}
use terraform_provider_lima.Sizes.{SizeUnit, unit_size, format_size}

-- A size that is not negative is formatted without loss: the number times the unit is the size.
pub format_size_exact :
    (n : ℕ) → (format_size (pos n)).count * unit_size (format_size (pos n)).unit ≡ n
unfolding format_size
format_size_exact n = ground arith

-- The unit is the largest that is exact: no larger one divides a positive size.
pub format_size_largest :
    (n : ℕ) (u : SizeUnit)
    → 0 < n
    → unit_size (format_size (pos n)).unit < unit_size u
    → n % unit_size u ≢ 0
unfolding format_size
format_size_largest n u h l e = ground arith
