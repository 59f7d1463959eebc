-- ===== src/Sizes/Written.antt =====
-- The text that `FormatSize` of internal/lima/sizes.go writes.
use terraform_provider_lima.Base.{ℤ, String, List, ◌++◌, ℕ, codes, decimal, text_of}
use terraform_provider_lima.Sizes.{SizeUnit, tib, gib, mib, kib, bytes, FormattedSize, format_size}

abbrev pub unit_text : SizeUnit → String
unit_text tib = "TiB"
unit_text gib = "GiB"
unit_text mib = "MiB"
unit_text kib = "KiB"
unit_text bytes = "B"

abbrev pub size_codes : FormattedSize → List ℕ
size_codes f = decimal f.count ++ codes (unit_text f.unit)

unfoldable pub format_size_text : ℤ → String
format_size_text b = text_of (size_codes (format_size b))
