-- ===== src/Provider/Diagnostics.antt =====
-- The diagnostics that the handlers of internal/provider add. A diagnostic is its severity, the
-- attribute it stands at, and its summary; the detail is text for the user and is left out.
use terraform_provider_lima.Base.{ℕ, String, Bool, true, false, List, [], any_of}

pub data Severity : Type 0 where
  error_severity warning_severity : Severity

-- path.Root, AtListIndex and AtName
pub data Step : Type 0 where
  root field : String → Step
  list_index : ℕ → Step

pub record Diagnostic : Type 0 where
  pub severity : Severity
  pub at : List Step
  pub summary : String

-- AddAttributeError and AddAttributeWarning
abbrev pub attribute_error : List Step → String → Diagnostic
attribute_error at summary = record { severity = error_severity; at = at; summary = summary }

abbrev pub attribute_warning : List Step → String → Diagnostic
attribute_warning at summary = record { severity = warning_severity; at = at; summary = summary }

-- AddError and AddWarning
abbrev pub general_error : String → Diagnostic
general_error summary = attribute_error [] summary

abbrev pub general_warning : String → Diagnostic
general_warning summary = attribute_warning [] summary

abbrev pub is_error : Diagnostic → Bool
is_error d = elim d.severity [ error_severity ↦ true | warning_severity ↦ false ]

-- HasError
abbrev pub has_error : List Diagnostic → Bool
has_error ds = any_of is_error ds
