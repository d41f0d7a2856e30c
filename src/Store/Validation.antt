-- ===== src/Store/Validation.antt =====
-- frontend/src/features/builder/lib/proposal-preview.ts: the issues that the server found, as the
-- builder lists them.
use homelab_builder.Types.{warning, error, IssueType, HardwareNodeValidationIssue}
use homelab_builder.Base.{
  none, ◌++◌, or_else, map, some, [], String, List, Option, string_eq, nat_eq, int_eq,
}

pub record ValidationIssue : Type 0 where
  pub node_id : Option String
  pub message : String

pub record ValidationReport : Type 0 where
  pub errors : Option (List ValidationIssue)
  pub warnings : Option (List ValidationIssue)

unfoldable pub with_type :
    Option (List ValidationIssue) → IssueType → List HardwareNodeValidationIssue
with_type none type = []
with_type (some issues) type =
    map
      (λ issue. record { node_id = or_else issue.node_id ""; message = issue.message; type = type })
      issues

-- The errors, then the warnings.
unfoldable pub validation_to_issues : Option ValidationReport → List HardwareNodeValidationIssue
validation_to_issues none = []
validation_to_issues (some validation) =
    with_type validation.errors error ++ with_type validation.warnings warning
