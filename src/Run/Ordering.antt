-- ===== src/Run/Ordering.antt =====
-- `prioritize_findings`, `severity_rank` and `confidence_rank` of
-- crates/secureflow-model/src/lib.rs.
pub mod Laws
use Prim.Native.Nat.{compare, Ordering}
use secureflow.Prelude.{ℕ, Option, none, some, List}
use secureflow.Prelude.Sorting.{◌then_with◌, sort_by}
use secureflow.Text.Compare.{cmp}
use secureflow.Run.Kinds.{Severity, Confidence}
use secureflow.Run.Finding.{Finding}

unfoldable pub severity_rank : Option Severity → ℕ
severity_rank (some Severity.critical) = 5
severity_rank (some Severity.high) = 4
severity_rank (some Severity.medium) = 3
severity_rank (some Severity.low) = 2
severity_rank (some Severity.unknown) = 1
severity_rank none = 1

unfoldable pub confidence_rank : Confidence → ℕ
confidence_rank Confidence.high = 4
confidence_rank Confidence.medium = 3
confidence_rank Confidence.low = 2
confidence_rank Confidence.unknown = 1

-- The closure that `sort_by` is given.
unfoldable pub cmp_finding : Finding → Finding → Ordering
unfolding severity_rank confidence_rank
cmp_finding left right =
    compare (severity_rank right.severity) (severity_rank left.severity)
    then_with compare (confidence_rank right.confidence) (confidence_rank left.confidence)
    then_with cmp left.rule_id right.rule_id
    then_with cmp left.source_location.path right.source_location.path
    then_with compare left.source_location.start_line right.source_location.start_line
    then_with cmp left.sink_location.path right.sink_location.path
    then_with cmp left.finding_id right.finding_id

unfoldable pub prioritize_findings : List Finding → List Finding
prioritize_findings = sort_by cmp_finding
