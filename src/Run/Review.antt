-- ===== src/Run/Review.antt =====
-- `HumanReview` of crates/secureflow-model/src/lib.rs.
pub mod Laws
use secureflow.Prelude.{Option, not, ◌&&◌, ◌||◌, is_some, is_none, refuse, if_some, ◌>>◌}
use secureflow.Text.{Text}
use secureflow.Run.Errors.{Checked, inconsistent_state}
use secureflow.Run.Kinds.{HumanDecision, is_pending}
use secureflow.Run.Fields.{TimeParser, validate_optional_string, check_timestamp}

pub record HumanReview : Type 0 where
  pub decision : HumanDecision
  pub reviewer : Option Text
  pub reviewed_at : Option Text
  pub rationale : Option Text
  pub evidence_reference : Option Text

unfoldable pub validate_review : TimeParser → HumanReview → Checked
validate_review parse r = do
  validate_optional_string r.reviewer "human_review.reviewer" 200
  validate_optional_string r.rationale "human_review.rationale" 3000
  validate_optional_string r.evidence_reference "human_review.evidence_reference" 300
  if_some (λ value. check_timestamp parse value "human_review.reviewed_at") r.reviewed_at
  refuse
      (is_pending r.decision
        && (is_some r.reviewer
            || is_some r.reviewed_at
            || is_some r.rationale
            || is_some r.evidence_reference))
      (inconsistent_state "pending human review cannot contain review metadata")
  refuse
      (not (is_pending r.decision)
        && (is_none r.reviewer || is_none r.reviewed_at || is_none r.rationale))
      (inconsistent_state "human decisions require reviewer, reviewed_at and rationale")
