-- ===== src/Run/Review/Laws.antt =====
-- What `validate_review` accepts: a pending review carries nothing, a decision names its reviewer,
-- its time and its reasons.
use secureflow.Prelude.{
  String, ◌≢◌, ◌≡◌, ◌↔◌, refl, Option, none, some, true, false, ◌||◌, arith, Passes, WhenSome,
  is_some, if_some,
}
use secureflow.Text.{Text}
use secureflow.Run.Kinds.{HumanDecision}
use secureflow.Run.Fields.{
  TimeParser, validate_optional_string, check_timestamp, validate_timestamp,
}
use secureflow.Run.Review.{HumanReview, validate_review}

-- No metadata while pending.
pub record IsUntouched (r : HumanReview) : Type 0 where
  pub reviewer : r.reviewer ≡ none
  pub reviewed_at : r.reviewed_at ≡ none
  pub rationale : r.rationale ≡ none
  pub evidence_reference : r.evidence_reference ≡ none

pub record IsSigned (r : HumanReview) : Type 0 where
  pub reviewer : is_some r.reviewer ≡ true
  pub reviewed_at : is_some r.reviewed_at ≡ true
  pub rationale : is_some r.rationale ≡ true

pub record IsReview (parse : TimeParser) (r : HumanReview) : Type 0 where
  pub reviewer : Passes (validate_optional_string r.reviewer "human_review.reviewer" 200)
  pub rationale : Passes (validate_optional_string r.rationale "human_review.rationale" 3000)
  pub reference :
      Passes (validate_optional_string r.evidence_reference "human_review.evidence_reference" 300)
  pub time : WhenSome (λ t. is_some (parse t) ≡ true) r.reviewed_at
  pub pending : r.decision ≡ HumanDecision.pending → IsUntouched r
  pub decided : r.decision ≢ HumanDecision.pending → IsSigned r

pub check_timestamp_iff :
    (parse : TimeParser) (t : Text) (field : String)
    → Passes (check_timestamp parse t field) ↔ (is_some (parse t) ≡ true)
unfolding validate_timestamp
check_timestamp_iff parse t field = (λ h. ground arith, λ h. ground arith)

time_iff :
    (parse : TimeParser) (o : Option Text)
    → Passes (if_some (λ t. check_timestamp parse t "human_review.reviewed_at") o)
      ↔ WhenSome (λ t. is_some (parse t) ≡ true) o
time_iff parse none = (λ _. tt, λ _. refl)
time_iff parse (some t) = check_timestamp_iff parse t "human_review.reviewed_at"

IsUntouched-of :
    (r : HumanReview)
    → (is_some r.reviewer
        || is_some r.reviewed_at
        || is_some r.rationale
        || is_some r.evidence_reference)
      ≡ false
    → IsUntouched r
IsUntouched-of r h = record {
  reviewer = ground arith;
  reviewed_at = ground arith;
  rationale = ground arith;
  evidence_reference = ground arith;
}

-- `validate_review` accepts exactly the reviews that are pending and carry no reviewer, time,
-- rationale or reference, or are decided and carry the first three, each text of which is
-- in bounds and each time of which can be read.
pub validate_review_iff :
    (parse : TimeParser) (r : HumanReview) → Passes (validate_review parse r) ↔ IsReview parse r
unfolding validate_review
validate_review_iff parse r =
    let time = time_iff parse r.reviewed_at in
    (
      (λ h. record {
        reviewer = ground arith;
        rationale = ground arith;
        reference = ground arith;
        time = time.0 (ground arith);
        pending = λ e. IsUntouched-of r (ground arith);
        decided = λ n. record {
          reviewer = ground arith;
          reviewed_at = ground arith;
          rationale = ground arith;
        };
      }),
      (λ h. let t = time.1 h.time in ground (arith, h.pending, h.decided)),
    )
