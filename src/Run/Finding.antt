-- ===== src/Run/Finding.antt =====
-- `Finding`, `TaxonomyCoordinates` and `EngineAnalysisAbstention` of
-- crates/secureflow-model/src/lib.rs.
use secureflow.Prelude.{
  Option, none, some, List, Bool, false, not, is_empty, refuse, if_some, each, ◌>>◌,
}
use secureflow.Text.{Text, text_eq, lit, strip_prefix}
use secureflow.Run.Errors.{Checked, inconsistent_state, invalid_identifier, empty_evidence_path}
use secureflow.Run.Kinds.{Severity, Confidence, is_explicit_abstention}
use secureflow.Run.Fields.{
  TimeParser, validate_optional_string, validate_bounded_string, validate_sha256, valid_identifier,
  is_lower_hex_of_length,
}
use secureflow.Run.Engine.{
  EngineEvidenceState, validate_evidence_state, as_str, EngineEvidenceCalibration,
  validate_calibration,
}
use secureflow.Run.Location.{Location, validate_location, EvidenceStep, validate_step}
use secureflow.Run.Review.{HumanReview, validate_review}
use secureflow.Run.Ai.{AiValidation, validate_ai}

pub record TaxonomyCoordinates : Type 0 where
  pub version : Text
  pub category_id : Text
  pub invariant_id : Text

unfoldable pub validate_taxonomy : TaxonomyCoordinates → Checked
validate_taxonomy t = do
  validate_bounded_string t.version "finding.taxonomy.version" 50
  validate_bounded_string t.category_id "finding.taxonomy.category_id" 100
  validate_bounded_string t.invariant_id "finding.taxonomy.invariant_id" 100

pub record Finding : Type 0 where
  pub finding_id : Text
  pub engine_fingerprint : Option Text
  pub engine_finding_id : Option Text
  pub engine_verification_state : Option Text
  pub engine_evidence_state : Option EngineEvidenceState
  pub engine_calibration : Option EngineEvidenceCalibration
  pub title : Text
  pub rule_id : Text
  pub taxonomy : Option TaxonomyCoordinates
  pub severity : Option Severity
  pub confidence : Confidence
  pub source_location : Location
  pub sink_location : Location
  pub invariant : Text
  pub evidence_path : List EvidenceStep
  pub limitations : List Text
  pub human_review : HumanReview
  pub ai_validation : AiValidation

-- `option.as_deref() == Some(text)`
abbrev pub is_some_text : Option Text → Text → Bool
is_some_text none t = false
is_some_text (some s) t = text_eq s t

-- The block `if let Some(state) = &self.engine_evidence_state`.
unfoldable pub validate_finding_state : Option Text → EngineEvidenceState → Checked
validate_finding_state verification state = do
  validate_evidence_state state
  refuse (not (is_some_text verification (as_str state.state)))
      (inconsistent_state "engine verification and evidence states must agree")

-- The block `if let Some(calibration) = &self.engine_calibration`.
unfoldable pub validate_finding_calibration : EngineEvidenceCalibration → Checked
validate_finding_calibration calibration = do
  validate_calibration calibration
  refuse (is_explicit_abstention calibration.disposition)
      (inconsistent_state "explicit Engine abstentions cannot be represented as findings")

unfoldable pub validate_finding : TimeParser → Finding → Checked
validate_finding parse f = do
  refuse (not (valid_identifier f.finding_id (lit "sf_finding_") 16 100))
      (invalid_identifier "finding_id")
  validate_optional_string f.engine_fingerprint "finding.engine_fingerprint" 200
  validate_optional_string f.engine_finding_id "finding.engine_finding_id" 100
  validate_optional_string f.engine_verification_state "finding.engine_verification_state" 100
  if_some (validate_finding_state f.engine_verification_state) f.engine_evidence_state
  if_some validate_finding_calibration f.engine_calibration
  validate_bounded_string f.title "finding.title" 300
  validate_bounded_string f.rule_id "finding.rule_id" 100
  validate_bounded_string f.invariant "finding.invariant" 1000
  if_some validate_taxonomy f.taxonomy
  validate_location f.source_location
  validate_location f.sink_location
  refuse (is_empty f.evidence_path) empty_evidence_path
  each (validate_step "finding.evidence.description") f.evidence_path
  each (λ limitation. validate_bounded_string limitation "finding.limitations" 500) f.limitations
  validate_review parse f.human_review
  validate_ai f.ai_validation

pub record EngineAnalysisAbstention : Type 0 where
  pub abstention_id : Text
  pub rule_id : Text
  pub reason : Text
  pub source_location : Location
  pub sink_location : Location
  pub evidence_path : List EvidenceStep
  pub calibration : EngineEvidenceCalibration
  pub limitations : List Text
  pub fingerprint : Text

abbrev pub is_abstention_suffix : Option Text → Bool
is_abstention_suffix none = false
is_abstention_suffix (some suffix) = is_lower_hex_of_length suffix 24

unfoldable pub validate_abstention : EngineAnalysisAbstention → Checked
validate_abstention a = do
  refuse (not (is_abstention_suffix (strip_prefix (lit "ab_") a.abstention_id)))
      (invalid_identifier "engine_abstention_id")
  validate_bounded_string a.rule_id "engine_abstention.rule_id" 100
  validate_bounded_string a.reason "engine_abstention.reason" 200
  validate_location a.source_location
  validate_location a.sink_location
  refuse (is_empty a.evidence_path) empty_evidence_path
  each (validate_step "engine_abstention.evidence.description") a.evidence_path
  validate_calibration a.calibration
  refuse (not (is_explicit_abstention a.calibration.disposition))
      (inconsistent_state "engine abstention requires explicit-abstention calibration")
  each (λ limitation. validate_bounded_string limitation "engine_abstention.limitations" 500)
      a.limitations
  validate_sha256 a.fingerprint "engine_abstention.fingerprint"
