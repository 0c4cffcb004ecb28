-- ===== src/Case/Types.antt =====
-- The data of crates/secureflow-case/src/lib.rs.
use secureflow.Prelude.{String, Option, List, Result}
use secureflow.Text.{Text, lit}

abbrev pub case_contract_version : Text
case_contract_version = lit "secureflow-security-case-v1"

abbrev pub sarif_version : Text
sarif_version = lit "2.1.0"

pub record CaseRevision : Type 0 where
  pub kind : Text
  pub value : Text

pub record CaseAuthorization : Type 0 where
  pub status : Text
  pub basis : Text
  pub reviewer : Text
  pub reference : Option Text
  pub expires_at : Option Text

pub record CaseTarget : Type 0 where
  pub label : Text
  pub root_sha256 : Text
  pub revision : Option CaseRevision
  pub authorization : CaseAuthorization

pub data SourceKind : Type 0 where
  secure_engine secure_skill_contextual external_sarif agent : SourceKind

pub record Source : Type 0 where
  pub source_id : Text
  pub kind : SourceKind
  pub name : Text
  pub version : Text
  pub artifact_sha256 : Text
  pub methodology : Option Text

pub record Evidence : Type 0 where
  pub evidence_id : Text
  pub source_id : Text
  pub sha256 : Text
  pub description : Text
  pub relative_path : Option Text

pub data CandidateClass : Type 0 where
  engine_candidate contextual_candidate external_tool_candidate : CandidateClass

pub record Candidate : Type 0 where
  pub candidate_id : Text
  pub source_id : Text
  pub class : CandidateClass
  pub title : Text
  pub severity : Option Text
  pub confidence : Text
  pub evidence_ids : List Text
  pub limitations : List Text

pub record StagedRecommendation : Type 0 where
  pub stage_id : Text
  pub candidate_id : Text
  pub agent_name : Text
  pub recommendation : Text
  pub rationale : Text
  pub created_at : Text

pub data Decision : Type 0 where
  validated rejected abstained : Decision

pub record HumanDecision : Type 0 where
  pub decision_id : Text
  pub candidate_id : Text
  pub decision : Decision
  pub reviewer : Text
  pub rationale : Text
  pub decided_at : Text
  pub evidence_reference : Option Text

pub record SecurityCase : Type 0 where
  pub contract_version : Text
  pub case_id : Text
  pub created_at : Text
  pub target : CaseTarget
  pub sources : List Source
  pub evidence : List Evidence
  pub candidates : List Candidate
  pub staged_recommendations : List StagedRecommendation
  pub decisions : List HumanDecision

pub data CaseError : Type 0 where
  unsupported_contract : Text → CaseError
  invalid_field : String → CaseError
  duplicate : String → CaseError
  missing_reference : String → CaseError
  invalid_state : String → CaseError
  json : CaseError

abbrev pub Checked : Type 0
Checked = Result CaseError (Unit {0})
