-- ===== src/Run/Engine.antt =====
-- The engine's provenance, its graph summary and its evidence metadata, of
-- crates/secureflow-model/src/lib.rs. Counts are `u64`.
use secureflow.Prelude.{
  differ, ℕ, Option, not, ◌&&◌, ◌||◌, ltb, ◌==◌, is_some, is_none, refuse, if_some, ◌>>◌,
}
use secureflow.Text.{Text, text_eq, lit}
use secureflow.Run.Errors.{Checked, unsupported_report_schema, inconsistent_state}
use secureflow.Run.Kinds.{
  EngineGraphScope, is_full, EngineEvidenceDisposition, EngineEvidenceResolution,
  EngineFilesystemIdentity, EngineSecurityControlKind, EngineEvidenceStateKind, is_security_path,
}
use secureflow.Run.Fields.{validate_sha256, validate_bounded_string, validate_optional_string}

abbrev pub engine_report_schema : Text
engine_report_schema = lit "secure-json-v1"

abbrev pub engine_evidence_state_taxonomy : Text
engine_evidence_state_taxonomy = lit "secure-evidence-state-v1"

abbrev pub engine_calibration_taxonomy : Text
engine_calibration_taxonomy = lit "secure-evidence-calibration-v1"

pub record EngineGraphSummary : Type 0 where
  pub scope : EngineGraphScope
  pub nodes : ℕ
  pub edges : ℕ
  pub total_nodes : ℕ
  pub total_edges : ℕ

unfoldable pub validate_graph : EngineGraphSummary → Checked
validate_graph g = do
  refuse (ltb g.total_nodes g.nodes || ltb g.total_edges g.edges)
      (inconsistent_state "engine graph totals cannot be smaller than serialized counts")
  refuse (is_full g.scope && (not (g.total_nodes == g.nodes) || not (g.total_edges == g.edges)))
      (inconsistent_state "a full engine graph must serialize all reported nodes and edges")

pub record EngineProvenance : Type 0 where
  pub name : Text
  pub version : Text
  pub binary_sha256 : Text
  pub report_schema : Text
  pub report_sha256 : Text
  pub report_fingerprint : Option Text
  pub graph : Option EngineGraphSummary
  pub sandbox_name : Option Text
  pub sandbox_binary_sha256 : Option Text

unfoldable pub validate_provenance : EngineProvenance → Checked
validate_provenance e = do
  validate_bounded_string e.name "engine.name" 100
  validate_bounded_string e.version "engine.version" 100
  refuse (not (text_eq e.report_schema engine_report_schema))
      (unsupported_report_schema e.report_schema)
  validate_sha256 e.binary_sha256 "engine.binary_sha256"
  validate_sha256 e.report_sha256 "engine.report_sha256"
  if_some (λ v. validate_sha256 v "engine.report_fingerprint") e.report_fingerprint
  if_some validate_graph e.graph
  validate_optional_string e.sandbox_name "engine.sandbox_name" 100
  if_some (λ v. validate_sha256 v "engine.sandbox_binary_sha256") e.sandbox_binary_sha256
  refuse (differ (is_some e.sandbox_name) (is_some e.sandbox_binary_sha256))
      (inconsistent_state "engine sandbox name and binary hash must appear together")

pub record EngineSecurityControlEvidence : Type 0 where
  pub kind : EngineSecurityControlKind
  pub scope_binding : EngineEvidenceResolution
  pub value_binding : EngineEvidenceResolution
  pub time_binding : EngineEvidenceResolution

pub record EngineEvidenceCalibration : Type 0 where
  pub taxonomy_version : Text
  pub disposition : EngineEvidenceDisposition
  pub reachability : EngineEvidenceResolution
  pub attacker_control : EngineEvidenceResolution
  pub actor_identity : EngineEvidenceResolution
  pub trust_boundary : EngineEvidenceResolution
  pub security_control : EngineSecurityControlEvidence
  pub filesystem_identity : EngineFilesystemIdentity
  pub observable_impact : EngineEvidenceResolution
  pub reason : Option Text

unfoldable pub validate_calibration : EngineEvidenceCalibration → Checked
validate_calibration c = do
  refuse (not (text_eq c.taxonomy_version engine_calibration_taxonomy))
      (inconsistent_state "unsupported engine calibration taxonomy")
  validate_optional_string c.reason "engine_calibration.reason" 200
  refuse (not (is_security_path c.disposition) && is_none c.reason)
      (inconsistent_state "non-security-path engine calibration requires a reason")

pub record EngineEvidenceState : Type 0 where
  pub taxonomy_version : Text
  pub state : EngineEvidenceStateKind

-- `EngineEvidenceStateKind::as_str`
unfoldable pub as_str : EngineEvidenceStateKind → Text
as_str EngineEvidenceStateKind.syntactic_lead = lit "syntactic-lead"
as_str EngineEvidenceStateKind.semantic_path = lit "semantic-path"
as_str EngineEvidenceStateKind.guard_aware_lead = lit "guard-aware-lead"
as_str EngineEvidenceStateKind.manually_validated = lit "manually-validated"

unfoldable pub validate_evidence_state : EngineEvidenceState → Checked
validate_evidence_state s =
    refuse (not (text_eq s.taxonomy_version engine_evidence_state_taxonomy))
      (inconsistent_state "unsupported engine evidence-state taxonomy")
