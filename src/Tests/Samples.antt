-- ===== src/Tests/Samples.antt =====
-- A run manifest with two findings, as `RunManifest::validate` of
-- crates/secureflow-model/src/lib.rs accepts it, and a clock.
use secureflow.Prelude.{◌++◌, refl, ℕ, suc, zero, [], ◌∷◌, none, some, Passes, length}
use secureflow.Text.{Text, lit, text_eq, strip_prefix}
use secureflow.Text.Chars.{chars, trim, is_control}
use secureflow.Text.Paths.{components}
use secureflow.Run.Kinds.{
  RunStatus, AuthorizationStatus, AuthorizationBasis, PhaseStatus, Severity, Confidence,
  EvidenceKind, HumanDecision, AiValidationStatus, AiAssessment, ArtifactKind, is_terminal,
}
use secureflow.Run.Fields.{
  TimeParser, valid_identifier, validate_sha256, validate_bounded_string, validate_optional_string,
  validate_timestamp, validate_relative_path,
}
use secureflow.Run.Target.{Target, validate_target, validate_authorization}
use secureflow.Run.Engine.{EngineProvenance, validate_provenance, engine_report_schema}
use secureflow.Run.Location.{Location, validate_location, validate_step}
use secureflow.Run.Review.{HumanReview, validate_review}
use secureflow.Run.Ai.{AiValidation, validate_ai, validate_ai_status}
use secureflow.Run.Finding.{Finding, validate_finding}
use secureflow.Run.Evaluation.{validate_artifact}
use secureflow.Run.Unique.{each_unique}
use secureflow.Run.Summary.{validate_phases}
use secureflow.Run.Manifest.{
  RunManifest, run_contract_version, validate, validate_run, validate_parts, validate_completion,
  validate_completed_at,
}

-- A clock that reads a text as its length.
abbrev pub clock : TimeParser
clock text = some (length text)

abbrev pub zeros : ℕ → Text
zeros zero = []
zeros (suc n) = b'0' ∷ zeros n

abbrev pub sample_sha : Text
sample_sha = zeros 64

abbrev pub sample_location : Location
sample_location = record {
  path = lit "src/main.rs";
  start_byte = some 4;
  end_byte = some 9;
  start_line = 1;
  start_column = 5;
  end_line = some 1;
  end_column = some 10;
}

abbrev pub pending_review : HumanReview
pending_review = record {
  decision = HumanDecision.pending;
  reviewer = none;
  reviewed_at = none;
  rationale = none;
  evidence_reference = none;
}

abbrev pub signed_review : HumanReview
signed_review = record {
  decision = HumanDecision.validated;
  reviewer = some (lit "ana");
  reviewed_at = some (lit "2026-01-02T00:00:00Z");
  rationale = some (lit "reproduced");
  evidence_reference = none;
}

abbrev pub no_ai : AiValidation
no_ai = record {
  status = AiValidationStatus.not_requested;
  request_id = none;
  provider = none;
  model = none;
  prompt_version = none;
  redacted_payload_sha256 = none;
  response_sha256 = none;
  input_tokens = none;
  output_tokens = none;
  assessment = none;
}

abbrev pub completed_ai : AiValidation
completed_ai = record {
  status = AiValidationStatus.completed;
  request_id = some (lit "sf_ai_request_" ++ sample_sha);
  provider = some (lit "provider");
  model = some (lit "model");
  prompt_version = some (lit "p1");
  redacted_payload_sha256 = some sample_sha;
  response_sha256 = some sample_sha;
  input_tokens = some 120;
  output_tokens = some 30;
  assessment = some AiAssessment.supports;
}

abbrev pub sample_finding : Text → Severity → HumanReview → AiValidation → Finding
sample_finding id severity review ai = record {
  finding_id = lit "sf_finding_0123456789abcde" ++ id;
  engine_fingerprint = some (lit "print" ++ id);
  engine_finding_id = none;
  engine_verification_state = none;
  engine_evidence_state = none;
  engine_calibration = none;
  title = lit "A path reaches a sink";
  rule_id = lit "rule";
  taxonomy = none;
  severity = some severity;
  confidence = Confidence.medium;
  source_location = sample_location;
  sink_location = sample_location;
  invariant = lit "input is checked";
  evidence_path =
      record {
        kind = EvidenceKind.source;
        location = sample_location;
        description = lit "a parameter";
      }
      ∷ [];
  limitations = [];
  human_review = review;
  ai_validation = ai;
}

abbrev pub first_finding : Finding
first_finding = sample_finding (lit "1") Severity.low pending_review no_ai

abbrev pub second_finding : Finding
second_finding = sample_finding (lit "2") Severity.high signed_review completed_ai

abbrev pub sample_engine : EngineProvenance
sample_engine = record {
  name = lit "secure-engine";
  version = lit "1.0";
  binary_sha256 = sample_sha;
  report_schema = engine_report_schema;
  report_sha256 = sample_sha;
  report_fingerprint = none;
  graph = none;
  sandbox_name = none;
  sandbox_binary_sha256 = none;
}

abbrev pub sample_target : Target
sample_target = record {
  label = lit "service";
  root_sha256 = sample_sha;
  revision = none;
  authorization = record {
    status = AuthorizationStatus.authorized;
    basis = AuthorizationBasis.local_project;
    reviewer = lit "ana";
    reference = none;
    expires_at = none;
  };
}

-- The manifest with the two states of the phases that the plans below need.
abbrev pub sample_manifest : PhaseStatus → PhaseStatus → RunManifest
sample_manifest deterministic prioritization = record {
  contract_version = run_contract_version;
  run_id = lit "sf_run_0123456789abcdef";
  status = RunStatus.completed;
  created_at = lit "2026-01-01T00:00:00Z";
  completed_at = some (lit "2026-01-02T00:00:00Z");
  target = sample_target;
  engine = sample_engine;
  configuration_sha256 = none;
  phases = record {
    deterministic = deterministic;
    prioritization = prioritization;
    validation = PhaseStatus.partial;
    evaluation = PhaseStatus.pending;
  };
  artifacts =
      record {
        kind = ArtifactKind.raw_report;
        relative_path = lit "report.json";
        sha256 = sample_sha;
        bytes = 10;
      }
      ∷ [];
  findings = first_finding ∷ second_finding ∷ [];
  engine_abstentions = [];
  summary = none;
  evaluation = none;
}

pub manifest_passes : (d p : PhaseStatus) → Passes (validate clock (sample_manifest d p))
unfolding validate validate_run validate_parts validate_completion validate_completed_at
    validate_target validate_authorization validate_provenance validate_artifact validate_finding
    validate_location validate_step validate_review validate_ai validate_ai_status each_unique
    validate_phases validate_timestamp validate_optional_string validate_bounded_string
    validate_sha256 validate_relative_path valid_identifier is_terminal components trim chars
    is_control text_eq strip_prefix lit
manifest_passes d p = refl
