-- ===== src/Run/Manifest.antt =====
-- `RunManifest` of crates/secureflow-model/src/lib.rs: `validate`, the frozen v1 shape,
-- `validated_findings` and `refresh_summary`.
pub mod Legacy
pub mod WellFormed
pub mod Refresh
use secureflow.Prelude.{
  ℕ, ◌+◌, Option, none, some, List, [], ◌∷◌, map, Bool, true, false, not, ◌&&◌, ◌||◌, ltb, is_some,
  is_empty, any, filter, length, ok, err, refuse, if_some, each, ◌>>=◌, ◌>>◌, if◌then◌else◌,
}
use secureflow.Text.{Text, text_eq, lit}
use secureflow.Run.Errors.{
  Checked, unsupported_contract, invalid_identifier, duplicate_identifier, inconsistent_state,
  legacy_contract_violation,
}
use secureflow.Run.Kinds.{RunStatus, is_terminal, HumanDecision, is_validated, is_receiver}
use secureflow.Run.Fields.{TimeParser, validate_sha256, validate_timestamp, valid_identifier}
use secureflow.Run.Unique.{each_unique}
use secureflow.Run.Target.{Target, validate_target}
use secureflow.Run.Engine.{EngineProvenance, validate_provenance}
use secureflow.Run.Location.{Location}
use secureflow.Run.Finding.{
  Finding, validate_finding, EngineAnalysisAbstention, validate_abstention,
}
use secureflow.Run.Summary.{
  Phases, validate_phases, Summary, validate_summary, decision, sum_tokens, ai_calls_of,
  input_tokens, output_tokens,
}
use secureflow.Run.Evaluation.{
  EvaluationReference, validate_evaluation, Artifact, validate_artifact,
}

abbrev pub run_contract_version : Text
run_contract_version = lit "secureflow-run-v2"

-- `CONTRACT_VERSION` above, `LEGACY_CONTRACT_VERSION` here
abbrev pub legacy_contract_version : Text
legacy_contract_version = lit "secureflow-run-v1"

pub record RunManifest : Type 0 where
  pub contract_version : Text
  pub run_id : Text
  pub status : RunStatus
  pub created_at : Text
  pub completed_at : Option Text
  pub target : Target
  pub engine : EngineProvenance
  pub configuration_sha256 : Option Text
  pub phases : Phases
  pub artifacts : List Artifact
  pub findings : List Finding
  pub engine_abstentions : List EngineAnalysisAbstention
  pub summary : Option Summary
  pub evaluation : Option EvaluationReference

-- The locations that the v1 shape looks at.
abbrev pub locations : Finding → List Location
locations f = f.source_location ∷ f.sink_location ∷ map (λ s. s.location) f.evidence_path

unfoldable pub validate_v1_finding : Finding → Checked
validate_v1_finding f = do
  refuse
      (is_some f.engine_finding_id
        || is_some f.engine_verification_state
        || is_some f.engine_evidence_state
        || is_some f.engine_calibration)
      (legacy_contract_violation "engine finding metadata requires secureflow-run-v2")
  each
      (λ l.
        refuse (is_some l.start_byte || is_some l.end_byte)
          (legacy_contract_violation "byte locations require secureflow-run-v2"))
      (locations f)
  refuse (any (λ s. is_receiver s.kind) f.evidence_path)
      (legacy_contract_violation "receiver evidence requires secureflow-run-v2")

unfoldable pub validate_v1_shape : RunManifest → Checked
validate_v1_shape m = do
  refuse (not (is_empty m.engine_abstentions))
      (legacy_contract_violation "engine abstentions require secureflow-run-v2")
  refuse (is_some m.engine.report_fingerprint || is_some m.engine.graph) (
      legacy_contract_violation
        "engine report fingerprint and graph summary require secureflow-run-v2")
  each validate_v1_finding m.findings

-- The `match` on the status and `completed_at`.
unfoldable pub validate_completion : Bool → Option Text → Checked
validate_completion true none = err (inconsistent_state "terminal runs require completed_at")
validate_completion false (some _) =
    err (inconsistent_state "non-terminal runs cannot have completed_at")
validate_completion _ _ = ok tt

unfoldable pub validate_completed_at : TimeParser → ℕ → Text → Checked
validate_completed_at parse created_at value = do
  completed_at ← validate_timestamp parse value "completed_at"
  refuse (ltb completed_at created_at) (inconsistent_state "completed_at cannot precede created_at")

-- `validate` up to the target, and from the target on.
unfoldable pub validate_run : TimeParser → RunManifest → Checked
validate_run parse m = do
  refuse
      (not (text_eq m.contract_version run_contract_version)
        && not (text_eq m.contract_version legacy_contract_version))
      (unsupported_contract m.contract_version)
  if text_eq m.contract_version legacy_contract_version then validate_v1_shape m else ok tt
  refuse (not (valid_identifier m.run_id (lit "sf_run_") 16 80)) (invalid_identifier "run_id")
  created_at ← validate_timestamp parse m.created_at "created_at"
  validate_completion (is_terminal m.status) m.completed_at
  if_some (validate_completed_at parse created_at) m.completed_at
  if_some (λ v. validate_sha256 v "configuration_sha256") m.configuration_sha256

unfoldable pub validate_parts : TimeParser → RunManifest → Checked
validate_parts parse m = do
  validate_target parse m.target
  validate_provenance m.engine
  each_unique validate_artifact (λ a. a.relative_path)
      (duplicate_identifier "artifact.relative_path") [] m.artifacts
  each_unique (validate_finding parse) (λ f. f.finding_id) (duplicate_identifier "finding_id") []
      m.findings
  each_unique validate_abstention (λ a. a.abstention_id)
      (duplicate_identifier "engine_abstention_id") [] m.engine_abstentions
  validate_phases m.phases m.findings
  if_some (λ s. validate_summary s m.findings) m.summary
  if_some validate_evaluation m.evaluation

unfoldable pub validate : TimeParser → RunManifest → Checked
validate parse m = validate_run parse m >> validate_parts parse m

unfoldable pub validated_findings : RunManifest → List Finding
validated_findings m = filter (λ f. is_validated (decision f)) m.findings

-- One round of the fold over the decisions: validated, rejected, abstained.
pub tally : ℕ × ℕ × ℕ → HumanDecision → ℕ × ℕ × ℕ
tally (v, r, a) HumanDecision.validated = (v + 1, r, a)
tally (v, r, a) HumanDecision.rejected = (v, r + 1, a)
tally (v, r, a) HumanDecision.abstained = (v, r, a + 1)
tally counts HumanDecision.pending = counts

pub tally_all : ℕ × ℕ × ℕ → List Finding → ℕ × ℕ × ℕ
unfolding tally
tally_all counts [] = counts
tally_all counts (f ∷ fs) = tally_all (tally counts (decision f)) fs

abbrev pub duplicates_of : Option Summary → ℕ
duplicates_of none = 0
duplicates_of (some s) = s.duplicate_count

unfoldable pub refresh_summary : RunManifest → RunManifest
unfolding tally_all
refresh_summary m =
    let counts = tally_all (0, 0, 0) m.findings in
    record m {
      summary = some (record {
        candidate_count = length m.findings;
        duplicate_count = duplicates_of m.summary;
        validated_count = counts.0;
        rejected_count = counts.1;
        abstained_count = counts.2;
        ai_calls = ai_calls_of m.findings;
        ai_input_tokens = sum_tokens input_tokens m.findings;
        ai_output_tokens = sum_tokens output_tokens m.findings;
      });
    }
