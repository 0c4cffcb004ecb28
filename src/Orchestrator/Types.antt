-- ===== src/Orchestrator/Types.antt =====
-- The data of crates/secureflow-orchestrator/src/lib.rs, and what it takes from other crates.
use Prim.Native.Nat.{compare, Ordering}
use secureflow.Prelude.{ℕ, ◌*◌, String, Bool, true, false, Option, List, any, ◌++◌}
use secureflow.Prelude.Sorting.{◌then_with◌}
use secureflow.Text.{Text, lit}
use secureflow.Text.Compare.{cmp}
use secureflow.Text.Format.{encode_hex}
use secureflow.Run.Errors.{ModelError}
use secureflow.Run.Fields.{TimeParser}

abbrev pub orchestration_version : Text
orchestration_version = lit "secureflow-orchestration-v1"

abbrev pub max_orchestration_bytes : ℕ
max_orchestration_bytes = 4 * 1024 * 1024

abbrev pub max_evidence_artifacts : ℕ
max_evidence_artifacts = 10_000

pub data EvidenceKind : Type 0 where
  contextual_review advisory_correlation web_inventory web_inference : EvidenceKind
  web_assessment benchmark_result web_lab_result web_corpus_result : EvidenceKind

-- The place of a variant in its declaration, which the derived `Ord` compares.
unfoldable pub variant : EvidenceKind → ℕ
variant EvidenceKind.contextual_review = 0
variant EvidenceKind.advisory_correlation = 1
variant EvidenceKind.web_inventory = 2
variant EvidenceKind.web_inference = 3
variant EvidenceKind.web_assessment = 4
variant EvidenceKind.benchmark_result = 5
variant EvidenceKind.web_lab_result = 6
variant EvidenceKind.web_corpus_result = 7

pub record EvidenceArtifact : Type 0 where
  pub kind : EvidenceKind
  pub sha256 : Text

-- The derived `Ord` of `EvidenceArtifact`: the fields in order.
unfoldable pub cmp_artifact : EvidenceArtifact → EvidenceArtifact → Ordering
unfolding variant
cmp_artifact a b = compare (variant a.kind) (variant b.kind) then_with cmp a.sha256 b.sha256

pub record OrchestrationPolicy : Type 0 where
  pub authorization_required : Bool
  pub deterministic_first : Bool
  pub ai_optional : Bool
  pub ai_validation_authority : Text
  pub benchmark_evaluation_only : Bool
  pub no_evidence_action : Text
  pub network_execution : Text

pub record RunState : Type 0 where
  pub candidate_count : ℕ
  pub pending_human_reviews : ℕ
  pub terminal_human_reviews : ℕ
  pub ai_completed : ℕ
  pub ai_failed_or_queued : ℕ

pub data PhaseName : Type 0 where
  authorization deterministic_analysis deterministic_prioritization : PhaseName
  context_enrichment optional_ai_advisory human_validation reproducible_evaluation : PhaseName

pub data OrchestratedStatus : Type 0 where
  blocked ready partial completed optional_not_requested : OrchestratedStatus
  evaluation_only failed : OrchestratedStatus

pub record OrchestratedPhase : Type 0 where
  pub name : PhaseName
  pub status : OrchestratedStatus
  pub reason : Text

pub data NextAction : Type 0 where
  complete_deterministic_analysis complete_deterministic_prioritization : NextAction
  human_review_or_abstain run_prospective_evaluation preserve_auditable_evidence : NextAction

pub data ClaimStatus : Type 0 where
  candidates_require_human_review human_decisions_available : ClaimStatus
  no_candidates_is_not_proof_of_safety : ClaimStatus

pub record OrchestrationEnvelope : Type 0 where
  pub contract_version : Text
  pub plan_id : Text
  pub created_at : Text
  pub linked_run_id : Text
  pub manifest_sha256 : Text
  pub target_sha256 : Text
  pub policy : OrchestrationPolicy
  pub evidence : List EvidenceArtifact
  pub state : RunState
  pub phases : List OrchestratedPhase
  pub next_action : NextAction
  pub claim_status : ClaimStatus

-- `panicked` stands for an index out of range, at which the source would panic.
pub data OrchestratorError : Type 0 where
  invalid_field : String → OrchestratorError
  too_many_artifacts : ℕ → ℕ → OrchestratorError
  run : ModelError → OrchestratorError
  timestamp : OrchestratorError
  json : OrchestratorError
  panicked : OrchestratorError

-- The local struct `Identity` of `expected_plan_id`.
pub record Identity : Type 0 where
  pub linked_run_id : Text
  pub manifest_sha256 : Text
  pub target_sha256 : Text
  pub policy : OrchestrationPolicy
  pub evidence : List EvidenceArtifact
  pub state : RunState
  pub phases : List OrchestratedPhase
  pub next_action : NextAction
  pub claim_status : ClaimStatus

-- What the crate calls: `time` (parsing, and the formatted current time, which can fail), `sha2`
-- (32 bytes) and `serde_json` (writing an identity, reading an envelope).
pub record Host : Type 0 where
  pub parse : TimeParser
  pub now : Option Text
  pub sha256 : Text → List ℕ
  pub to_vec : Identity → Text
  pub from_slice : Text → Option OrchestrationEnvelope

abbrev pub identity_of : OrchestrationEnvelope → Identity
identity_of e = record {
  linked_run_id = e.linked_run_id;
  manifest_sha256 = e.manifest_sha256;
  target_sha256 = e.target_sha256;
  policy = e.policy;
  evidence = e.evidence;
  state = e.state;
  phases = e.phases;
  next_action = e.next_action;
  claim_status = e.claim_status;
}

unfoldable pub expected_plan_id : Host → OrchestrationEnvelope → Text
expected_plan_id host e = lit "sf_plan_" ++ encode_hex (host.sha256 (host.to_vec (identity_of e)))

-- The two `matches!` on the kind of an artifact.
abbrev pub is_context : EvidenceKind → Bool
is_context EvidenceKind.contextual_review = true
is_context EvidenceKind.advisory_correlation = true
is_context EvidenceKind.web_inventory = true
is_context EvidenceKind.web_inference = true
is_context EvidenceKind.web_assessment = true
is_context _ = false

abbrev pub is_benchmark : EvidenceKind → Bool
is_benchmark EvidenceKind.benchmark_result = true
is_benchmark EvidenceKind.web_lab_result = true
is_benchmark EvidenceKind.web_corpus_result = true
is_benchmark _ = false

abbrev pub has_context : List EvidenceArtifact → Bool
has_context = any (λ a. is_context a.kind)

abbrev pub has_benchmark : List EvidenceArtifact → Bool
has_benchmark = any (λ a. is_benchmark a.kind)
