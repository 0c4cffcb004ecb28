-- ===== src/Orchestrator/Derive.antt =====
-- `derive_plan` and `derive_phases` of crates/secureflow-orchestrator/src/lib.rs.
pub mod PlanId
pub mod Evidence
pub mod Phases
pub mod Accepted
pub mod Total
pub mod Order
pub mod Reading
use secureflow.Prelude.{
  ℕ, ◌-◌, Bool, true, false, not, ◌&&◌, ◌||◌, Option, none, some, List, [], ◌∷◌, ltb, ◌==◌, length,
  any, is_empty, count_if, Result, ok, err, refuse, map_err, ◌>>=◌, ◌>>◌, if◌then◌else◌,
}
use secureflow.Prelude.Sorting.{sort_by, is_gt, is_lt}
use secureflow.Text.{Text, lit}
use secureflow.Run.Kinds.{PhaseStatus, is_pending, is_completed, AiValidationStatus}
use secureflow.Run.Summary.{decision}
use secureflow.Run.Manifest
use secureflow.Run.Manifest.{RunManifest}
use secureflow.Orchestrator.Types.{
  OrchestrationEnvelope, OrchestrationPolicy, EvidenceArtifact, RunState, OrchestratedPhase,
  PhaseName, OrchestratedStatus, NextAction, ClaimStatus, OrchestratorError, Host, cmp_artifact,
  expected_plan_id, has_context, has_benchmark, orchestration_version, max_evidence_artifacts,
  invalid_field, too_many_artifacts, run, timestamp,
}
use secureflow.Orchestrator.Validate.{valid_sha256, validate}

abbrev pub phase : PhaseName → OrchestratedStatus → Text → OrchestratedPhase
phase name status reason = record { name = name; status = status; reason = reason }

abbrev pub map_status : PhaseStatus → OrchestratedStatus
map_status PhaseStatus.completed = OrchestratedStatus.completed
map_status PhaseStatus.partial = OrchestratedStatus.partial
map_status PhaseStatus.running = OrchestratedStatus.partial
map_status PhaseStatus.failed = OrchestratedStatus.failed
map_status PhaseStatus.pending = OrchestratedStatus.ready
map_status PhaseStatus.skipped = OrchestratedStatus.ready

abbrev pub map_named_phase : PhaseName → PhaseStatus → Text → OrchestratedPhase
map_named_phase name status reason = phase name (map_status status) reason

abbrev pub map_required_phase : PhaseStatus → Text → OrchestratedPhase
map_required_phase = map_named_phase PhaseName.deterministic_analysis

-- The seven bindings of `derive_phases`.
module _ (m : RunManifest) (state : RunState) where
  unfoldable pub deterministic : OrchestratedPhase
  deterministic =
      map_required_phase m.phases.deterministic
        (lit "deterministic scanner state retained in run manifest")

  unfoldable pub prioritization : OrchestratedPhase
  prioritization =
      if not (is_completed m.phases.deterministic)
      then phase PhaseName.deterministic_prioritization OrchestratedStatus.blocked
          (lit "blocked until deterministic analysis completes")
      else map_named_phase PhaseName.deterministic_prioritization m.phases.prioritization
          (lit "deterministic ordering and exact dedup state retained in run manifest")

  unfoldable pub context : Bool → OrchestratedPhase
  context retained =
      if not (is_completed m.phases.prioritization)
      then phase PhaseName.context_enrichment OrchestratedStatus.blocked
          (lit "blocked until deterministic prioritization completes")
      else if retained
      then phase PhaseName.context_enrichment OrchestratedStatus.completed
          (lit "validated contextual artifact retained; it does not validate a finding")
      else phase PhaseName.context_enrichment OrchestratedStatus.optional_not_requested
          (lit "no contextual artifact supplied; human review may continue")

  unfoldable pub ai : OrchestratedPhase
  ai =
      if ltb 0 state.ai_completed
      then phase PhaseName.optional_ai_advisory OrchestratedStatus.completed
          (lit "measured AI advisory responses retained; human decisions remain unchanged")
      else if ltb 0 state.ai_failed_or_queued
      then phase PhaseName.optional_ai_advisory OrchestratedStatus.partial
          (lit "AI advisory work is queued or failed and cannot validate findings")
      else phase PhaseName.optional_ai_advisory OrchestratedStatus.optional_not_requested
          (lit "AI is optional and was not completed")

  unfoldable pub validation : OrchestratedPhase
  validation =
      if not (is_completed m.phases.prioritization)
      then phase PhaseName.human_validation OrchestratedStatus.blocked
          (lit "blocked until deterministic prioritization completes")
      else if state.pending_human_reviews == 0
      then phase PhaseName.human_validation OrchestratedStatus.completed
          (lit "all candidates have terminal human decisions")
      else if ltb 0 state.terminal_human_reviews
      then phase PhaseName.human_validation OrchestratedStatus.partial
          (lit "some candidates still require human review or abstention")
      else phase PhaseName.human_validation OrchestratedStatus.ready
          (lit "candidates require human review or abstention")

  unfoldable pub evaluation : Bool → OrchestratedPhase
  evaluation benchmark =
      if ltb 0 state.pending_human_reviews || not (is_completed m.phases.prioritization)
      then phase PhaseName.reproducible_evaluation OrchestratedStatus.blocked
          (lit "benchmarking follows deterministic processing and human adjudication")
      else if benchmark
      then phase PhaseName.reproducible_evaluation OrchestratedStatus.evaluation_only
          (lit "benchmark evidence is retained outside the production decision path")
      else phase PhaseName.reproducible_evaluation OrchestratedStatus.ready
          (lit "eligible for a preregistered prospective evaluation")

  unfoldable pub derive_phases : Bool → Bool → List OrchestratedPhase
  derive_phases retained benchmark =
      phase PhaseName.authorization OrchestratedStatus.completed
        (lit "linked run contains validated explicit authorization")
      ∷ deterministic
      ∷ prioritization
      ∷ context retained
      ∷ ai
      ∷ validation
      ∷ evaluation benchmark
      ∷ []

-- `matches!(status, Failed | Queued)`
abbrev pub is_failed_or_queued : AiValidationStatus → Bool
is_failed_or_queued AiValidationStatus.failed = true
is_failed_or_queued AiValidationStatus.queued = true
is_failed_or_queued _ = false

abbrev pub is_ai_completed : AiValidationStatus → Bool
is_ai_completed AiValidationStatus.completed = true
is_ai_completed _ = false

unfoldable pub state_of : RunManifest → RunState
state_of m =
    let waiting = count_if (λ f. is_pending (decision f)) m.findings in
    record {
      candidate_count = length m.findings;
      pending_human_reviews = waiting;
      terminal_human_reviews = length m.findings - waiting;
      ai_completed = count_if (λ f. is_ai_completed f.ai_validation.status) m.findings;
      ai_failed_or_queued = count_if (λ f. is_failed_or_queued f.ai_validation.status) m.findings;
    }

unfoldable pub next_action : RunManifest → ℕ → Bool → NextAction
next_action m waiting benchmark =
    if not (is_completed m.phases.deterministic)
    then NextAction.complete_deterministic_analysis
    else if not (is_completed m.phases.prioritization)
    then NextAction.complete_deterministic_prioritization
    else if ltb 0 waiting
    then NextAction.human_review_or_abstain
    else if not benchmark
    then NextAction.run_prospective_evaluation
    else NextAction.preserve_auditable_evidence

unfoldable pub claim_status : RunManifest → ℕ → ClaimStatus
claim_status m waiting =
    if is_empty m.findings
    then ClaimStatus.no_candidates_is_not_proof_of_safety
    else if ltb 0 waiting
    then ClaimStatus.candidates_require_human_review
    else ClaimStatus.human_decisions_available

abbrev pub policy : OrchestrationPolicy
policy = record {
  authorization_required = true;
  deterministic_first = true;
  ai_optional = true;
  ai_validation_authority = lit "human-only";
  benchmark_evaluation_only = true;
  no_evidence_action = lit "abstain";
  network_execution = lit "not-implemented";
}

-- The envelope that `derive_plan` builds, its `plan_id` still empty.
unfoldable pub draft : RunManifest → Text → Text → List EvidenceArtifact → OrchestrationEnvelope
draft m manifest_sha256 created_at evidence =
    let state = state_of m in
    record {
      contract_version = orchestration_version;
      plan_id = [];
      created_at = created_at;
      linked_run_id = m.run_id;
      manifest_sha256 = manifest_sha256;
      target_sha256 = m.target.root_sha256;
      policy = policy;
      evidence = evidence;
      state = state;
      phases = derive_phases m state (has_context evidence) (has_benchmark evidence);
      next_action = next_action m state.pending_human_reviews (has_benchmark evidence);
      claim_status = claim_status m state.pending_human_reviews;
    }

unfoldable pub with_plan_id : Host → OrchestrationEnvelope → OrchestrationEnvelope
with_plan_id host e = record e { plan_id = expected_plan_id host e }

-- `pair[0] != pair[1]`: the derived equality agrees with the derived order.
abbrev pub neighbours_differ : List EvidenceArtifact → Bool
neighbours_differ (a ∷ b ∷ rest) =
    (is_lt (cmp_artifact a b) || is_gt (cmp_artifact a b)) && neighbours_differ (b ∷ rest)
neighbours_differ _ = true

-- `OffsetDateTime::now_utc().format(&Rfc3339)?`
unfoldable pub format_now : Option Text → Result OrchestratorError Text
format_now none = err timestamp
format_now (some t) = ok t

-- From the evidence in ascending order on.
unfoldable pub plan_from :
    Host
    → RunManifest
    → Text
    → List EvidenceArtifact
    → Result OrchestratorError OrchestrationEnvelope
unfolding format_now
plan_from host m manifest_sha256 evidence = do
  refuse (not (neighbours_differ evidence)) (invalid_field "duplicate evidence artifact")
  refuse (any (λ item. not (valid_sha256 item.sha256)) evidence) (invalid_field "evidence.sha256")
  created_at ← format_now host.now
  let envelope = with_plan_id host (draft m manifest_sha256 created_at evidence)
  validate host envelope
  ok envelope

unfoldable pub derive_plan :
    Host
    → RunManifest
    → Text
    → List EvidenceArtifact
    → Result OrchestratorError OrchestrationEnvelope
derive_plan host m manifest_sha256 evidence = do
  map_err run (Manifest.validate host.parse m)
  refuse (ltb max_evidence_artifacts (length evidence))
      (too_many_artifacts (length evidence) max_evidence_artifacts)
  plan_from host m manifest_sha256 (sort_by cmp_artifact evidence)
