-- ===== src/Orchestrator/Expected.antt =====
-- What `validate_derived_state` of crates/secureflow-orchestrator/src/lib.rs expects of the phases, the
-- next action and the claim, and the derived equalities that it compares them with.
use secureflow.Prelude.{Bool, true, false, not, ◌||◌, ltb, ◌==◌, if◌then◌else◌}
use secureflow.Orchestrator.Types.{RunState, PhaseName, OrchestratedStatus, NextAction, ClaimStatus}

abbrev pub same_name : PhaseName → PhaseName → Bool
same_name PhaseName.authorization PhaseName.authorization = true
same_name PhaseName.deterministic_analysis PhaseName.deterministic_analysis = true
same_name PhaseName.deterministic_prioritization PhaseName.deterministic_prioritization = true
same_name PhaseName.context_enrichment PhaseName.context_enrichment = true
same_name PhaseName.optional_ai_advisory PhaseName.optional_ai_advisory = true
same_name PhaseName.human_validation PhaseName.human_validation = true
same_name PhaseName.reproducible_evaluation PhaseName.reproducible_evaluation = true
same_name _ _ = false

abbrev pub same_status : OrchestratedStatus → OrchestratedStatus → Bool
same_status OrchestratedStatus.blocked OrchestratedStatus.blocked = true
same_status OrchestratedStatus.ready OrchestratedStatus.ready = true
same_status OrchestratedStatus.partial OrchestratedStatus.partial = true
same_status OrchestratedStatus.completed OrchestratedStatus.completed = true
same_status OrchestratedStatus.optional_not_requested OrchestratedStatus.optional_not_requested =
    true
same_status OrchestratedStatus.evaluation_only OrchestratedStatus.evaluation_only = true
same_status OrchestratedStatus.failed OrchestratedStatus.failed = true
same_status _ _ = false

abbrev pub same_action : NextAction → NextAction → Bool
same_action NextAction.complete_deterministic_analysis NextAction.complete_deterministic_analysis =
    true
same_action NextAction.complete_deterministic_prioritization
      NextAction.complete_deterministic_prioritization =
    true
same_action NextAction.human_review_or_abstain NextAction.human_review_or_abstain = true
same_action NextAction.run_prospective_evaluation NextAction.run_prospective_evaluation = true
same_action NextAction.preserve_auditable_evidence NextAction.preserve_auditable_evidence = true
same_action _ _ = false

abbrev pub same_claim : ClaimStatus → ClaimStatus → Bool
same_claim ClaimStatus.candidates_require_human_review ClaimStatus.candidates_require_human_review =
    true
same_claim ClaimStatus.human_decisions_available ClaimStatus.human_decisions_available = true
same_claim ClaimStatus.no_candidates_is_not_proof_of_safety
      ClaimStatus.no_candidates_is_not_proof_of_safety =
    true
same_claim _ _ = false

-- `matches!(status, OptionalNotRequested | EvaluationOnly)`
abbrev pub is_optional : OrchestratedStatus → Bool
is_optional OrchestratedStatus.optional_not_requested = true
is_optional OrchestratedStatus.evaluation_only = true
is_optional _ = false

abbrev pub is_done : OrchestratedStatus → Bool
is_done s = same_status s OrchestratedStatus.completed

unfoldable pub expected_context : OrchestratedStatus → Bool → OrchestratedStatus
expected_context prioritization context =
    if not (is_done prioritization)
    then OrchestratedStatus.blocked
    else if context
    then OrchestratedStatus.completed
    else OrchestratedStatus.optional_not_requested

unfoldable pub expected_ai : RunState → OrchestratedStatus
expected_ai state =
    if ltb 0 state.ai_completed
    then OrchestratedStatus.completed
    else if ltb 0 state.ai_failed_or_queued
    then OrchestratedStatus.partial
    else OrchestratedStatus.optional_not_requested

unfoldable pub expected_validation : OrchestratedStatus → RunState → OrchestratedStatus
expected_validation prioritization state =
    if not (is_done prioritization)
    then OrchestratedStatus.blocked
    else if state.pending_human_reviews == 0
    then OrchestratedStatus.completed
    else if ltb 0 state.terminal_human_reviews
    then OrchestratedStatus.partial
    else OrchestratedStatus.ready

unfoldable pub expected_evaluation : OrchestratedStatus → RunState → Bool → OrchestratedStatus
expected_evaluation prioritization state benchmark =
    if ltb 0 state.pending_human_reviews || not (is_done prioritization)
    then OrchestratedStatus.blocked
    else if benchmark
    then OrchestratedStatus.evaluation_only
    else OrchestratedStatus.ready

unfoldable pub expected_next :
    OrchestratedStatus → OrchestratedStatus → RunState → Bool → NextAction
expected_next deterministic prioritization state benchmark =
    if not (is_done deterministic)
    then NextAction.complete_deterministic_analysis
    else if not (is_done prioritization)
    then NextAction.complete_deterministic_prioritization
    else if ltb 0 state.pending_human_reviews
    then NextAction.human_review_or_abstain
    else if not benchmark
    then NextAction.run_prospective_evaluation
    else NextAction.preserve_auditable_evidence

unfoldable pub expected_claim : RunState → ClaimStatus
expected_claim state =
    if state.candidate_count == 0
    then ClaimStatus.no_candidates_is_not_proof_of_safety
    else if ltb 0 state.pending_human_reviews
    then ClaimStatus.candidates_require_human_review
    else ClaimStatus.human_decisions_available
