-- ===== src/Orchestrator/Validate.antt =====
-- `OrchestrationEnvelope::validate`, `validate_derived_state` and `parse_plan` of
-- crates/secureflow-orchestrator/src/lib.rs.
pub mod Gates
pub mod Panics
use secureflow.Prelude.{
  ℕ, zero, suc, Bool, true, false, not, ◌&&◌, ◌||◌, Option, none, some, List, [], ◌∷◌, ltb, ◌==◌,
  length, all, any, is_empty, is_none, Result, ok, err, refuse, ◌>>=◌, ◌>>◌, if◌then◌else◌,
}
use secureflow.Prelude.Sorting.{is_lt}
use secureflow.Text.{Text, text_eq, lit, strip_prefix}
use secureflow.Text.Chars.{trim}
use secureflow.Text.Format.{is_lower_hex}
use secureflow.Run.Fields.{valid_identifier}
use secureflow.Run.Summary.{u64_add}
use secureflow.Orchestrator.Types.{
  OrchestrationEnvelope, OrchestrationPolicy, EvidenceArtifact, RunState, OrchestratedPhase,
  PhaseName, OrchestratedStatus, NextAction, ClaimStatus, OrchestratorError, Host, cmp_artifact,
  expected_plan_id, has_context, has_benchmark, orchestration_version, max_evidence_artifacts,
  max_orchestration_bytes, invalid_field, json, panicked,
}
use secureflow.Orchestrator.Expected.{
  same_name, same_status, same_action, same_claim, is_optional, is_done, expected_context,
  expected_ai, expected_validation, expected_evaluation, expected_next, expected_claim,
}

abbrev pub Checked : Type 0
Checked = Result OrchestratorError (Unit {0})

unfoldable pub valid_sha256 : Text → Bool
valid_sha256 value = length value == 64 && all is_lower_hex value

abbrev pub is_hash : Option Text → Bool
is_hash none = false
is_hash (some rest) = valid_sha256 rest

unfoldable pub valid_prefixed_hash : Text → Text → Bool
valid_prefixed_hash value prefix = is_hash (strip_prefix prefix value)

-- The same test as the model crate's for a run identifier.
unfoldable pub valid_run_id : Text → Bool
valid_run_id value = valid_identifier value (lit "sf_run_") 16 80

-- `evidence.windows(2).all(|pair| pair[0] < pair[1])`
abbrev pub strictly_ascending : List EvidenceArtifact → Bool
strictly_ascending (a ∷ b ∷ rest) = is_lt (cmp_artifact a b) && strictly_ascending (b ∷ rest)
strictly_ascending _ = true

abbrev pub expected_names : List PhaseName
expected_names =
    PhaseName.authorization ∷ PhaseName.deterministic_analysis
    ∷ PhaseName.deterministic_prioritization ∷ PhaseName.context_enrichment
    ∷ PhaseName.optional_ai_advisory ∷ PhaseName.human_validation
    ∷ PhaseName.reproducible_evaluation ∷ []

-- The `zip` of the phases with the expected names.
unfoldable pub names_match : List OrchestratedPhase → List PhaseName → Bool
names_match (p ∷ ps) (n ∷ ns) =
    same_name p.name n && not (is_empty (trim p.reason)) && names_match ps ns
names_match _ _ = true

-- `self.phases[i].status`
unfoldable pub status_at : ℕ → List OrchestratedPhase → Result OrchestratorError OrchestratedStatus
status_at i [] = err panicked
status_at zero (p ∷ ps) = ok p.status
status_at (suc i) (p ∷ ps) = status_at i ps

unfoldable pub validate_derived_state : OrchestrationEnvelope → Checked
unfolding status_at
validate_derived_state e = do
  deterministic ← status_at 1 e.phases
  prioritization ← status_at 2 e.phases
  authorization ← status_at 0 e.phases
  refuse
      (not (is_done authorization)
        || is_optional deterministic
        || not (is_done deterministic)
          && not (same_status prioritization OrchestratedStatus.blocked)
        || is_optional prioritization)
      (invalid_field "required phase ordering")
  context ← status_at 3 e.phases
  ai ← status_at 4 e.phases
  validation ← status_at 5 e.phases
  evaluation ← status_at 6 e.phases
  refuse
      (not (same_status context (expected_context prioritization (has_context e.evidence)))
        || not (same_status ai (expected_ai e.state))
        || not (same_status validation (expected_validation prioritization e.state))
        || not (
            same_status evaluation
              (expected_evaluation prioritization e.state (has_benchmark e.evidence)))
        || not (
            same_action e.next_action
              (expected_next deterministic prioritization e.state (has_benchmark e.evidence)))
        || not (same_claim e.claim_status (expected_claim e.state)))
      (invalid_field "derived phase state")

unfoldable pub validate_identity : Host → OrchestrationEnvelope → Checked
validate_identity host e =
    refuse
      (not (text_eq e.contract_version orchestration_version)
        || not (valid_prefixed_hash e.plan_id (lit "sf_plan_"))
        || is_none (host.parse e.created_at)
        || not (valid_run_id e.linked_run_id)
        || not (valid_sha256 e.manifest_sha256)
        || not (valid_sha256 e.target_sha256))
      (invalid_field "identity")

unfoldable pub validate_policy : OrchestrationPolicy → Checked
validate_policy p =
    refuse
      (not p.authorization_required
        || not p.deterministic_first
        || not p.ai_optional
        || not (text_eq p.ai_validation_authority (lit "human-only"))
        || not p.benchmark_evaluation_only
        || not (text_eq p.no_evidence_action (lit "abstain"))
        || not (text_eq p.network_execution (lit "not-implemented")))
      (invalid_field "policy")

unfoldable pub validate_evidence : List EvidenceArtifact → Checked
validate_evidence evidence =
    refuse
      (ltb max_evidence_artifacts (length evidence)
        || any (λ item. not (valid_sha256 item.sha256)) evidence
        || not (strictly_ascending evidence))
      (invalid_field "evidence")

unfoldable pub validate_phase_names : List OrchestratedPhase → Checked
unfolding names_match
validate_phase_names phases =
    refuse (not (length phases == length expected_names) || not (names_match phases expected_names))
      (invalid_field "phases")

-- The additions are of `u64`, and wrap in a release build.
unfoldable pub validate_counts : RunState → Checked
validate_counts s =
    refuse
      (not (u64_add s.pending_human_reviews s.terminal_human_reviews == s.candidate_count)
        || ltb s.candidate_count (u64_add s.ai_completed s.ai_failed_or_queued))
      (invalid_field "state counts")

unfoldable pub validate : Host → OrchestrationEnvelope → Checked
validate host e = do
  validate_identity host e
  validate_policy e.policy
  validate_evidence e.evidence
  validate_phase_names e.phases
  validate_counts e.state
  validate_derived_state e
  refuse (not (text_eq e.plan_id (expected_plan_id host e))) (invalid_field "plan_id")

read : Option OrchestrationEnvelope → Result OrchestratorError OrchestrationEnvelope
read none = err json
read (some e) = ok e

unfoldable pub parse_plan : Host → Text → Result OrchestratorError OrchestrationEnvelope
unfolding read
parse_plan host bytes = do
  refuse (is_empty bytes || ltb max_orchestration_bytes (length bytes))
      (invalid_field "document size")
  envelope ← read (host.from_slice bytes)
  validate host envelope
  ok envelope
