-- ===== src/Orchestrator/Derive/Accepted.antt =====
-- When `derive_plan` returns a plan, and which one: it validates its own envelope, and that check
-- passes exactly when the manifest does not claim a prioritization before the analysis.
use secureflow.Prelude.{
  ℕ, ◌^◌, ◌<◌, ◌≡◌, refl, Bool, true, false, not, ◌&&◌, List, [], ◌∷◌, arith, length, ltb, ◌==◌,
  is_empty, if◌then◌else◌, Passes, err, count_if, count_if-le-length, count_if_disjoint,
}
use secureflow.Text.{Text}
use secureflow.Run.Kinds.{is_pending, is_completed}
use secureflow.Run.Finding.{Finding}
use secureflow.Run.Summary.{decision}
use secureflow.Run.Manifest.{RunManifest}
use secureflow.Orchestrator.Types.{
  EvidenceArtifact, OrchestratedStatus, RunState, NextAction, ClaimStatus, has_context,
  has_benchmark, invalid_field,
}
use secureflow.Orchestrator.Validate.{validate_counts, validate_derived_state}
use secureflow.Orchestrator.Expected.{
  same_status, same_action, same_claim, is_done, expected_next, expected_claim,
}
use secureflow.Orchestrator.Derive.{
  state_of, is_ai_completed, is_failed_or_queued, next_action, claim_status, draft, derive_phases,
  deterministic, prioritization, context, ai, validation, evaluation,
}
use secureflow.Orchestrator.Derive.Phases.{
  InOrder, context_mismatch, deterministic_facts, prioritization_facts, context_status, ai_status,
  validation_status, evaluation_status,
}

same_status_refl : (s : OrchestratedStatus) → same_status s s ≡ true
same_status_refl s = ground arith

same_action_refl : (a : NextAction) → same_action a a ≡ true
same_action_refl a = ground arith

same_claim_refl : (c : ClaimStatus) → same_claim c c ≡ true
same_claim_refl c = ground arith

pub state_of-counts :
    (m : RunManifest) → length m.findings < 2 ^ 64 → Passes (validate_counts (state_of m))
unfolding validate_counts state_of
state_of-counts m bound = ground (
  arith,
  count_if-le-length (λ (f : Finding). is_pending (decision f)) m.findings,
  count_if_disjoint (λ (f : Finding). is_ai_completed f.ai_validation.status)
      (λ (f : Finding). is_failed_or_queued f.ai_validation.status) (λ f p q. ground arith)
      m.findings,
)

module _ (m : RunManifest) (sha now : Text) (evidence : List EvidenceArtifact) where
  next_action-expected :
      (state : RunState)
      → (benchmark : Bool)
      → next_action m state.pending_human_reviews benchmark
        ≡ expected_next
            (deterministic m state).status
            (prioritization m state).status
            state
            benchmark
  unfolding next_action expected_next
  next_action-expected state benchmark =
      let d = deterministic_facts m state in
      let p = prioritization_facts m state in ground (arith, d.1, p.2)

  claim_status-expected :
      claim_status m (state_of m).pending_human_reviews ≡ expected_claim (state_of m)
  unfolding claim_status expected_claim state_of
  claim_status-expected = go m.findings (count_if (λ f. is_pending (decision f)) m.findings)
    where
      go :
          (fs : List Finding) (waiting : ℕ)
          → (if is_empty fs
              then ClaimStatus.no_candidates_is_not_proof_of_safety
              else if ltb 0 waiting
              then ClaimStatus.candidates_require_human_review
              else ClaimStatus.human_decisions_available)
            ≡ (if length fs == 0
                then ClaimStatus.no_candidates_is_not_proof_of_safety
                else if ltb 0 waiting
                then ClaimStatus.candidates_require_human_review
                else ClaimStatus.human_decisions_available)
      go [] waiting = refl
      go (f ∷ fs) waiting = ground arith

  -- The order check passes for every manifest.
  draft-ordered :
      (state : RunState)
      → (is_done OrchestratedStatus.completed ≡ true)
        × ((not (is_done (deterministic m state).status)
              && not (same_status (prioritization m state).status OrchestratedStatus.blocked))
            ≡ false)
  draft-ordered state =
      let d = deterministic_facts m state in
      let p = prioritization_facts m state in (refl, ground (arith, d.1, p.1))

  pub draft-derived :
      InOrder m (state_of m) → Passes (validate_derived_state (draft m sha now evidence))
  unfolding validate_derived_state draft derive_phases
  draft-derived o =
      let s = state_of m in
      let retained = has_context evidence in
      let benchmark = has_benchmark evidence in
      ground (
        arith,
        deterministic_facts m s,
        prioritization_facts m s,
        draft-ordered s,
        context_status m s o retained,
        ai_status m s,
        validation_status m s o,
        evaluation_status m s o benchmark,
        next_action-expected s benchmark,
        claim_status-expected,
        same_status_refl (context m s retained).status,
        same_status_refl (ai m s).status,
        same_status_refl (validation m s).status,
        same_status_refl (evaluation m s benchmark).status,
        same_action_refl (next_action m s.pending_human_reviews benchmark),
        same_claim_refl (claim_status m s.pending_human_reviews),
      )

  -- Otherwise the phases after the prioritization do not fit it.
  pub draft-refused :
      is_completed m.phases.deterministic ≡ false
      → is_completed m.phases.prioritization ≡ true
      → validate_derived_state (draft m sha now evidence)
        ≡ err (invalid_field "derived phase state")
  unfolding validate_derived_state draft derive_phases
  draft-refused d p =
      let s = state_of m in
      ground (
        arith,
        deterministic_facts m s,
        prioritization_facts m s,
        draft-ordered s,
        context_mismatch m s d p (has_context evidence),
      )
