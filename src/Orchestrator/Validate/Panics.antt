-- ===== src/Orchestrator/Validate/Panics.antt =====
-- What `OrchestrationEnvelope::validate` relies on without a check: that `phases[i]` is in range,
-- and that the sums of two counts do not pass 2 ^ 64.
use secureflow.Run.Summary.{u64_add}
use secureflow.Prelude.{
  String, ◌≡◌, true, false, refl, arith, ℕ, zero, suc, ◌+◌, ◌^◌, ◌<◌, ◌≤◌, List, [], ◌∷◌, ok, err,
  Result, Passes, length, ◌>>=◌, ◌>>◌, refuse, Bool,
}
use secureflow.Orchestrator.Types.{
  Host, OrchestrationPolicy, EvidenceArtifact, OrchestrationEnvelope, OrchestratedPhase,
  OrchestratorError, OrchestratedStatus, RunState, panicked, invalid_field,
}
use secureflow.Orchestrator.Validate.{
  validate, validate_identity, validate_policy, validate_evidence, validate_phase_names,
  validate_counts, validate_derived_state, status_at, Checked,
}

seven_phases : (ps : List OrchestratedPhase) → Passes (validate_phase_names ps) → length ps ≡ 7
unfolding validate_phase_names
seven_phases ps h = ground arith

status_in_range :
    (i : ℕ) (ps : List OrchestratedPhase)
    → i < length ps
    → (s : OrchestratedStatus) × (status_at i ps ≡ ok s)
unfolding status_at
status_in_range i [] h = ground arith
status_in_range zero (p ∷ ps) h = (p.status, refl)
status_in_range (suc i) (p ∷ ps) h = status_in_range i ps (omega arith)

-- A step that finds its value does not panic, if what follows does not.
bind-safe {ℓ κ} :
    {A : Type ℓ} {B : Type κ} (m : Result OrchestratorError A) (k : A → Result OrchestratorError B)
    → (a : A) × (m ≡ ok a)
    → ((a : A) → ¬ (k a ≡ err panicked))
    → ¬ (m >>= k ≡ err panicked)
bind-safe (ok a) k e h = h a
bind-safe (err x) k e h = λ _. cc (e.1)

then-safe {ℓ} :
    {B : Type ℓ} (m : Checked) (k : Result OrchestratorError B)
    → ¬ (m ≡ err panicked)
    → (Passes m → ¬ (k ≡ err panicked))
    → ¬ (m >> k ≡ err panicked)
then-safe (ok _) k h g = g refl
then-safe (err x) k h g = λ e. h cc

refuse-safe : (b : Bool) (field : String) → ¬ (refuse b (invalid_field field) ≡ err panicked)
refuse-safe b field h = ground arith

refuse-then {ℓ} :
    {B : Type ℓ} (b : Bool) (field : String) (k : Result OrchestratorError B)
    → ¬ (k ≡ err panicked)
    → ¬ (refuse b (invalid_field field) >> k ≡ err panicked)
refuse-then false field k g = g
refuse-then true field k g = λ e. cc

derived-safe :
    (e : OrchestrationEnvelope) → length e.phases ≡ 7 → ¬ (validate_derived_state e ≡ err panicked)
unfolding validate_derived_state
derived-safe e n =
    bind-safe (status_at 1 e.phases) _ (status_in_range 1 e.phases (omega arith)) (λ d.
      bind-safe (status_at 2 e.phases) _ (status_in_range 2 e.phases (omega arith)) (λ p.
        bind-safe (status_at 0 e.phases) _ (status_in_range 0 e.phases (omega arith)) (λ a.
          refuse-then _ _ _ (
            bind-safe (status_at 3 e.phases) _ (status_in_range 3 e.phases (omega arith)) (λ c.
              bind-safe (status_at 4 e.phases) _ (status_in_range 4 e.phases (omega arith)) (λ ai.
                bind-safe (status_at 5 e.phases) _ (status_in_range 5 e.phases (omega arith)) (λ v.
                  bind-safe (status_at 6 e.phases) _ (status_in_range 6 e.phases (omega arith))
                    (λ ev. refuse-safe _ _))))))))

names-safe : (ps : List OrchestratedPhase) → ¬ (validate_phase_names ps ≡ err panicked)
unfolding validate_phase_names
names-safe ps = refuse-safe _ _

identity-safe :
    (host : Host) (e : OrchestrationEnvelope) → ¬ (validate_identity host e ≡ err panicked)
unfolding validate_identity
identity-safe host e = refuse-safe _ _

policy-safe : (p : OrchestrationPolicy) → ¬ (validate_policy p ≡ err panicked)
unfolding validate_policy
policy-safe p = refuse-safe _ _

evidence-safe : (xs : List EvidenceArtifact) → ¬ (validate_evidence xs ≡ err panicked)
unfolding validate_evidence
evidence-safe xs = refuse-safe _ _

counts-safe : (s : RunState) → ¬ (validate_counts s ≡ err panicked)
unfolding validate_counts
counts-safe s = refuse-safe _ _

-- `validate` never reads a phase out of range: whatever the envelope, it does not panic there.
pub validate-safe : (host : Host) (e : OrchestrationEnvelope) → ¬ (validate host e ≡ err panicked)
unfolding validate
validate-safe host e = then-safe (validate_identity host e) _ (identity-safe host e) (λ _.
    then-safe (validate_policy e.policy) _ (policy-safe e.policy) (λ _.
      then-safe (validate_evidence e.evidence) _ (evidence-safe e.evidence) (λ _.
        then-safe (validate_phase_names e.phases) _ (names-safe e.phases) (λ names.
          then-safe (validate_counts e.state) _ (counts-safe e.state) (λ _.
            then-safe (validate_derived_state e) _ (derived-safe e (seven_phases e.phases names))
              (λ _. refuse-safe _ _))))))

-- The counts of reviews are added in 64 bits: of any two counts below 2 ^ 64 whose sum is the number
-- of candidates plus 2 ^ 64, the check of the counts accepts them, if the 64-bit sum of the AI counts
-- is at most the number of candidates.
pub validate_counts_wrap :
    (s : RunState)
    → s.pending_human_reviews < 2 ^ 64
    → s.terminal_human_reviews < 2 ^ 64
    → s.pending_human_reviews + s.terminal_human_reviews ≡ s.candidate_count + 2 ^ 64
    → u64_add s.ai_completed s.ai_failed_or_queued ≤ s.candidate_count
    → Passes (validate_counts s)
unfolding validate_counts
validate_counts_wrap s p t h a = ground arith
