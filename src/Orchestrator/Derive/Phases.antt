-- ===== src/Orchestrator/Derive/Phases.antt =====
-- The phases that `derive_phases` writes pass the checks of `validate`: their names stand in the
-- expected order with a reason each, and their statuses are the expected ones, unless the manifest
-- claims a prioritization without a deterministic analysis.
use secureflow.Prelude.{◌≡◌, refl, Bool, true, false, not, ◌||◌, arith, is_empty, Passes}
use secureflow.Text.{Text, lit}
use secureflow.Text.{Text}
use secureflow.Text.Chars.{trim}
use secureflow.Run.Kinds.{is_completed}
use secureflow.Run.Manifest.{RunManifest}
use secureflow.Orchestrator.Types.{RunState, OrchestratedPhase, PhaseName}
use secureflow.Orchestrator.Validate.{names_match, validate_phase_names}
use secureflow.Orchestrator.Expected.{
  same_status, is_optional, same_name, is_done, expected_context, expected_ai, expected_validation,
  expected_evaluation,
}
use secureflow.Orchestrator.Derive.{
  OrchestratedStatus, deterministic, prioritization, context, ai, validation, evaluation,
  derive_phases,
}

-- A phase with its expected name and a reason that is not blank.
record IsNamed (name : PhaseName) (p : OrchestratedPhase) : Type 0 where
  matches : same_name p.name name ≡ true
  explained : is_empty (trim p.reason) ≡ false

abbrev Explains : Text → Type 0
Explains reason = is_empty (trim reason) ≡ false

prioritization_reasons :
    Explains (lit "blocked until deterministic analysis completes")
    × Explains (lit "deterministic ordering and exact dedup state retained in run manifest")
unfolding lit trim
prioritization_reasons = (refl, refl)

context_reasons :
    Explains (lit "blocked until deterministic prioritization completes")
    × Explains (lit "validated contextual artifact retained; it does not validate a finding")
    × Explains (lit "no contextual artifact supplied; human review may continue")
unfolding lit trim
context_reasons = (refl, refl, refl)

ai_reasons :
    Explains (lit "measured AI advisory responses retained; human decisions remain unchanged")
    × Explains (lit "AI advisory work is queued or failed and cannot validate findings")
    × Explains (lit "AI is optional and was not completed")
unfolding lit trim
ai_reasons = (refl, refl, refl)

validation_reasons :
    Explains (lit "blocked until deterministic prioritization completes")
    × Explains (lit "all candidates have terminal human decisions")
    × Explains (lit "some candidates still require human review or abstention")
    × Explains (lit "candidates require human review or abstention")
unfolding lit trim
validation_reasons = (refl, refl, refl, refl)

evaluation_reasons :
    Explains (lit "benchmarking follows deterministic processing and human adjudication")
    × Explains (lit "benchmark evidence is retained outside the production decision path")
    × Explains (lit "eligible for a preregistered prospective evaluation")
unfolding lit trim
evaluation_reasons = (refl, refl, refl)

module _ (m : RunManifest) (state : RunState) where
  deterministic-IsNamed : IsNamed PhaseName.deterministic_analysis (deterministic m state)
  unfolding deterministic lit trim
  deterministic-IsNamed = record { matches = refl; explained = refl }

  prioritization-IsNamed : IsNamed PhaseName.deterministic_prioritization (prioritization m state)
  unfolding prioritization
  prioritization-IsNamed =
      let r = prioritization_reasons in
      record { matches = ground arith; explained = ground (arith, r) }

  context-IsNamed :
      (retained : Bool) → IsNamed PhaseName.context_enrichment (context m state retained)
  unfolding context
  context-IsNamed retained =
      let r = context_reasons in record { matches = ground arith; explained = ground (arith, r) }

  ai-IsNamed : IsNamed PhaseName.optional_ai_advisory (ai m state)
  unfolding ai
  ai-IsNamed =
      let r = ai_reasons in record { matches = ground arith; explained = ground (arith, r) }

  validation-IsNamed : IsNamed PhaseName.human_validation (validation m state)
  unfolding validation
  validation-IsNamed =
      let r = validation_reasons in record { matches = ground arith; explained = ground (arith, r) }

  evaluation-IsNamed :
      (benchmark : Bool) → IsNamed PhaseName.reproducible_evaluation (evaluation m state benchmark)
  unfolding evaluation
  evaluation-IsNamed benchmark =
      let r = evaluation_reasons in record { matches = ground arith; explained = ground (arith, r) }

  authorization-IsNamed :
      is_empty (trim (lit "linked run contains validated explicit authorization")) ≡ false
  unfolding lit trim
  authorization-IsNamed = refl

  pub derive_phases-named :
      (retained benchmark : Bool)
      → Passes (validate_phase_names (derive_phases m state retained benchmark))
  unfolding validate_phase_names names_match derive_phases
  derive_phases-named retained benchmark = ground (
    arith,
    authorization-IsNamed,
    deterministic-IsNamed,
    prioritization-IsNamed,
    context-IsNamed retained,
    ai-IsNamed,
    validation-IsNamed,
    evaluation-IsNamed benchmark,
  )

  -- The deterministic analysis is complete, or prioritization is not.
  abbrev pub InOrder : Type 0
  InOrder =
      (is_completed m.phases.deterministic || not (is_completed m.phases.prioritization)) ≡ true

  pub prioritization_done :
      InOrder → is_done (prioritization m state).status ≡ is_completed m.phases.prioritization
  unfolding prioritization
  prioritization_done o = ground arith

  pub context_status :
      InOrder
      → (retained : Bool)
      → (context m state retained).status
        ≡ expected_context (prioritization m state).status retained
  unfolding context expected_context
  context_status o retained = ground (arith, prioritization_done o)

  pub ai_status : (ai m state).status ≡ expected_ai state
  unfolding ai expected_ai
  ai_status = ground arith

  pub validation_status :
      InOrder
      → (validation m state).status ≡ expected_validation (prioritization m state).status state
  unfolding validation expected_validation
  validation_status o = ground (arith, prioritization_done o)

  pub evaluation_status :
      InOrder
      → (benchmark : Bool)
      → (evaluation m state benchmark).status
        ≡ expected_evaluation (prioritization m state).status state benchmark
  unfolding evaluation expected_evaluation
  evaluation_status o benchmark = ground (arith, prioritization_done o)

  pub deterministic_facts :
      (is_optional (deterministic m state).status ≡ false)
      × (is_done (deterministic m state).status ≡ is_completed m.phases.deterministic)
  unfolding deterministic
  deterministic_facts = ground arith

  pub prioritization_facts :
      (is_optional (prioritization m state).status ≡ false)
      × (is_completed m.phases.deterministic ≡ false
          → (prioritization m state).status ≡ OrchestratedStatus.blocked)
      × (is_completed m.phases.deterministic ≡ true
          → is_done (prioritization m state).status ≡ is_completed m.phases.prioritization)
  unfolding prioritization
  prioritization_facts = (ground arith, (λ h. ground arith), (λ h. ground arith))

  pub context_mismatch :
      is_completed m.phases.deterministic ≡ false
      → is_completed m.phases.prioritization ≡ true
      → (retained : Bool)
      → same_status
          (context m state retained).status
          (expected_context (prioritization m state).status retained)
        ≡ false
  unfolding context prioritization expected_context
  context_mismatch d p retained = ground arith
