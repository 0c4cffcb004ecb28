-- ===== src/Orchestrator/Derive/Total.antt =====
-- `derive_plan` on a manifest that `validate` accepts and on well-formed evidence.
use secureflow.Prelude.{
  inl, inr, ◌>>=◌, ap, ◌∙◌, ◌⊎◌, ◌^◌, ◌≤◌, ◌<◌, ◌≡◌, refl, some, true, List, arith, All, length,
  Passes, ok, err, is_some,
}
use secureflow.Prelude.Sorting.{sort_by}
use secureflow.Text.{Text, lit, text_eq, text_eq_refl}
use secureflow.Run.Kinds.{is_completed}
use secureflow.Run.Fields.{TimeParser, validate_sha256}
use secureflow.Run.Target.{Target, validate_target}
use secureflow.Run.Manifest
use secureflow.Run.Manifest.{RunManifest}
use secureflow.Run.Manifest.WellFormed.{validate_iff}
use secureflow.Orchestrator.Types.{
  Host, EvidenceArtifact, cmp_artifact, max_evidence_artifacts, invalid_field,
}
use secureflow.Orchestrator.Validate.{
  validate_derived_state, valid_sha256, valid_run_id, validate, validate_identity, validate_policy,
  validate_evidence,
}
use secureflow.Orchestrator.Derive.{
  has_benchmark, has_context, format_now, false, OrchestrationEnvelope, draft, with_plan_id,
  plan_from, derive_plan, policy, state_of,
}
use secureflow.Orchestrator.Derive.PlanId.{Hashes, valid_prefixed_hash-plan_id, plan_id_stable}
use secureflow.Orchestrator.Derive.Phases.{derive_phases-named}
use secureflow.Orchestrator.Derive.Evidence.{
  AllDistinct, neighbours_differ-sort_by, none_invalid-sort_by, validate_evidence-sorted,
}
use secureflow.Orchestrator.Derive.Accepted.{draft-derived, draft-refused, state_of-counts}

policy_passes : Passes (validate_policy policy)
unfolding validate_policy text_eq lit
policy_passes = refl

target_hash :
    (parse : TimeParser) (t : Target)
    → Passes (validate_target parse t)
    → valid_sha256 t.root_sha256 ≡ true
unfolding validate_target validate_sha256 valid_sha256
target_hash parse t h = ground arith

-- What the caller of `derive_plan` provides.
pub record IsReady (host : Host) (m : RunManifest) (sha : Text) (now : Text)
    (evidence : List EvidenceArtifact) : Type 0 where
  pub hashes : Hashes host.sha256
  pub clock : host.now ≡ some now
  pub readable : is_some (host.parse now) ≡ true
  pub manifest : Passes (Manifest.validate host.parse m)
  pub size : length m.findings < 2 ^ 64
  pub sha_valid : valid_sha256 sha ≡ true
  pub evidence_valid : All (λ a. valid_sha256 a.sha256 ≡ true) evidence
  pub evidence_distinct : AllDistinct evidence
  pub evidence_count : length evidence ≤ max_evidence_artifacts

module _ (host : Host) (m : RunManifest) (sha now : Text) (evidence : List EvidenceArtifact)
    (ready : IsReady host m sha now evidence) where
  abbrev sorted : List EvidenceArtifact
  sorted = sort_by cmp_artifact evidence

  abbrev plan : OrchestrationEnvelope
  plan = with_plan_id host (draft m sha now sorted)

  identity_passes : Passes (validate_identity host plan)
  unfolding validate_identity with_plan_id draft valid_run_id
  identity_passes =
      let well = (validate_iff host.parse m).0 ready.manifest in
      ground (
        arith,
        well.run_id,
        target_hash host.parse m.target well.target,
        ready.sha_valid,
        ready.readable,
        valid_prefixed_hash-plan_id host (draft m sha now sorted) ready.hashes,
        text_eq_refl (lit "secureflow-orchestration-v1"),
      )

  -- Every check of the envelope but that of the derived state.
  evidence_passes : Passes (validate_evidence sorted)
  evidence_passes =
      validate_evidence-sorted evidence ready.evidence_count
        (none_invalid-sort_by evidence ready.evidence_valid)
        (neighbours_differ-sort_by evidence ready.evidence_distinct)

  derived_same : validate_derived_state plan ≡ validate_derived_state (draft m sha now sorted)
  unfolding validate_derived_state with_plan_id
  derived_same = refl

  -- All checks but the sixth pass, so the sixth decides.
  validate-plan : validate host plan ≡ validate_derived_state (draft m sha now sorted)
  unfolding validate with_plan_id draft
  validate-plan = ground (
    arith,
    identity_passes,
    policy_passes,
    evidence_passes,
    derive_phases-named m (state_of m) (has_context sorted) (has_benchmark sorted),
    state_of-counts m ready.size,
    derived_same,
    plan_id_stable host (draft m sha now sorted),
  )

  derive_plan-steps :
      derive_plan host m sha evidence
      ≡ (validate_derived_state (draft m sha now sorted) >>= λ _. ok plan)
  unfolding derive_plan plan_from format_now
  derive_plan-steps = ground (
    arith,
    ready.manifest,
    ready.evidence_count,
    ready.clock,
    none_invalid-sort_by evidence ready.evidence_valid,
    neighbours_differ-sort_by evidence ready.evidence_distinct,
    validate-plan,
  )

-- Given an accepted manifest with fewer than 2 ^ 64 findings, a valid manifest hash, distinct
-- artifacts with valid hashes, at most 10,000 of them, a hash function of 32 bytes and a clock whose
-- text can be read back: if the manifest's deterministic phase is complete or its prioritization
-- phase is not, `derive_plan` returns the plan drafted from the sorted evidence, with its
-- identifier, and that plan passes `validate`.
pub derive_plan_accepts :
    (host : Host) (m : RunManifest) (sha now : Text) (evidence : List EvidenceArtifact)
    → IsReady host m sha now evidence
    → (is_completed m.phases.deterministic ≡ true) ⊎ (is_completed m.phases.prioritization ≡ false)
    → (derive_plan host m sha evidence
        ≡ ok (with_plan_id host (draft m sha now (sort_by cmp_artifact evidence))))
      × Passes (validate host (with_plan_id host (draft m sha now (sort_by cmp_artifact evidence))))
derive_plan_accepts host m sha now evidence ready o =
    let passes =
      draft-derived m sha now (sort_by cmp_artifact evidence)
        (elim o [ inl d ↦ ground arith | inr p ↦ ground arith ]) in
    (
      derive_plan-steps host m sha now evidence ready
          ∙ ap
              (λ r.
                r >>= λ _. ok (with_plan_id host (draft m sha now (sort_by cmp_artifact evidence))))
              passes,
      validate-plan host m sha now evidence ready ∙ passes,
    )

-- On the same inputs, if the manifest's prioritization phase is complete and its deterministic phase
-- is not, which `RunManifest::validate` allows, `derive_plan` fails on its own envelope.
pub derive_plan_rejects_own_plan :
    (host : Host) (m : RunManifest) (sha now : Text) (evidence : List EvidenceArtifact)
    → IsReady host m sha now evidence
    → is_completed m.phases.deterministic ≡ false
    → is_completed m.phases.prioritization ≡ true
    → derive_plan host m sha evidence ≡ err (invalid_field "derived phase state")
derive_plan_rejects_own_plan host m sha now evidence ready d p =
    derive_plan-steps host m sha now evidence ready
    ∙ ap (λ r. r >>= λ _. ok (with_plan_id host (draft m sha now (sort_by cmp_artifact evidence))))
        (draft-refused m sha now (sort_by cmp_artifact evidence) d p)
