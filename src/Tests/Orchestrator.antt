-- ===== src/Tests/Orchestrator.antt =====
-- The theorems on crates/secureflow-orchestrator/src/lib.rs at the manifest of the samples.
use mathlib.Core.List.{Permᴰ}
use secureflow.Prelude.{
  ◌≡◌, ◌≢◌, inl, refl, arith, ◌+◌, ◌^◌, List, [], ◌∷◌, none, some, Passes, ok, err,
}
use secureflow.Prelude.Sorting.{sort_by}
use secureflow.Text.{lit}
use secureflow.Run.Kinds.{PhaseStatus}
use secureflow.Run.Manifest.{RunManifest}
use secureflow.Orchestrator.Types.{
  Host, EvidenceArtifact, OrchestrationEnvelope, RunState, cmp_artifact, invalid_field, panicked,
  expected_plan_id,
}
use secureflow.Orchestrator.Validate.{validate, validate_counts, parse_plan}
use secureflow.Orchestrator.Validate.Gates.{IsGated, validate-IsGated}
use secureflow.Orchestrator.Derive.Reading.{derive_plan-parse_plan}
use secureflow.Orchestrator.Validate.Panics.{validate-safe, validate_counts_wrap}
use secureflow.Orchestrator.Derive.{draft, with_plan_id, derive_plan}
use secureflow.Orchestrator.Derive.Total.{derive_plan_accepts, derive_plan_rejects_own_plan}
use secureflow.Orchestrator.Derive.Order.{derive_plan-eq_of_perm}
use secureflow.Tests.Samples.{sample_sha, sample_manifest}
use secureflow.Tests.Plans.{host, host_of, now, ready, advisory, inventory}

abbrev run : RunManifest
run = sample_manifest PhaseStatus.completed PhaseStatus.completed

abbrev evidence : List EvidenceArtifact
evidence = inventory ∷ advisory ∷ []

-- The plan of the run, with its evidence in order.
abbrev plan : OrchestrationEnvelope
plan = with_plan_id host (draft run sample_sha now (sort_by cmp_artifact evidence))

derive_plan_accepts_example :
    (derive_plan host run sample_sha evidence ≡ ok plan) × Passes (validate host plan)
derive_plan_accepts_example =
    derive_plan_accepts host run sample_sha now evidence
      (ready none PhaseStatus.completed PhaseStatus.completed) (inl refl)

derive_plan_rejects_own_plan_example :
    derive_plan host (sample_manifest PhaseStatus.pending PhaseStatus.completed) sample_sha evidence
    ≡ err (invalid_field "derived phase state")
derive_plan_rejects_own_plan_example =
    derive_plan_rejects_own_plan host (sample_manifest PhaseStatus.pending PhaseStatus.completed)
      sample_sha now evidence (ready none PhaseStatus.pending PhaseStatus.completed) refl refl

derive_plan-eq_of_perm_example :
    derive_plan host run sample_sha evidence
    ≡ derive_plan host run sample_sha (advisory ∷ inventory ∷ [])
derive_plan-eq_of_perm_example =
    derive_plan-eq_of_perm host run sample_sha evidence (advisory ∷ inventory ∷ [])
      ∣ Permᴰ.swap refl refl ∣₁

plan_passes : Passes (validate host plan)
plan_passes = derive_plan_accepts_example.1

validate-IsGated_example : IsGated plan
validate-IsGated_example = validate-IsGated host plan plan_passes

-- A host that reads every document as the plan.
abbrev reading : Host
reading = host_of (some plan)

plan_derived : derive_plan reading run sample_sha evidence ≡ ok plan
unfolding with_plan_id expected_plan_id
plan_derived =
    (derive_plan_accepts reading run sample_sha now evidence
      (ready (some plan) PhaseStatus.completed PhaseStatus.completed) (inl refl)).0

derive_plan-parse_plan_example :
    (parse_plan reading (lit "{}") ≡ ok plan)
    × IsGated plan
    × (plan.linked_run_id ≡ run.run_id)
    × (plan.target_sha256 ≡ run.target.root_sha256)
    × (plan.manifest_sha256 ≡ sample_sha)
    × (plan.evidence ≡ sort_by cmp_artifact evidence)
unfolding lit
derive_plan-parse_plan_example =
    derive_plan-parse_plan reading run sample_sha (lit "{}") evidence plan plan_derived refl
      (omega arith) (omega arith)

-- An envelope with no phases at all.
abbrev no_phases : OrchestrationEnvelope
no_phases = record plan { phases = [] }

validate-safe_example : validate host no_phases ≢ err panicked
validate-safe_example = validate-safe host no_phases

abbrev wrapped : RunState
wrapped = record {
  candidate_count = 3;
  pending_human_reviews = 2 ^ 63;
  terminal_human_reviews = 2 ^ 63 + 3;
  ai_completed = 1;
  ai_failed_or_queued = 1;
}

validate_counts_wrap_example : Passes (validate_counts wrapped)
validate_counts_wrap_example =
    validate_counts_wrap wrapped (omega arith) (omega arith) (omega arith) (omega arith)
