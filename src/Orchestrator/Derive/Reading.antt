-- ===== src/Orchestrator/Derive/Reading.antt =====
-- A plan that `derive_plan` of crates/secureflow-orchestrator/src/lib.rs returns, read again by
-- `parse_plan`.
use secureflow.Prelude.{
  ◌<◌, ◌≤◌, ◌≡◌, sym, ap, subst, not, any, ltb, some, List, length, ok, Passes, refuse, map_err,
  arith, >>-eq-ok, >>=-eq-ok, ok_injective,
}
use secureflow.Prelude.Sorting.{sort_by}
use secureflow.Text.{Text}
use secureflow.Run.Manifest as Manifest
use secureflow.Run.Manifest.{RunManifest}
use secureflow.Orchestrator.Types.{
  Host, OrchestrationEnvelope, EvidenceArtifact, cmp_artifact, max_orchestration_bytes,
  max_evidence_artifacts, run, too_many_artifacts, invalid_field,
}
use secureflow.Orchestrator.Validate.{validate, parse_plan, valid_sha256}
use secureflow.Orchestrator.Validate.Gates.{IsGated, validate-IsGated}
use secureflow.Orchestrator.Derive.{
  derive_plan, plan_from, with_plan_id, draft, format_now, neighbours_differ,
}

-- The plan that a successful derivation has drafted, and the time at which it did.
derive_plan-eq-ok :
    (host : Host) (m : RunManifest) (sha : Text) (evidence : List EvidenceArtifact)
    {e : OrchestrationEnvelope}
    → derive_plan host m sha evidence ≡ ok e
    → (now : Text) × (with_plan_id host (draft m sha now (sort_by cmp_artifact evidence)) ≡ e)
      × Passes (validate host e)
unfolding derive_plan plan_from
derive_plan-eq-ok host m sha evidence {e} h =
    let sorted = sort_by cmp_artifact evidence in
    let a = >>-eq-ok (map_err run (Manifest.validate host.parse m)) _ h in
    let b =
      >>-eq-ok
        (refuse (ltb max_evidence_artifacts (length evidence))
          (too_many_artifacts (length evidence) max_evidence_artifacts))
        _ a.1 in
    let c =
      >>-eq-ok
        (refuse (not (neighbours_differ sorted)) (invalid_field "duplicate evidence artifact")) _
        b.1 in
    let d =
      >>-eq-ok
        (refuse (any (λ item. not (valid_sha256 item.sha256)) sorted)
          (invalid_field "evidence.sha256"))
        _ c.1 in
    let (now, _, f) = >>=-eq-ok (format_now host.now) _ d.1 in
    let g = >>-eq-ok (validate host (with_plan_id host (draft m sha now sorted))) _ f in
    let made = ok_injective g.1 in (now, made, subst (λ p. Passes (validate host p)) made g.0)

-- A plan that `derive_plan` returns, for whatever manifest and evidence, names the manifest's run, the
-- target's root and the given hash, holds the evidence in ascending order, keeps the order of the
-- phases, and is what `parse_plan` returns on every document of 1 to 4,194,304 bytes from which
-- `serde_json` reads the plan.
pub derive_plan-parse_plan :
    (host : Host) (m : RunManifest) (sha document : Text) (evidence : List EvidenceArtifact)
    (e : OrchestrationEnvelope)
    → derive_plan host m sha evidence ≡ ok e
    → host.from_slice document ≡ some e
    → 0 < length document
    → length document ≤ max_orchestration_bytes
    → (parse_plan host document ≡ ok e)
      × IsGated e
      × (e.linked_run_id ≡ m.run_id)
      × (e.target_sha256 ≡ m.target.root_sha256)
      × (e.manifest_sha256 ≡ sha)
      × (e.evidence ≡ sort_by cmp_artifact evidence)
unfolding parse_plan with_plan_id draft
derive_plan-parse_plan host m sha document evidence e derived read nonempty small =
    let (now, made, valid) = derive_plan-eq-ok host m sha evidence derived in
    (
      ground (arith, valid),
      validate-IsGated host e valid,
      sym (ap (λ p. p.linked_run_id) made),
      sym (ap (λ p. p.target_sha256) made),
      sym (ap (λ p. p.manifest_sha256) made),
      sym (ap (λ p. p.evidence) made),
    )
