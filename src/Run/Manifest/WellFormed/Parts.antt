-- ===== src/Run/Manifest/WellFormed/Parts.antt =====
-- The second part of `RunManifest::validate` in crates/secureflow-model/src/lib.rs: the parts of the
-- run.
use secureflow.Prelude.{
  ◌↔◌, refl, Option, none, some, List, All, Passes, WhenSome, >>-iff, if_some_iff, if_some,
}
use secureflow.Run.Errors.{duplicate_identifier}
use secureflow.Run.Fields.{TimeParser}
use secureflow.Run.Target.{validate_target}
use secureflow.Run.Engine.{validate_provenance}
use secureflow.Run.Finding.{
  Finding, validate_finding, EngineAnalysisAbstention, validate_abstention,
}
use secureflow.Run.Summary.{Summary, validate_summary}
use secureflow.Run.Summary.Laws.{PhaseFits, validate_phases_iff, IsExact, validate_summary_iff}
use secureflow.Run.Evaluation.{Artifact, validate_artifact, validate_evaluation}
use secureflow.Run.Unique.{each_unique_iff, KeysUnique}
use secureflow.Run.Manifest.{RunManifest, validate_parts}

-- What `validate` asks of the parts.
pub record PartsFit (parse : TimeParser) (m : RunManifest) : Type 0 where
  pub target : Passes (validate_target parse m.target)
  pub engine : Passes (validate_provenance m.engine)
  pub artifacts :
      All (λ a. Passes (validate_artifact a)) m.artifacts
      × KeysUnique (λ (a : Artifact). a.relative_path) m.artifacts
  pub findings :
      All (λ f. Passes (validate_finding parse f)) m.findings
      × KeysUnique (λ (f : Finding). f.finding_id) m.findings
  pub abstentions :
      All (λ a. Passes (validate_abstention a)) m.engine_abstentions
      × KeysUnique (λ (a : EngineAnalysisAbstention). a.abstention_id) m.engine_abstentions
  pub phases : PhaseFits m.phases.validation m.findings
  pub summary : WhenSome (λ s. IsExact s m.findings) m.summary
  pub evaluation : WhenSome (λ e. Passes (validate_evaluation e)) m.evaluation

summary_iff :
    (o : Option Summary) (fs : List Finding)
    → Passes (if_some (λ s. validate_summary s fs) o) ↔ WhenSome (λ s. IsExact s fs) o
summary_iff none fs = ((λ h. tt), (λ h. refl))
summary_iff (some s) fs = validate_summary_iff s fs

same {ℓ} : {A : Type ℓ} → A ↔ A
same = ((λ a. a), (λ a. a))

pub parts_iff :
    (parse : TimeParser) (m : RunManifest) → Passes (validate_parts parse m) ↔ PartsFit parse m
unfolding validate_parts
parts_iff parse m =
    let all = >>-iff {m = validate_target parse m.target} same (
      >>-iff {m = validate_provenance m.engine} same (
        >>-iff
          (each_unique_iff validate_artifact (λ a. a.relative_path)
            (duplicate_identifier "artifact.relative_path") m.artifacts)
          (>>-iff
            (each_unique_iff (validate_finding parse) (λ f. f.finding_id)
              (duplicate_identifier "finding_id") m.findings)
            (>>-iff
              (each_unique_iff validate_abstention (λ a. a.abstention_id)
                (duplicate_identifier "engine_abstention_id") m.engine_abstentions)
              (>>-iff (validate_phases_iff m.phases m.findings) (
                >>-iff (summary_iff m.summary m.findings)
                  (if_some_iff validate_evaluation m.evaluation))))))) in
    (
      (λ h.
          let a = all.0 h in
          record {
            target = a.0;
            engine = a.1.0;
            artifacts = a.1.1.0;
            findings = a.1.1.1.0;
            abstentions = a.1.1.1.1.0;
            phases = a.1.1.1.1.1.0;
            summary = a.1.1.1.1.1.1.0;
            evaluation = a.1.1.1.1.1.1.1;
          }),
      (λ h. all.1 (
        h.target,
        (
          h.engine,
          (h.artifacts, (h.findings, (h.abstentions, (h.phases, (h.summary, h.evaluation))))),
        ),
      )),
    )
