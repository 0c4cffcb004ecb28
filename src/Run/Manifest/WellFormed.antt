-- ===== src/Run/Manifest/WellFormed.antt =====
-- What `RunManifest::validate` of crates/secureflow-model/src/lib.rs establishes, as one record.
mod Header
mod Parts
use secureflow.Prelude.{
  ℕ, ◌≤◌, ◌≡◌, ◌↔◌, ◌⊎◌, inl, inr, refl, Option, none, some, List, Bool, true, false, not, ◌&&◌,
  arith, ok, All, Passes, WhenSome, >>-iff, refuse-Passes, if_some_iff, String, ◌>>=◌, refuse, ltb,
  if◌then◌else◌, Bool-cases, if_some, is_some,
}
use secureflow.Text.{Text, text_eq, text_eq_iff, lit}
use secureflow.Run.Errors.{Checked, duplicate_identifier, inconsistent_state}
use secureflow.Run.Kinds.{is_terminal}
use secureflow.Run.Fields.{
  TimeParser, parsed, validate_timestamp, validate_sha256, valid_identifier,
}
use secureflow.Run.Target.{validate_target}
use secureflow.Run.Engine.{validate_provenance}
use secureflow.Run.Finding.{
  Finding, validate_finding, EngineAnalysisAbstention, validate_abstention,
}
use secureflow.Run.Summary.{Summary, validate_summary}
use secureflow.Run.Summary.Laws.{PhaseFits, validate_phases_iff, IsExact, validate_summary_iff}
use secureflow.Run.Evaluation.{Artifact, validate_artifact, validate_evaluation}
use secureflow.Run.Unique.{each_unique_iff, KeysUnique}
use secureflow.Run.Manifest.{
  RunManifest, validate, validate_run, validate_parts, validate_completion, validate_completed_at,
  validate_v1_shape, run_contract_version, legacy_contract_version,
}
use secureflow.Run.Manifest.Legacy.{IsV1, validate_v1_shape_iff}
use secureflow.Run.Manifest.WellFormed.Header.{EndsAfter, RunFits, run_iff}
use secureflow.Run.Manifest.WellFormed.Parts.{PartsFit, parts_iff}

pub record IsWellFormed (parse : TimeParser) (m : RunManifest) : Type 0 where
  pub version :
      (m.contract_version ≡ run_contract_version) ⊎ (m.contract_version ≡ legacy_contract_version)
  pub legacy : m.contract_version ≡ legacy_contract_version → IsV1 m
  pub run_id : valid_identifier m.run_id (lit "sf_run_") 16 80 ≡ true
  pub terminal : is_terminal m.status ≡ is_some m.completed_at
  pub times :
      (start : ℕ) × (parse m.created_at ≡ some start)
      × WhenSome (EndsAfter parse start) m.completed_at
  pub configuration :
      WhenSome (λ v. Passes (validate_sha256 v "configuration_sha256")) m.configuration_sha256
  pub target : Passes (validate_target parse m.target)
  pub engine : Passes (validate_provenance m.engine)
  pub artifacts : All (λ a. Passes (validate_artifact a)) m.artifacts
  pub artifact_paths : KeysUnique (λ (a : Artifact). a.relative_path) m.artifacts
  pub findings : All (λ f. Passes (validate_finding parse f)) m.findings
  pub finding_ids : KeysUnique (λ (f : Finding). f.finding_id) m.findings
  pub abstentions : All (λ a. Passes (validate_abstention a)) m.engine_abstentions
  pub abstention_ids :
      KeysUnique (λ (a : EngineAnalysisAbstention). a.abstention_id) m.engine_abstentions
  pub phases : PhaseFits m.phases.validation m.findings
  pub summary : WhenSome (λ s. IsExact s m.findings) m.summary
  pub evaluation : WhenSome (λ e. Passes (validate_evaluation e)) m.evaluation

-- `validate` accepts exactly the well-formed manifests: those that name one of the two contracts,
-- and under the v1 label hold v1 data; whose run identifier and configuration hash are valid; that are
-- terminal exactly when they have a completion time, which does not precede their creation; whose target, engine, artifacts, findings, abstentions
-- and evaluation are accepted one by one, with unique keys; whose validation phase fits the
-- decisions; and whose summary counts the findings.
pub validate_iff :
    (parse : TimeParser) (m : RunManifest) → Passes (validate parse m) ↔ IsWellFormed parse m
unfolding validate
validate_iff parse m =
    let all = >>-iff (run_iff parse m) (parts_iff parse m) in
    (
      (λ h.
          let (r, p) = all.0 h in
          record {
            version = r.version;
            legacy = r.legacy;
            run_id = r.run_id;
            terminal = r.terminal;
            times = r.times;
            configuration = r.configuration;
            target = p.target;
            engine = p.engine;
            artifacts = p.artifacts.0;
            artifact_paths = p.artifacts.1;
            findings = p.findings.0;
            finding_ids = p.findings.1;
            abstentions = p.abstentions.0;
            abstention_ids = p.abstentions.1;
            phases = p.phases;
            summary = p.summary;
            evaluation = p.evaluation;
          }),
      (λ h. all.1 (
        record {
          version = h.version;
          legacy = h.legacy;
          run_id = h.run_id;
          terminal = h.terminal;
          times = h.times;
          configuration = h.configuration;
        },
        record {
          target = h.target;
          engine = h.engine;
          artifacts = (h.artifacts, h.artifact_paths);
          findings = (h.findings, h.finding_ids);
          abstentions = (h.abstentions, h.abstention_ids);
          phases = h.phases;
          summary = h.summary;
          evaluation = h.evaluation;
        },
      )),
    )
