-- ===== src/Run/Evaluation.antt =====
-- `EvaluationReference` and `Artifact` of crates/secureflow-model/src/lib.rs.
use secureflow.Prelude.{ℕ, Option, ◌&&◌, ◌||◌, is_none, refuse, if_some, ◌>>◌}
use secureflow.Text.{Text}
use secureflow.Run.Errors.{Checked, inconsistent_state}
use secureflow.Run.Kinds.{EvaluationHarness, EvaluationStatus, is_evaluated, ArtifactKind}
use secureflow.Run.Fields.{validate_optional_string, validate_sha256, validate_relative_path}

pub record EvaluationReference : Type 0 where
  pub harness : EvaluationHarness
  pub harness_version : Option Text
  pub manifest_sha256 : Option Text
  pub result_sha256 : Option Text
  pub status : EvaluationStatus

unfoldable pub validate_evaluation : EvaluationReference → Checked
validate_evaluation e = do
  validate_optional_string e.harness_version "evaluation.harness_version" 100
  if_some (λ v. validate_sha256 v "evaluation.manifest_sha256") e.manifest_sha256
  if_some (λ v. validate_sha256 v "evaluation.result_sha256") e.result_sha256
  refuse (is_evaluated e.status && (is_none e.manifest_sha256 || is_none e.result_sha256))
      (inconsistent_state "completed evaluation requires manifest and result hashes")

pub record Artifact : Type 0 where
  pub kind : ArtifactKind
  pub relative_path : Text
  pub sha256 : Text
  pub bytes : ℕ

unfoldable pub validate_artifact : Artifact → Checked
validate_artifact a = do
  validate_relative_path a.relative_path "artifact.relative_path"
  validate_sha256 a.sha256 "artifact.sha256"
