-- ===== src/Run/Ai.antt =====
-- `AiValidation` of crates/secureflow-model/src/lib.rs. Token counts are `u64`.
pub mod Laws
use secureflow.Prelude.{
  ℕ, Option, Bool, not, ◌&&◌, ◌||◌, ltb, is_some, is_none, is_some_and, refuse, if_some, ◌>>◌,
}
use secureflow.Text.{Text, lit}
use secureflow.Run.Errors.{Checked, inconsistent_state, invalid_identifier}
use secureflow.Run.Kinds.{AiValidationStatus, AiAssessment}
use secureflow.Run.Fields.{validate_optional_string, validate_sha256, valid_identifier}

pub record AiValidation : Type 0 where
  pub status : AiValidationStatus
  pub request_id : Option Text
  pub provider : Option Text
  pub model : Option Text
  pub prompt_version : Option Text
  pub redacted_payload_sha256 : Option Text
  pub response_sha256 : Option Text
  pub input_tokens : Option ℕ
  pub output_tokens : Option ℕ
  pub assessment : Option AiAssessment

pub request_metadata_complete : AiValidation → Bool
request_metadata_complete a =
    is_some a.request_id
    && is_some a.provider
    && is_some a.model
    && is_some a.prompt_version
    && is_some a.redacted_payload_sha256

pub has_any_metadata : AiValidation → Bool
has_any_metadata a =
    is_some a.request_id
    || is_some a.provider
    || is_some a.model
    || is_some a.prompt_version
    || is_some a.redacted_payload_sha256
    || is_some a.response_sha256
    || is_some a.input_tokens
    || is_some a.output_tokens
    || is_some a.assessment

-- The `match self.status` at the end of `validate`.
unfoldable pub validate_ai_status : AiValidationStatus → AiValidation → Checked
unfolding request_metadata_complete has_any_metadata
validate_ai_status AiValidationStatus.not_requested a =
    refuse (has_any_metadata a)
      (inconsistent_state "inactive AI validation cannot contain request or response metadata")
validate_ai_status AiValidationStatus.skipped a =
    refuse (has_any_metadata a)
      (inconsistent_state "inactive AI validation cannot contain request or response metadata")
validate_ai_status AiValidationStatus.queued a =
    refuse
      (not (request_metadata_complete a)
        || is_some a.response_sha256
        || is_some a.input_tokens
        || is_some a.output_tokens
        || is_some a.assessment)
      (inconsistent_state "queued AI validation requires request metadata only")
validate_ai_status AiValidationStatus.completed a =
    refuse
      (not (request_metadata_complete a)
        || is_none a.response_sha256
        || is_none a.input_tokens
        || is_none a.output_tokens
        || is_none a.assessment)
      (inconsistent_state
        "completed AI validation requires request, response, token and assessment metadata")
validate_ai_status AiValidationStatus.failed a =
    refuse (not (request_metadata_complete a) || is_some a.assessment)
      (inconsistent_state "failed AI validation requires request metadata and cannot assess")

unfoldable pub validate_ai : AiValidation → Checked
validate_ai a = do
  if_some
      (λ value.
        refuse (not (valid_identifier value (lit "sf_ai_request_") 64 64))
          (invalid_identifier "ai_validation.request_id"))
      a.request_id
  validate_optional_string a.provider "ai_validation.provider" 100
  validate_optional_string a.model "ai_validation.model" 100
  validate_optional_string a.prompt_version "ai_validation.prompt_version" 100
  if_some (λ v. validate_sha256 v "ai_validation.redacted_payload_sha256") a.redacted_payload_sha256
  if_some (λ v. validate_sha256 v "ai_validation.response_sha256") a.response_sha256
  refuse
      (is_some_and (λ v. ltb 10_000_000 v) a.input_tokens
        || is_some_and (λ v. ltb 10_000_000 v) a.output_tokens)
      (inconsistent_state "AI token counts exceed the contract limit")
  validate_ai_status a.status a
