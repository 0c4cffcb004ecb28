-- ===== src/Run/Ai/Laws.antt =====
-- What `validate_ai` accepts: the metadata that each status must and must not carry.
use secureflow.Prelude.{
  ℕ, ◌≤◌, ◌≡◌, ◌↔◌, refl, Option, none, some, true, false, not, arith, Passes, WhenSome, is_some,
  is_some_and, ltb, if_some, refuse, if_some_iff,
}
use secureflow.Text.{Text, lit}
use secureflow.Run.Errors.{invalid_identifier}
use secureflow.Run.Kinds.{AiValidationStatus}
use secureflow.Run.Fields.{validate_optional_string, validate_sha256, valid_identifier}
use secureflow.Run.Ai.{AiValidation, validate_ai, validate_ai_status}

pub record HasRequest (a : AiValidation) : Type 0 where
  pub request_id : is_some a.request_id ≡ true
  pub provider : is_some a.provider ≡ true
  pub model : is_some a.model ≡ true
  pub prompt_version : is_some a.prompt_version ≡ true
  pub payload : is_some a.redacted_payload_sha256 ≡ true

pub record HasResponse (a : AiValidation) : Type 0 where
  pub response : is_some a.response_sha256 ≡ true
  pub input_tokens : is_some a.input_tokens ≡ true
  pub output_tokens : is_some a.output_tokens ≡ true
  pub assessment : is_some a.assessment ≡ true

pub record LacksRequest (a : AiValidation) : Type 0 where
  pub request_id : a.request_id ≡ none
  pub provider : a.provider ≡ none
  pub model : a.model ≡ none
  pub prompt_version : a.prompt_version ≡ none
  pub payload : a.redacted_payload_sha256 ≡ none

pub record LacksResponse (a : AiValidation) : Type 0 where
  pub response : a.response_sha256 ≡ none
  pub input_tokens : a.input_tokens ≡ none
  pub output_tokens : a.output_tokens ≡ none
  pub assessment : a.assessment ≡ none

-- What a status asks of the metadata.
abbrev pub FitsStatus : AiValidationStatus → AiValidation → Type 0
FitsStatus AiValidationStatus.not_requested a = LacksRequest a × LacksResponse a
FitsStatus AiValidationStatus.skipped a = LacksRequest a × LacksResponse a
FitsStatus AiValidationStatus.queued a = HasRequest a × LacksResponse a
FitsStatus AiValidationStatus.completed a = HasRequest a × HasResponse a
FitsStatus AiValidationStatus.failed a = HasRequest a × (a.assessment ≡ none)

pub record IsAccounted (a : AiValidation) : Type 0 where
  pub request_id :
      WhenSome (λ v. valid_identifier v (lit "sf_ai_request_") 64 64 ≡ true) a.request_id
  pub provider : Passes (validate_optional_string a.provider "ai_validation.provider" 100)
  pub model : Passes (validate_optional_string a.model "ai_validation.model" 100)
  pub prompt_version :
      Passes (validate_optional_string a.prompt_version "ai_validation.prompt_version" 100)
  pub payload :
      WhenSome
        (λ v. Passes (validate_sha256 v "ai_validation.redacted_payload_sha256"))
        a.redacted_payload_sha256
  pub response :
      WhenSome (λ v. Passes (validate_sha256 v "ai_validation.response_sha256")) a.response_sha256
  pub input_tokens : WhenSome (λ n. n ≤ 10_000_000) a.input_tokens
  pub output_tokens : WhenSome (λ n. n ≤ 10_000_000) a.output_tokens
  pub status : FitsStatus a.status a

status_iff :
    (s : AiValidationStatus) (a : AiValidation) → Passes (validate_ai_status s a) ↔ FitsStatus s a
unfolding validate_ai_status
status_iff AiValidationStatus.not_requested a = (λ h. ground arith, λ h. ground arith)
status_iff AiValidationStatus.skipped a = (λ h. ground arith, λ h. ground arith)
status_iff AiValidationStatus.queued a = (λ h. ground arith, λ h. ground arith)
status_iff AiValidationStatus.completed a = (λ h. ground arith, λ h. ground arith)
status_iff AiValidationStatus.failed a = (λ h. ground arith, λ h. ground arith)

bound_iff :
    (o : Option ℕ)
    → (is_some_and (λ v. ltb 10_000_000 v) o ≡ false) ↔ WhenSome (λ n. n ≤ 10_000_000) o
bound_iff none = (λ _. tt, λ _. refl)
bound_iff (some n) = (λ h. ground arith, λ h. ground arith)

request_iff :
    (o : Option Text)
    → Passes (
        if_some
          (λ value.
            refuse
              (not (valid_identifier value (lit "sf_ai_request_") 64 64))
              (invalid_identifier "ai_validation.request_id"))
          o)
      ↔ WhenSome (λ v. valid_identifier v (lit "sf_ai_request_") 64 64 ≡ true) o
request_iff none = (λ _. tt, λ _. refl)
request_iff (some v) = (λ h. ground arith, λ h. ground arith)

-- `validate_ai` accepts exactly the records whose metadata fit their status: none at all while not
-- requested or skipped, the request alone while queued, request and response when completed, the
-- request and no assessment when failed; whose texts and hashes are well formed; and whose token
-- counts are at most ten million.
pub validate_ai_iff : (a : AiValidation) → Passes (validate_ai a) ↔ IsAccounted a
unfolding validate_ai
validate_ai_iff a =
    let request = request_iff a.request_id in
    let payload =
      if_some_iff (λ v. validate_sha256 v "ai_validation.redacted_payload_sha256")
        a.redacted_payload_sha256 in
    let response =
      if_some_iff (λ v. validate_sha256 v "ai_validation.response_sha256") a.response_sha256 in
    let ins = bound_iff a.input_tokens in
    let outs = bound_iff a.output_tokens in
    let status = status_iff a.status a in
    (
      (λ h. record {
        request_id = request.0 (ground arith);
        provider = ground arith;
        model = ground arith;
        prompt_version = ground arith;
        payload = payload.0 (ground arith);
        response = response.0 (ground arith);
        input_tokens = ins.0 (ground arith);
        output_tokens = outs.0 (ground arith);
        status = status.0 (ground arith);
      }),
      (λ h.
          let r = request.1 h.request_id in
          let p = payload.1 h.payload in
          let q = response.1 h.response in
          let i = ins.1 h.input_tokens in
          let o = outs.1 h.output_tokens in
          let s = status.1 h.status in ground (arith, h.provider, h.model, h.prompt_version)),
    )
