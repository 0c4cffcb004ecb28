-- ===== src/Run/Summary.antt =====
-- `Summary`, `Phases` and the counting of findings, of crates/secureflow-model/src/lib.rs. Counts
-- and sums are `u64`, and a sum of token counts wraps as a release build does.
pub mod Laws
use secureflow.Prelude.{
  ℕ, ◌+◌, ◌-◌, ◌%◌, ◌^◌, Option, none, some, List, [], ◌∷◌, Bool, true, false, not, ◌||◌, ◌==◌,
  length, count_if, ok, refuse,
}
use secureflow.Run.Errors.{Checked, summary_mismatch, inconsistent_state}
use secureflow.Run.Kinds.{
  PhaseStatus, HumanDecision, AiValidationStatus, is_pending, is_validated, is_rejected,
  is_abstained,
}
use secureflow.Run.Finding.{Finding}

pub record Phases : Type 0 where
  pub deterministic : PhaseStatus
  pub prioritization : PhaseStatus
  pub validation : PhaseStatus
  pub evaluation : PhaseStatus

abbrev pub decision : Finding → HumanDecision
decision f = f.human_review.decision

validate_phase : PhaseStatus → ℕ → ℕ → Checked
validate_phase PhaseStatus.completed waiting reviewed =
    refuse (not (waiting == 0))
      (inconsistent_state "completed validation cannot contain pending findings")
validate_phase PhaseStatus.partial waiting reviewed =
    refuse (waiting == 0 || reviewed == 0)
      (inconsistent_state "partial validation requires reviewed and pending findings")
validate_phase PhaseStatus.skipped waiting reviewed =
    refuse (not (reviewed == 0))
      (inconsistent_state "skipped validation cannot contain reviewed findings")
validate_phase _ waiting reviewed = ok tt

-- `Phases::validate`; the subtraction saturates.
unfoldable pub validate_phases : Phases → List Finding → Checked
unfolding validate_phase
validate_phases p findings =
    let waiting = count_if (λ f. is_pending (decision f)) findings in
    validate_phase p.validation waiting (length findings - waiting)

-- `matches!(status, Completed | Failed)`
abbrev pub is_ai_call : AiValidationStatus → Bool
is_ai_call AiValidationStatus.completed = true
is_ai_call AiValidationStatus.failed = true
is_ai_call _ = false

abbrev pub u64_add : ℕ → ℕ → ℕ
u64_add a b = (a + b) % 2 ^ 64

-- `filter_map(tokens).sum::<u64>()`
unfoldable pub sum_tokens : (Finding → Option ℕ) → List Finding → ℕ
sum_tokens tokens [] = 0
sum_tokens tokens (f ∷ fs) = elim (tokens f) [
  | none ↦ sum_tokens tokens fs
  | some n ↦ u64_add n (sum_tokens tokens fs)
]

abbrev pub input_tokens : Finding → Option ℕ
input_tokens f = f.ai_validation.input_tokens

abbrev pub output_tokens : Finding → Option ℕ
output_tokens f = f.ai_validation.output_tokens

abbrev pub ai_calls_of : List Finding → ℕ
ai_calls_of = count_if (λ f. is_ai_call f.ai_validation.status)

pub record Summary : Type 0 where
  pub candidate_count : ℕ
  pub duplicate_count : ℕ
  pub validated_count : ℕ
  pub rejected_count : ℕ
  pub abstained_count : ℕ
  pub ai_calls : ℕ
  pub ai_input_tokens : ℕ
  pub ai_output_tokens : ℕ

unfoldable pub validate_summary : Summary → List Finding → Checked
validate_summary s findings =
    refuse
      (not (s.candidate_count == length findings)
        || not (s.validated_count == count_if (λ f. is_validated (decision f)) findings)
        || not (s.rejected_count == count_if (λ f. is_rejected (decision f)) findings)
        || not (s.abstained_count == count_if (λ f. is_abstained (decision f)) findings)
        || not (s.ai_calls == ai_calls_of findings)
        || not (s.ai_input_tokens == sum_tokens input_tokens findings)
        || not (s.ai_output_tokens == sum_tokens output_tokens findings))
      summary_mismatch
