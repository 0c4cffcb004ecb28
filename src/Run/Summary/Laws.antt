-- ===== src/Run/Summary/Laws.antt =====
-- What the summary and the phases of an accepted manifest say of its findings, and when the sums
-- of tokens are exact.
use secureflow.Prelude.{
  ℕ, ◌+◌, ◌-◌, ◌*◌, suc, ◌%◌, ◌^◌, ◌≤◌, ◌<◌, ◌≡◌, ◌≢◌, ◌↔◌, refl, Option, none, some, List, [], ◌∷◌,
  arith, Passes, WhenSome, All, length, count_if, count_if-le-length,
}
use secureflow.Run.Kinds.{
  PhaseStatus, HumanDecision, is_pending, is_validated, is_rejected, is_abstained,
}
use secureflow.Run.Finding.{Finding}
use secureflow.Run.Summary.{
  Phases, validate_phase, validate_phases, decision, Summary, validate_summary, sum_tokens,
  input_tokens, output_tokens, ai_calls_of,
}

-- The sum with no bound on its size.
pub total_tokens : (Finding → Option ℕ) → List Finding → ℕ
total_tokens tokens [] = 0
total_tokens tokens (f ∷ fs) = elim (tokens f) [
  | none ↦ total_tokens tokens fs
  | some n ↦ n + total_tokens tokens fs
]

abbrev pub TokensBounded : (Finding → Option ℕ) → List Finding → Type 0
TokensBounded tokens = All (λ f. WhenSome (λ n. n ≤ 10_000_000) (tokens f))

total_tokens-le :
    (tokens : Finding → Option ℕ) (fs : List Finding)
    → TokensBounded tokens fs
    → total_tokens tokens fs ≤ 10_000_000 * length fs
unfolding total_tokens
total_tokens-le tokens [] h = omega arith
total_tokens-le tokens (f ∷ fs) h = go (tokens f) h.0 (total_tokens-le tokens fs h.1)
  where
    go :
        (o : Option ℕ)
        → WhenSome (λ n. n ≤ 10_000_000) o
        → total_tokens tokens fs ≤ 10_000_000 * length fs
        → (elim o [ none ↦ total_tokens tokens fs | some n ↦ n + total_tokens tokens fs ])
          ≤ 10_000_000 * suc (length fs)
    go none b ih = omega arith
    go (some n) b ih = omega arith

-- While no count passes ten million and there are at most 2 ^ 40 findings, the `u64` sum is exact.
pub sum_tokens-eq-total :
    (tokens : Finding → Option ℕ) (fs : List Finding)
    → TokensBounded tokens fs
    → length fs ≤ 2 ^ 40
    → sum_tokens tokens fs ≡ total_tokens tokens fs
unfolding sum_tokens total_tokens
sum_tokens-eq-total tokens [] h l = refl
sum_tokens-eq-total tokens (f ∷ fs) h l =
    go (tokens f) h.0 (sum_tokens-eq-total tokens fs h.1 (omega arith))
      (total_tokens-le tokens fs h.1)
  where
    go :
        (o : Option ℕ)
        → WhenSome (λ n. n ≤ 10_000_000) o
        → sum_tokens tokens fs ≡ total_tokens tokens fs
        → total_tokens tokens fs ≤ 10_000_000 * length fs
        → (elim o [ none ↦ sum_tokens tokens fs | some n ↦ (n + sum_tokens tokens fs) % 2 ^ 64 ])
          ≡ (elim o [ none ↦ total_tokens tokens fs | some n ↦ n + total_tokens tokens fs ])
    go none b e ih = e
    go (some n) b e ih = omega arith

-- What the state of the validation phase says of the findings.
abbrev pub PhaseFits : PhaseStatus → List Finding → Type 0
PhaseFits PhaseStatus.completed fs = All (λ f. decision f ≢ HumanDecision.pending) fs
PhaseFits PhaseStatus.partial fs =
    (0 < count_if (λ f. is_pending (decision f)) fs)
    × (count_if (λ f. is_pending (decision f)) fs < length fs)
PhaseFits PhaseStatus.skipped fs = All (λ f. decision f ≡ HumanDecision.pending) fs
PhaseFits _ fs = Unit

none_pending_iff :
    (fs : List Finding)
    → (count_if (λ f. is_pending (decision f)) fs ≡ 0)
      ↔ All (λ f. decision f ≢ HumanDecision.pending) fs
none_pending_iff [] = (λ h. tt, λ h. refl)
none_pending_iff (f ∷ fs) =
    let ih = none_pending_iff fs in
    (
      (λ h. ((λ e. ground arith), ih.0 (ground arith))),
      (λ h. let t = ih.1 h.1 in ground (arith, h.0)),
    )

all_pending_iff :
    (fs : List Finding)
    → (length fs - count_if (λ f. is_pending (decision f)) fs ≡ 0)
      ↔ All (λ f. decision f ≡ HumanDecision.pending) fs
all_pending_iff [] = (λ h. tt, λ h. refl)
all_pending_iff (f ∷ fs) =
    let ih = all_pending_iff fs in
    let bound = count_if-le-length (λ (f : Finding). is_pending (decision f)) fs in
    ((λ h. (ground arith, ih.0 (ground arith))), (λ h. let t = ih.1 h.1 in ground arith))

-- `validate_phases` accepts exactly the states of the validation phase that fit the findings:
-- completed with none pending, partial with some pending and some not, skipped with all pending, and
-- pending, running or failed whatever the findings.
pub validate_phases_iff :
    (p : Phases) (fs : List Finding) → Passes (validate_phases p fs) ↔ PhaseFits p.validation fs
unfolding validate_phases
validate_phases_iff p fs = go p.validation
  where
    go :
        (s : PhaseStatus)
        → Passes (
            validate_phase s
              (count_if (λ f. is_pending (decision f)) fs)
              (length fs - count_if (λ f. is_pending (decision f)) fs))
          ↔ PhaseFits s fs
    go PhaseStatus.completed =
        let n = none_pending_iff fs in
        ((λ h. n.0 (ground arith)), (λ h. let t = n.1 h in ground arith))
    go PhaseStatus.partial = ((λ h. ground arith), (λ h. ground arith))
    go PhaseStatus.skipped =
        let n = all_pending_iff fs in
        ((λ h. n.0 (ground arith)), (λ h. let t = n.1 h in ground arith))
    go PhaseStatus.pending = ((λ h. tt), (λ h. refl))
    go PhaseStatus.running = ((λ h. tt), (λ h. refl))
    go PhaseStatus.failed = ((λ h. tt), (λ h. refl))

-- The counters that the findings themselves give.
pub record IsExact (s : Summary) (fs : List Finding) : Type 0 where
  pub candidates : s.candidate_count ≡ length fs
  pub validated : s.validated_count ≡ count_if (λ f. is_validated (decision f)) fs
  pub rejected : s.rejected_count ≡ count_if (λ f. is_rejected (decision f)) fs
  pub abstained : s.abstained_count ≡ count_if (λ f. is_abstained (decision f)) fs
  pub calls : s.ai_calls ≡ ai_calls_of fs
  pub input : s.ai_input_tokens ≡ sum_tokens input_tokens fs
  pub output : s.ai_output_tokens ≡ sum_tokens output_tokens fs

pub validate_summary_iff :
    (s : Summary) (fs : List Finding) → Passes (validate_summary s fs) ↔ IsExact s fs
unfolding validate_summary
validate_summary_iff s fs = (
  (λ h. record {
    candidates = ground arith;
    validated = ground arith;
    rejected = ground arith;
    abstained = ground arith;
    calls = ground arith;
    input = ground arith;
    output = ground arith;
  }),
  (λ h. ground arith),
)
