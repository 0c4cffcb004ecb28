-- ===== src/Orchestrator/Validate/Gates.antt =====
-- The order of the phases that crates/secureflow-orchestrator/src/lib.rs enforces in `validate`.
use secureflow.Prelude.{
  sym, ap, ◌∙◌, >>-Passes, ◌≡◌, refl, ◌||◌, ◌&&◌, ℕ, not, refuse, arith, ◌⊎◌, inl, inr, ◌<◌, true,
  false, Bool, List, ok, err, Passes, Result, ◌>>=◌,
}
use secureflow.Orchestrator.Types.{
  has_benchmark, Host, OrchestrationEnvelope, OrchestratedPhase, OrchestratedStatus, NextAction,
  ClaimStatus, RunState,
}
use secureflow.Orchestrator.Validate.{validate, validate_derived_state, status_at}
use secureflow.Orchestrator.Expected.{
  is_done, same_status, same_claim, same_action, expected_validation, expected_evaluation,
  expected_next, expected_claim,
}

-- The phase at the place `i` is there and has the status.
abbrev pub StatusIs : ℕ → List OrchestratedPhase → OrchestratedStatus → Type 0
StatusIs i phases status = status_at i phases ≡ ok status

-- What a reader of an envelope may conclude from its phases, its next action and its claim.
pub record IsGated (e : OrchestrationEnvelope) : Type 0 where
  pub authorized : StatusIs 0 e.phases OrchestratedStatus.completed
  pub analysis_first :
      StatusIs 2 e.phases OrchestratedStatus.completed
      → StatusIs 1 e.phases OrchestratedStatus.completed
  pub reviewed :
      StatusIs 5 e.phases OrchestratedStatus.completed
      → (e.state.pending_human_reviews ≡ 0) × StatusIs 2 e.phases OrchestratedStatus.completed
  pub evaluated :
      StatusIs 6 e.phases OrchestratedStatus.ready
        ⊎ StatusIs 6 e.phases OrchestratedStatus.evaluation_only
      → (e.state.pending_human_reviews ≡ 0) × StatusIs 2 e.phases OrchestratedStatus.completed
  pub acted :
      (e.next_action ≡ NextAction.run_prospective_evaluation)
        ⊎ (e.next_action ≡ NextAction.preserve_auditable_evidence)
      → (e.state.pending_human_reviews ≡ 0)
        × StatusIs 1 e.phases OrchestratedStatus.completed
        × StatusIs 2 e.phases OrchestratedStatus.completed
  pub claimed :
      e.claim_status ≡ ClaimStatus.human_decisions_available
      → (0 < e.state.candidate_count) × (e.state.pending_human_reviews ≡ 0)

bind_ok {ℓ κ} :
    {E : Type ℓ} {A : Type κ} (m : Result E A) (k : A → Result E (Unit {0}))
    → Passes (m >>= k)
    → (a : A) × (m ≡ ok a) × Passes (k a)
bind_ok (ok a) k h = (a, refl, h)
bind_ok (err e) k h = cc

same_status_eq : (x y : OrchestratedStatus) → same_status x y ≡ true → x ≡ y
same_status_eq x y h = ground arith

same_action_eq : (x y : NextAction) → same_action x y ≡ true → x ≡ y
same_action_eq x y h = ground arith

same_claim_eq : (x y : ClaimStatus) → same_claim x y ≡ true → x ≡ y
same_claim_eq x y h = ground arith

four {ℓ} :
    {E : Type ℓ} (a b c d : Bool) (e : E)
    → Passes (refuse (not a || b || c || d) e)
    → (a ≡ true) × (c ≡ false)
four a b c d e h = (ground arith, ground arith)

six {ℓ} :
    {E : Type ℓ} (a b c d f g : Bool) (e : E)
    → Passes (refuse (not a || not b || not c || not d || not f || not g) e)
    → (c ≡ true) × (d ≡ true) × (f ≡ true) × (g ≡ true)
six a b c d f g e h = (ground arith, ground arith, ground arith, ground arith)

-- The statuses that the derived state is computed from, and what the two tests leave of them.
record IsDerived (e : OrchestrationEnvelope) : Type 0 where
  deterministic : OrchestratedStatus
  prioritization : OrchestratedStatus
  validation : OrchestratedStatus
  evaluation : OrchestratedStatus
  first : StatusIs 0 e.phases OrchestratedStatus.completed
  second : StatusIs 1 e.phases deterministic
  third : StatusIs 2 e.phases prioritization
  sixth : StatusIs 5 e.phases validation
  seventh : StatusIs 6 e.phases evaluation
  order :
      (not (is_done deterministic) && not (same_status prioritization OrchestratedStatus.blocked))
      ≡ false
  validated : validation ≡ expected_validation prioritization e.state
  evaluated : evaluation ≡ expected_evaluation prioritization e.state (has_benchmark e.evidence)
  acted :
      e.next_action ≡ expected_next deterministic prioritization e.state (has_benchmark e.evidence)
  claimed : e.claim_status ≡ expected_claim e.state

derived : (e : OrchestrationEnvelope) → Passes (validate_derived_state e) → IsDerived e
unfolding validate_derived_state
derived e h =
    let (d, hd, h1) = bind_ok (status_at 1 e.phases) _ h in
    let (p, hp, h2) = bind_ok (status_at 2 e.phases) _ h1 in
    let (a, ha, h3) = bind_ok (status_at 0 e.phases) _ h2 in
    let (h4, h5) = (>>-Passes _ _).0 h3 in
    let (c, hc, h6) = bind_ok (status_at 3 e.phases) _ h5 in
    let (ai, hai, h7) = bind_ok (status_at 4 e.phases) _ h6 in
    let (v, hv, h8) = bind_ok (status_at 5 e.phases) _ h7 in
    let (ev, hev, h9) = bind_ok (status_at 6 e.phases) _ h8 in
    let order = four _ _ _ _ _ h4 in
    let state = six _ _ _ _ _ _ _ h9 in
    record {
      deterministic = d;
      prioritization = p;
      validation = v;
      evaluation = ev;
      first = ha ∙ ap ok (same_status_eq a OrchestratedStatus.completed order.0);
      second = hd;
      third = hp;
      sixth = hv;
      seventh = hev;
      order = order.1;
      validated = same_status_eq v _ state.0;
      evaluated = same_status_eq ev _ state.1;
      acted = same_action_eq e.next_action _ state.2;
      claimed = same_claim_eq e.claim_status _ state.3;
    }

same_read {ℓ} : {E : Type ℓ} {A : Type 0} {r : Result E A} (x y : A) → r ≡ ok x → r ≡ ok y → x ≡ y
same_read x y p q = cc

-- Evidence of a completed review, of evaluation, of the next action and of the claim, each read off
-- the function that the validation compares it with.
completed_validation :
    (p : OrchestratedStatus) (s : RunState)
    → expected_validation p s ≡ OrchestratedStatus.completed
    → (s.pending_human_reviews ≡ 0) × (p ≡ OrchestratedStatus.completed)
unfolding expected_validation
completed_validation p s h = (ground arith, ground arith)

open_evaluation :
    (p : OrchestratedStatus) (s : RunState) (b : Bool)
    → (expected_evaluation p s b ≡ OrchestratedStatus.ready)
      ⊎ (expected_evaluation p s b ≡ OrchestratedStatus.evaluation_only)
    → (s.pending_human_reviews ≡ 0) × (p ≡ OrchestratedStatus.completed)
unfolding expected_evaluation
open_evaluation p s b h = (ground arith, ground arith)

late_action :
    (d p : OrchestratedStatus) (s : RunState) (b : Bool)
    → (expected_next d p s b ≡ NextAction.run_prospective_evaluation)
      ⊎ (expected_next d p s b ≡ NextAction.preserve_auditable_evidence)
    → (s.pending_human_reviews ≡ 0)
      × (d ≡ OrchestratedStatus.completed)
      × (p ≡ OrchestratedStatus.completed)
unfolding expected_next
late_action d p s b h = (ground arith, ground arith, ground arith)

decided_claim :
    (s : RunState)
    → expected_claim s ≡ ClaimStatus.human_decisions_available
    → (0 < s.candidate_count) × (s.pending_human_reviews ≡ 0)
unfolding expected_claim
decided_claim s h = (ground arith, ground arith)

done_first :
    (d p : OrchestratedStatus)
    → (not (is_done d) && not (same_status p OrchestratedStatus.blocked)) ≡ false
    → p ≡ OrchestratedStatus.completed
    → d ≡ OrchestratedStatus.completed
done_first d p h q = ground arith

IsDerived-IsGated : (e : OrchestrationEnvelope) → IsDerived e → IsGated e
IsDerived-IsGated e i =
    let d = i.deterministic in
    let p = i.prioritization in
    record {
      authorized = i.first;
      analysis_first = λ q. i.second ∙ ap ok (done_first d p i.order (same_read p _ i.third q));
      reviewed = λ q.
          let r = completed_validation p e.state (sym i.validated ∙ same_read _ _ i.sixth q) in
          (r.0, i.third ∙ ap ok r.1);
      evaluated = λ q.
          let r = open_evaluation p e.state _ (elim q [
            | inl q ↦ inl (sym i.evaluated ∙ same_read _ _ i.seventh q)
            | inr q ↦ inr (sym i.evaluated ∙ same_read _ _ i.seventh q)
          ]) in
          (r.0, i.third ∙ ap ok r.1);
      acted = λ q.
          let r =
            late_action d p e.state _
              (elim q [ inl q ↦ inl (sym i.acted ∙ q) | inr q ↦ inr (sym i.acted ∙ q) ]) in
          (r.0, i.second ∙ ap ok r.1, i.third ∙ ap ok r.2);
      claimed = λ q. decided_claim e.state (sym i.claimed ∙ q);
    }

-- If an envelope passes `validate`: its first phase, the authorization, is completed. Prioritization
-- is completed only if the deterministic analysis is. Human validation is completed, and evaluation
-- is ready or evaluation-only, only if no review is pending and prioritization is completed. The
-- next action is the prospective evaluation or the preservation of evidence only if moreover the
-- analysis is completed. The claim is that human decisions are available only if there is a
-- candidate and no review is pending.
pub validate-IsGated :
    (host : Host) (e : OrchestrationEnvelope) → Passes (validate host e) → IsGated e
unfolding validate
validate-IsGated host e h = IsDerived-IsGated e (derived e (ground arith))
