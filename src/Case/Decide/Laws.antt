-- ===== src/Case/Decide/Laws.antt =====
-- `SecurityCase::add_human_decision` of crates/secureflow-case/src/lib.rs and the decisions of a case.
use secureflow.Prelude.{sym, ap, subst, ◌≡◌, refl, arith, true, false, List, [], ◌∷◌, ◌++◌, Passes}
use secureflow.Text.{Text}
use secureflow.Run.Fields.{TimeParser}
use secureflow.Case.Types.{SecurityCase, HumanDecision}
use secureflow.Case.Fields.{Hash}
use secureflow.Case.Validate.{
  validate_header, validate, validate_decisions, contains, candidate_ids_of,
}
use secureflow.Case.Validate.Integrity.{IsCase, validate-IsCase, validate-parts}
use secureflow.Case.Decide.{Verdict, decision_of, push_decision, decided_for, add_human_decision}

-- A decision that `add_human_decision` accepts.
pub record IsDecided (sha256 : Hash) (v : Verdict) (c c' : SecurityCase) : Type 0 where
  pub pushed : c' ≡ record c { decisions = c.decisions ++ (decision_of sha256 v ∷ []) }
  pub known : contains (candidate_ids_of c.candidates) v.candidate_id ≡ true
  pub undecided : decided_for v.candidate_id c.decisions ≡ false
  pub case : IsCase c'

-- The loop over the decisions accepts each prefix of a list that it accepts.
validate_decisions-prefix :
    (parse : TimeParser) (ids seen decided : List Text) (ds es : List HumanDecision)
    → Passes (validate_decisions parse ids seen decided (ds ++ es))
    → Passes (validate_decisions parse ids seen decided ds)
unfolding validate_decisions
validate_decisions-prefix parse ids seen decided [] es h = refl
validate_decisions-prefix parse ids seen decided (d ∷ ds) es h =
    let ih =
      validate_decisions-prefix parse ids (d.decision_id ∷ seen) (d.candidate_id ∷ decided) ds es in
    ground (arith, ih)

last_known :
    (parse : TimeParser) (ids seen decided : List Text) (ds : List HumanDecision)
    (d : HumanDecision)
    → Passes (validate_decisions parse ids seen decided (ds ++ (d ∷ [])))
    → contains ids d.candidate_id ≡ true
unfolding validate_decisions
last_known parse ids seen decided [] d h = ground arith
last_known parse ids seen decided (x ∷ ds) d h =
    last_known parse ids (x.decision_id ∷ seen) (x.candidate_id ∷ decided) ds d (ground arith)

validate-push :
    (parse : TimeParser) (c : SecurityCase) (d : HumanDecision)
    → Passes (validate parse (push_decision c d))
    → Passes (validate parse c)
unfolding validate validate_header
validate-push parse c d h =
    let prefix =
      validate_decisions-prefix parse (candidate_ids_of c.candidates) [] [] c.decisions (d ∷ []) in
    ground (arith, prefix)

pub undecided_step :
    (parse : TimeParser) (sha256 : Hash) (v : Verdict) (c : SecurityCase)
    → decided_for v.candidate_id c.decisions ≡ false
    → add_human_decision parse sha256 v c ≡ (
      validate parse (push_decision c (decision_of sha256 v)),
      push_decision c (decision_of sha256 v),
    )
unfolding add_human_decision
undecided_step parse sha256 v c h = ground arith

undecided_if_ok :
    (parse : TimeParser) (sha256 : Hash) (v : Verdict) (c : SecurityCase)
    → Passes (add_human_decision parse sha256 v c).0
    → decided_for v.candidate_id c.decisions ≡ false
unfolding add_human_decision
undecided_if_ok parse sha256 v c h = ground arith

pushed_known :
    (parse : TimeParser) (sha256 : Hash) (v : Verdict) (c : SecurityCase)
    → Passes (validate parse (push_decision c (decision_of sha256 v)))
    → contains (candidate_ids_of c.candidates) v.candidate_id ≡ true
unfolding decision_of
pushed_known parse sha256 v c h =
    let parts = validate-parts parse (push_decision c (decision_of sha256 v)) h in
    last_known parse _ [] [] c.decisions (decision_of sha256 v) parts.4

stays_invalid :
    (parse : TimeParser) (sha256 : Hash) (w : Verdict) (c : SecurityCase)
    → ¬ Passes (validate parse c)
    → ¬ Passes (add_human_decision parse sha256 w c).0
stays_invalid parse sha256 w c invalid p =
    let step = undecided_step parse sha256 w c (undecided_if_ok parse sha256 w c p) in
    invalid (validate-push parse c (decision_of sha256 w) (subst (λ r. Passes r.0) step p))

-- If `add_human_decision` returns without an error, the case is as it was but for one more decision,
-- which is built from the arguments; the candidate is in the case and had no decision, and the new
-- case has unique identifiers, one decision for a candidate and no reference that does not resolve.
pub add_human_decision-IsDecided :
    (parse : TimeParser) (sha256 : Hash) (v : Verdict) (c : SecurityCase)
    → Passes (add_human_decision parse sha256 v c).0
    → IsDecided sha256 v c (add_human_decision parse sha256 v c).1
unfolding add_human_decision
add_human_decision-IsDecided parse sha256 v c h =
    let new = undecided_if_ok parse sha256 v c h in
    let step = undecided_step parse sha256 v c new in
    let valid = subst (λ r. Passes r.0) step h in
    record {
      pushed = ap (λ r. r.1) step;
      known = pushed_known parse sha256 v c valid;
      undecided = new;
      case = subst (λ r. IsCase r.1) (sym step) (validate-IsCase parse _ valid);
    }

-- If `add_human_decision` returns an error of the validation, that is, not for a second decision,
-- the decision stays in the case that it leaves, this case does not pass `validate`, and every later
-- `add_human_decision` on it returns an error.
pub add_human_decision_poisons :
    (parse : TimeParser) (sha256 : Hash) (v : Verdict) (c : SecurityCase)
    → decided_for v.candidate_id c.decisions ≡ false
    → ¬ Passes (add_human_decision parse sha256 v c).0
    → ((add_human_decision parse sha256 v c).1 ≡ push_decision c (decision_of sha256 v))
      × (¬ Passes (validate parse (add_human_decision parse sha256 v c).1))
      × ((w : Verdict)
          → ¬ Passes (add_human_decision parse sha256 w (add_human_decision parse sha256 v c).1).0)
add_human_decision_poisons parse sha256 v c new fails =
    let step = undecided_step parse sha256 v c new in
    let invalid : ¬ Passes (validate parse (push_decision c (decision_of sha256 v))) =
      λ p. fails (subst (λ r. Passes r.0) (sym step) p) in
    (
      ap (λ r. r.1) step,
      subst (λ r. ¬ Passes (validate parse r.1)) (sym step) invalid,
      (λ w.
          subst (λ r. ¬ Passes (add_human_decision parse sha256 w r.1).0) (sym step)
            (stays_invalid parse sha256 w (push_decision c (decision_of sha256 v)) invalid)),
    )
