-- ===== src/Case/Decide/Accepts.antt =====
-- When `SecurityCase::add_human_decision` of crates/secureflow-case/src/lib.rs succeeds.
use secureflow.Prelude.{
  sym, subst, refl, ◌≡◌, ◌≢◌, arith, true, false, List, [], ◌∷◌, ◌++◌, All, Passes, if_some,
}
use secureflow.Text.{Text, text_eq_iff, lit}
use secureflow.Run.Fields.{TimeParser}
use secureflow.Case.Types.{SecurityCase, HumanDecision}
use secureflow.Case.Fields.{Hash, id, text, timestamp}
use secureflow.Case.Validate.{
  candidate_ids_of, validate_header, validate, validate_decisions, contains,
}
use secureflow.Case.Decide.{Verdict, decision_of, push_decision, decided_for, add_human_decision}
use secureflow.Case.Decide.Laws.{undecided_step}
use secureflow.Case.Validate.Integrity.{validate-parts}

-- The fields of a decision, each accepted on its own.
pub record DecisionFits (parse : TimeParser) (d : HumanDecision) : Type 0 where
  pub decision_id : Passes (id d.decision_id (lit "sf_decision_") "decision.decision_id")
  pub reviewer : Passes (text d.reviewer "decision.reviewer" 200)
  pub rationale : Passes (text d.rationale "decision.rationale" 3000)
  pub time : Passes (timestamp parse d.decided_at "decision.decided_at")
  pub reference :
      Passes (if_some (λ r. text r "decision.evidence_reference" 300) d.evidence_reference)

-- The decision has an identifier and a candidate that none of the others has.
abbrev pub IsFresh : HumanDecision → List HumanDecision → Type 0
IsFresh d = All (λ e. (d.decision_id ≢ e.decision_id) × (d.candidate_id ≢ e.candidate_id))

validate_decisions_snoc :
    (parse : TimeParser) (ids seen decided : List Text) (ds : List HumanDecision)
    (d : HumanDecision)
    → Passes (validate_decisions parse ids seen decided ds)
    → DecisionFits parse d
    → contains ids d.candidate_id ≡ true
    → contains seen d.decision_id ≡ false
    → contains decided d.candidate_id ≡ false
    → IsFresh d ds
    → Passes (validate_decisions parse ids seen decided (ds ++ (d ∷ [])))
unfolding validate_decisions
validate_decisions_snoc parse ids seen decided [] d h fits known new once fresh =
    let i = fits.decision_id in
    let r = fits.reviewer in
    let a = fits.rationale in let t = fits.time in let e = fits.reference in ground arith
validate_decisions_snoc parse ids seen decided (x ∷ ds) d h fits known new once fresh =
    let new' : contains (x.decision_id ∷ seen) d.decision_id ≡ false =
      (let p = fresh.0.0 in ground (arith, text_eq_iff d.decision_id x.decision_id)) in
    let once' : contains (x.candidate_id ∷ decided) d.candidate_id ≡ false =
      (let p = fresh.0.1 in ground (arith, text_eq_iff d.candidate_id x.candidate_id)) in
    let ih =
      validate_decisions_snoc parse ids (x.decision_id ∷ seen) (x.candidate_id ∷ decided) ds d
        (ground arith) fits known new' once' fresh.1 in
    ground arith

IsFresh-of :
    (d : HumanDecision) (ds : List HumanDecision)
    → decided_for d.candidate_id ds ≡ false
    → All (λ e. d.decision_id ≢ e.decision_id) ds
    → IsFresh d ds
IsFresh-of d [] h ids = tt
IsFresh-of d (e ∷ ds) h ids = (
  (ids.0, λ p. ground (arith, text_eq_iff e.candidate_id d.candidate_id, p)),
  IsFresh-of d ds (ground arith) ids.1,
)

validate_push :
    (parse : TimeParser) (c : SecurityCase) (d : HumanDecision)
    → Passes (validate parse c)
    → Passes
        (validate_decisions parse (candidate_ids_of c.candidates) [] [] (c.decisions ++ (d ∷ [])))
    → Passes (validate parse (push_decision c d))
unfolding validate validate_header
validate_push parse c d h k = ground arith

candidate_lem : (sha256 : Hash) (v : Verdict) → v.candidate_id ≡ (decision_of sha256 v).candidate_id
unfolding decision_of
candidate_lem sha256 v = refl

-- If a case passes `validate`, the candidate is in it and has no decision, and the decision built from
-- the arguments has accepted fields and an identifier that no decision of the case has, then
-- `add_human_decision` returns without an error.
pub add_human_decision_accepts :
    (parse : TimeParser) (sha256 : Hash) (v : Verdict) (c : SecurityCase)
    → Passes (validate parse c)
    → contains (candidate_ids_of c.candidates) v.candidate_id ≡ true
    → decided_for v.candidate_id c.decisions ≡ false
    → DecisionFits parse (decision_of sha256 v)
    → All (λ e. (decision_of sha256 v).decision_id ≢ e.decision_id) c.decisions
    → Passes (add_human_decision parse sha256 v c).0
add_human_decision_accepts parse sha256 v c valid known new fits ids =
    subst (λ r. Passes r.0) (sym (undecided_step parse sha256 v c new))
      (validate_push parse c (decision_of sha256 v) valid (
        validate_decisions_snoc parse (candidate_ids_of c.candidates) [] [] c.decisions
          (decision_of sha256 v) (validate-parts parse c valid).4 fits
          (subst (λ i. contains (candidate_ids_of c.candidates) i ≡ true) (candidate_lem sha256 v)
            known)
          refl refl
          (IsFresh-of (decision_of sha256 v) c.decisions
            (subst (λ i. decided_for i c.decisions ≡ false) (candidate_lem sha256 v) new) ids)))
