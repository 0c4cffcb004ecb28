-- ===== src/Case/Decide.antt =====
-- `SecurityCase::parse` and `SecurityCase::add_human_decision` of
-- crates/secureflow-case/src/lib.rs. The method mutates the case before it validates it, so the
-- state comes back beside an error too.
pub mod Laws
pub mod Accepts
use secureflow.Prelude.{
  Bool, Option, none, some, List, [], ◌∷◌, ◌++◌, any, Result, ok, err, ◌>>=◌, ◌>>◌, if◌then◌else◌,
}
use secureflow.Text.{Text, text_eq, lit}
use secureflow.Run.Fields.{TimeParser}
use secureflow.Case.Types.{
  SecurityCase, HumanDecision, Decision, CaseError, Checked, invalid_state, json,
}
use secureflow.Case.Fields.{Hash, derived_id}
use secureflow.Case.Validate.{validate}

read : Option SecurityCase → Result CaseError SecurityCase
read none = err json
read (some c) = ok c

-- `serde_json::from_slice` is the parameter.
unfoldable pub parse_case :
    TimeParser → (Text → Option SecurityCase) → Text → Result CaseError SecurityCase
unfolding read
parse_case parse from_slice bytes = do
  value ← read (from_slice bytes)
  validate parse value
  ok value

abbrev pub decided_for : Text → List HumanDecision → Bool
decided_for candidate_id = any (λ entry. text_eq entry.candidate_id candidate_id)

-- The arguments of `add_human_decision`.
pub record Verdict : Type 0 where
  pub candidate_id : Text
  pub decision : Decision
  pub reviewer : Text
  pub rationale : Text
  pub evidence_reference : Option Text
  pub decided_at : Text

-- The `HumanDecision` that is pushed.
unfoldable pub decision_of : Hash → Verdict → HumanDecision
decision_of sha256 v = record {
  decision_id =
      derived_id sha256 (lit "sf_decision_")
        (v.candidate_id ++ lit "|" ++ v.reviewer ++ lit "|" ++ v.decided_at);
  candidate_id = v.candidate_id;
  decision = v.decision;
  reviewer = v.reviewer;
  rationale = v.rationale;
  decided_at = v.decided_at;
  evidence_reference = v.evidence_reference;
}

abbrev pub push_decision : SecurityCase → HumanDecision → SecurityCase
push_decision c d = record c { decisions = c.decisions ++ (d ∷ []) }

unfoldable pub add_human_decision :
    TimeParser → Hash → Verdict → SecurityCase → Checked × SecurityCase
add_human_decision parse sha256 v c =
    let pushed = push_decision c (decision_of sha256 v) in
    if decided_for v.candidate_id c.decisions
    then (err (invalid_state "candidate already has a final human decision"), c)
    else (validate parse pushed, pushed)
