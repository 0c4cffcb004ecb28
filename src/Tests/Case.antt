-- ===== src/Tests/Case.antt =====
-- The theorems on crates/secureflow-case/src/lib.rs at a case with one candidate, and an imported
-- document with one result.
use secureflow.Prelude.{
  true, ◌≡◌, sym, ◌∙◌, refl, List, [], ◌∷◌, Option, none, some, Passes, ok, err, if◌then◌else◌,
}
use secureflow.Text.{Text, lit, text_eq, strip_prefix}
use secureflow.Text.Chars.{chars, trim}
use secureflow.Text.Paths.{split_slash}
use secureflow.Text.Format.{decimal, encode_hex}
use secureflow.Case.Types.{
  CaseError, SecurityCase, SourceKind, CandidateClass, HumanDecision, Decision,
  case_contract_version, sarif_version, missing_reference,
}
use secureflow.Case.Fields.{derived_id, digest, id, text, sha, timestamp, path_text}
use secureflow.Case.Validate.{
  candidate_ids_of, contains, validate, validate_header, validate_authorization, validate_sources,
  validate_evidence, validate_candidate, validate_candidates, validate_stages, validate_decisions,
}
use secureflow.Case.Validate.Integrity.{IsCase, validate-IsCase}
use secureflow.Case.Decide.{Verdict, decision_of, push_decision, add_human_decision}
use secureflow.Case.Decide.Accepts.{DecisionFits, add_human_decision_accepts}
use secureflow.Case.Decide.Laws.{
  IsDecided, add_human_decision-IsDecided, add_human_decision_poisons,
}
use secureflow.Case.Sarif.{Json, import_sarif, extended}
use secureflow.Case.Sarif.Laws.{Imports, import_sarif-Imports}
use secureflow.Tests.Samples.{clock, sample_sha}
use secureflow.Tests.Plans.{zero_hash}

abbrev source_id : Text
source_id = lit "sf_source_0123456789abcdef"

abbrev evidence_id : Text
evidence_id = lit "sf_evidence_0123456789abcdef"

abbrev candidate_id : Text
candidate_id = lit "sf_candidate_0123456789abcdef"

abbrev case_of : List HumanDecision → SecurityCase
case_of decisions = record {
  contract_version = case_contract_version;
  case_id = lit "sf_case_0123456789abcdef";
  created_at = lit "2026-01-01T00:00:00Z";
  target = record {
    label = lit "service";
    root_sha256 = sample_sha;
    revision = none;
    authorization = record {
      status = lit "authorized";
      basis = lit "owner";
      reviewer = lit "ana";
      reference = none;
      expires_at = none;
    };
  };
  sources =
      record {
        source_id = source_id;
        kind = SourceKind.secure_engine;
        name = lit "engine";
        version = lit "1";
        artifact_sha256 = sample_sha;
        methodology = none;
      }
      ∷ [];
  evidence =
      record {
        evidence_id = evidence_id;
        source_id = source_id;
        sha256 = sample_sha;
        description = lit "report";
        relative_path = some (lit "out/report.json");
      }
      ∷ [];
  candidates =
      record {
        candidate_id = candidate_id;
        source_id = source_id;
        class = CandidateClass.engine_candidate;
        title = lit "a path";
        severity = none;
        confidence = lit "low";
        evidence_ids = evidence_id ∷ [];
        limitations = [];
      }
      ∷ [];
  staged_recommendations = [];
  decisions = decisions;
}

abbrev fresh : SecurityCase
fresh = case_of []

abbrev verdict : Text → Verdict
verdict candidate = record {
  candidate_id = candidate;
  decision = Decision.validated;
  reviewer = lit "ana";
  rationale = lit "reproduced";
  evidence_reference = none;
  decided_at = lit "2026-01-02T00:00:00Z";
}

fresh_passes : Passes (validate clock fresh)
unfolding validate validate_header validate_authorization validate_sources validate_evidence
    validate_candidate validate_candidates validate_stages validate_decisions id text sha timestamp
    path_text text_eq strip_prefix trim chars lit split_slash
fresh_passes = refl

validate-IsCase_example : IsCase fresh
validate-IsCase_example = validate-IsCase clock fresh fresh_passes

first_decision : Passes (add_human_decision clock zero_hash (verdict candidate_id) fresh).0
unfolding add_human_decision decision_of derived_id digest encode_hex validate validate_header
    validate_authorization validate_sources validate_evidence validate_candidate validate_candidates
    validate_stages validate_decisions id text sha timestamp path_text text_eq strip_prefix trim
    chars lit split_slash
first_decision = refl

add_human_decision_example :
    IsDecided zero_hash
      (verdict candidate_id)
      fresh
      (add_human_decision clock zero_hash (verdict candidate_id) fresh).1
add_human_decision_example =
    add_human_decision-IsDecided clock zero_hash (verdict candidate_id) fresh first_decision

decision_fits : DecisionFits clock (decision_of zero_hash (verdict candidate_id))
unfolding decision_of derived_id digest encode_hex id text timestamp strip_prefix trim chars lit
decision_fits = record {
  decision_id = refl;
  reviewer = refl;
  rationale = refl;
  time = refl;
  reference = refl;
}

candidate_known : contains (candidate_ids_of fresh.candidates) candidate_id ≡ true
unfolding text_eq lit
candidate_known = refl

add_human_decision_accepts_example :
    Passes (add_human_decision clock zero_hash (verdict candidate_id) fresh).0
add_human_decision_accepts_example =
    add_human_decision_accepts clock zero_hash (verdict candidate_id) fresh fresh_passes
      candidate_known refl decision_fits tt

-- A decision for a candidate that the case does not have.
abbrev stray : Verdict
stray = verdict (lit "sf_candidate_fedcba9876543210")

stray_error :
    (add_human_decision clock zero_hash stray fresh).0
    ≡ err (missing_reference "decision.candidate_id")
unfolding add_human_decision decision_of derived_id digest encode_hex validate validate_header
    validate_authorization validate_sources validate_evidence validate_candidate validate_candidates
    validate_stages validate_decisions id text sha timestamp path_text text_eq strip_prefix trim
    chars lit split_slash
stray_error = refl

err-ok : (e : CaseError) → ¬ Passes (err e)
err-ok e h = cc

stray_fails : ¬ Passes (add_human_decision clock zero_hash stray fresh).0
stray_fails h = err-ok _ (sym stray_error ∙ h)

poisons_example :
    ((add_human_decision clock zero_hash stray fresh).1
      ≡ push_decision fresh (decision_of zero_hash stray))
    × (¬ Passes (validate clock (add_human_decision clock zero_hash stray fresh).1))
    × ((w : Verdict)
        → ¬ Passes
            (add_human_decision clock zero_hash w
              (add_human_decision clock zero_hash stray fresh).1).0)
poisons_example = add_human_decision_poisons clock zero_hash stray fresh refl stray_fails

-- The values of a document with one run and one result.
data Value : Type 0 where
  document version runs run results finding : Value

get : Value → Text → Option Value
get document key =
    if text_eq key (lit "version")
    then some version
    else if text_eq key (lit "runs")
    then some runs
    else none
get run key = if text_eq key (lit "results") then some results else none
get _ key = none

as_str : Value → Option Text
as_str version = some sarif_version
as_str _ = none

as_array : Value → Option (List Value)
as_array runs = some (run ∷ [])
as_array results = some (finding ∷ [])
as_array _ = none

abbrev json : Json
json = record {
  Value = Value;
  from_slice = λ _. some document;
  get = get;
  as_str = as_str;
  as_array = as_array;
}

imported : (import_sarif json clock zero_hash (lit "{}") (lit "tool") (lit "1") fresh).0 ≡ ok 1
unfolding import_sarif get as_str as_array extended derived_id digest encode_hex decimal validate
    validate_header validate_authorization validate_sources validate_evidence validate_candidate
    validate_candidates validate_stages validate_decisions id text sha timestamp path_text text_eq
    strip_prefix trim chars lit split_slash
imported = refl

import_sarif_example :
    Imports json zero_hash
      (lit "{}")
      (lit "tool")
      (lit "1")
      fresh
      (import_sarif json clock zero_hash (lit "{}") (lit "tool") (lit "1") fresh).1
      1
import_sarif_example =
    import_sarif-Imports json clock zero_hash (lit "{}") (lit "tool") (lit "1") fresh 1 imported
