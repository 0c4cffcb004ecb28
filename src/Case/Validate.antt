-- ===== src/Case/Validate.antt =====
-- `SecurityCase::validate` of crates/secureflow-case/src/lib.rs, one function for each loop. A
-- `BTreeSet` is the list of its members, the `BTreeMap` of source kinds a list of pairs.
pub mod Loops
pub mod Integrity
use secureflow.Prelude.{
  Bool, true, false, not, Option, none, some, List, [], ◌∷◌, any, map, is_some, Result, ok, err,
  refuse, if_some, each, ◌>>=◌, ◌>>◌, if◌then◌else◌,
}
use secureflow.Text.{Text, text_eq, lit}
use secureflow.Run.Fields.{TimeParser}
use secureflow.Case.Types.{
  SecurityCase, CaseRevision, CaseAuthorization, Source, SourceKind, Evidence, Candidate,
  CandidateClass, StagedRecommendation, HumanDecision, CaseError, Checked, unsupported_contract,
  duplicate, missing_reference, invalid_state, case_contract_version,
}
use secureflow.Case.Fields.{sha, id, text, path_text, timestamp}

-- Membership in a `BTreeSet`.
abbrev pub contains : List Text → Text → Bool
contains seen key = any (text_eq key) seen

-- `source_kinds.get(key)`
pub get : List (Text × SourceKind) → Text → Option SourceKind
get [] key = none
get ((k, v) ∷ rest) key = if text_eq key k then some v else get rest key

unfoldable pub validate_authorization : TimeParser → CaseAuthorization → Checked
validate_authorization parse a = do
  refuse (not (text_eq a.status (lit "authorized")))
      (invalid_state "target authorization is required")
  text a.basis "target.authorization.basis" 100
  text a.reviewer "target.authorization.reviewer" 200
  if_some (λ value. text value "target.authorization.reference" 300) a.reference
  if_some (λ value. timestamp parse value "target.authorization.expires_at") a.expires_at

unfoldable pub validate_revision : CaseRevision → Checked
validate_revision r = do
  text r.kind "target.revision.kind" 40
  text r.value "target.revision.value" 200

-- `validate` up to the sources.
unfoldable pub validate_header : TimeParser → SecurityCase → Checked
validate_header parse c = do
  refuse (not (text_eq c.contract_version case_contract_version))
      (unsupported_contract c.contract_version)
  id c.case_id (lit "sf_case_") "case_id"
  timestamp parse c.created_at "created_at"
  text c.target.label "target.label" 200
  sha c.target.root_sha256 "target.root_sha256"
  validate_authorization parse c.target.authorization
  if_some validate_revision c.target.revision

unfoldable pub validate_sources : List (Text × SourceKind) → List Source → Checked
unfolding get
validate_sources kinds [] = ok tt
validate_sources kinds (s ∷ rest) = do
  id s.source_id (lit "sf_source_") "source.source_id"
  refuse (is_some (get kinds s.source_id)) (duplicate "source_id")
  text s.name "source.name" 200
  text s.version "source.version" 200
  sha s.artifact_sha256 "source.artifact_sha256"
  if_some (λ m. text m "source.methodology" 2000) s.methodology
  validate_sources ((s.source_id, s.kind) ∷ kinds) rest

-- The map after the loop: every source, the last one first.
pub source_kinds : List (Text × SourceKind) → List Source → List (Text × SourceKind)
source_kinds kinds [] = kinds
source_kinds kinds (s ∷ rest) = source_kinds ((s.source_id, s.kind) ∷ kinds) rest

unfoldable pub validate_evidence : List (Text × SourceKind) → List Text → List Evidence → Checked
validate_evidence kinds seen [] = ok tt
validate_evidence kinds seen (e ∷ rest) = do
  id e.evidence_id (lit "sf_evidence_") "evidence.evidence_id"
  refuse (contains seen e.evidence_id) (duplicate "evidence_id")
  refuse (not (is_some (get kinds e.source_id))) (missing_reference "evidence.source_id")
  sha e.sha256 "evidence.sha256"
  text e.description "evidence.description" 4000
  if_some (λ path. path_text path "evidence.relative_path") e.relative_path
  validate_evidence kinds (e.evidence_id ∷ seen) rest

-- The `matches!` on the kind of the source and the class of the candidate.
abbrev pub class_matches : SourceKind → CandidateClass → Bool
class_matches SourceKind.secure_engine CandidateClass.engine_candidate = true
class_matches SourceKind.secure_skill_contextual CandidateClass.contextual_candidate = true
class_matches SourceKind.external_sarif CandidateClass.external_tool_candidate = true
class_matches _ _ = false

pub source_kind_of : Option SourceKind → Result CaseError SourceKind
source_kind_of none = err (missing_reference "candidate.source_id")
source_kind_of (some kind) = ok kind

-- One round of the loop over the candidates, but for the identifier's uniqueness.
unfoldable pub validate_candidate : List (Text × SourceKind) → List Text → Candidate → Checked
unfolding source_kind_of
validate_candidate kinds evidence_ids c = do
  source_kind ← source_kind_of (get kinds c.source_id)
  refuse (not (class_matches source_kind c.class))
      (invalid_state "candidate class does not match source kind")
  text c.title "candidate.title" 500
  text c.confidence "candidate.confidence" 40
  if_some (λ severity. text severity "candidate.severity" 40) c.severity
  each (λ e. refuse (not (contains evidence_ids e)) (missing_reference "candidate.evidence_id"))
      c.evidence_ids
  each (λ limitation. text limitation "candidate.limitation" 4000) c.limitations

unfoldable pub validate_candidates :
    List (Text × SourceKind) → List Text → List Text → List Candidate → Checked
validate_candidates kinds evidence_ids seen [] = ok tt
validate_candidates kinds evidence_ids seen (c ∷ rest) = do
  id c.candidate_id (lit "sf_candidate_") "candidate.candidate_id"
  refuse (contains seen c.candidate_id) (duplicate "candidate_id")
  validate_candidate kinds evidence_ids c
  validate_candidates kinds evidence_ids (c.candidate_id ∷ seen) rest

unfoldable pub validate_stages :
    TimeParser → List Text → List Text → List StagedRecommendation → Checked
validate_stages parse candidate_ids seen [] = ok tt
validate_stages parse candidate_ids seen (s ∷ rest) = do
  id s.stage_id (lit "sf_stage_") "stage.stage_id"
  refuse (contains seen s.stage_id) (duplicate "stage_id")
  refuse (not (contains candidate_ids s.candidate_id)) (missing_reference "stage.candidate_id")
  text s.agent_name "stage.agent_name" 200
  text s.recommendation "stage.recommendation" 40
  text s.rationale "stage.rationale" 3000
  timestamp parse s.created_at "stage.created_at"
  validate_stages parse candidate_ids (s.stage_id ∷ seen) rest

unfoldable pub validate_decisions :
    TimeParser → List Text → List Text → List Text → List HumanDecision → Checked
validate_decisions parse candidate_ids seen decided [] = ok tt
validate_decisions parse candidate_ids seen decided (d ∷ rest) = do
  id d.decision_id (lit "sf_decision_") "decision.decision_id"
  refuse (contains seen d.decision_id) (duplicate "decision_id")
  refuse (contains decided d.candidate_id) (duplicate "decision.candidate_id")
  refuse (not (contains candidate_ids d.candidate_id)) (missing_reference "decision.candidate_id")
  text d.reviewer "decision.reviewer" 200
  text d.rationale "decision.rationale" 3000
  timestamp parse d.decided_at "decision.decided_at"
  if_some (λ reference. text reference "decision.evidence_reference" 300) d.evidence_reference
  validate_decisions parse candidate_ids (d.decision_id ∷ seen) (d.candidate_id ∷ decided) rest

abbrev pub evidence_ids_of : List Evidence → List Text
evidence_ids_of = map (λ e. e.evidence_id)

abbrev pub candidate_ids_of : List Candidate → List Text
candidate_ids_of = map (λ c. c.candidate_id)

unfoldable pub validate : TimeParser → SecurityCase → Checked
unfolding source_kinds
validate parse c =
    let kinds = source_kinds [] c.sources in
    let candidate_ids = candidate_ids_of c.candidates in
    do
      validate_header parse c
      validate_sources [] c.sources
      validate_evidence kinds [] c.evidence
      validate_candidates kinds (evidence_ids_of c.evidence) [] c.candidates
      validate_stages parse candidate_ids [] c.staged_recommendations
      validate_decisions parse candidate_ids [] [] c.decisions
