-- ===== src/Case/Validate/Integrity.antt =====
-- The references between the parts of a case that `SecurityCase::validate` in
-- crates/secureflow-case/src/lib.rs accepts.
use secureflow.Prelude.{
  ◌≡◌, refl, arith, true, not, some, none, Option, List, [], All, All-map, is_some, Passes,
  each_iff, refuse, refuse-Passes,
}
use secureflow.Text.{Text}
use secureflow.Run.Fields.{TimeParser}
use secureflow.Run.Unique.{KeysUnique}
use secureflow.Case.Types.{SecurityCase, SourceKind, Candidate, missing_reference}
use secureflow.Case.Validate.{
  validate, validate_sources, validate_evidence, validate_candidate, validate_candidates,
  validate_stages, validate_decisions, contains, get, class_matches, source_kinds, candidate_ids_of,
  evidence_ids_of,
}
use secureflow.Case.Validate.Loops.{
  HasSource, get-source_kinds, validate_sources_unique, validate_evidence-loop,
  validate_candidates-loop, validate_stages-loop, validate_decisions-loop,
}

-- The source of the candidate is in the case and of the kind that its class asks for, and all its
-- evidence is in the case.
pub record IsGrounded (c : SecurityCase) (k : Candidate) : Type 0 where
  pub kind : SourceKind
  pub source : HasSource c.sources k.source_id kind
  pub fits : class_matches kind k.class ≡ true
  pub evidence : All (λ i. contains (evidence_ids_of c.evidence) i ≡ true) k.evidence_ids

-- Every identifier is given once, a candidate is decided once, and every reference resolves.
pub record IsCase (c : SecurityCase) : Type 0 where
  pub sources_unique : KeysUnique (λ s. s.source_id) c.sources
  pub evidence_unique : KeysUnique (λ e. e.evidence_id) c.evidence
  pub candidates_unique : KeysUnique (λ k. k.candidate_id) c.candidates
  pub stages_unique : KeysUnique (λ s. s.stage_id) c.staged_recommendations
  pub decisions_unique : KeysUnique (λ d. d.decision_id) c.decisions
  pub decided_once : KeysUnique (λ d. d.candidate_id) c.decisions
  pub evidence_sourced :
      All (λ e. (kind : SourceKind) × HasSource c.sources e.source_id kind) c.evidence
  pub candidates_grounded : All (IsGrounded c) c.candidates
  pub stages_known :
      All
        (λ s. contains (candidate_ids_of c.candidates) s.candidate_id ≡ true)
        c.staged_recommendations
  pub decisions_known :
      All (λ d. contains (candidate_ids_of c.candidates) d.candidate_id ≡ true) c.decisions

is_some-value {ℓ} : {A : Type ℓ} (o : Option A) → is_some o ≡ true → (a : A) × (o ≡ some a)
is_some-value none h = cc
is_some-value (some a) h = (a, refl)

candidate_source :
    (kinds : List (Text × SourceKind)) (ids : List Text) (k : Candidate)
    → Passes (validate_candidate kinds ids k)
    → (kind : SourceKind) × (get kinds k.source_id ≡ some kind)
      × (class_matches kind k.class ≡ true)
unfolding validate_candidate
candidate_source kinds ids k h = ground arith

candidate_evidence :
    (kinds : List (Text × SourceKind)) (ids : List Text) (k : Candidate)
    → Passes (validate_candidate kinds ids k)
    → All (λ i. contains ids i ≡ true) k.evidence_ids
unfolding validate_candidate
candidate_evidence kinds ids k h =
    All-map k.evidence_ids
      (λ i p. ground (
        arith,
        (refuse-Passes (not (contains ids i)) (missing_reference "candidate.evidence_id")).0 p,
      ))
      ((each_iff (λ e. refuse (not (contains ids e)) (missing_reference "candidate.evidence_id"))
          k.evidence_ids).0
        (ground arith))

pub validate-parts :
    (parse : TimeParser) (c : SecurityCase)
    → Passes (validate parse c)
    → Passes (validate_sources [] c.sources)
      × Passes (validate_evidence (source_kinds [] c.sources) [] c.evidence)
      × Passes (
          validate_candidates
            (source_kinds [] c.sources)
            (evidence_ids_of c.evidence)
            []
            c.candidates)
      × Passes (validate_stages parse (candidate_ids_of c.candidates) [] c.staged_recommendations)
      × Passes (validate_decisions parse (candidate_ids_of c.candidates) [] [] c.decisions)
unfolding validate
validate-parts parse c h = (ground arith, ground arith, ground arith, ground arith, ground arith)

-- If a case passes `validate`: no identifier of a source, a piece of evidence, a candidate, a staged
-- recommendation or a decision is given twice, no candidate is decided twice, the source of each
-- piece of evidence and of each candidate is in the case, that of a candidate with the kind that the
-- candidate's class asks for, and the evidence of each candidate and the candidate of each staged
-- recommendation and of each decision are in the case.
pub validate-IsCase : (parse : TimeParser) (c : SecurityCase) → Passes (validate parse c) → IsCase c
validate-IsCase parse c h =
    let parts = validate-parts parse c h in
    let evidence = validate_evidence-loop _ [] c.evidence parts.1 in
    let candidates = validate_candidates-loop _ _ [] c.candidates parts.2 in
    let stages = validate_stages-loop parse _ [] c.staged_recommendations parts.3 in
    let decisions = validate_decisions-loop parse _ [] [] c.decisions parts.4 in
    record {
      sources_unique = (validate_sources_unique [] c.sources parts.0).0;
      evidence_unique = evidence.0;
      candidates_unique = candidates.0;
      stages_unique = stages.0;
      decisions_unique = decisions.0;
      decided_once = decisions.2;
      evidence_sourced =
          All-map c.evidence
            (λ e p.
              let (kind, at) = is_some-value (get _ e.source_id) p in
              (kind, get-source_kinds c.sources e.source_id kind at))
            evidence.2;
      candidates_grounded =
          All-map c.candidates
            (λ k p.
              let (kind, at, fits) = candidate_source _ _ k p in
              record {
                kind = kind;
                source = get-source_kinds c.sources k.source_id kind at;
                fits = fits;
                evidence = candidate_evidence _ _ k p;
              })
            candidates.2;
      stages_known = stages.2;
      decisions_known = decisions.4;
    }
