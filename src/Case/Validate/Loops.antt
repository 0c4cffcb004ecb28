-- ===== src/Case/Validate/Loops.antt =====
-- What each loop of `SecurityCase::validate` in crates/secureflow-case/src/lib.rs checks across its
-- items: the loops over sources, evidence, candidates, staged recommendations and decisions.
use secureflow.Prelude.{
  ◌∙◌, ◌≡◌, refl, arith, ◌⊎◌, inl, inr, true, some, List, [], ◌∷◌, map, All, Exists, is_some,
  Passes, sym,
}
use secureflow.Text.{Text, text_eq_iff}
use secureflow.Run.Fields.{TimeParser}
use secureflow.Run.Unique.{KeysUnique, IsNew, All-New-cons}
use secureflow.Case.Types.{
  Source, SourceKind, Evidence, Candidate, StagedRecommendation, HumanDecision,
}
use secureflow.Case.Validate.{
  contains, get, source_kinds, validate_sources, validate_evidence, validate_candidate,
  validate_candidates, validate_stages, validate_decisions,
}

abbrev keys : List (Text × SourceKind) → List Text
keys = map (λ p. p.0)

get-contains :
    (kinds : List (Text × SourceKind)) (key : Text)
    → is_some (get kinds key) ≡ contains (keys kinds) key
unfolding get
get-contains [] key = refl
get-contains ((k, v) ∷ rest) key = ground (arith, get-contains rest key)

-- What the map of source kinds holds at a key.
abbrev pub Holds : List (Text × SourceKind) → Text → SourceKind → Type 0
Holds kinds key kind = Exists (λ p. (key ≡ p.0) × (kind ≡ p.1)) kinds

get-Holds :
    (kinds : List (Text × SourceKind)) (key : Text) (kind : SourceKind)
    → get kinds key ≡ some kind
    → Holds kinds key kind
unfolding get
get-Holds [] key kind h = cc
get-Holds ((k, v) ∷ rest) key kind h = ground (arith, text_eq_iff key k, get-Holds rest key kind)

-- A source of the case with the identifier and the kind.
abbrev pub HasSource : List Source → Text → SourceKind → Type 0
HasSource sources key kind = Exists (λ s. (key ≡ s.source_id) × (kind ≡ s.kind)) sources

source_kinds-Holds :
    (kinds : List (Text × SourceKind)) (sources : List Source) (key : Text) (kind : SourceKind)
    → Holds (source_kinds kinds sources) key kind
    → Holds kinds key kind ⊎ HasSource sources key kind
unfolding source_kinds
source_kinds-Holds kinds [] key kind h = inl h
source_kinds-Holds kinds (s ∷ rest) key kind h =
    elim (source_kinds-Holds ((s.source_id, s.kind) ∷ kinds) rest key kind h) [
      | inl (inl e) ↦ inr (inl e)
      | inl (inr e) ↦ inl e
      | inr e ↦ inr (inr e)
    ]

pub get-source_kinds :
    (sources : List Source) (key : Text) (kind : SourceKind)
    → get (source_kinds [] sources) key ≡ some kind
    → HasSource sources key kind
get-source_kinds sources key kind h =
    elim (source_kinds-Holds [] sources key kind (get-Holds _ key kind h)) [
      | inl h ↦ elim h [ ]
      | inr e ↦ e
    ]

pub validate_sources_unique :
    (kinds : List (Text × SourceKind)) (sources : List Source)
    → Passes (validate_sources kinds sources)
    → KeysUnique (λ s. s.source_id) sources × All (IsNew (λ s. s.source_id) (keys kinds)) sources
unfolding validate_sources
validate_sources_unique kinds [] h = (tt, tt)
validate_sources_unique kinds (s ∷ rest) h =
    let ih = validate_sources_unique ((s.source_id, s.kind) ∷ kinds) rest (ground arith) in
    let new = (All-New-cons (λ t. t.source_id) s.source_id (keys kinds) rest).0 ih.1 in
    ((new.0, ih.0), (sym (get-contains kinds s.source_id) ∙ ground arith, new.1))

-- One of the items has the key.
abbrev pub Known {ℓ} : {A : Type ℓ} → (A → Text) → List A → Text → Type 0
Known key items k = contains (map key items) k ≡ true

pub validate_evidence-loop :
    (kinds : List (Text × SourceKind)) (seen : List Text) (items : List Evidence)
    → Passes (validate_evidence kinds seen items)
    → KeysUnique (λ e. e.evidence_id) items
      × All (IsNew (λ e. e.evidence_id) seen) items
      × All (λ e. is_some (get kinds e.source_id) ≡ true) items
unfolding validate_evidence
validate_evidence-loop kinds seen [] h = (tt, tt, tt)
validate_evidence-loop kinds seen (e ∷ rest) h =
    let ih = validate_evidence-loop kinds (e.evidence_id ∷ seen) rest (ground arith) in
    let new = (All-New-cons (λ t. t.evidence_id) e.evidence_id seen rest).0 ih.1 in
    ((new.0, ih.0), (ground arith, new.1), (ground arith, ih.2))

pub validate_candidates-loop :
    (kinds : List (Text × SourceKind)) (ids seen : List Text) (items : List Candidate)
    → Passes (validate_candidates kinds ids seen items)
    → KeysUnique (λ c. c.candidate_id) items
      × All (IsNew (λ c. c.candidate_id) seen) items
      × All (λ c. Passes (validate_candidate kinds ids c)) items
unfolding validate_candidates
validate_candidates-loop kinds ids seen [] h = (tt, tt, tt)
validate_candidates-loop kinds ids seen (c ∷ rest) h =
    let ih = validate_candidates-loop kinds ids (c.candidate_id ∷ seen) rest (ground arith) in
    let new = (All-New-cons (λ t. t.candidate_id) c.candidate_id seen rest).0 ih.1 in
    ((new.0, ih.0), (ground arith, new.1), (ground arith, ih.2))

pub validate_stages-loop :
    (parse : TimeParser) (ids seen : List Text) (items : List StagedRecommendation)
    → Passes (validate_stages parse ids seen items)
    → KeysUnique (λ s. s.stage_id) items
      × All (IsNew (λ s. s.stage_id) seen) items
      × All (λ s. contains ids s.candidate_id ≡ true) items
unfolding validate_stages
validate_stages-loop parse ids seen [] h = (tt, tt, tt)
validate_stages-loop parse ids seen (s ∷ rest) h =
    let ih = validate_stages-loop parse ids (s.stage_id ∷ seen) rest (ground arith) in
    let new = (All-New-cons (λ t. t.stage_id) s.stage_id seen rest).0 ih.1 in
    ((new.0, ih.0), (ground arith, new.1), (ground arith, ih.2))

pub validate_decisions-loop :
    (parse : TimeParser) (ids seen decided : List Text) (items : List HumanDecision)
    → Passes (validate_decisions parse ids seen decided items)
    → KeysUnique (λ d. d.decision_id) items
      × All (IsNew (λ d. d.decision_id) seen) items
      × KeysUnique (λ d. d.candidate_id) items
      × All (IsNew (λ d. d.candidate_id) decided) items
      × All (λ d. contains ids d.candidate_id ≡ true) items
unfolding validate_decisions
validate_decisions-loop parse ids seen decided [] h = (tt, tt, tt, tt, tt)
validate_decisions-loop parse ids seen decided (d ∷ rest) h =
    let ih =
      validate_decisions-loop parse ids (d.decision_id ∷ seen) (d.candidate_id ∷ decided) rest
        (ground arith) in
    let new = (All-New-cons (λ t. t.decision_id) d.decision_id seen rest).0 ih.1 in
    let once = (All-New-cons (λ t. t.candidate_id) d.candidate_id decided rest).0 ih.3 in
    (
      (new.0, ih.0),
      (ground arith, new.1),
      (once.0, ih.2),
      (ground arith, once.1),
      (ground arith, ih.4),
    )
