-- ===== src/Case/Sarif.antt =====
-- `import_sarif` of crates/secureflow-case/src/lib.rs. The values of `serde_json` and their
-- accessors are a parameter.
pub mod Laws
use secureflow.Prelude.{
  ℕ, ◌+◌, Bool, not, Option, none, some, List, [], ◌∷◌, ◌++◌, unwrap_or, Result, ok, err, ◌>>◌,
  if◌then◌else◌,
}
use secureflow.Text.{Text, text_eq, lit}
use secureflow.Text.Format.{decimal}
use secureflow.Run.Fields.{TimeParser}
use secureflow.Case.Types.{
  SecurityCase, Source, SourceKind, Evidence, Candidate, CandidateClass, CaseError, invalid_field,
  json, sarif_version,
}
use secureflow.Case.Fields.{Hash, digest, derived_id}
use secureflow.Case.Validate.{validate}

-- `serde_json::from_slice`, `Value::get`, `Value::as_str`, `Value::as_array`
pub record Json : Type 1 where
  pub Value : Type 0
  pub from_slice : Text → Option Value
  pub get : Value → Text → Option Value
  pub as_str : Value → Option Text
  pub as_array : Value → Option (List Value)

infixl 30 ◌and_then◌
abbrev pub ◌and_then◌ {ℓ κ} : {A : Type ℓ} {B : Type κ} → Option A → (A → Option B) → Option B
none and_then f = none
some a and_then f = f a

module _ (j : Json) where
  open j use {Value, get, as_str, as_array}

  -- `value.get(key).and_then(as_array).into_iter().flatten()`
  pub items : Value → Text → List Value
  items value key = unwrap_or [] (get value key and_then as_array)

  -- The results of all runs, in order.
  pub results_of : List Value → List Value
  unfolding items
  results_of [] = []
  results_of (run ∷ runs) = items run (lit "results") ++ results_of runs

  pub title_of : Value → Text
  title_of result =
      unwrap_or (lit "external SARIF result")
        (get result (lit "message") and_then (λ m. get m (lit "text")) and_then as_str)

  pub severity_of : Value → Option Text
  severity_of result = get result (lit "level") and_then as_str

  -- The candidate of the result at the place `count`.
  pub candidate_of : Hash → Text → Text → ℕ → Value → Candidate
  unfolding title_of severity_of
  candidate_of sha256 source_id evidence_id count result =
      let title = title_of result in
      record {
        candidate_id =
            derived_id sha256 (lit "sf_candidate_")
              (source_id ++ lit "|" ++ decimal count ++ lit "|" ++ title);
        source_id = source_id;
        class = CandidateClass.external_tool_candidate;
        title = title;
        severity = severity_of result;
        confidence = lit "unknown";
        evidence_ids = evidence_id ∷ [];
        limitations =
            lit "Imported tool result is unvalidated and does not establish a vulnerability." ∷ [];
      }

  -- The loop: the candidates that it pushes, and the count at its end.
  pub import_results : Hash → Text → Text → ℕ → List Value → List Candidate × ℕ
  unfolding candidate_of
  import_results sha256 source_id evidence_id count [] = ([], count)
  import_results sha256 source_id evidence_id count (result ∷ rest) =
      let (later, total) = import_results sha256 source_id evidence_id (count + 1) rest in
      (candidate_of sha256 source_id evidence_id count result ∷ later, total)

  pub source_of : Hash → Text → Text → Text → Source
  source_of sha256 bytes source_name source_version = record {
    source_id = derived_id sha256 (lit "sf_source_") bytes;
    kind = SourceKind.external_sarif;
    name = source_name;
    version = source_version;
    artifact_sha256 = digest sha256 bytes;
    methodology = some (lit "SARIF 2.1.0 import; results remain external-tool candidates");
  }

  pub evidence_of : Hash → Text → Evidence
  evidence_of sha256 bytes = record {
    evidence_id = derived_id sha256 (lit "sf_evidence_") bytes;
    source_id = derived_id sha256 (lit "sf_source_") bytes;
    sha256 = digest sha256 bytes;
    description = lit "retained imported SARIF document";
    relative_path = none;
  }

  abbrev pub version_matches : Option Text → Bool
  version_matches none = Bool.false
  version_matches (some v) = text_eq v sarif_version

  -- The case after all pushes.
  unfoldable pub extended : Hash → Text → Text → Text → List Candidate → SecurityCase → SecurityCase
  unfolding source_of evidence_of
  extended sha256 bytes source_name source_version candidates c = record c {
    sources = c.sources ++ (source_of sha256 bytes source_name source_version ∷ []);
    evidence = c.evidence ++ (evidence_of sha256 bytes ∷ []);
    candidates = c.candidates ++ candidates;
  }

  import_document :
      TimeParser
      → Hash
      → Text
      → Text
      → Text
      → Option Value
      → SecurityCase
      → Result CaseError ℕ × SecurityCase
  unfolding results_of import_results
  import_document parse sha256 bytes source_name source_version none c = (err json, c)
  import_document parse sha256 bytes source_name source_version (some document) c =
      let results = results_of (items document (lit "runs")) in
      let (candidates, count) =
        import_results sha256 (derived_id sha256 (lit "sf_source_") bytes)
          (derived_id sha256 (lit "sf_evidence_") bytes) 0 results in
      let extended_case = extended sha256 bytes source_name source_version candidates c in
      if not (version_matches (get document (lit "version") and_then as_str))
      then (err (invalid_field "sarif.version"), c)
      else ((validate parse extended_case >> ok count), extended_case)

  -- The case comes back beside the result: the pushes are not undone on an error.
  unfoldable pub import_sarif :
      TimeParser → Hash → Text → Text → Text → SecurityCase → Result CaseError ℕ × SecurityCase
  unfolding import_document
  import_sarif parse sha256 bytes source_name source_version =
      import_document parse sha256 bytes source_name source_version (j.from_slice bytes)
