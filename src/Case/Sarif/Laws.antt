-- ===== src/Case/Sarif/Laws.antt =====
-- `import_sarif` of crates/secureflow-case/src/lib.rs: what it adds to a case.
use secureflow.Prelude.{
  ◌≡◌, ◌>>◌, if◌then◌else◌, Bool, true, false, refl, ap, subst, sym, arith, ℕ, ◌+◌, List, [], ◌∷◌,
  ◌++◌, Option, some, none, All, Passes, ok, err, Result, length,
}
use secureflow.Text.{Text}
use secureflow.Run.Fields.{TimeParser}
use secureflow.Case.Types.{Checked, SecurityCase, Candidate, CandidateClass, CaseError}
use secureflow.Case.Fields.{Hash, derived_id}
use secureflow.Case.Validate.{validate}
use secureflow.Case.Validate.Integrity.{IsCase, validate-IsCase}
use secureflow.Case.Sarif.{
  evidence_of, source_of, items, results_of, lit, Json, extended, import_sarif, import_document,
  import_results,
}

-- What the candidates of an import have in common.
pub record IsImported (k : Candidate) (source_id evidence_id : Text) : Type 0 where
  pub source : k.source_id ≡ source_id
  pub evidence : k.evidence_ids ≡ evidence_id ∷ []
  pub class : k.class ≡ CandidateClass.external_tool_candidate

-- An early return with the case as it was, or a validation of the extended case.
abbrev outcome :
    Bool → CaseError → SecurityCase → SecurityCase → Checked → ℕ → Result CaseError ℕ × SecurityCase
outcome bad e c c' m k = if bad then (err e, c) else ((m >> ok k), c')

accepted :
    (bad : Bool) (e : CaseError) (c c' : SecurityCase) (m : Checked) (k n : ℕ)
    → (outcome bad e c c' m k).0 ≡ ok n
    → ((outcome bad e c c' m k).1 ≡ c') × Passes m × (k ≡ n)
accepted true e c c' m k n h = cc
accepted false e c c' (ok x) k n h = (refl, refl, cc)
accepted false e c c' (err x) k n h = cc

module _ (j : Json) where
  import_results-IsImported :
      (sha256 : Hash) (source_id evidence_id : Text) (n : ℕ) (results : List j.Value)
      → All
          (λ k. IsImported k source_id evidence_id)
          (import_results j sha256 source_id evidence_id n results).0
  unfolding import_results
  import_results-IsImported sha256 source_id evidence_id n [] = tt
  import_results-IsImported sha256 source_id evidence_id n (r ∷ rest) = (
    record { source = refl; evidence = refl; class = refl },
    import_results-IsImported sha256 source_id evidence_id (n + 1) rest,
  )

  import_results-count :
      (sha256 : Hash) (source_id evidence_id : Text) (n : ℕ) (results : List j.Value)
      → (import_results j sha256 source_id evidence_id n results).1
        ≡ n + length (import_results j sha256 source_id evidence_id n results).0
  unfolding import_results
  import_results-count sha256 source_id evidence_id n [] = omega arith
  import_results-count sha256 source_id evidence_id n (r ∷ rest) =
      omega (arith, import_results-count sha256 source_id evidence_id (n + 1) rest)

  -- An import that returns gives the number of the candidates, and a case that passes.
  document_step :
      (parse : TimeParser) (sha256 : Hash) (bytes name version : Text) (document : Option j.Value)
      (c : SecurityCase) (n : ℕ)
      → (import_document j parse sha256 bytes name version document c).0 ≡ ok n
      → (added : List Candidate) × ((import_document j parse sha256 bytes name version document c).1
          ≡ extended j sha256 bytes name version added c)
        × (length added ≡ n)
        × All
            (λ k.
              IsImported k
                (derived_id sha256 (lit "sf_source_") bytes)
                (derived_id sha256 (lit "sf_evidence_") bytes))
            added
        × Passes (validate parse (extended j sha256 bytes name version added c))
  unfolding import_document
  document_step parse sha256 bytes name version none c n h = cc
  document_step parse sha256 bytes name version (some d) c n h =
      let source_id = derived_id sha256 (lit "sf_source_") bytes in
      let evidence_id = derived_id sha256 (lit "sf_evidence_") bytes in
      let results = results_of j (items j d (lit "runs")) in
      let added = import_results j sha256 source_id evidence_id 0 results in
      let count = import_results-count sha256 source_id evidence_id 0 results in
      let (last, passes, n_is) = accepted _ _ c _ (validate parse _) added.1 n h in
      (
        added.0,
        last,
        omega (arith, count, n_is),
        import_results-IsImported sha256 source_id evidence_id 0 results,
        passes,
      )

-- What an import of a document that returns `n` has done to a case.
pub record Imports (j : Json) (sha256 : Hash) (bytes name version : Text) (c c' : SecurityCase)
    (n : ℕ) : Type 0 where
  pub added : List Candidate
  pub count : length added ≡ n
  pub imported :
      All
        (λ k.
          IsImported k
            (derived_id sha256 (lit "sf_source_") bytes)
            (derived_id sha256 (lit "sf_evidence_") bytes))
        added
  pub sources : c'.sources ≡ c.sources ++ (source_of j sha256 bytes name version ∷ [])
  pub evidence : c'.evidence ≡ c.evidence ++ (evidence_of j sha256 bytes ∷ [])
  pub candidates : c'.candidates ≡ c.candidates ++ added
  pub stages : c'.staged_recommendations ≡ c.staged_recommendations
  pub decisions : c'.decisions ≡ c.decisions
  pub case : IsCase c'

-- If `import_sarif` returns `n`, it has appended to the case one source and one piece of evidence,
-- derived from the document, and `n` candidates, all of them external-tool candidates of this source
-- with this evidence; staged recommendations and decisions are as they were, and the new case has
-- unique identifiers and no reference that does not resolve.
pub import_sarif-Imports :
    (j : Json) (parse : TimeParser) (sha256 : Hash) (bytes name version : Text) (c : SecurityCase)
    (n : ℕ)
    → (import_sarif j parse sha256 bytes name version c).0 ≡ ok n
    → Imports j sha256 bytes name version c (import_sarif j parse sha256 bytes name version c).1 n
unfolding import_sarif extended
import_sarif-Imports j parse sha256 bytes name version c n h =
    let (added, last, count, imported, passes) =
      document_step j parse sha256 bytes name version (j.from_slice bytes) c n h in
    record {
      added = added;
      count = count;
      imported = imported;
      sources = ap (λ x. x.sources) last;
      evidence = ap (λ x. x.evidence) last;
      candidates = ap (λ x. x.candidates) last;
      stages = ap (λ x. x.staged_recommendations) last;
      decisions = ap (λ x. x.decisions) last;
      case = subst IsCase (sym last) (validate-IsCase parse _ passes);
    }
