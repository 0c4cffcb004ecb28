-- ===== src/Run/Manifest/Legacy.antt =====
-- A manifest under the frozen v1 contract holds nothing that came with v2.
use secureflow.Prelude.{
  ◌≡◌, ◌≢◌, ◌↔◌, refl, none, List, [], ◌∷◌, true, false, ◌||◌, arith, any, All, Passes, each,
  each_iff, refuse, is_some, is_empty, map, All-map,
}
use secureflow.Run.Errors.{legacy_contract_violation}
use secureflow.Run.Kinds.{EvidenceKind, is_receiver}
use secureflow.Run.Location.{Location, EvidenceStep}
use secureflow.Run.Finding.{Finding}
use secureflow.Run.Manifest.{RunManifest, validate_v1_shape, validate_v1_finding}

abbrev pub LacksBytes : Location → Type 0
LacksBytes l = (l.start_byte ≡ none) × (l.end_byte ≡ none)

pub record IsV1Finding (f : Finding) : Type 0 where
  pub engine_id : f.engine_finding_id ≡ none
  pub verification : f.engine_verification_state ≡ none
  pub evidence_state : f.engine_evidence_state ≡ none
  pub calibration : f.engine_calibration ≡ none
  pub source : LacksBytes f.source_location
  pub sink : LacksBytes f.sink_location
  pub path : All (λ s. LacksBytes s.location × (s.kind ≢ EvidenceKind.receiver)) f.evidence_path

pub record IsV1 (m : RunManifest) : Type 0 where
  pub abstentions : m.engine_abstentions ≡ []
  pub fingerprint : m.engine.report_fingerprint ≡ none
  pub graph : m.engine.graph ≡ none
  pub findings : All IsV1Finding m.findings

bytes_iff :
    (l : Location)
    → Passes (
        refuse
          (is_some l.start_byte || is_some l.end_byte)
          (legacy_contract_violation "byte locations require secureflow-run-v2"))
      ↔ LacksBytes l
bytes_iff l = ((λ h. (ground arith, ground arith)), (λ h. ground arith))

steps_iff :
    (steps : List EvidenceStep)
    → (Passes (
          each
            (λ l.
              refuse
                (is_some l.start_byte || is_some l.end_byte)
                (legacy_contract_violation "byte locations require secureflow-run-v2"))
            (map (λ s. s.location) steps))
        × (any (λ s. is_receiver s.kind) steps ≡ false))
      ↔ All (λ s. LacksBytes s.location × (s.kind ≢ EvidenceKind.receiver)) steps
steps_iff [] = ((λ h. tt), (λ h. (refl, refl)))
steps_iff (s ∷ rest) =
    let here = bytes_iff s.location in
    let ih = steps_iff rest in
    (
      (λ h. ((here.0 (ground arith), (λ e. ground arith)), ih.0 (ground arith, ground arith))),
      (λ h. let a = here.1 h.0.0 in let b = ih.1 h.1 in (ground arith, ground (arith, h.0.1))),
    )

finding_iff : (f : Finding) → Passes (validate_v1_finding f) ↔ IsV1Finding f
unfolding validate_v1_finding
finding_iff f =
    let source = bytes_iff f.source_location in
    let sink = bytes_iff f.sink_location in
    let steps = steps_iff f.evidence_path in
    (
      (λ h. record {
        engine_id = ground arith;
        verification = ground arith;
        evidence_state = ground arith;
        calibration = ground arith;
        source = source.0 (ground arith);
        sink = sink.0 (ground arith);
        path = steps.0 (ground arith, ground arith);
      }),
      (λ h.
          let a = source.1 h.source in
          let b = sink.1 h.sink in let c = steps.1 h.path in ground arith),
    )

findings_iff : (fs : List Finding) → Passes (each validate_v1_finding fs) ↔ All IsV1Finding fs
findings_iff fs =
    let e = each_iff validate_v1_finding fs in
    (
      (λ h. All-map fs (λ f p. (finding_iff f).0 p) (e.0 h)),
      (λ h. e.1 (All-map fs (λ f p. (finding_iff f).1 p) h)),
    )

abstentions_iff : {A : Type 0} (l : List A) → (is_empty l ≡ true) ↔ (l ≡ [])
abstentions_iff [] = ((λ h. refl), (λ h. refl))
abstentions_iff (x ∷ l) = ((λ h. cc), (λ h. cc))

-- `validate_v1_shape` accepts exactly the manifests with no engine abstention, no report
-- fingerprint and no graph, whose findings have no engine metadata, no byte offset at any location
-- and no receiver step.
pub validate_v1_shape_iff : (m : RunManifest) → Passes (validate_v1_shape m) ↔ IsV1 m
unfolding validate_v1_shape
validate_v1_shape_iff m =
    let fs = findings_iff m.findings in
    let empty = abstentions_iff m.engine_abstentions in
    (
      (λ h. record {
        abstentions = empty.0 (ground arith);
        fingerprint = ground arith;
        graph = ground arith;
        findings = fs.0 (ground arith);
      }),
      (λ h. let a = empty.1 h.abstentions in let b = fs.1 h.findings in ground arith),
    )
