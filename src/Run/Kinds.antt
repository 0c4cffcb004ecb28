-- ===== src/Run/Kinds.antt =====
-- The enumerations of crates/secureflow-model/src/lib.rs.
use secureflow.Prelude.{Bool, true, false}

pub data RunStatus : Type 0 where
  created running completed partial failed cancelled : RunStatus

unfoldable pub is_terminal : RunStatus → Bool
is_terminal RunStatus.completed = true
is_terminal RunStatus.partial = true
is_terminal RunStatus.failed = true
is_terminal RunStatus.cancelled = true
is_terminal RunStatus.created = false
is_terminal RunStatus.running = false

pub data RevisionKind : Type 0 where
  git snapshot working_tree unknown : RevisionKind

pub data AuthorizationStatus : Type 0 where
  authorized : AuthorizationStatus

pub data AuthorizationBasis : Type 0 where
  repository_owner written_consent organization_policy : AuthorizationBasis
  local_project other_documented : AuthorizationBasis

pub data EngineGraphScope : Type 0 where
  full finding_evidence : EngineGraphScope

pub data PhaseStatus : Type 0 where
  pending running completed partial failed skipped : PhaseStatus

pub data ArtifactKind : Type 0 where
  raw_report adapted_report redacted_payload log other : ArtifactKind

pub data EngineEvidenceDisposition : Type 0 where
  security_path bounded_hardening explicit_abstention : EngineEvidenceDisposition

pub data EngineEvidenceResolution : Type 0 where
  proven unresolved equivalent_capability not_applicable : EngineEvidenceResolution

pub data EngineFilesystemIdentity : Type 0 where
  not_applicable lexical_path canonical_target : EngineFilesystemIdentity
  opened_object revalidated_object unresolved : EngineFilesystemIdentity

pub data EngineSecurityControlKind : Type 0 where
  none lexical_containment canonical_containment : EngineSecurityControlKind
  opened_object_identity identity_revalidation authorization : EngineSecurityControlKind
  destination_policy workspace_trust unknown : EngineSecurityControlKind

pub data EngineEvidenceStateKind : Type 0 where
  syntactic_lead semantic_path guard_aware_lead manually_validated : EngineEvidenceStateKind

pub data Severity : Type 0 where
  critical high medium low unknown : Severity

pub data Confidence : Type 0 where
  high medium low unknown : Confidence

pub data EvidenceKind : Type 0 where
  source receiver transform guard sanitizer : EvidenceKind
  authorization sink barrier unknown : EvidenceKind

pub data HumanDecision : Type 0 where
  pending validated rejected abstained : HumanDecision

pub data AiValidationStatus : Type 0 where
  not_requested queued completed failed skipped : AiValidationStatus

pub data AiAssessment : Type 0 where
  supports insufficient contradicts uncertain : AiAssessment

pub data EvaluationHarness : Type 0 where
  secure_bench local_fixture other : EvaluationHarness

pub data EvaluationStatus : Type 0 where
  not_run completed partial failed : EvaluationStatus

-- The derived `==` against the constants that the code compares with.
abbrev pub is_git : RevisionKind → Bool
is_git RevisionKind.git = true
is_git _ = false

abbrev pub is_full : EngineGraphScope → Bool
is_full EngineGraphScope.full = true
is_full _ = false

abbrev pub is_completed : PhaseStatus → Bool
is_completed PhaseStatus.completed = true
is_completed _ = false

abbrev pub is_security_path : EngineEvidenceDisposition → Bool
is_security_path EngineEvidenceDisposition.security_path = true
is_security_path _ = false

abbrev pub is_explicit_abstention : EngineEvidenceDisposition → Bool
is_explicit_abstention EngineEvidenceDisposition.explicit_abstention = true
is_explicit_abstention _ = false

abbrev pub is_receiver : EvidenceKind → Bool
is_receiver EvidenceKind.receiver = true
is_receiver _ = false

abbrev pub is_pending : HumanDecision → Bool
is_pending HumanDecision.pending = true
is_pending _ = false

abbrev pub is_validated : HumanDecision → Bool
is_validated HumanDecision.validated = true
is_validated _ = false

abbrev pub is_rejected : HumanDecision → Bool
is_rejected HumanDecision.rejected = true
is_rejected _ = false

abbrev pub is_abstained : HumanDecision → Bool
is_abstained HumanDecision.abstained = true
is_abstained _ = false

abbrev pub is_evaluated : EvaluationStatus → Bool
is_evaluated EvaluationStatus.completed = true
is_evaluated _ = false
