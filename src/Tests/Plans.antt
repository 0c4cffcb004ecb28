-- ===== src/Tests/Plans.antt =====
-- A host and evidence for the tests of crates/secureflow-orchestrator/src/lib.rs.
use secureflow.Prelude.{sym, ◌≢◌, refl, arith, ℕ, suc, zero, List, [], ◌∷◌, Option, none, some}
use secureflow.Text.{Text, lit}
use secureflow.Run.Kinds.{PhaseStatus}
use secureflow.Orchestrator.Types.{Host, EvidenceArtifact, EvidenceKind, OrchestrationEnvelope}
use secureflow.Orchestrator.Validate.{valid_sha256}
use secureflow.Orchestrator.Derive.Total.{IsReady}
use secureflow.Orchestrator.Derive.PlanId.{Hashes}
use secureflow.Tests.Samples.{clock, sample_sha, sample_manifest, manifest_passes}

abbrev pub repeat : ℕ → ℕ → List ℕ
repeat zero b = []
repeat (suc n) b = b ∷ repeat n b

-- A hash of 32 bytes, all zero.
abbrev pub zero_hash : Text → List ℕ
zero_hash _ = repeat 32 0

zero_hash-Hashes : Hashes zero_hash
zero_hash-Hashes input = (refl, ground arith)

abbrev pub now : Text
now = lit "2026-01-03T00:00:00Z"

abbrev pub advisory : EvidenceArtifact
advisory = record { kind = EvidenceKind.advisory_correlation; sha256 = sample_sha }

abbrev pub inventory : EvidenceArtifact
inventory = record { kind = EvidenceKind.web_inventory; sha256 = sample_sha }

-- Reading a document gives the envelope.
abbrev pub host_of : Option OrchestrationEnvelope → Host
host_of envelope = record {
  parse = clock;
  now = some now;
  sha256 = zero_hash;
  to_vec = λ identity. identity.linked_run_id;
  from_slice = λ bytes. envelope;
}

abbrev pub host : Host
host = host_of none

advisory-inventory : advisory ≢ inventory
advisory-inventory h = ground arith

pub ready :
    (o : Option OrchestrationEnvelope) (d p : PhaseStatus)
    → IsReady (host_of o) (sample_manifest d p) sample_sha now (inventory ∷ advisory ∷ [])
unfolding valid_sha256
ready o d p = record {
  hashes = zero_hash-Hashes;
  clock = refl;
  readable = refl;
  manifest = manifest_passes d p;
  size = omega arith;
  sha_valid = refl;
  evidence_valid = (refl, (refl, tt));
  evidence_distinct = ((λ e. advisory-inventory (sym e), tt), (tt, tt));
  evidence_count = omega arith;
}
