-- ===== src/Orchestrator/Derive/Order.antt =====
-- The order in which evidence is supplied does not matter.
use mathlib.Core.List.{Perm}
use secureflow.Prelude.{◌≡◌, List}
use secureflow.Text.{Text}
use secureflow.Run.Manifest.{RunManifest}
use secureflow.Orchestrator.Types.{Host, EvidenceArtifact}
use secureflow.Orchestrator.Derive.{derive_plan}
use secureflow.Orchestrator.Derive.Evidence.{sort_by-artifacts, length-of_perm}

-- Rearranging the evidence changes neither the plan that `derive_plan` returns nor its error.
pub derive_plan-eq_of_perm :
    (host : Host) (m : RunManifest) (sha : Text) (evidence others : List EvidenceArtifact)
    → Perm evidence others
    → derive_plan host m sha evidence ≡ derive_plan host m sha others
unfolding derive_plan
derive_plan-eq_of_perm host m sha evidence others p = cc (sort_by-artifacts p, length-of_perm p)
