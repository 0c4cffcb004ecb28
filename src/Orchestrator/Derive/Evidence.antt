-- ===== src/Orchestrator/Derive/Evidence.antt =====
-- The sorted evidence of a plan is what `validate` asks for.
use Prim.Native.Nat.{Ordering}
use secureflow.Prelude.{
  ap, All, ◌≤◌, ◌≡◌, refl, true, false, not, List, [], ◌∷◌, arith, any, length, Passes,
}
use secureflow.Prelude.Sorting.{insert, IsOrder, sort_by}
use mathlib.Core.List.{Perm}
use secureflow.Prelude.{inl, inr, ◌≢◌, sym, Bool-cases, not}
use secureflow.Prelude.Sorting.Laws.{
  All-insert, All-sort_by, sort_by-eq_of_perm, compare-IsOrder, comparing-IsOrder,
  then_with-IsOrder, IsSorted, sort_by-IsSorted, length-sort_by,
}
use secureflow.Text.Compare.{cmp-IsOrder, cmp_eq}
use secureflow.Orchestrator.Types.{
  EvidenceKind, EvidenceArtifact, variant, cmp_artifact, max_evidence_artifacts,
}
use secureflow.Orchestrator.Validate.{valid_sha256, strictly_ascending, validate_evidence}
use secureflow.Orchestrator.Derive.{is_gt, neighbours_differ}

pub cmp_artifact-IsOrder : IsOrder cmp_artifact
unfolding cmp_artifact
cmp_artifact-IsOrder =
    then_with-IsOrder (comparing-IsOrder (λ (a : EvidenceArtifact). variant a.kind) compare-IsOrder)
      (comparing-IsOrder (λ (a : EvidenceArtifact). a.sha256) cmp-IsOrder)

variant-injective : (k l : EvidenceKind) → variant k ≡ variant l → k ≡ l
unfolding variant
variant-injective k l h = ground arith

-- Artifacts that compare equal are equal.
pub cmp_artifact_eq : (a b : EvidenceArtifact) → cmp_artifact a b ≡ Ordering.eq → a ≡ b
unfolding cmp_artifact
cmp_artifact_eq a b h = ground (arith, cmp_eq a.sha256 b.sha256, variant-injective a.kind b.kind)

-- Sorted neighbours that differ ascend strictly.
strictly_ascending_of :
    (l : List EvidenceArtifact)
    → IsSorted cmp_artifact l
    → neighbours_differ l ≡ true
    → strictly_ascending l ≡ true
strictly_ascending_of [] s h = refl
strictly_ascending_of (a ∷ []) s h = refl
strictly_ascending_of (a ∷ b ∷ l) s h =
    let ih = strictly_ascending_of (b ∷ l) s.1 in let le = s.0.0 in ground arith

pub validate_evidence-sorted :
    (evidence : List EvidenceArtifact)
    → length evidence ≤ max_evidence_artifacts
    → any (λ item. not (valid_sha256 item.sha256)) (sort_by cmp_artifact evidence) ≡ false
    → neighbours_differ (sort_by cmp_artifact evidence) ≡ true
    → Passes (validate_evidence (sort_by cmp_artifact evidence))
unfolding validate_evidence
validate_evidence-sorted evidence l v d = ground (
  arith,
  length-sort_by cmp_artifact evidence,
  strictly_ascending_of (sort_by cmp_artifact evidence)
      (sort_by-IsSorted cmp_artifact-IsOrder evidence) d,
)

-- No artifact is listed twice.
abbrev pub AllDistinct : List EvidenceArtifact → Type 0
AllDistinct [] = Unit
AllDistinct (a ∷ l) = All (λ b. a ≢ b) l × AllDistinct l

insert-AllDistinct :
    (x : EvidenceArtifact) (l : List EvidenceArtifact)
    → All (λ b. x ≢ b) l
    → AllDistinct l
    → AllDistinct (insert cmp_artifact x l)
unfolding insert
insert-AllDistinct x [] new d = (tt, tt)
insert-AllDistinct x (y ∷ l) new d = elim (Bool-cases (is_gt (cmp_artifact x y))) [
  | inl g ↦ rw g (
    All-insert cmp_artifact (λ b. y ≢ b) x l (λ e. new.0 (sym e)) d.0,
    insert-AllDistinct x l new.1 d.1,
  )
  | inr g ↦ rw g (new, d)
]

sort_by-AllDistinct :
    (l : List EvidenceArtifact) → AllDistinct l → AllDistinct (sort_by cmp_artifact l)
unfolding sort_by
sort_by-AllDistinct [] d = tt
sort_by-AllDistinct (x ∷ l) d =
    insert-AllDistinct x (sort_by cmp_artifact l) (All-sort_by cmp_artifact (λ b. x ≢ b) l d.0)
      (sort_by-AllDistinct l d.1)

neighbours_differ_of : (l : List EvidenceArtifact) → AllDistinct l → neighbours_differ l ≡ true
neighbours_differ_of [] d = refl
neighbours_differ_of (a ∷ []) d = refl
neighbours_differ_of (a ∷ b ∷ l) d =
    let ih = neighbours_differ_of (b ∷ l) d.1 in
    let apart = d.0.0 in
    ground (arith, λ (e : cmp_artifact a b ≡ Ordering.eq). apart (cmp_artifact_eq a b e))

pub neighbours_differ-sort_by :
    (l : List EvidenceArtifact) → AllDistinct l → neighbours_differ (sort_by cmp_artifact l) ≡ true
neighbours_differ-sort_by l d =
    neighbours_differ_of (sort_by cmp_artifact l) (sort_by-AllDistinct l d)

none_invalid :
    (l : List EvidenceArtifact)
    → All (λ a. valid_sha256 a.sha256 ≡ true) l
    → any (λ item. not (valid_sha256 item.sha256)) l ≡ false
none_invalid [] h = refl
none_invalid (a ∷ l) h = let ih = none_invalid l h.1 in let v = h.0 in ground arith

pub none_invalid-sort_by :
    (l : List EvidenceArtifact)
    → All (λ a. valid_sha256 a.sha256 ≡ true) l
    → any (λ item. not (valid_sha256 item.sha256)) (sort_by cmp_artifact l) ≡ false
none_invalid-sort_by l h =
    none_invalid (sort_by cmp_artifact l)
      (All-sort_by cmp_artifact (λ a. valid_sha256 a.sha256 ≡ true) l h)

EvidenceArtifact-set : IsSet EvidenceArtifact
EvidenceArtifact-set = hlevel

-- The sorted evidence does not depend on the order in which it came.
pub sort_by-artifacts :
    {l k : List EvidenceArtifact} → Perm l k → sort_by cmp_artifact l ≡ sort_by cmp_artifact k
sort_by-artifacts p =
    sort_by-eq_of_perm cmp_artifact-IsOrder EvidenceArtifact-set p
      (λ a b m n e. cmp_artifact_eq a b e)

pub length-of_perm : {l k : List EvidenceArtifact} → Perm l k → length l ≡ length k
length-of_perm {l} {k} p = omega (
  arith,
  length-sort_by cmp_artifact l,
  length-sort_by cmp_artifact k,
  ap (λ (s : List EvidenceArtifact). length s) (sort_by-artifacts p),
)
