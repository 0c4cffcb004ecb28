-- ===== src/Run/Ordering/Laws.antt =====
-- What `prioritize_findings` promises: it rearranges, its result ascends in the comparison, and
-- findings with distinct identifiers have one order, whatever the order they came in.
use Prim.Native.Nat.{Ordering}
use mathlib.Core.List.{Mem, Perm}
use secureflow.Prelude.{◌≤◌, All, All-map, ◌≡◌, List, [], ◌∷◌, arith, false}
use secureflow.Prelude.Sorting.{IsOrder, is_gt}
use secureflow.Prelude.Sorting.Laws.{
  compare-IsOrder, comparing-IsOrder, flip-IsOrder, then_with-IsOrder, IsSorted, sort_by-perm,
  sort_by-IsSorted, sort_by-eq_of_perm,
}
use secureflow.Text.Compare.{cmp, cmp-IsOrder, cmp_eq}
use secureflow.Run.Finding.{Finding}
use secureflow.Run.Ordering.{severity_rank, confidence_rank, cmp_finding, prioritize_findings}

pub cmp_finding-IsOrder : IsOrder cmp_finding
unfolding cmp_finding
cmp_finding-IsOrder =
    then_with-IsOrder
      (flip-IsOrder (comparing-IsOrder (λ (f : Finding). severity_rank f.severity) compare-IsOrder))
      (then_with-IsOrder
        (flip-IsOrder
          (comparing-IsOrder (λ (f : Finding). confidence_rank f.confidence) compare-IsOrder))
        (then_with-IsOrder (comparing-IsOrder (λ (f : Finding). f.rule_id) cmp-IsOrder) (
          then_with-IsOrder
            (comparing-IsOrder (λ (f : Finding). f.source_location.path) cmp-IsOrder)
            (then_with-IsOrder
              (comparing-IsOrder (λ (f : Finding). f.source_location.start_line) compare-IsOrder)
              (then_with-IsOrder
                (comparing-IsOrder (λ (f : Finding). f.sink_location.path) cmp-IsOrder)
                (comparing-IsOrder (λ (f : Finding). f.finding_id) cmp-IsOrder))))))

-- Findings that compare equal have one identifier.
pub cmp_finding_eq : (f g : Finding) → cmp_finding f g ≡ Ordering.eq → f.finding_id ≡ g.finding_id
unfolding cmp_finding
cmp_finding_eq f g h = ground (arith, cmp_eq f.finding_id g.finding_id)

pub Finding-set : IsSet Finding
Finding-set = hlevel

abbrev pub IdsIdentify : List Finding → Type 0
IdsIdentify findings =
    (f g : Finding) → Mem f findings → Mem g findings → f.finding_id ≡ g.finding_id → f ≡ g

-- An earlier finding and a later one: severity falls, then confidence falls, then rules ascend.
pub record Outranks (f g : Finding) : Type 0 where
  pub by_severity : severity_rank g.severity ≤ severity_rank f.severity
  pub by_confidence :
      severity_rank f.severity ≡ severity_rank g.severity
      → confidence_rank g.confidence ≤ confidence_rank f.confidence
  pub by_rule :
      severity_rank f.severity ≡ severity_rank g.severity
      → confidence_rank f.confidence ≡ confidence_rank g.confidence
      → is_gt (cmp f.rule_id g.rule_id) ≡ false

Outranks-of_cmp : (f g : Finding) → is_gt (cmp_finding f g) ≡ false → Outranks f g
unfolding cmp_finding
Outranks-of_cmp f g h = record {
  by_severity = ground arith;
  by_confidence = λ e. ground arith;
  by_rule = λ e k. ground arith;
}

abbrev pub IsPrioritized : List Finding → Type 0
IsPrioritized [] = Unit
IsPrioritized (f ∷ fs) = All (Outranks f) fs × IsPrioritized fs

IsPrioritized-of_sorted :
    (findings : List Finding) → IsSorted cmp_finding findings → IsPrioritized findings
IsPrioritized-of_sorted [] s = tt
IsPrioritized-of_sorted (f ∷ fs) s =
    (All-map fs (λ g h. Outranks-of_cmp f g h) s.0, IsPrioritized-of_sorted fs s.1)

-- Whatever the findings, `prioritize_findings` rearranges them, and every earlier finding of the
-- result outranks every later one: its severity is at least as high, at equal severity its
-- confidence is, and at equal severity and confidence its rule does not come later.
pub prioritize_findings-IsPrioritized :
    (findings : List Finding)
    → Perm (prioritize_findings findings) findings × IsPrioritized (prioritize_findings findings)
unfolding prioritize_findings
prioritize_findings-IsPrioritized findings = (
  sort_by-perm cmp_finding findings,
  IsPrioritized-of_sorted (prioritize_findings findings)
      (sort_by-IsSorted cmp_finding-IsOrder findings),
)

-- Where no two different findings share an identifier, the prioritized list does not depend on
-- the order in which the findings came.
pub prioritize_findings-eq_of_perm :
    (findings others : List Finding)
    → IdsIdentify findings
    → Perm findings others
    → prioritize_findings findings ≡ prioritize_findings others
unfolding prioritize_findings
prioritize_findings-eq_of_perm findings others ids p =
    sort_by-eq_of_perm cmp_finding-IsOrder Finding-set p
      (λ f g m n e. ids f g m n (cmp_finding_eq f g e))
