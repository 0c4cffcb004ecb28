-- ===== src/Tests/Run.antt =====
-- The theorems on crates/secureflow-model/src/lib.rs at the findings and the manifest of the samples.
use mathlib.Core.Logic.{∥∥₁_elim}
use mathlib.Core.List.Memᴰ
use mathlib.Core.List.{Memᴰ, Perm, Permᴰ}
use secureflow.Prelude.{
  ◌≡◌, ◌≢◌, ◌⊎◌, inl, inr, ◌∙◌, sym, ap, refl, arith, ◌+◌, List, [], ◌∷◌, ◌++◌, some, Passes,
  length, ok, All, ◌↔◌, true,
}
use secureflow.Text.{Text, lit}
use secureflow.Text.Chars.{chars, is_control}
use secureflow.Text.Paths.{components}
use secureflow.Run.Kinds.{PhaseStatus}
use secureflow.Run.Fields.{validate_relative_path}
use secureflow.Run.Fields.Confinement.{EndsBelow, validate_relative_path-EndsBelow}
use secureflow.Run.Location.{validate_location}
use secureflow.Run.Location.Laws.{IsSpan, validate_location_iff}
use secureflow.Run.Review.{validate_review}
use secureflow.Run.Review.Laws.{IsReview, validate_review_iff}
use secureflow.Run.Ai.{validate_ai}
use secureflow.Run.Ai.Laws.{IsAccounted, validate_ai_iff}
use secureflow.Run.Finding.{Finding}
use secureflow.Run.Summary.{Summary, validate_phases, validate_summary, sum_tokens, input_tokens}
use secureflow.Run.Summary.Laws.{PhaseFits, validate_phases_iff, sum_tokens-eq-total, total_tokens}
use secureflow.Run.Manifest.{
  RunManifest, validate, validate_v1_shape, refresh_summary, duplicates_of,
}
use secureflow.Run.Manifest.Legacy.{IsV1, validate_v1_shape_iff}
use secureflow.Run.Manifest.WellFormed.{IsWellFormed, validate_iff}
use secureflow.Run.Manifest.Refresh.{refresh_summary_lem, refresh_summary-validate}
use secureflow.Prelude.Sorting.{sort_by}
use secureflow.Run.Ordering.{cmp_finding, prioritize_findings}
use secureflow.Run.Ordering.Laws.{
  Finding-set, IsPrioritized, IdsIdentify, prioritize_findings-IsPrioritized,
  prioritize_findings-eq_of_perm,
}
use secureflow.Run.Dedup.Keys.{IsPlain, IsPlainFinding, SameSpot, dedup_key_faithful}
use secureflow.Run.Dedup.{dedup_key, deduplicate_findings, fingerprint}
use secureflow.Run.Dedup.Laws.{
  Thins, KeysDiffer, has_twin, deduplicate_findings_lem, deduplicate_findings_collision,
}
use secureflow.Tests.Samples.{
  clock, sample_manifest, manifest_passes, first_finding, second_finding, sample_location,
  signed_review, completed_ai,
}

abbrev run : RunManifest
run = sample_manifest PhaseStatus.completed PhaseStatus.completed

abbrev both : List Finding
both = first_finding ∷ second_finding ∷ []

abbrev swapped : List Finding
swapped = second_finding ∷ first_finding ∷ []

-- The second finding, of high severity, comes first.
prioritized : prioritize_findings both ≡ swapped
unfolding prioritize_findings sort_by cmp_finding
prioritized = refl

validate_iff_example : Passes (validate clock run) ↔ IsWellFormed clock run
validate_iff_example = validate_iff clock run

deduplicate_findings_example :
    Thins (deduplicate_findings (first_finding ∷ both)).0 (first_finding ∷ both)
    × KeysDiffer (deduplicate_findings (first_finding ∷ both)).0
    × All
        (λ f. has_twin (deduplicate_findings (first_finding ∷ both)).0 f ≡ true)
        (first_finding ∷ both)
    × ((deduplicate_findings (first_finding ∷ both)).1
          + length (deduplicate_findings (first_finding ∷ both)).0
        ≡ 3)
    × (deduplicate_findings (deduplicate_findings (first_finding ∷ both)).0
        ≡ ((deduplicate_findings (first_finding ∷ both)).0, 0))
deduplicate_findings_example = deduplicate_findings_lem (first_finding ∷ both)

-- The first finding, reported under another identifier.
abbrev reported_again : Finding
reported_again = record first_finding { finding_id = lit "sf_finding_0123456789abcdef" }

sample_location-IsPlain : IsPlain sample_location
unfolding lit
sample_location-IsPlain = record {
  colon = refl;
  bar = refl;
  start_byte = omega arith;
  end_byte = omega arith;
  start_line = omega arith;
  start_column = omega arith;
  end_line = omega arith;
  end_column = omega arith;
}

first_plain : IsPlainFinding first_finding
unfolding lit fingerprint
first_plain = record {
  print = refl;
  rule = refl;
  source = sample_location-IsPlain;
  sink = sample_location-IsPlain;
}

again_plain : IsPlainFinding reported_again
unfolding lit fingerprint
again_plain = record {
  print = refl;
  rule = refl;
  source = sample_location-IsPlain;
  sink = sample_location-IsPlain;
}

one_key : dedup_key first_finding ≡ dedup_key reported_again
unfolding dedup_key fingerprint
one_key = refl

dedup_key_faithful_example :
    (fingerprint first_finding ≡ fingerprint reported_again)
    × (first_finding.rule_id ≡ reported_again.rule_id)
    × SameSpot sample_location sample_location
    × SameSpot sample_location sample_location
dedup_key_faithful_example =
    dedup_key_faithful first_finding reported_again first_plain again_plain one_key

abbrev keyed : Text → Text → Finding
keyed print rule = record first_finding { engine_fingerprint = some print; rule_id = rule }

abbrev left : Finding
left = keyed (lit "a" ++ lit "|" ++ lit "b") (lit "c")

abbrev right : Finding
right = keyed (lit "a") (lit "b" ++ lit "|" ++ lit "c")

deduplicate_findings_collision_example : deduplicate_findings (left ∷ right ∷ []) ≡ (left ∷ [], 1)
unfolding fingerprint
deduplicate_findings_collision_example =
    deduplicate_findings_collision left right (lit "a") (lit "b") (lit "c") refl refl refl refl refl
      refl

prioritize_findings_example :
    Perm (prioritize_findings both) both × IsPrioritized (prioritize_findings both)
prioritize_findings_example = prioritize_findings-IsPrioritized both

validate_review_example :
    Passes (validate_review clock signed_review) ↔ IsReview clock signed_review
validate_review_example = validate_review_iff clock signed_review

validate_ai_example : Passes (validate_ai completed_ai) ↔ IsAccounted completed_ai
validate_ai_example = validate_ai_iff completed_ai

validate_location_example : Passes (validate_location sample_location) ↔ IsSpan sample_location
validate_location_example = validate_location_iff sample_location

validate_v1_shape_example : Passes (validate_v1_shape run) ↔ IsV1 run
validate_v1_shape_example = validate_v1_shape_iff run

validate_phases_example :
    Passes (validate_phases run.phases both) ↔ PhaseFits PhaseStatus.partial both
validate_phases_example = validate_phases_iff run.phases both

refresh_summary_example :
    (s : Summary) × (refresh_summary run ≡ record run { summary = some s })
    × Passes (validate_summary s run.findings)
    × (s.duplicate_count ≡ duplicates_of run.summary)
    × (refresh_summary (refresh_summary run) ≡ refresh_summary run)
refresh_summary_example = refresh_summary_lem run

refresh_summary-validate_example : Passes (validate clock (refresh_summary run))
refresh_summary-validate_example =
    refresh_summary-validate clock run (manifest_passes PhaseStatus.completed PhaseStatus.completed)

sum_tokens_example : sum_tokens input_tokens both ≡ total_tokens input_tokens both
sum_tokens_example = sum_tokens-eq-total input_tokens both (tt, (omega arith, tt)) (omega arith)

abbrev climbing : Text
climbing = lit "src/./lib.rs"

climbing_passes : validate_relative_path climbing "location.path" ≡ ok tt
unfolding validate_relative_path lit components chars is_control
climbing_passes = refl

validate_relative_path_example : EndsBelow (components climbing) (lit "home" ∷ [])
validate_relative_path_example =
    validate_relative_path-EndsBelow climbing "location.path" (lit "home" ∷ []) climbing_passes

-- The findings of the list have different identifiers.
distinct : first_finding.finding_id ≢ second_finding.finding_id
unfolding lit
distinct h = ground arith

one_of_two : (f : Finding) → Memᴰ f both → (f ≡ first_finding) ⊎ (f ≡ second_finding)
one_of_two f m = elim (Memᴰ.cases_cons m) [
  | inl e ↦ inl e
  | inr n ↦ elim (Memᴰ.cases_cons n) [ inl e ↦ inr e | inr o ↦ elim (Memᴰ.not-nil o) [ ] ]
]

identified :
    (f g : Finding)
    → (f ≡ first_finding) ⊎ (f ≡ second_finding)
    → (g ≡ first_finding) ⊎ (g ≡ second_finding)
    → f.finding_id ≡ g.finding_id
    → f ≡ g
identified f g (inl p) (inl q) e = p ∙ sym q
identified f g (inr p) (inr q) e = p ∙ sym q
identified f g (inl p) (inr q) e =
    elim (distinct (sym (ap (λ x. x.finding_id) p) ∙ e ∙ ap (λ x. x.finding_id) q)) [ ]
identified f g (inr p) (inl q) e =
    elim (distinct (sym (ap (λ x. x.finding_id) q) ∙ sym e ∙ ap (λ x. x.finding_id) p)) [ ]

both-IdsIdentify : IdsIdentify both
both-IdsIdentify f g m n e =
    ∥∥₁_elim m (Finding-set f g)
      (λ p. ∥∥₁_elim n (Finding-set f g) (λ q. identified f g (one_of_two f p) (one_of_two g q) e))

prioritize_findings-eq_of_perm_example : prioritize_findings both ≡ prioritize_findings swapped
prioritize_findings-eq_of_perm_example =
    prioritize_findings-eq_of_perm both swapped both-IdsIdentify ∣ Permᴰ.swap refl refl ∣₁
