-- ===== src/Run/Manifest/Refresh.antt =====
-- `refresh_summary` always writes the summary that `validate` asks for.
use secureflow.Prelude.{
  some, ℕ, ◌+◌, ◌≡◌, refl, List, [], ◌∷◌, arith, Passes, WhenSome, count_if, >>-Passes, if_some,
  ◌∙◌,
}
use secureflow.Run.Kinds.{is_validated, is_rejected, is_abstained}
use secureflow.Run.Fields.{TimeParser}
use secureflow.Run.Finding.{Finding}
use secureflow.Run.Summary.{Summary, decision, validate_summary}
use secureflow.Run.Summary.Laws.{validate_summary_iff, IsExact}
use secureflow.Run.Manifest.{
  RunManifest, validate, validate_run, validate_parts, validate_v1_shape, tally_all,
  refresh_summary, duplicates_of,
}

tally_all_lem :
    (v r a : ℕ) (fs : List Finding)
    → tally_all (v, r, a) fs ≡ (
      v + count_if (λ f. is_validated (decision f)) fs,
      r + count_if (λ f. is_rejected (decision f)) fs,
      a + count_if (λ f. is_abstained (decision f)) fs,
    )
unfolding tally_all
tally_all_lem v r a [] = ground arith
tally_all_lem v r a (f ∷ fs) = ground (
  arith,
  tally_all_lem (v + 1) r a fs,
  tally_all_lem v (r + 1) a fs,
  tally_all_lem v r (a + 1) fs,
  tally_all_lem v r a fs,
)

refresh_summary-IsExact :
    (m : RunManifest) → WhenSome (λ s. IsExact s m.findings) (refresh_summary m).summary
unfolding refresh_summary
refresh_summary-IsExact m =
    let t = tally_all_lem 0 0 0 m.findings in
    record {
      candidates = refl;
      validated = ground arith;
      rejected = ground arith;
      abstained = ground arith;
      calls = refl;
      input = refl;
      output = refl;
    }

passes_summary :
    (m : RunManifest)
    → Passes (if_some (λ s. validate_summary s m.findings) (refresh_summary m).summary)
unfolding refresh_summary
passes_summary m = (validate_summary_iff _ m.findings).1 (refresh_summary-IsExact m)

-- Whatever summary a manifest carries, or none, `refresh_summary` writes one, whose counters are those
-- that `validate_summary` recomputes from the findings and whose number of duplicates is the recorded
-- one, or 0. It changes nothing else, and a second refresh changes nothing.
pub refresh_summary_lem :
    (m : RunManifest)
    → (s : Summary) × (refresh_summary m ≡ record m { summary = some s })
      × Passes (validate_summary s m.findings)
      × (s.duplicate_count ≡ duplicates_of m.summary)
      × (refresh_summary (refresh_summary m) ≡ refresh_summary m)
unfolding refresh_summary
refresh_summary_lem m = (_, refl, passes_summary m, refl, refl)

same_run :
    (parse : TimeParser) (m : RunManifest)
    → validate_run parse (refresh_summary m) ≡ validate_run parse m
unfolding validate_run refresh_summary validate_v1_shape
same_run parse m = refl

refresh_parts :
    (parse : TimeParser) (m : RunManifest)
    → Passes (validate_parts parse m)
    → Passes (validate_parts parse (refresh_summary m))
unfolding validate_parts refresh_summary
refresh_parts parse m h = let p = passes_summary m in ground arith

-- Refreshing the summary of an accepted manifest gives an accepted manifest.
pub refresh_summary-validate :
    (parse : TimeParser) (m : RunManifest)
    → Passes (validate parse m)
    → Passes (validate parse (refresh_summary m))
unfolding validate
refresh_summary-validate parse m h =
    let s = (>>-Passes (validate_run parse m) (validate_parts parse m)).0 h in
    (>>-Passes (validate_run parse (refresh_summary m))
        (validate_parts parse (refresh_summary m))).1
      (same_run parse m ∙ s.0, refresh_parts parse m s.1)
