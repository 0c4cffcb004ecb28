-- ===== src/Run/Dedup.antt =====
-- `deduplicate_findings` and `location_key` of crates/secureflow-model/src/lib.rs.
pub mod Laws
pub mod Keys
use secureflow.Prelude.{ℕ, ◌-◌, List, [], ◌∷◌, ◌++◌, any, length, unwrap_or, if◌then◌else◌}
use secureflow.Text.{Text, text_eq, lit}
use secureflow.Text.Format.{decimal}
use secureflow.Run.Location.{Location}
use secureflow.Run.Finding.{Finding}

unfoldable pub location_key : Location → Text
location_key l =
    l.path
    ++ lit ":"
    ++ decimal (unwrap_or 0 l.start_byte)
    ++ lit ":"
    ++ decimal (unwrap_or 0 l.end_byte)
    ++ lit ":"
    ++ decimal l.start_line
    ++ lit ":"
    ++ decimal l.start_column
    ++ lit ":"
    ++ decimal (unwrap_or 0 l.end_line)
    ++ lit ":"
    ++ decimal (unwrap_or 0 l.end_column)

unfoldable pub fingerprint : Finding → Text
fingerprint f = unwrap_or f.finding_id f.engine_fingerprint

-- The `format!` of the key.
abbrev pub join_key : Text → Text → Text → Text → Text
join_key print rule source sink = print ++ lit "|" ++ rule ++ lit "|" ++ source ++ lit "|" ++ sink

unfoldable pub dedup_key : Finding → Text
dedup_key f =
    join_key (fingerprint f) f.rule_id (location_key f.source_location)
      (location_key f.sink_location)

-- `retain` with the set of the keys seen so far.
pub retain_new : List Text → List Finding → List Finding
retain_new seen [] = []
retain_new seen (f ∷ fs) =
    let key = dedup_key f in
    let known = retain_new seen fs in
    let fresh = f ∷ retain_new (key ∷ seen) fs in if any (text_eq key) seen then known else fresh

-- The findings that stay, and the number that is returned.
unfoldable pub deduplicate_findings : List Finding → List Finding × ℕ
unfolding retain_new
deduplicate_findings findings =
    let kept = retain_new [] findings in (kept, length findings - length kept)
