-- ===== src/Run/Location.antt =====
-- `Location` and `EvidenceStep` of crates/secureflow-model/src/lib.rs. Offsets are `u64`, lines
-- and columns `u32`.
pub mod Laws
use secureflow.Prelude.{
  differ, ℕ, String, Option, none, some, Bool, false, ◌&&◌, ◌||◌, ltb, ◌==◌, is_some, is_some_and,
  refuse, ◌>>◌,
}
use secureflow.Text.{Text}
use secureflow.Run.Errors.{Checked, invalid_location}
use secureflow.Run.Kinds.{EvidenceKind}
use secureflow.Run.Fields.{validate_relative_path, validate_bounded_string}

pub record Location : Type 0 where
  pub path : Text
  pub start_byte : Option ℕ
  pub end_byte : Option ℕ
  pub start_line : ℕ
  pub start_column : ℕ
  pub end_line : Option ℕ
  pub end_column : Option ℕ

-- `start.zip(end).is_some_and(|(start, end)| end < start)`
abbrev pub ends_before_start : Option ℕ → Option ℕ → Bool
ends_before_start (some start) (some end_) = ltb end_ start
ends_before_start (some start) none = false
ends_before_start none end_ = false

unfoldable pub validate_location : Location → Checked
validate_location l = do
  validate_relative_path l.path "location.path"
  refuse (differ (is_some l.start_byte) (is_some l.end_byte)) invalid_location
  refuse (ends_before_start l.start_byte l.end_byte) invalid_location
  refuse (l.start_line == 0 || l.start_column == 0) invalid_location
  refuse (is_some_and (λ n. n == 0) l.end_line || is_some_and (λ n. n == 0) l.end_column)
      invalid_location
  refuse
      (is_some_and
        (λ end_line.
          ltb end_line l.start_line
          || end_line == l.start_line && is_some_and (λ c. ltb c l.start_column) l.end_column)
        l.end_line)
      invalid_location

pub record EvidenceStep : Type 0 where
  pub kind : EvidenceKind
  pub location : Location
  pub description : Text

-- One round of the loops over `evidence_path`, with the field that the caller names.
unfoldable pub validate_step : String → EvidenceStep → Checked
validate_step field step = do
  validate_location step.location
  validate_bounded_string step.description field 1000
