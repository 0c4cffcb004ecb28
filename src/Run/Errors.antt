-- ===== src/Run/Errors.antt =====
-- `ModelError` of crates/secureflow-model/src/lib.rs. A field's name and a message are native
-- strings; a payload from the document is a text.
use secureflow.Prelude.{String, Result}
use secureflow.Text.{Text}

pub data ModelError : Type 0 where
  unsupported_contract : Text → ModelError
  unsupported_report_schema : Text → ModelError
  invalid_identifier : String → ModelError
  duplicate_identifier : String → ModelError
  invalid_sha256 : String → ModelError
  invalid_relative_path : String → ModelError
  empty_field : String → ModelError
  field_too_long : String → ModelError
  invalid_timestamp : String → ModelError
  invalid_revision : ModelError
  inconsistent_state : String → ModelError
  summary_mismatch : ModelError
  authorization_required : ModelError
  invalid_location : ModelError
  empty_evidence_path : ModelError
  legacy_contract_violation : String → ModelError

abbrev pub Checked : Type 0
Checked = Result ModelError (Unit {0})
