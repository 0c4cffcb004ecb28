-- ===== src/Run/Fields.antt =====
-- The checks of single fields at the end of crates/secureflow-model/src/lib.rs. The `time` crate
-- is a parameter: `parse` reads an RFC 3339 text as an instant, counted from the earliest one.
pub mod Confinement
use secureflow.Prelude.{
  ℕ, String, Bool, false, ◌&&◌, ◌||◌, Option, none, some, leb, ltb, ◌==◌, if◌then◌else◌, all, any,
  is_empty, length, Result, ok, err, if_some,
}
use secureflow.Text.{Text, strip_prefix, is_ascii_digit, is_ascii_lowercase, is_ascii_uppercase}
use secureflow.Text.Chars.{chars, trim, is_control}
use secureflow.Text.Format.{is_lower_hex}
use secureflow.Text.Paths.{components, is_absolute, is_parent_dir}
use secureflow.Run.Errors.{
  ModelError, Checked, invalid_sha256, invalid_relative_path, empty_field, field_too_long,
  invalid_timestamp,
}

abbrev pub TimeParser : Type 0
TimeParser = Text → Option ℕ

-- `character.is_ascii_alphanumeric() || matches!(character, '_' | '-')`
abbrev pub is_identifier_char : ℕ → Bool
is_identifier_char c =
    is_ascii_digit c || is_ascii_lowercase c || is_ascii_uppercase c || c == b'_' || c == b'-'

valid_suffix : ℕ → ℕ → Option Text → Bool
valid_suffix min_suffix max_suffix none = false
valid_suffix min_suffix max_suffix (some suffix) =
    leb min_suffix (length suffix)
    && leb (length suffix) max_suffix
    && all is_identifier_char (chars suffix)

unfoldable pub valid_identifier : Text → Text → ℕ → ℕ → Bool
unfolding valid_suffix
valid_identifier value prefix min_suffix max_suffix =
    valid_suffix min_suffix max_suffix (strip_prefix prefix value)

unfoldable pub is_lower_hex_of_length : Text → ℕ → Bool
is_lower_hex_of_length value len = length value == len && all is_lower_hex value

unfoldable pub validate_sha256 : Text → String → Checked
validate_sha256 value field =
    if length value == 64 && all is_lower_hex value then ok tt else err (invalid_sha256 field)

unfoldable pub validate_bounded_string : Text → String → ℕ → Checked
validate_bounded_string value field max_chars =
    if is_empty (trim value)
    then err (empty_field field)
    else if ltb max_chars (length (chars value))
    then err (field_too_long field)
    else ok tt

unfoldable pub validate_optional_string : Option Text → String → ℕ → Checked
validate_optional_string value field max_chars =
    if_some (λ v. validate_bounded_string v field max_chars) value

unfoldable pub parsed : String → Option ℕ → Result ModelError ℕ
parsed field none = err (invalid_timestamp field)
parsed field (some instant) = ok instant

unfoldable pub validate_timestamp : TimeParser → Text → String → Result ModelError ℕ
unfolding parsed
validate_timestamp parse value field = parsed field (parse value)

-- The same check where the caller drops the instant.
abbrev pub check_timestamp : TimeParser → Text → String → Checked
check_timestamp parse value field = elim (validate_timestamp parse value field) [
  | ok _ ↦ ok tt
  | err e ↦ err e
]

unfoldable pub validate_relative_path : Text → String → Checked
validate_relative_path value field =
    if is_empty value
      || is_absolute value
      || any (λ c. c == b'\\') value
      || any is_control (chars value)
      || any is_parent_dir (components value)
    then err (invalid_relative_path field)
    else ok tt
