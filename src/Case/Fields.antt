-- ===== src/Case/Fields.antt =====
-- `digest`, `sha`, `id`, `text`, `path_text` and `timestamp` of crates/secureflow-case/src/lib.rs.
-- The hash of the `sha2` crate is a parameter.
use secureflow.Prelude.{
  ℕ, ◌+◌, String, Bool, ◌&&◌, ◌||◌, List, leb, ltb, ◌==◌, length, all, any, is_empty, is_some, ok,
  err, if◌then◌else◌, take, ◌++◌,
}
use secureflow.Text.{Text, text_eq, lit, strip_prefix, is_ascii_digit, is_ascii_lowercase}
use secureflow.Text.Chars.{trim}
use secureflow.Text.Format.{is_lower_hex, encode_hex}
use secureflow.Text.Paths.{split_slash, is_absolute}
use secureflow.Run.Fields.{TimeParser}
use secureflow.Case.Types.{Checked, invalid_field}

abbrev pub Hash : Type 0
Hash = Text → List ℕ

unfoldable pub digest : Hash → Text → Text
digest sha256 bytes = encode_hex (sha256 bytes)

-- `SecurityCase::derived_id` and `SecurityCase::case_id_for`; a digest has 64 digits, so the slice
-- of 32 is in range.
unfoldable pub derived_id : Hash → Text → Text → Text
derived_id sha256 prefix bytes = prefix ++ take 32 (digest sha256 bytes)

unfoldable pub case_id_for : Hash → Text → Text
case_id_for sha256 target_sha256 = lit "sf_case_" ++ take 32 (digest sha256 target_sha256)

unfoldable pub sha : Text → String → Checked
sha value field =
    if length value == 64 && all is_lower_hex value then ok tt else err (invalid_field field)

abbrev pub is_id_byte : ℕ → Bool
is_id_byte c = is_ascii_lowercase c || is_ascii_digit c || c == b'_'

unfoldable pub id : Text → Text → String → Checked
id value prefix field =
    if is_some (strip_prefix prefix value)
      && leb (length prefix + 16) (length value)
      && leb (length value) 100
      && all is_id_byte value
    then ok tt
    else err (invalid_field field)

unfoldable pub text : Text → String → ℕ → Checked
text value field max =
    if is_empty (trim value) || ltb max (length value) then err (invalid_field field) else ok tt

unfoldable pub path_text : Text → String → Checked
path_text value field =
    if is_empty value
      || is_absolute value
      || any (λ part. text_eq part (lit "..") || is_empty part) (split_slash value)
    then err (invalid_field field)
    else ok tt

unfoldable pub timestamp : TimeParser → Text → String → Checked
timestamp parse value field = if is_some (parse value) then ok tt else err (invalid_field field)
