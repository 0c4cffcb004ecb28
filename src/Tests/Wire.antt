-- ===== src/Tests/Wire.antt =====
-- The theorems on crates/secureflow-knowledge/src/catalog_trust/wire.rs at a small signed root.
use secureflow.Trust.Wire.Keys.Quorum.{strict_signers-IsQuorum, IsQuorum}
use secureflow.Trust.Wire.Keys.Custody.{root_profile-IsCustody, IsCustody}
use secureflow.Trust.Wire.Keys.{
  verifies, strict_signers, root_profile, role_profile, role_key, key_profile, check_signature,
  assign_key, accept_signature,
}
use secureflow.Trust.Wire.{
  digest, string_field, signed_profile, signatures_profile, signature_profile, parse_time, number,
  metadata_strings, hex, envelope, closed,
}
use secureflow.Trust.Json.Laws.{parse-IsStrict, IsStrict}
use secureflow.Trust.Json.{get, at, Value, visit, parse, index}
use secureflow.Trust.Errors.{Tried}
use secureflow.Text.Format.{encode_hex, decimal}
use secureflow.Text.Compare.{cmp}
use secureflow.Text.Chars.{chars}
use secureflow.Text.{text_eq, lit, Text}
use secureflow.Prelude.Sorting.{sort_by}
use secureflow.Prelude.{◌≤◌, length, List, ◌≡◌, refl, ok, err, []}
use secureflow.Tests.Catalog.{sample_outside}
use secureflow.Trust.Map.{lookup, insert}

abbrev value_of : Tried Value → Value
value_of (ok v) = v
value_of (err _) = Value.null

abbrev signers_of : Tried (List Text) → List Text
signers_of (ok ids) = ids
signers_of (err _) = []

abbrev root : Value
root = value_of (envelope sample_outside (lit "R") (lit "root"))

abbrev pub targets : Value
targets = value_of (envelope sample_outside (lit "G") (lit "targets"))

root_read : envelope sample_outside (lit "R") (lit "root") ≡ ok root
unfolding envelope parse visit closed metadata_strings signed_profile signatures_profile
    signature_profile hex string_field number parse_time get index lookup insert cmp lit text_eq
    encode_hex chars decimal
root_read = refl

root_parsed : parse sample_outside.read_json (lit "R") 65_536 ≡ ok root
unfolding envelope parse visit closed metadata_strings signed_profile signatures_profile
    signature_profile hex string_field number parse_time get index lookup insert cmp lit text_eq
    encode_hex chars decimal
root_parsed = refl

parse-IsStrict_example : IsStrict 0 root × (length (lit "R") ≤ 65_536)
parse-IsStrict_example =
    parse-IsStrict sample_outside.read_json (lit "R") 65_536 {v = root} root_parsed

abbrev root_signers : List Text
root_signers = signers_of (strict_signers sample_outside root root (lit "root"))

root_signed : strict_signers sample_outside root root (lit "root") ≡ ok root_signers
unfolding root_profile key_profile assign_key role_profile strict_signers accept_signature
    check_signature verifies role_key sort_by digest envelope parse visit closed metadata_strings
    signed_profile signatures_profile signature_profile hex string_field number parse_time get index
    lookup insert cmp lit text_eq encode_hex chars decimal
root_signed = refl

two_signers : length root_signers ≡ 2
unfolding root_profile key_profile assign_key role_profile strict_signers accept_signature
    check_signature verifies role_key sort_by digest envelope parse visit closed metadata_strings
    signed_profile signatures_profile signature_profile hex string_field number parse_time get index
    lookup insert cmp lit text_eq encode_hex chars decimal
two_signers = refl

strict_signers-IsQuorum_example : IsQuorum sample_outside root root (lit "root") root_signers
strict_signers-IsQuorum_example =
    strict_signers-IsQuorum sample_outside root root (lit "R") (lit "root") {signers = root_signers}
      root_read root_signed

root_profiled : root_profile sample_outside root ≡ ok tt
unfolding root_profile key_profile assign_key role_profile strict_signers accept_signature
    check_signature verifies role_key sort_by digest envelope parse visit closed metadata_strings
    signed_profile signatures_profile signature_profile hex string_field number parse_time get index
    lookup insert cmp lit text_eq encode_hex chars decimal
root_profiled = refl

root_profile-IsCustody_example : IsCustody (at root "signed")
root_profile-IsCustody_example = root_profile-IsCustody sample_outside root root_profiled
