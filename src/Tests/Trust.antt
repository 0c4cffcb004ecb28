-- ===== src/Tests/Trust.antt =====
-- The theorems on the import and the enrollment of crates/secureflow-knowledge/src/catalog_trust at a
-- small signed catalog.
use mathlib.Core.Option.{some-injective}
use secureflow.Trust.Operations.Clocks.{capture-validate_clock}
use secureflow.Trust.Operations.{capture}
use secureflow.Trust.Import.Targets.Laws.{accept_targets-AllAllowed, IsAllowed}
use secureflow.Trust.Store.Laws.{initialize-load_state}
use secureflow.Trust.Import.Laws.{import_metadata-IsLater}
use secureflow.Trust.Wire.Keys.Quorum.{envelope-IsStrict}
use secureflow.Trust.Wire.Keys.{
  verifies, strict_signers, root_profile, role_profile, role_key, key_profile, check_signature,
  assign_key, accept_signature,
}
use secureflow.Trust.Wire.{
  digest, string_field, signed_profile, signatures_profile, signature_profile, parse_time, number,
  metadata_strings, identifier, hex, envelope, closed,
}
use secureflow.Trust.Types.{
  Clock, Target, validate_scope, validate_clock, target_path, scope_eq, State,
}
use secureflow.Trust.Store.{load_state, initialize, check_bootstrap}
use secureflow.Trust.Session.Forward.{IsLater}
use secureflow.Trust.Session.{
  max_state_bytes, read_file, save, retain_role, replace_with, read_metadata, encode_state,
}
use secureflow.Trust.Policy.{
  Host, validate_target, validate_policy, drop_bytes, counts_eq, allows, all_unique,
}
use secureflow.Trust.Json.{Raw, as_object, get, at, Value, visit, parse, index}
use secureflow.Trust.Import.Targets.{
  examine_target, check_same, check_pin, check_floor, advance_floor, advance_all, accept_targets,
  accept_target,
}
use secureflow.Trust.Import.Roots.{import_roots}
use secureflow.Trust.Examine.{examine_timestamp, examine_targets, examine_snapshot, examine}
use secureflow.Trust.Errors.{check, Tried}
use secureflow.Trust.Checks.{
  evidence, version_link, tuf_update, target_link, same_content, role_record, role_floor,
  record_floor, next_root, metadata_link, lineage, first_root, expiry, current_root, child_floor,
  check_link,
}
use secureflow.Text.Format.{encode_hex, decimal}
use secureflow.Text.Compare.{cmp}
use secureflow.Text.Chars.{trim, chars}
use secureflow.Text.{text_eq, strip_prefix, lit, Text}
use secureflow.Prelude.Sorting.{sort_by}
use secureflow.Prelude.{
  ◌≤◌, length, if◌then◌else◌, subst, none, All, ◌≡◌, refl, ok, err, Bool, true, false, some, [],
  ◌∷◌,
}
use secureflow.Tests.Catalog.{
  sample_clock, first_32, sample_target, sample_state, sample_policy, sample_outside, sample_host,
  sample_session, sample_directory,
}
use secureflow.Trust.Import.{
  versioned, keep_targets, keep_link, import_timestamp, import_targets, import_snapshot,
  import_roles, examine_then_accept, check_time, advance_floors, accept_timestamp, accept_snapshot,
  accept, import_metadata,
}
use secureflow.Trust.Map.{Map, lookup, insert}
use secureflow.Tests.Wire.{targets}

abbrev is_ok : {A : Type 0} → Tried A → Bool
is_ok (ok _) = true
is_ok (err _) = false

import_runs : is_ok (import_metadata sample_host sample_directory false sample_session).0 ≡ true
unfolding import_metadata check_time import_roots import_roles import_timestamp import_snapshot
    import_targets accept_timestamp accept_snapshot examine_then_accept accept keep_link
    keep_targets advance_floors advance_all advance_floor accept_targets accept_target
    examine_target check_floor check_pin check_same examine_timestamp examine_snapshot
    examine_targets examine read_metadata retain_role role_record evidence save encode_state
    replace_with current_root lineage first_root next_root tuf_update expiry role_floor record_floor
    same_content child_floor target_link metadata_link version_link check_link versioned
    root_profile key_profile assign_key role_profile strict_signers accept_signature check_signature
    verifies role_key sort_by digest envelope parse visit closed metadata_strings signed_profile
    signatures_profile signature_profile hex string_field number parse_time get index lookup insert
    cmp lit text_eq encode_hex chars decimal identifier strip_prefix validate_target validate_scope
    target_path scope_eq drop_bytes allows
import_runs = refl

import_advances :
    lookup
      (lit "core")
      (import_metadata sample_host sample_directory false sample_session).1.state.floors
    ≡ some (record { sequence = 3; manifest_sha256 = some (encode_hex (first_32 (lit "M"))) })
unfolding import_metadata check_time import_roots import_roles import_timestamp import_snapshot
    import_targets accept_timestamp accept_snapshot examine_then_accept accept keep_link
    keep_targets advance_floors advance_all advance_floor accept_targets accept_target
    examine_target check_floor check_pin check_same examine_timestamp examine_snapshot
    examine_targets examine read_metadata retain_role role_record evidence save encode_state
    replace_with current_root lineage first_root next_root tuf_update expiry role_floor record_floor
    same_content child_floor target_link metadata_link version_link check_link versioned
    root_profile key_profile assign_key role_profile strict_signers accept_signature check_signature
    verifies role_key sort_by digest envelope parse visit closed metadata_strings signed_profile
    signatures_profile signature_profile hex string_field number parse_time get index lookup insert
    cmp lit text_eq encode_hex chars decimal identifier strip_prefix validate_target validate_scope
    target_path scope_eq drop_bytes allows
import_advances = refl

import_metadata-IsLater_example :
    IsLater sample_host sample_session
      (import_metadata sample_host sample_directory false sample_session).1
import_metadata-IsLater_example =
    import_metadata-IsLater sample_host sample_directory false sample_session

abbrev accepted_targets : Map Target
accepted_targets = (lit "core", sample_target) ∷ []

targets_read : envelope sample_outside (lit "G") (lit "targets") ≡ ok targets
unfolding envelope parse visit closed metadata_strings signed_profile signatures_profile
    signature_profile hex string_field number parse_time get index lookup insert cmp lit text_eq
    encode_hex chars decimal
targets_read = refl

targets_accepted : accept_targets sample_host sample_state targets ≡ ok accepted_targets
unfolding import_metadata check_time import_roots import_roles import_timestamp import_snapshot
    import_targets accept_timestamp accept_snapshot examine_then_accept accept keep_link
    keep_targets advance_floors advance_all advance_floor accept_targets accept_target
    examine_target check_floor check_pin check_same examine_timestamp examine_snapshot
    examine_targets examine read_metadata retain_role role_record evidence save encode_state
    replace_with current_root lineage first_root next_root tuf_update expiry role_floor record_floor
    same_content child_floor target_link metadata_link version_link check_link versioned envelope
    parse visit closed metadata_strings signed_profile signatures_profile signature_profile hex
    string_field number parse_time get index lookup insert cmp lit text_eq encode_hex chars decimal
    identifier strip_prefix validate_target validate_scope target_path scope_eq drop_bytes allows
targets_accepted = refl

accept_targets-AllAllowed_example :
    (entries : Map Value) × (as_object (at (at targets "signed") "targets") ≡ some entries)
    × All
        (λ e. (e.0 ≡ e.1.profile) × IsAllowed sample_host sample_state entries e.1)
        accepted_targets
accept_targets-AllAllowed_example =
    accept_targets-AllAllowed sample_host sample_state targets {accepted = accepted_targets}
      (envelope-IsStrict sample_outside (lit "G") (lit "targets") targets_read) targets_accepted

initialize_runs : is_ok (initialize sample_host (some (lit "R")) sample_policy) ≡ true
unfolding validate_policy validate_clock trim counts_eq all_unique check_bootstrap initialize
    import_metadata check_time import_roots import_roles import_timestamp import_snapshot
    import_targets accept_timestamp accept_snapshot examine_then_accept accept keep_link
    keep_targets advance_floors advance_all advance_floor accept_targets accept_target
    examine_target check_floor check_pin check_same examine_timestamp examine_snapshot
    examine_targets examine read_metadata retain_role role_record evidence save encode_state
    replace_with current_root lineage first_root next_root tuf_update expiry role_floor record_floor
    same_content child_floor target_link metadata_link version_link check_link versioned
    root_profile key_profile assign_key role_profile strict_signers accept_signature check_signature
    verifies role_key sort_by digest envelope parse visit closed metadata_strings signed_profile
    signatures_profile signature_profile hex string_field number parse_time get index lookup insert
    cmp lit text_eq encode_hex chars decimal identifier strip_prefix validate_target validate_scope
    target_path scope_eq drop_bytes allows
initialize_runs = refl

abbrev state_of : Tried State → State
state_of (ok s) = s
state_of (err _) = sample_state

abbrev fresh : State
fresh = state_of (initialize sample_host (some (lit "R")) sample_policy)

-- The host that reads the enrolled state from the document "1", which is also how it is written.
abbrev reading_host : Host
reading_host = record sample_host {
  outside = record sample_outside {
    read_json = λ b. if text_eq b (decimal 1) then some Raw.unit else sample_outside.read_json b;
  };
  to_state = λ v. some fresh;
}

enrolled : initialize reading_host (some (lit "R")) sample_policy ≡ ok fresh
unfolding validate_policy validate_clock trim counts_eq all_unique check_bootstrap initialize
    import_metadata check_time import_roots import_roles import_timestamp import_snapshot
    import_targets accept_timestamp accept_snapshot examine_then_accept accept keep_link
    keep_targets advance_floors advance_all advance_floor accept_targets accept_target
    examine_target check_floor check_pin check_same examine_timestamp examine_snapshot
    examine_targets examine read_metadata retain_role role_record evidence save encode_state
    replace_with current_root lineage first_root next_root tuf_update expiry role_floor record_floor
    same_content child_floor target_link metadata_link version_link check_link versioned
    root_profile key_profile assign_key role_profile strict_signers accept_signature check_signature
    verifies role_key sort_by digest envelope parse visit closed metadata_strings signed_profile
    signatures_profile signature_profile hex string_field number parse_time get index lookup insert
    cmp lit text_eq encode_hex chars decimal identifier strip_prefix validate_target validate_scope
    target_path scope_eq drop_bytes allows
enrolled = refl

state_reads :
    parse reading_host.outside.read_json (reading_host.encode_state_json fresh) max_state_bytes
    ≡ ok Value.null
unfolding validate_policy validate_clock trim counts_eq all_unique check_bootstrap initialize
    import_metadata check_time import_roots import_roles import_timestamp import_snapshot
    import_targets accept_timestamp accept_snapshot examine_then_accept accept keep_link
    keep_targets advance_floors advance_all advance_floor accept_targets accept_target
    examine_target check_floor check_pin check_same examine_timestamp examine_snapshot
    examine_targets examine read_metadata retain_role role_record evidence save encode_state
    replace_with current_root lineage first_root next_root tuf_update expiry role_floor record_floor
    same_content child_floor target_link metadata_link version_link check_link versioned
    root_profile key_profile assign_key role_profile strict_signers accept_signature check_signature
    verifies role_key sort_by digest envelope parse visit closed metadata_strings signed_profile
    signatures_profile signature_profile hex string_field number parse_time get index lookup insert
    cmp lit text_eq encode_hex chars decimal identifier strip_prefix validate_target validate_scope
    target_path scope_eq drop_bytes allows
state_reads = refl

initialize-load_state_example :
    (load_state reading_host (some (reading_host.encode_state_json fresh)) ≡ ok fresh)
    × (fresh.policy ≡ sample_policy)
    × (fresh.generation ≡ 1)
    × (bytes : Text) × (fresh.roots ≡ bytes ∷ [])
    × (read_file (some (lit "R")) 65_536 ≡ ok bytes)
    × (length bytes ≤ 65_536)
initialize-load_state_example =
    initialize-load_state reading_host (some (lit "R")) sample_policy {state = fresh}
      {v = Value.null} enrolled state_reads refl refl

abbrev system_clock : Clock
system_clock = record {
  verification_time = sample_clock.verification_time;
  time_source = lit "operator-trusted-system-clock";
  time_reference = lit "local operating system clock";
}

time_parses : check (parse_time sample_outside sample_clock.verification_time) ≡ ok tt
unfolding parse_time lit text_eq
time_parses = refl

captures : capture sample_host (some sample_clock.verification_time) none none ≡ ok system_clock
unfolding capture lit
captures = refl

capture-validate_clock_example : validate_clock sample_outside system_clock ≡ ok tt
capture-validate_clock_example =
    capture-validate_clock sample_host (some sample_clock.verification_time) none none
      {c = system_clock}
      (λ n e.
        subst (λ x. check (parse_time sample_outside x) ≡ ok tt) (some-injective _ n e) time_parses)
      captures
