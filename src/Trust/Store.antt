-- ===== src/Trust/Store.antt =====
-- The life of a store outside a session: `load_state` of
-- crates/secureflow-knowledge/src/catalog_trust/consumer.rs, `initialize` and `enroll` of mod.rs.
pub mod Laws
use secureflow.Prelude.{
  ◌||◌, ℕ, ◌-◌, ◌*◌, Bool, true, false, ◌&&◌, Option, none, some, List, [], ◌∷◌, ltb, leb, ◌==◌,
  length, if◌then◌else◌, ok, err, ◌>>=◌, ◌>>◌, each, if_some,
}
use secureflow.Text.{Text, lit, text_eq}
use secureflow.Trust.Errors.{Code, Tried, Checked, require, check, or_error}
use secureflow.Trust.Map.{Map, lookup, insert}
use secureflow.Trust.Json.{at, max_sequence, parse}
use secureflow.Trust.Wire.{
  digest, canonical, hex, parse_time, string_field, number, u32_max, envelope,
}
use secureflow.Trust.Wire.Keys.{root_profile, strict_signers}
use secureflow.Trust.Types.{Clock, State, Policy, Floor, RoleRecord}
use secureflow.Trust.Policy.{Host, validate_policy, thresholds, horizons}
use secureflow.Trust.Types.{validate_clock}
use secureflow.Trust.Checks.{current_root}
use secureflow.Trust.Session.{max_state_bytes, read_file}

unfoldable pub check_state_floor : State → Text → Checked
check_state_floor state profile = do
  floor ← or_error Code.state (lookup profile state.floors)
  require (leb state.policy.minimum_sequence floor.sequence && leb floor.sequence max_sequence)
      Code.state
  if_some (λ hash. check (hex 32 hash)) floor.manifest_sha256

abbrev pub is_stored_role : Text → Bool
is_stored_role role =
    text_eq (lit "targets") role || text_eq (lit "snapshot") role || text_eq (lit "timestamp") role

unfoldable pub check_state_role : Host → Text × RoleRecord → Checked
check_state_role host (role, entry) = do
  require (is_stored_role role) Code.state
  v ← envelope host.outside entry.raw role
  preimage ← canonical host.outside (at v "signed")
  version ← number (at v "signed") (lit "version") u32_max
  require
      (text_eq entry.evidence.raw_sha256 (digest host.outside entry.raw)
        && text_eq entry.evidence.signed_sha256 (digest host.outside preimage)
        && entry.evidence.version == version)
      Code.state

-- The tests of a state that has been read.
unfoldable pub check_state : Host → State → Checked
check_state host state = do
  validate_policy host state.policy
  preimage ← canonical host.outside (host.policy_value state.policy)
  require
      (text_eq state.contract_version (lit "secureflow-catalog-trust-state-v1")
        && text_eq state.policy_sha256 (digest host.outside preimage)
        && ltb 0 state.generation
        && leb state.generation max_sequence)
      Code.state
  check (parse_time host.outside state.maximum_verification_time)
  require (length state.floors == length state.policy.profiles) Code.state
  each (check_state_floor state) state.policy.profiles
  each (check_state_role host) state.roles
  check (current_root host state)

-- `map_err(|e| error("TRUST_STATE", e))`
abbrev pub as_state_error : {A : Type 0} → Tried A → Tried A
as_state_error (ok a) = ok a
as_state_error (err e) = err Code.state

unfoldable pub load_state : Host → Option Text → Tried State
load_state host file = do
  raw ← as_state_error (read_file file max_state_bytes)
  v ← parse host.read_json raw max_state_bytes
  require (host.state_value_schema v) Code.format
  state ← or_error Code.state (host.to_state v)
  check_state host state
  ok state

abbrev pub floors_of : ℕ → List Text → Map Floor
floors_of minimum [] = []
floors_of minimum (p ∷ ps) =
    insert p (record { sequence = minimum; manifest_sha256 = none }) (floors_of minimum ps)

-- `(expires - now).num_seconds() <= 366 * 86400`
abbrev pub bootstrap_horizon : ℕ
bootstrap_horizon = 366 * 86400

unfoldable pub check_bootstrap : Host → Policy → Text → Checked
check_bootstrap host policy bytes = do
  require (text_eq (digest host.outside bytes) policy.initial_root_sha256) Code.bootstrap
  root ← envelope host.outside bytes (lit "root")
  root_profile host.outside root
  check (strict_signers host.outside root root (lit "root"))
  version ← number (at root "signed") (lit "version") u32_max
  require (version == policy.minimum_root_version) Code.bootstrap
  now ← parse_time host.outside policy.enrolled_at.verification_time
  text ← string_field (at root "signed") (lit "expires")
  expires ← parse_time host.outside text
  require (ltb now expires && leb (expires - now) bootstrap_horizon) Code.expiry

abbrev pub fresh_state : Host → Policy → Text → Text → State
fresh_state host policy bytes preimage = record {
  contract_version = lit "secureflow-catalog-trust-state-v1";
  policy = policy;
  policy_sha256 = digest host.outside preimage;
  roots = bytes ∷ [];
  roles = [];
  floors = floors_of policy.minimum_sequence policy.profiles;
  maximum_verification_time = policy.enrolled_at.verification_time;
  generation = 1;
  pending = none;
  completed = [];
}

-- The state that `initialize` writes; the directories and files that it creates are new.
unfoldable pub initialize : Host → Option Text → Policy → Tried State
initialize host root policy = do
  validate_policy host policy
  bytes ← read_file root 65_536
  check_bootstrap host policy bytes
  preimage ← canonical host.outside (host.policy_value policy)
  require (host.is_utf8 bytes) Code.format
  let state = fresh_state host policy bytes preimage
  check (current_root host state)
  ok state

pub record Enrollment : Type 0 where
  pub publisher : Text
  pub catalog : Text
  pub channel : Text
  pub profiles : List Text
  pub minimum_sequence : ℕ
  pub bootstrap_manifest_sha256 : Option Text
  pub operator : Text
  pub authorization_reference : Text
  pub expected_root_sha256 : Text
  pub clock : Clock

abbrev pub enrolled_policy : Enrollment → ℕ → Policy
enrolled_policy args version = record {
  contract_version = lit "secureflow-catalog-trust-policy-v1";
  publisher_id = args.publisher;
  publisher_label = args.publisher;
  catalog_id = args.catalog;
  channel = args.channel;
  profiles = args.profiles;
  initial_root_sha256 = args.expected_root_sha256;
  minimum_root_version = version;
  minimum_sequence = args.minimum_sequence;
  bootstrap_manifest_sha256 = args.bootstrap_manifest_sha256;
  minimum_thresholds = thresholds;
  maximum_horizon_days = horizons;
  operator = args.operator;
  authorization_reference = args.authorization_reference;
  enrolled_at = args.clock;
}

unfoldable pub enroll : Host → Option Text → Enrollment → Tried State
enroll host root args = do
  bytes ← read_file root 65_536
  require (text_eq (digest host.outside bytes) args.expected_root_sha256) Code.bootstrap
  parsed ← envelope host.outside bytes (lit "root")
  version ← number (at parsed "signed") (lit "version") u32_max
  initialize host root (enrolled_policy args version)
