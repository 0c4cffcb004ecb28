-- ===== src/Trust/Checks.antt =====
-- The functions of crates/secureflow-knowledge/src/catalog_trust/consumer.rs that only read: the
-- links between documents, the current root, and the tests of a new document against the state.
use secureflow.Prelude.{
  ℕ, ◌-◌, ◌*◌, String, Option, none, some, List, [], ◌∷◌, ltb, leb, ◌==◌, length, is_some,
  if◌then◌else◌, ok, err, ◌>>=◌, ◌>>◌, if_some,
}
use secureflow.Text.{Text, lit, text_eq}
use secureflow.Trust.Errors.{Code, Tried, Checked, require, check, or_error, try_fold}
use secureflow.Trust.Map.{lookup}
use secureflow.Trust.Json.{Value, at, index, get, parse}
use secureflow.Trust.Wire.{
  parse_time, digest, canonical, hex, string_field, number, closed, u32_max, envelope,
}
use secureflow.Trust.Wire.Keys.{root_profile, strict_signers}
use secureflow.Trust.Types.{Clock, State, RoleEvidence, RoleRecord, Policy}
use secureflow.Trust.Policy.{Host, Event}

unfoldable pub evidence : Host → Value → Value → Text → Text → Tried RoleEvidence
evidence host root v raw role = do
  let s = at v "signed"
  version ← number s (lit "version") u32_max
  preimage ← canonical host.outside s
  expires ← string_field s (lit "expires")
  signers ← strict_signers host.outside root v role
  threshold ← number (index (at (at root "signed") "roles") role) (lit "threshold") 32
  ok (record {
    version = version;
    raw_sha256 = digest host.outside raw;
    signed_sha256 = digest host.outside preimage;
    expires = expires;
    accepted_signer_ids = signers;
    threshold = threshold;
  })

-- The record that `retain_role` makes of a document; its text must be UTF-8.
unfoldable pub role_record : Host → Value → Value → Text → Text → Tried RoleRecord
role_record host root v bytes role = do
  ev ← evidence host root v bytes role
  require (host.is_utf8 bytes) Code.format
  ok (record { raw = bytes; evidence = ev })

-- A call of the tuf crate, which returns the database with the update.
unfoldable pub tuf_update : Host → List Event → Event → Tried (List Event)
tuf_update host db event = do require (host.tuf db event) Code.signature; ok (event ∷ db)

-- One round of the loop over the later roots of the lineage.
unfoldable pub next_root : Host → Value × List Event → Text → Tried (Value × List Event)
next_root host (root, db) bytes = do
  next ← envelope host.outside bytes (lit "root")
  root_profile host.outside next
  check (strict_signers host.outside root next (lit "root"))
  check (strict_signers host.outside next next (lit "root"))
  db' ← tuf_update host db (Event.update_root bytes)
  ok (next, db')

unfoldable pub first_root : Host → Policy → Text → Tried (Value × List Event)
first_root host policy initial = do
  require (text_eq (digest host.outside initial) policy.initial_root_sha256) Code.state
  root ← envelope host.outside initial (lit "root")
  root_profile host.outside root
  check (strict_signers host.outside root root (lit "root"))
  version ← number (at root "signed") (lit "version") u32_max
  require (version == policy.minimum_root_version) Code.state
  db ← tuf_update host [] (Event.from_trusted_root initial)
  ok (root, db)

unfoldable pub lineage : Host → Policy → List Text → Tried (Value × List Event)
lineage host policy [] = err Code.state
lineage host policy (initial ∷ later) = do
  start ← first_root host policy initial
  try_fold (next_root host) start later

unfoldable pub current_root : Host → State → Tried (Value × List Event)
current_root host state = lineage host state.policy state.roots

-- `(expires - now).num_seconds()` of two instants in whole seconds, the first the later one.
unfoldable pub expiry : Host → State → Clock → Value → Text → Checked
expiry host state clock v role = do
  now ← parse_time host.outside clock.verification_time
  text ← string_field (at v "signed") (lit "expires")
  expires ← parse_time host.outside text
  require (ltb now expires) Code.expiry
  days ← or_error Code.state (lookup role state.policy.maximum_horizon_days)
  require (leb (expires - now) (days * 86400)) Code.expiry

-- The child that a role names: snapshot.json for the timestamp, targets.json for the snapshot.
abbrev pub child_of : Text → Option String
child_of role =
    if text_eq role (lit "timestamp")
    then some "snapshot.json"
    else if text_eq role (lit "snapshot")
    then some "targets.json"
    else none

-- A parent must not name an older child than the parent that is kept.
unfoldable pub child_floor : Host → RoleRecord → Value → Text → String → Checked
child_floor host old v role child = do
  old_value ← envelope host.outside old.raw role
  ov ← number (at (at (at old_value "signed") "meta") child) (lit "version") u32_max
  nv ← number (at (at (at v "signed") "meta") child) (lit "version") u32_max
  require (leb ov nv) Code.rollback

-- At an equal version the signed part is the same.
unfoldable pub same_content : Host → RoleRecord → Value → ℕ → Checked
same_content host old v version =
    if version == old.evidence.version
    then (do
      preimage ← canonical host.outside (at v "signed")
      require (text_eq (digest host.outside preimage) old.evidence.signed_sha256) Code.equivocation)
    else ok tt

unfoldable pub record_floor : Host → Text → Value → RoleRecord → Checked
record_floor host role v old = do
  version ← number (at v "signed") (lit "version") u32_max
  require (leb old.evidence.version version) Code.rollback
  same_content host old v version
  if_some (child_floor host old v role) (child_of role)

unfoldable pub role_floor : Host → State → Text → Value → Checked
role_floor host state role v = if_some (record_floor host role v) (lookup role state.roles)

unfoldable pub target_link : Value → Checked
target_link v = do
  check (number v (lit "length") 2_097_152)
  closed (at v "hashes") ("sha256" ∷ [])
  text ← string_field (at v "hashes") (lit "sha256")
  check (hex 32 text)

unfoldable pub metadata_link : Value → String → Tried Value
metadata_link v name = do
  closed (at (at v "signed") "meta") (name ∷ [])
  let link = at (at (at v "signed") "meta") name
  check (number link (lit "version") u32_max)
  target_link link
  ok link

-- The version of a link to metadata is that of the child.
unfoldable pub version_link : Host → Value → Text → Checked
version_link host v bytes =
    if is_some (get v (lit "version"))
    then (do
      child ← parse host.read_json bytes 2_097_152
      version ← number v (lit "version") u32_max
      child_version ← number (at child "signed") (lit "version") u32_max
      require (version == child_version) Code.rollback)
    else ok tt

unfoldable pub check_link : Host → Value → Text → Checked
check_link host v bytes = do
  target_link v
  version_link host v bytes
  size ← number v (lit "length") 2_097_152
  require (size == length bytes) Code.integrity
  text ← string_field (at v "hashes") (lit "sha256")
  require (text_eq text (digest host.outside bytes)) Code.integrity
