-- ===== src/Trust/Receipts.antt =====
-- `authenticate` and `receipt` of crates/secureflow-knowledge/src/catalog_trust/install.rs, which
-- read the session.
use Prim.Native.Nat.{Ordering}
use secureflow.Prelude.{
  true, ℕ, Bool, false, ◌&&◌, Option, none, some, List, [], ◌∷◌, map, ok, ◌>>=◌, ◌>>◌,
}
use secureflow.Text.{Text, lit, text_eq}
use secureflow.Text.Compare.{cmp}
use secureflow.Trust.Errors.{Code, Tried, require, check, or_error}
use secureflow.Trust.Map.{Map, lookup, insert}
use secureflow.Trust.Json.{at, index, parse}
use secureflow.Trust.Wire.{digest, canonical, string_field, number, u32_max, envelope}
use secureflow.Trust.Wire.Keys.{strict_signers}
use secureflow.Trust.Types.{
  Scope, Target, Clock, State, Receipt, RoleEvidence, RoleRecord, Descriptor, target_scope,
  target_path, scope_eq,
}
use secureflow.Trust.Policy.{Host, allows}
use secureflow.Trust.Session.{encode_state, next_generation, read_file}
use secureflow.Trust.Checks.{current_root, check_link}

-- `MAX_BUNDLE_MANIFEST_BYTES` of catalog_bundle.rs
abbrev pub max_manifest_bytes : ℕ
max_manifest_bytes = 2_097_152

-- What is read of a `ParsedCatalogBundleManifest`.
pub record Parsed : Type 0 where
  pub bundle_id : Text
  pub profile : Text
  pub profile_policy_version : Text
  pub contract_version : Text
  pub validation_authority : Text
  pub manifest_sha256 : Text
  pub payload : Descriptor

unfoldable pub extension_matches : Parsed → Target → Bool
extension_matches m t =
    text_eq m.bundle_id t.bundle_id
    && text_eq m.profile t.profile
    && text_eq m.profile_policy_version t.profile_policy_version
    && text_eq m.contract_version t.manifest_contract_version
    && text_eq m.validation_authority t.validation_authority

-- `manifest` is the file of the manifest, `parse_manifest` the parser of catalog_bundle.rs.
unfoldable pub authenticate :
    Host
    → State
    → (Text → Option Parsed)
    → Scope
    → Option Text
    → Map Target
    → Tried (Parsed × Target)
authenticate host state parse_manifest scope manifest targets = do
  allows state.policy scope
  t ← or_error Code.scope (lookup scope.profile targets)
  require (scope_eq (target_scope t) scope) Code.scope
  raw ← read_file manifest max_manifest_bytes
  check (parse host.read_json raw max_manifest_bytes)
  role ← or_error Code.state (lookup (lit "targets") state.roles)
  v ← envelope host.outside role.raw (lit "targets")
  check_link host (index (at (at v "signed") "targets") (target_path scope)) raw
  parsed ← or_error Code.integrity (parse_manifest raw)
  require (extension_matches parsed t) Code.scope
  ok (parsed, t)

abbrev evidences : Map RoleRecord → Map RoleEvidence
evidences [] = []
evidences ((k, r) ∷ m) = (k, r.evidence) ∷ evidences m

-- `Iterator::min` of texts: the first of the least ones
least : Text → List Text → Text
least t [] = t
least t (u ∷ us) = least (elim (cmp u t) [ Ordering.lt ↦ u | _ ↦ t ]) us

unfoldable pub min_expires : Map RoleEvidence → Option Text
unfolding least
min_expires [] = none
min_expires ((k, r) ∷ m) = some (least r.expires (map (λ e. e.1.expires) m))

abbrev last : List Text → Option Text
last [] = none
last (t ∷ []) = some t
last (t ∷ u ∷ ts) = last (u ∷ ts)

abbrev pub limitations : List Text
limitations =
    lit "Offline acceptance cannot establish globally latest metadata or withheld revocations."
    ∷ lit
        "Signatures authenticate distributor authorization of bytes, not advisory truth, upstream identity, license rights, vulnerability validity or safe remediation."
    ∷ lit
        "Local state and clock are operator-trusted; full-machine rollback is outside this assurance."
    ∷ lit "Installed catalog queries do not enforce freshness; this receipt is an as-of statement."
    ∷ []

-- The evidence of the current root, whose text is `raw`.
unfoldable pub root_evidence : Host → State → Text → Tried RoleEvidence
root_evidence host state raw = do
  (root, _) ← current_root host state
  let s = at root "signed"
  version ← number s (lit "version") u32_max
  preimage ← canonical host.outside s
  expires ← string_field s (lit "expires")
  signers ← strict_signers host.outside root root (lit "root")
  threshold ← number (at (at s "roles") "root") (lit "threshold") 32
  ok (record {
    version = version;
    raw_sha256 = digest host.outside raw;
    signed_sha256 = digest host.outside preimage;
    expires = expires;
    accepted_signer_ids = signers;
    threshold = threshold;
  })

unfoldable pub make_receipt : Host → State → Clock → Target → Parsed → Tried Receipt
make_receipt host state clock t parsed = do
  record_of ← or_error Code.state (lookup (lit "targets") state.roles)
  v ← envelope host.outside record_of.raw (lit "targets")
  manifest_bytes ←
      number (index (at (at v "signed") "targets") (target_path (target_scope t))) (lit "length")
        max_manifest_bytes
  raw ← or_error Code.state (last state.roots)
  root ← root_evidence host state raw
  let metadata = insert (lit "root") root (evidences state.roles)
  expiry ← or_error Code.state (min_expires metadata)
  ok (record {
    contract_version = lit "secureflow-catalog-trust-receipt-v1";
    operation = lit "verify";
    installation = lit "not-requested";
    transaction_id = none;
    output = none;
    integrity = lit "verified";
    publisher_authenticity = lit "tuf-root-authorized";
    freshness = lit "within-local-policy-as-of";
    rollback = lit "accepted-against-local-state";
    scope = target_scope t;
    release_sequence = t.release_sequence;
    initial_root_sha256 = state.policy.initial_root_sha256;
    current_root_sha256 = digest host.outside raw;
    metadata = metadata;
    manifest_sha256 = parsed.manifest_sha256;
    manifest_bytes = manifest_bytes;
    database_sha256 = parsed.payload.database_sha256;
    database_bytes = parsed.payload.database_bytes;
    policy_sha256 = state.policy_sha256;
    clock = clock;
    earliest_expiry = expiry;
    state_generation = state.generation;
    reserves_acceptance = false;
    validation_authority = lit "human-only";
    limitations = limitations;
  })

abbrev pub complete : Receipt → Receipt
complete r = record r { installation = lit "complete" }

-- The receipt with its output and generation; the digest of its `encode` is the transaction.
unfoldable pub pending_receipt : Host → Receipt → Text → ℕ → Receipt
pending_receipt host r path generation =
    let draft = record r {
      operation = lit "install";
      installation = lit "pending";
      output = some path;
      reserves_acceptance = true;
      state_generation = generation;
    } in
    record draft { transaction_id = some (digest host.outside (host.encode_receipt draft)) }

-- The state with the receipt completed.
abbrev pub completed_state : State → Text → Receipt → ℕ → Clock → State
completed_state state id receipt generation clock = record state {
  completed = insert id (complete receipt) state.completed;
  pending = none;
  generation = generation;
  maximum_verification_time = clock.verification_time;
}

-- The receipt of the installation and its transaction, if the completed state fits.
unfoldable pub reserve : Host → State → Clock → Text → Receipt → Tried (Receipt × Text)
reserve host state clock path r = do
  generation ← or_error Code.state (next_generation state.generation)
  let receipt = pending_receipt host r path generation
  id ← or_error Code.state receipt.transaction_id
  later ← or_error Code.state (next_generation receipt.state_generation)
  check (encode_state host (completed_state state id receipt later clock))
  ok (receipt, id)
