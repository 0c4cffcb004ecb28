-- ===== src/Trust/Policy.antt =====
-- `Target::validate`, `Policy::validate`, `Policy::allows` and what a session needs of the host, for
-- crates/secureflow-knowledge/src/catalog_trust/types.rs.
use secureflow.Prelude.{
  zero, suc, false, true, is_some, ℕ, Bool, ◌&&◌, not, Option, List, [], ◌∷◌, ltb, leb, ◌==◌,
  length, any, is_empty, ◌>>◌, each, if_some,
}
use secureflow.Text.{Text, lit, text_eq, strip_prefix}
use secureflow.Text.Chars.{trim}
use secureflow.Trust.Errors.{Code, Checked, require, check}
use secureflow.Trust.Map.{Map}
use secureflow.Trust.Json.{Value, max_sequence}
use secureflow.Trust.Wire.{Outside, hex, u32_max}
use secureflow.Trust.Types.{
  Scope, Target, Policy, State, Receipt, validate_scope, validate_clock, target_scope, scope_eq,
}

-- What the tuf crate is asked in the life of one `Database`.
pub data Event : Type 0 where
  from_trusted_root : Text → Event
  update_root : Text → Event
  update_timestamp : ℕ → Text → Event
  update_snapshot : ℕ → Text → Event
  update_targets : ℕ → Text → Event

-- Besides the wire profile: the JSON schemas, serde, UTF-8, and the tuf crate, which accepts or
-- refuses an update by the updates that the database has accepted so far, the last one first.
pub record Host : Type 0 where
  pub outside : Outside
  pub open outside use *
  pub target_schema : Target → Bool
  pub policy_schema : Policy → Bool
  pub state_schema : State → Bool
  pub state_value_schema : Value → Bool
  pub to_target : Value → Option Target
  pub to_state : Value → Option State
  pub policy_value : Policy → Value
  pub encode_state_json : State → Text
  pub encode_receipt : Receipt → Text
  pub is_utf8 : Text → Bool
  pub tuf : List Event → Event → Bool

unfoldable pub drop_bytes : ℕ → Text → Text
drop_bytes zero s = s
drop_bytes (suc n) [] = []
drop_bytes (suc n) (c ∷ s) = drop_bytes n s

unfoldable pub validate_target : Host → Target → Checked
validate_target host t = do
  require (host.target_schema t) Code.format
  validate_scope (target_scope t)
  require
      (text_eq t.contract_version (lit "secureflow-catalog-target-v1")
        && text_eq t.profile_policy_version (lit "secureflow-catalog-profile-policy-v2")
        && text_eq t.manifest_contract_version (lit "secureflow-catalog-bundle-v1")
        && text_eq t.validation_authority (lit "external-records-require-human-validation")
        && ltb 0 t.release_sequence
        && leb t.release_sequence max_sequence
        && is_some (strip_prefix (lit "sf_catalog_bundle_") t.bundle_id)
        && length t.bundle_id == 82)
      Code.scope
  check (hex 32 (drop_bytes 18 t.bundle_id))

abbrev pub thresholds : Map ℕ
thresholds = (lit "root", 2) ∷ (lit "snapshot", 1) ∷ (lit "targets", 2) ∷ (lit "timestamp", 1) ∷ []

abbrev pub horizons : Map ℕ
horizons =
    (lit "root", 366) ∷ (lit "snapshot", 30) ∷ (lit "targets", 30) ∷ (lit "timestamp", 7) ∷ []

unfoldable pub counts_eq : Map ℕ → Map ℕ → Bool
counts_eq [] [] = true
counts_eq ((j, m) ∷ xs) ((k, n) ∷ ys) = text_eq j k && m == n && counts_eq xs ys
counts_eq _ _ = false

-- `Policy::scope`
abbrev pub policy_scope : Policy → Text → Scope
policy_scope p profile = record {
  publisher_id = p.publisher_id;
  catalog_id = p.catalog_id;
  channel = p.channel;
  profile = profile;
}

-- The set of the profiles is as long as their list.
unfoldable pub all_unique : List Text → Bool
all_unique [] = true
all_unique (t ∷ ts) = not (any (text_eq t) ts) && all_unique ts

unfoldable pub validate_policy : Host → Policy → Checked
validate_policy host p = do
  require (host.policy_schema p) Code.format
  require
      (text_eq p.contract_version (lit "secureflow-catalog-trust-policy-v1")
        && not (is_empty (trim p.operator))
        && leb (length p.operator) 256
        && not (is_empty (trim p.authorization_reference))
        && leb (length p.authorization_reference) 1024
        && not (is_empty (trim p.publisher_label))
        && leb (length p.publisher_label) 256
        && leb p.minimum_sequence max_sequence
        && ltb 0 p.minimum_root_version
        && leb p.minimum_root_version u32_max)
      Code.bootstrap
  check (hex 32 p.initial_root_sha256)
  if_some (λ pin. check (hex 32 pin) >> require (length p.profiles == 1) Code.bootstrap)
      p.bootstrap_manifest_sha256
  validate_clock host.outside p.enrolled_at
  require (not (is_empty p.profiles) && leb (length p.profiles) 3) Code.scope
  require (all_unique p.profiles) Code.scope
  each (λ profile. validate_scope (policy_scope p profile)) p.profiles
  require (counts_eq p.minimum_thresholds thresholds && counts_eq p.maximum_horizon_days horizons)
      Code.bootstrap

unfoldable pub allows : Policy → Scope → Checked
allows p s = do
  validate_scope s
  require (any (text_eq s.profile) p.profiles && scope_eq (policy_scope p s.profile) s) Code.scope
