-- ===== src/Trust/Types.antt =====
-- The records of crates/secureflow-knowledge/src/catalog_trust/types.rs, with the checks of their
-- fields. What serde and the schemas of the repository decide is in the record `Host`.
use secureflow.Prelude.{
  ◌||◌, ℕ, String, Bool, false, ◌&&◌, not, Option, List, [], ◌∷◌, ◌++◌, leb, length, is_empty, ◌>>◌,
}
use secureflow.Text.{Text, lit, text_eq}
use secureflow.Text.Chars.{trim}
use secureflow.Trust.Errors.{Code, Checked, require, check}
use secureflow.Trust.Map.{Map}
use secureflow.Trust.Wire.{Outside, parse_time, identifier}

pub record Scope : Type 0 where
  pub publisher_id : Text
  pub catalog_id : Text
  pub channel : Text
  pub profile : Text

-- `[..].contains(&text)`
abbrev pub one_of : List String → Text → Bool
one_of [] t = false
one_of (s ∷ ss) t = text_eq (lit s) t || one_of ss t

unfoldable pub validate_scope : Scope → Checked
validate_scope s =
    require
      (identifier s.publisher_id
        && identifier s.catalog_id
        && identifier s.channel
        && one_of ("core" ∷ "malicious" ∷ "full" ∷ []) s.profile)
      Code.scope

-- `Scope::target`
unfoldable pub target_path : Scope → Text
target_path s =
    lit "catalogs/"
    ++ (s.catalog_id
        ++ (lit "/" ++ (s.channel ++ (lit "/" ++ (s.profile ++ lit ".manifest.json")))))

unfoldable pub scope_eq : Scope → Scope → Bool
scope_eq a b =
    text_eq a.publisher_id b.publisher_id
    && text_eq a.catalog_id b.catalog_id
    && text_eq a.channel b.channel
    && text_eq a.profile b.profile

pub record Target : Type 0 where
  pub contract_version : Text
  pub publisher_id : Text
  pub catalog_id : Text
  pub channel : Text
  pub profile : Text
  pub profile_policy_version : Text
  pub bundle_id : Text
  pub release_sequence : ℕ
  pub manifest_contract_version : Text
  pub validation_authority : Text

abbrev pub target_scope : Target → Scope
target_scope t = record {
  publisher_id = t.publisher_id;
  catalog_id = t.catalog_id;
  channel = t.channel;
  profile = t.profile;
}

pub record Clock : Type 0 where
  pub verification_time : Text
  pub time_source : Text
  pub time_reference : Text

unfoldable pub validate_clock : Outside → Clock → Checked
validate_clock out c = do
  check (parse_time out c.verification_time)
  require
      (one_of ("operator-attested" ∷ "operator-trusted-system-clock" ∷ []) c.time_source
        && not (is_empty (trim c.time_reference))
        && leb (length c.time_reference) 1024)
      Code.clock

pub record Policy : Type 0 where
  pub contract_version : Text
  pub publisher_id : Text
  pub publisher_label : Text
  pub catalog_id : Text
  pub channel : Text
  pub profiles : List Text
  pub initial_root_sha256 : Text
  pub minimum_root_version : ℕ
  pub minimum_sequence : ℕ
  pub bootstrap_manifest_sha256 : Option Text
  pub minimum_thresholds : Map ℕ
  pub maximum_horizon_days : Map ℕ
  pub operator : Text
  pub authorization_reference : Text
  pub enrolled_at : Clock

pub record RoleEvidence : Type 0 where
  pub version : ℕ
  pub raw_sha256 : Text
  pub signed_sha256 : Text
  pub expires : Text
  pub accepted_signer_ids : List Text
  pub threshold : ℕ

pub record Receipt : Type 0 where
  pub contract_version : Text
  pub operation : Text
  pub installation : Text
  pub transaction_id : Option Text
  pub output : Option Text
  pub integrity : Text
  pub publisher_authenticity : Text
  pub freshness : Text
  pub rollback : Text
  pub scope : Scope
  pub release_sequence : ℕ
  pub initial_root_sha256 : Text
  pub current_root_sha256 : Text
  pub metadata : Map RoleEvidence
  pub manifest_sha256 : Text
  pub manifest_bytes : ℕ
  pub database_sha256 : Text
  pub database_bytes : ℕ
  pub policy_sha256 : Text
  pub clock : Clock
  pub earliest_expiry : Text
  pub state_generation : ℕ
  pub reserves_acceptance : Bool
  pub validation_authority : Text
  pub limitations : List Text

pub record Floor : Type 0 where
  pub sequence : ℕ
  pub manifest_sha256 : Option Text

pub record RoleRecord : Type 0 where
  pub raw : Text
  pub evidence : RoleEvidence

-- The fields of `CatalogDatabaseDescriptor` (catalog_bundle.rs) that the trust code reads.
pub record Descriptor : Type 0 where
  pub database_sha256 : Text
  pub database_bytes : ℕ

pub record Pending : Type 0 where
  pub receipt : Receipt
  pub descriptor : Descriptor

pub record State : Type 0 where
  pub contract_version : Text
  pub policy : Policy
  pub policy_sha256 : Text
  pub roots : List Text
  pub roles : Map RoleRecord
  pub floors : Map Floor
  pub maximum_verification_time : Text
  pub generation : ℕ
  pub pending : Option Pending
  pub completed : Map Receipt
