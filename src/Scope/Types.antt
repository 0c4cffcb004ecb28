-- ===== src/Scope/Types.antt =====
-- The data of crates/secureflow-web/src/scope.rs, and what it takes from other crates.
use Prim.Native.Nat.{compare, Ordering}
use secureflow.Prelude.{ℕ, ◌*◌, String, Bool, true, false, Option, List, map, Result}
use secureflow.Prelude.Sorting.{◌then_with◌}
use secureflow.Text.{Text, lit}
use secureflow.Text.Compare.{cmp}
use secureflow.Run.Fields.{TimeParser}

abbrev pub scope_version : Text
scope_version = lit "secureflow-web-scope-v1"

abbrev pub max_scope_bytes : ℕ
max_scope_bytes = 1024 * 1024

pub data AuthorizationStatus : Type 0 where
  authorized : AuthorizationStatus

pub record ScopeAuthorization : Type 0 where
  pub status : AuthorizationStatus
  pub reference : Text
  pub reviewer : Text
  pub expires_at : Text

pub record AuthorizedRepository : Type 0 where
  pub label : Text
  pub root_sha256 : Text

pub data TargetKind : Type 0 where
  dns_name ip_address : TargetKind

pub data WebScheme : Type 0 where
  http https : WebScheme

pub record AuthorizedAsset : Type 0 where
  pub kind : TargetKind
  pub value : Text
  pub include_subdomains : Bool
  pub schemes : List WebScheme
  pub ports : List ℕ

pub data NetworkExecution : Type 0 where
  disabled : NetworkExecution

pub record ScopePolicy : Type 0 where
  pub passive_only : Bool
  pub network_execution : NetworkExecution
  pub follow_redirects : Bool
  pub third_party_scanning : Bool

pub record ScopeLimits : Type 0 where
  pub max_files : ℕ
  pub max_file_bytes : ℕ
  pub max_total_bytes : ℕ
  pub max_routes : ℕ
  pub max_sources : ℕ
  pub max_requests : ℕ
  pub requests_per_minute : ℕ
  pub max_concurrency : ℕ

pub record WebScopeDraft : Type 0 where
  pub authorization : ScopeAuthorization
  pub repositories : List AuthorizedRepository
  pub assets : List AuthorizedAsset
  pub policy : ScopePolicy
  pub limits : ScopeLimits

pub record WebScope : Type 0 where
  pub contract_version : Text
  pub scope_id : Text
  pub created_at : Text
  pub draft : WebScopeDraft

pub data ScopeError : Type 0 where
  invalid_field : String → ScopeError
  authorization_expired : Text → ScopeError
  json : ScopeError
  timestamp : ScopeError

abbrev pub Checked : Type 0
Checked = Result ScopeError (Unit {0})

-- What the code calls: `time` (parsing, and the formatted current time, which can fail), `sha2` and
-- `serde_json` (writing a scope, reading a draft or a scope).
pub record Host : Type 0 where
  pub parse : TimeParser
  pub now : Option Text
  pub sha256 : Text → List ℕ
  pub to_vec : WebScope → Text
  pub read_draft : Text → Option WebScopeDraft
  pub read_scope : Text → Option WebScope

-- The derived `Ord` of the enumerations and the records: variants and fields in order.
abbrev pub kind_rank : TargetKind → ℕ
kind_rank TargetKind.dns_name = 0
kind_rank TargetKind.ip_address = 1

abbrev pub scheme_rank : WebScheme → ℕ
scheme_rank WebScheme.http = 0
scheme_rank WebScheme.https = 1

abbrev pub bool_rank : Bool → ℕ
bool_rank false = 0
bool_rank true = 1

unfoldable pub cmp_repository : AuthorizedRepository → AuthorizedRepository → Ordering
cmp_repository a b = cmp a.label b.label then_with cmp a.root_sha256 b.root_sha256

unfoldable pub cmp_asset : AuthorizedAsset → AuthorizedAsset → Ordering
cmp_asset a b =
    compare (kind_rank a.kind) (kind_rank b.kind)
    then_with cmp a.value b.value
    then_with compare (bool_rank a.include_subdomains) (bool_rank b.include_subdomains)
    then_with cmp (map scheme_rank a.schemes) (map scheme_rank b.schemes)
    then_with cmp a.ports b.ports
