-- ===== src/Tests/Scope.antt =====
-- The theorems on crates/secureflow-web/src/scope.rs at a scope with one repository and two assets.
use secureflow.Prelude.{◌≡◌, refl, arith, true, false, none, some, [], ◌∷◌, Passes, ok}
use secureflow.Text.{lit, text_eq, strip_prefix}
use secureflow.Text.Chars.{chars, trim}
use secureflow.Text.Compare.{cmp}
use secureflow.Text.Format.{encode_hex}
use secureflow.Orchestrator.Validate.{valid_sha256, valid_prefixed_hash}
use secureflow.Scope.Types.{
  WebScope, WebScopeDraft, TargetKind, WebScheme, AuthorizationStatus, NetworkExecution, Host,
  cmp_asset, cmp_repository,
}
use secureflow.Scope.Addresses.{valid_dns_name, valid_label, is_ip_addr}
use secureflow.Scope.Validate.{
  valid_text, expected_scope_id, repositories_from, validate_repositories, valid_target,
  assets_from, validate_assets, instant, validate_identity, validate_authorization, validate_policy,
  validate_limits, validate_structure, validate_at,
}
use secureflow.Scope.Seal.{seal_scope, parse_scope, unsealed, with_scope_id}
use secureflow.Scope.Laws.{IsOffline, validate_at-IsOffline, seal_scope-parse_scope}
use secureflow.Tests.Samples.{clock, sample_sha}
use secureflow.Tests.Plans.{zero_hash}

abbrev draft : WebScopeDraft
draft = record {
  authorization = record {
    status = AuthorizationStatus.authorized;
    reference = lit "AUTH";
    reviewer = lit "ana";
    expires_at = lit "2027-01-01T00:00:00Z+00";
  };
  repositories = record { label = lit "service"; root_sha256 = sample_sha } ∷ [];
  assets =
      record {
        kind = TargetKind.dns_name;
        value = lit "www.example-1.org";
        include_subdomains = true;
        schemes = WebScheme.http ∷ WebScheme.https ∷ [];
        ports = 80 ∷ 443 ∷ [];
      }
      ∷ record {
        kind = TargetKind.ip_address;
        value = lit "2001:db8::192.0.2.1";
        include_subdomains = false;
        schemes = WebScheme.https ∷ [];
        ports = 443 ∷ [];
      }
      ∷ [];
  policy = record {
    passive_only = true;
    network_execution = NetworkExecution.disabled;
    follow_redirects = false;
    third_party_scanning = false;
  };
  limits = record {
    max_files = 100;
    max_file_bytes = 1024;
    max_total_bytes = 4096;
    max_routes = 100;
    max_sources = 100;
    max_requests = 0;
    requests_per_minute = 0;
    max_concurrency = 0;
  };
}

-- Addresses that the standard library reads, and that it does not.
addresses :
    (is_ip_addr (lit "192.0.2.1") ≡ true)
    × (is_ip_addr (lit "::") ≡ true)
    × (is_ip_addr (lit "fe80::1:2") ≡ true)
    × (is_ip_addr (lit "1:2:3:4:5:6:7:8") ≡ true)
    × (is_ip_addr (lit "192.0.2.256") ≡ false)
    × (is_ip_addr (lit "192.0.02.1") ≡ false)
    × (is_ip_addr (lit "1:2:3") ≡ false)
    × (is_ip_addr (lit "1::2::3") ≡ false)
unfolding is_ip_addr lit
addresses = (refl, refl, refl, refl, refl, refl, refl, refl)

abbrev bare : Host
bare = record {
  parse = clock;
  now = some (lit "2026-01-01T00:00:00Z");
  sha256 = zero_hash;
  to_vec = λ scope. scope.created_at;
  read_draft = λ bytes. some draft;
  read_scope = λ bytes. none;
}

abbrev scope : WebScope
scope = with_scope_id bare (unsealed (lit "2026-01-01T00:00:00Z") draft)

-- The host of the scope reads it from every document.
abbrev host : Host
host = record bare { read_scope = λ bytes. some scope }

sealed : seal_scope host (lit "{}") none ≡ ok scope
unfolding seal_scope unsealed with_scope_id expected_scope_id encode_hex validate_structure
    validate_identity validate_authorization validate_repositories repositories_from validate_assets
    assets_from valid_target valid_dns_name valid_label is_ip_addr validate_policy validate_limits
    instant valid_text valid_sha256 valid_prefixed_hash cmp_asset cmp_repository cmp text_eq
    strip_prefix trim chars lit
sealed = refl

seal_scope-parse_scope_example : parse_scope host (lit "{}") 21 ≡ ok scope
unfolding lit unsealed with_scope_id
seal_scope-parse_scope_example =
    seal_scope-parse_scope host (lit "{}") (lit "{}") none scope 21 23 sealed refl (omega arith)
      (omega arith) refl (omega arith)

scope_passes : Passes (validate_at host 21 scope)
unfolding validate_at unsealed with_scope_id expected_scope_id encode_hex validate_structure
    validate_identity validate_authorization validate_repositories repositories_from validate_assets
    assets_from valid_target valid_dns_name valid_label is_ip_addr validate_policy validate_limits
    instant valid_text valid_sha256 valid_prefixed_hash cmp_asset cmp_repository cmp text_eq
    strip_prefix trim chars lit
scope_passes = refl

validate_at-IsOffline_example : IsOffline host 21 scope
validate_at-IsOffline_example = validate_at-IsOffline host 21 scope scope_passes
