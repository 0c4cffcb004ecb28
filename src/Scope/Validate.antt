-- ===== src/Scope/Validate.antt =====
-- `WebScope::validate_structure`, `validate_at` and `authorizes_repository` of
-- crates/secureflow-web/src/scope.rs. Its `valid_sha256` and `valid_prefixed_hash` are the functions of
-- these names in crates/secureflow-orchestrator/src/lib.rs.
use secureflow.Prelude.{
  ◌++◌, ℕ, ◌*◌, Bool, true, not, ◌&&◌, ◌||◌, Option, none, some, List, [], ◌∷◌, map, leb, ltb, ◌==◌,
  length, any, is_empty, is_some_and, is_none, Result, ok, err, refuse, ◌>>=◌, ◌>>◌,
}
use secureflow.Prelude.Sorting.{is_lt}
use secureflow.Text.{Text, text_eq, lit}
use secureflow.Text.Chars.{trim}
use secureflow.Text.Format.{encode_hex}
use secureflow.Orchestrator.Validate.{valid_sha256, valid_prefixed_hash}
use secureflow.Scope.Types.{
  WebScope, AuthorizationStatus, AuthorizedRepository, AuthorizedAsset, TargetKind,
  NetworkExecution, ScopePolicy, ScopeLimits, ScopeError, Checked, Host, scope_version,
  cmp_repository, cmp_asset, scheme_rank, invalid_field, authorization_expired,
}
use secureflow.Scope.Addresses.{valid_dns_name, is_ip_addr}

unfoldable pub valid_text : Text → ℕ → Bool
valid_text value maximum =
    not (is_empty (trim value)) && leb (length value) maximum && not (any (λ c. c == 0) value)

-- `values.windows(2).all(|pair| pair[0] < pair[1])`, on the ranks of the values
abbrev pub strictly_sorted_unique : List ℕ → Bool
strictly_sorted_unique (a ∷ b ∷ rest) = ltb a b && strictly_sorted_unique (b ∷ rest)
strictly_sorted_unique _ = true

unfoldable pub expected_scope_id : Host → WebScope → Text
expected_scope_id host scope =
    lit "sf_web_scope_" ++ encode_hex (host.sha256 (host.to_vec (record scope { scope_id = [] })))

-- `previous.is_some_and(|item| item >= repository)`
abbrev pub not_after : Option AuthorizedRepository → AuthorizedRepository → Bool
not_after previous repository =
    is_some_and (λ item. not (is_lt (cmp_repository item repository))) previous

unfoldable pub repositories_from : Option AuthorizedRepository → List AuthorizedRepository → Checked
repositories_from previous [] = ok tt
repositories_from previous (repository ∷ rest) = do
  refuse (not (valid_text repository.label 200) || not (valid_sha256 repository.root_sha256))
      (invalid_field "repositories")
  refuse (not_after previous repository) (invalid_field "repositories order")
  repositories_from (some repository) rest

unfoldable pub validate_repositories : List AuthorizedRepository → Checked
validate_repositories repositories =
    refuse (is_empty repositories || ltb 1000 (length repositories)) (invalid_field "repositories")
    >> repositories_from none repositories

unfoldable pub valid_target : AuthorizedAsset → TargetKind → Bool
valid_target asset TargetKind.dns_name = valid_dns_name asset.value
valid_target asset TargetKind.ip_address = not asset.include_subdomains && is_ip_addr asset.value

unfoldable pub assets_from : Option AuthorizedAsset → List AuthorizedAsset → Checked
assets_from previous [] = ok tt
assets_from previous (asset ∷ rest) = do
  refuse
      (not (valid_target asset asset.kind)
        || is_empty asset.schemes
        || ltb 2 (length asset.schemes)
        || not (strictly_sorted_unique (map scheme_rank asset.schemes))
        || is_empty asset.ports
        || ltb 100 (length asset.ports)
        || any (λ port. port == 0) asset.ports
        || not (strictly_sorted_unique asset.ports)
        || is_some_and (λ item. not (is_lt (cmp_asset item asset))) previous)
      (invalid_field "assets")
  assets_from (some asset) rest

unfoldable pub validate_assets : List AuthorizedAsset → Checked
validate_assets assets =
    refuse (ltb 100_000 (length assets)) (invalid_field "assets") >> assets_from none assets

unfoldable pub instant : Host → Text → ScopeError → Result ScopeError ℕ
instant host value error = elim (host.parse value) [ none ↦ err error | some t ↦ ok t ]

unfoldable pub validate_identity : Host → WebScope → Checked
validate_identity host scope =
    refuse
      (not (text_eq scope.contract_version scope_version)
        || not (valid_prefixed_hash scope.scope_id (lit "sf_web_scope_"))
        || is_none (host.parse scope.created_at)
        || not (text_eq scope.scope_id (expected_scope_id host scope)))
      (invalid_field "identity")

abbrev pub is_authorized : AuthorizationStatus → Bool
is_authorized AuthorizationStatus.authorized = true

unfoldable pub validate_authorization : Host → WebScope → Checked
validate_authorization host scope = do
  created_at ← instant host scope.created_at (invalid_field "created_at")
  expires_at ←
      instant host scope.draft.authorization.expires_at (invalid_field "authorization.expires_at")
  refuse
      (not (is_authorized scope.draft.authorization.status)
        || not (valid_text scope.draft.authorization.reference 300)
        || not (valid_text scope.draft.authorization.reviewer 200)
        || leb expires_at created_at)
      (invalid_field "authorization")

abbrev pub is_disabled : NetworkExecution → Bool
is_disabled NetworkExecution.disabled = true

unfoldable pub validate_policy : ScopePolicy → Checked
validate_policy p =
    refuse
      (not p.passive_only
        || not (is_disabled p.network_execution)
        || p.follow_redirects
        || p.third_party_scanning)
      (invalid_field "policy")

-- `(low..=high).contains(&value)`
abbrev pub within : ℕ → ℕ → ℕ → Bool
within low high value = leb low value && leb value high

unfoldable pub validate_limits : ScopeLimits → Checked
validate_limits l =
    refuse
      (not (within 1 1_000_000 l.max_files)
        || not (within 1 (64 * 1024 * 1024) l.max_file_bytes)
        || ltb l.max_total_bytes l.max_file_bytes
        || ltb (16 * 1024 * 1024 * 1024) l.max_total_bytes
        || not (within 1 2_000_000 l.max_routes)
        || not (within 1 100_000 l.max_sources)
        || not (l.max_requests == 0)
        || not (l.requests_per_minute == 0)
        || not (l.max_concurrency == 0))
      (invalid_field "limits")

unfoldable pub validate_structure : Host → WebScope → Checked
validate_structure host scope = do
  validate_identity host scope
  validate_authorization host scope
  validate_repositories scope.draft.repositories
  validate_assets scope.draft.assets
  validate_policy scope.draft.policy
  validate_limits scope.draft.limits

unfoldable pub validate_at : Host → ℕ → WebScope → Checked
validate_at host now scope = do
  validate_structure host scope
  expiry ←
      instant host scope.draft.authorization.expires_at (invalid_field "authorization.expires_at")
  refuse (leb expiry now) (authorization_expired scope.draft.authorization.expires_at)

unfoldable pub authorizes_repository : WebScope → Text → Bool
authorizes_repository scope root_sha256 =
    any (λ repository. text_eq repository.root_sha256 root_sha256) scope.draft.repositories
