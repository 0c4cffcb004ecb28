-- ===== src/Scope/Laws.antt =====
-- What the scopes that crates/secureflow-web/src/scope.rs accepts allow, and sealing and reading.
use Prim.Native.Nat.{Ordering}
use secureflow.Prelude.{
  ◌≡◌, ◌⊎◌, inl, inr, refl, arith, ℕ, ◌<◌, ◌≤◌, true, false, Option, none, some, List, [], ◌∷◌, All,
  All-map, length, Passes, ok,
}
use secureflow.Prelude.Sorting.{IsOrder}
use secureflow.Prelude.Sorting.Laws.{then_with-IsOrder, comparing-IsOrder}
use secureflow.Text.{Text, text_eq_iff}
use secureflow.Text.Compare.{cmp-IsOrder}
use secureflow.Orchestrator.Validate.{valid_sha256}
use secureflow.Scope.Types.{
  WebScope, AuthorizedRepository, AuthorizedAsset, ScopeError, Host, cmp_repository,
  max_scope_bytes,
}
use secureflow.Scope.Validate.{
  expected_scope_id, repositories_from, validate_repositories, valid_target, assets_from,
  validate_assets, instant, validate_identity, validate_authorization, validate_policy,
  validate_limits, validate_structure, validate_at,
}
use secureflow.Scope.Seal.{seal_scope, parse_scope}

cmp_repository-IsOrder : IsOrder cmp_repository
unfolding cmp_repository
cmp_repository-IsOrder =
    then_with-IsOrder (comparing-IsOrder (λ (r : AuthorizedRepository). r.label) cmp-IsOrder)
      (comparing-IsOrder (λ (r : AuthorizedRepository). r.root_sha256) cmp-IsOrder)

-- Every repository comes before every later one.
abbrev pub Ascends : List AuthorizedRepository → Type 0
Ascends [] = Unit
Ascends (r ∷ rs) = All (λ s. cmp_repository r s ≡ Ordering.lt) rs × Ascends rs

repositories_from-Ascends :
    (p : AuthorizedRepository) (rs : List AuthorizedRepository)
    → Passes (repositories_from (some p) rs)
    → All (λ s. cmp_repository p s ≡ Ordering.lt) rs
      × Ascends rs
      × All (λ r. valid_sha256 r.root_sha256 ≡ true) rs
unfolding repositories_from
repositories_from-Ascends p [] h = (tt, tt, tt)
repositories_from-Ascends p (r ∷ rs) h =
    let ih = repositories_from-Ascends r rs (ground arith) in
    let before : cmp_repository p r ≡ Ordering.lt = ground arith in
    (
      (before, All-map rs (λ s k. cmp_repository-IsOrder.lt_trans p r s before k) ih.0),
      (ih.0, ih.1),
      (ground arith, ih.2),
    )

repositories-Ascends :
    (rs : List AuthorizedRepository)
    → Passes (repositories_from none rs)
    → Ascends rs × All (λ r. valid_sha256 r.root_sha256 ≡ true) rs
unfolding repositories_from
repositories-Ascends [] h = (tt, tt)
repositories-Ascends (r ∷ rs) h =
    let rest = repositories_from-Ascends r rs (ground arith) in
    ((rest.0, rest.1), (ground arith, rest.2))

assets-valid :
    (previous : Option AuthorizedAsset) (assets : List AuthorizedAsset)
    → Passes (assets_from previous assets)
    → All (λ a. valid_target a a.kind ≡ true) assets
unfolding assets_from
assets-valid previous [] h = tt
assets-valid previous (a ∷ rest) h = (ground arith, assets-valid (some a) rest (ground arith))

-- What an accepted scope allows: nothing but reading authorized repositories, until it expires.
pub record IsOffline (host : Host) (now : ℕ) (scope : WebScope) : Type 0 where
  pub created : ℕ
  pub expiry : ℕ
  pub created_at : host.parse scope.created_at ≡ some created
  pub expires_at : host.parse scope.draft.authorization.expires_at ≡ some expiry
  pub lasting : created < expiry
  pub unexpired : now < expiry
  pub identified : scope.scope_id ≡ expected_scope_id host scope
  pub passive : scope.draft.policy.passive_only ≡ true
  pub stays : scope.draft.policy.follow_redirects ≡ false
  pub first_party : scope.draft.policy.third_party_scanning ≡ false
  pub no_requests : scope.draft.limits.max_requests ≡ 0
  pub no_rate : scope.draft.limits.requests_per_minute ≡ 0
  pub no_concurrency : scope.draft.limits.max_concurrency ≡ 0
  pub some_repository : 0 < length scope.draft.repositories
  pub few_repositories : length scope.draft.repositories ≤ 1000
  pub ascending : Ascends scope.draft.repositories
  pub hashes : All (λ r. valid_sha256 r.root_sha256 ≡ true) scope.draft.repositories
  pub targets : All (λ a. valid_target a a.kind ≡ true) scope.draft.assets

instant-ok :
    (host : Host) (value : Text) (e : ScopeError) (t : ℕ)
    → instant host value e ≡ ok t
    → host.parse value ≡ some t
unfolding instant
instant-ok host value e t h = ground arith

option_cases {ℓ} : {A : Type ℓ} (o : Option A) → (o ≡ none) ⊎ ((a : A) × (o ≡ some a))
option_cases none = inl refl
option_cases (some a) = inr (a, refl)

repositories-parts :
    (rs : List AuthorizedRepository)
    → Passes (validate_repositories rs)
    → (0 < length rs) × (length rs ≤ 1000) × Passes (repositories_from none rs)
unfolding validate_repositories
repositories-parts rs h = (ground arith, ground arith, ground arith)

assets-part : (l : List AuthorizedAsset) → Passes (validate_assets l) → Passes (assets_from none l)
unfolding validate_assets
assets-part l h = ground arith

-- The times that `validate_authorization` has read.
authorization-times :
    (host : Host) (scope : WebScope)
    → Passes (validate_authorization host scope)
    → (created : ℕ) × (expiry : ℕ) × (host.parse scope.created_at ≡ some created)
      × (host.parse scope.draft.authorization.expires_at ≡ some expiry)
      × (created < expiry)
unfolding validate_authorization instant
authorization-times host scope h = elim (option_cases (host.parse scope.created_at)) [
  | inl n ↦ ground arith
  | inr s ↦ elim (option_cases (host.parse scope.draft.authorization.expires_at)) [
    | inl n ↦ ground arith
    | inr t ↦ (s.0, t.0, s.1, t.1, ground arith)
  ]
]

structure-parts :
    (host : Host) (scope : WebScope)
    → Passes (validate_structure host scope)
    → Passes (validate_identity host scope)
      × Passes (validate_authorization host scope)
      × Passes (validate_repositories scope.draft.repositories)
      × Passes (validate_assets scope.draft.assets)
      × Passes (validate_policy scope.draft.policy)
      × Passes (validate_limits scope.draft.limits)
unfolding validate_structure
structure-parts host scope h =
    (ground arith, ground arith, ground arith, ground arith, ground arith, ground arith)

-- If a scope passes `validate_at`: its times can be read, it expires after its creation and after
-- the given time, and its identifier is the hash of its other content; it is passive, follows no
-- redirects, scans no third party and allows no request, no rate and no concurrency; it has 1 to
-- 1,000 repositories, in strictly ascending order and with valid hashes; and every asset is a DNS
-- name or an IP address without subdomains.
pub validate_at-IsOffline :
    (host : Host) (now : ℕ) (scope : WebScope)
    → Passes (validate_at host now scope)
    → IsOffline host now scope
unfolding validate_at validate_identity validate_repositories validate_assets validate_policy
    validate_limits instant
validate_at-IsOffline host now scope h =
    let parts = structure-parts host scope (ground arith) in
    let times = authorization-times host scope parts.1 in
    let ids = parts.0 in
    let (some_, few, list) = repositories-parts scope.draft.repositories parts.2 in
    let repositories = repositories-Ascends scope.draft.repositories list in
    let policy = parts.4 in
    let limits = parts.5 in
    let expiry = times.3 in
    record {
      created = times.0;
      expiry = times.1;
      created_at = times.2;
      expires_at = expiry;
      lasting = times.4;
      unexpired = ground arith;
      identified = ground (arith, text_eq_iff scope.scope_id (expected_scope_id host scope));
      passive = ground arith;
      stays = ground arith;
      first_party = ground arith;
      no_requests = ground arith;
      no_rate = ground arith;
      no_concurrency = ground arith;
      some_repository = some_;
      few_repositories = few;
      ascending = repositories.0;
      hashes = repositories.1;
      targets = assets-valid none scope.draft.assets (assets-part scope.draft.assets parts.3);
    }

seal_scope-valid :
    (host : Host) (bytes : Text) (created_at : Option Text) (scope : WebScope)
    → seal_scope host bytes created_at ≡ ok scope
    → Passes (validate_structure host scope)
unfolding seal_scope
seal_scope-valid host bytes created_at scope h = ground arith

-- A scope that `seal_scope` returns is read back: `parse_scope`, on a document of admissible size
-- from which `serde_json` reads the scope, and at any time before the expiry, returns the scope.
pub seal_scope-parse_scope :
    (host : Host) (bytes document : Text) (created_at : Option Text) (scope : WebScope)
    (now expiry : ℕ)
    → seal_scope host bytes created_at ≡ ok scope
    → host.read_scope document ≡ some scope
    → 0 < length document
    → length document ≤ max_scope_bytes
    → host.parse scope.draft.authorization.expires_at ≡ some expiry
    → now < expiry
    → parse_scope host document now ≡ ok scope
unfolding parse_scope validate_at instant
seal_scope-parse_scope host bytes document created_at scope now expiry sealed read nonempty small
      expires before =
    let valid = seal_scope-valid host bytes created_at scope sealed in ground arith
