-- ===== src/Scope/Seal.antt =====
-- `seal_scope` and `parse_scope` of crates/secureflow-web/src/scope.rs.
use secureflow.Prelude.{
  ℕ, ◌||◌, Option, none, some, [], ltb, length, is_empty, unwrap_or, Result, ok, err, refuse, ◌>>=◌,
  ◌>>◌,
}
use secureflow.Text.{Text}
use secureflow.Scope.Types.{
  WebScope, WebScopeDraft, ScopeError, Host, scope_version, max_scope_bytes, invalid_field, json,
  timestamp,
}
use secureflow.Scope.Validate.{validate_structure, validate_at, expected_scope_id}

abbrev pub required {ℓ} : {A : Type ℓ} → ScopeError → Option A → Result ScopeError A
required error none = err error
required error (some a) = ok a

-- The scope that `seal_scope` builds, its `scope_id` still empty.
unfoldable pub unsealed : Text → WebScopeDraft → WebScope
unsealed created_at draft = record {
  contract_version = scope_version;
  scope_id = [];
  created_at = created_at;
  draft = draft;
}

unfoldable pub with_scope_id : Host → WebScope → WebScope
with_scope_id host scope = record scope { scope_id = expected_scope_id host scope }

-- The clock is read and its text formatted even when `created_at` is given.
unfoldable pub seal_scope : Host → Text → Option Text → Result ScopeError WebScope
seal_scope host bytes created_at = do
  refuse (is_empty bytes || ltb max_scope_bytes (length bytes)) (invalid_field "document size")
  draft ← required json (host.read_draft bytes)
  now ← required timestamp host.now
  let scope = with_scope_id host (unsealed (unwrap_or now created_at) draft)
  validate_structure host scope
  ok scope

unfoldable pub parse_scope : Host → Text → ℕ → Result ScopeError WebScope
parse_scope host bytes now = do
  refuse (is_empty bytes || ltb max_scope_bytes (length bytes)) (invalid_field "document size")
  scope ← required json (host.read_scope bytes)
  validate_at host now scope
  ok scope
