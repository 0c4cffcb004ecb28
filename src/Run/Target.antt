-- ===== src/Run/Target.antt =====
-- `Target`, `Revision` and `Authorization` of crates/secureflow-model/src/lib.rs.
use secureflow.Prelude.{Option, not, ◌&&◌, refuse, if_some, ◌>>◌, Bool, true}
use secureflow.Text.{Text}
use secureflow.Run.Errors.{Checked, invalid_revision, authorization_required}
use secureflow.Run.Kinds.{RevisionKind, AuthorizationStatus, authorized, AuthorizationBasis, is_git}
use secureflow.Run.Fields.{
  TimeParser, validate_sha256, validate_bounded_string, validate_optional_string, check_timestamp,
  is_lower_hex_of_length,
}

pub record Revision : Type 0 where
  pub kind : RevisionKind
  pub value : Text

unfoldable pub validate_revision : Revision → Checked
validate_revision r = do
  validate_bounded_string r.value "target.revision.value" 200
  refuse
      (is_git r.kind
        && not (is_lower_hex_of_length r.value 40)
        && not (is_lower_hex_of_length r.value 64))
      invalid_revision

pub record Authorization : Type 0 where
  pub status : AuthorizationStatus
  pub basis : AuthorizationBasis
  pub reviewer : Text
  pub reference : Option Text
  pub expires_at : Option Text

-- `AuthorizationStatus` has the one value `Authorized`.
abbrev pub is_authorized : AuthorizationStatus → Bool
is_authorized authorized = true

unfoldable pub validate_authorization : TimeParser → Authorization → Checked
validate_authorization parse a = do
  refuse (not (is_authorized a.status)) authorization_required
  validate_bounded_string a.reviewer "target.authorization.reviewer" 200
  validate_optional_string a.reference "target.authorization.reference" 300
  if_some (λ value. check_timestamp parse value "target.authorization.expires_at") a.expires_at

pub record Target : Type 0 where
  pub label : Text
  pub root_sha256 : Text
  pub revision : Option Revision
  pub authorization : Authorization

unfoldable pub validate_target : TimeParser → Target → Checked
validate_target parse t = do
  validate_sha256 t.root_sha256 "target.root_sha256"
  validate_bounded_string t.label "target.label" 200
  if_some validate_revision t.revision
  validate_authorization parse t.authorization
