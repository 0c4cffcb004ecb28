-- ===== src/Trust/Wire/Keys.antt =====
-- `root_profile` and `strict_signers` of crates/secureflow-knowledge/src/catalog_trust/wire.rs: the
-- keys and quorums of a root, and the signatures of a document under it.
pub mod Quorum
pub mod Custody
use secureflow.Prelude.{
  ℕ, String, Bool, true, false, ◌&&◌, not, Option, none, some, List, [], ◌∷◌, ltb, leb, ◌==◌,
  length, any, if◌then◌else◌, ok, ◌>>=◌, ◌>>◌,
}
use secureflow.Prelude.Sorting.{sort_by}
use secureflow.Text.{Text, lit, text_eq}
use secureflow.Text.Compare.{cmp}
use secureflow.Trust.Errors.{Code, Tried, Checked, require, check, or_error, try_fold}
use secureflow.Trust.Map.{Map, contains_key}
use secureflow.Trust.Json.{Value, boolean, as_object, as_array, as_str, is_text, at, index}
use secureflow.Trust.Wire.{Outside, digest, canonical, hex, string_field, number, closed, roles}

abbrev pub is_true : Value → Bool
is_true (boolean b) = b
is_true _ = false

-- One round of the loop over the keys, with the public keys seen so far.
unfoldable pub key_profile : Outside → List (List ℕ) → Text × Value → Tried (List (List ℕ))
key_profile out publics (id, k) = do
  closed k ("keytype" ∷ "scheme" ∷ "keyval" ∷ [])
  closed (at k "keyval") ("public" ∷ [])
  require (is_text (at k "keytype") (lit "ed25519") && is_text (at k "scheme") (lit "ed25519"))
      Code.signature
  text ← string_field (at k "keyval") (lit "public")
  public ← hex 32 text
  pk ← or_error Code.signature (out.verifying_key public)
  require (not (out.is_weak pk) && text_eq pk public && not (any (text_eq public) publics))
      Code.signature
  preimage ← canonical out k
  require (text_eq (digest out preimage) id) Code.signature
  ok (public ∷ publics)

-- One round of the loop over the key identifiers of a role, with those assigned so far.
unfoldable pub assign_key : Map Value → List Text → Value → Tried (List Text)
assign_key keys assigned v = do
  id ← or_error Code.format (as_str v)
  require (contains_key id keys && not (any (text_eq id) assigned)) Code.signature
  ok (id ∷ assigned)

-- The least threshold and the least number of keys of a role: `i < 2` holds of root and targets.
abbrev pub least_threshold : ℕ → ℕ
least_threshold i = if ltb i 2 then 2 else 1

abbrev pub least_keys : ℕ → ℕ
least_keys i = if ltb i 2 then 3 else 2

unfoldable pub role_profile : Value → Map Value → List Text → ℕ × String → Tried (List Text)
role_profile s keys assigned (i, role) = do
  let r = at (at s "roles") role
  closed r ("threshold" ∷ "keyids" ∷ [])
  threshold ← number r (lit "threshold") 32
  ids ← or_error Code.format (as_array (at r "keyids"))
  require
      (leb (least_threshold i) threshold
        && leb threshold (length ids)
        && leb (least_keys i) (length ids))
      Code.signature
  try_fold (assign_key keys) assigned ids

abbrev pub numbered_roles : List (ℕ × String)
numbered_roles = (0, "root") ∷ (1, "targets") ∷ (2, "snapshot") ∷ (3, "timestamp") ∷ []

unfoldable pub root_profile : Outside → Value → Checked
root_profile out root = do
  let s = at root "signed"
  require (is_true (at s "consistent_snapshot")) Code.format
  keys ← or_error Code.format (as_object (at s "keys"))
  require (leb (length keys) 32) Code.format
  closed (at s "roles") roles
  check (try_fold (key_profile out) [] keys)
  assigned ← try_fold (role_profile s keys) [] numbered_roles
  require (length assigned == length keys) Code.signature

-- The key of a role with identifier `id`, as `strict_signers` looks it up in the root.
unfoldable pub role_key : Outside → Value → Text → Tried (List ℕ)
role_key out root id = do
  text ← string_field (at (index (at (at root "signed") "keys") id) "keyval") (lit "public")
  public ← hex 32 text
  or_error Code.signature (out.verifying_key public)

unfoldable pub verifies : Outside → Value → Text → Text → Text → Tried Bool
verifies out root preimage id text = do
  pk ← role_key out root id
  sig ← hex 64 text
  ok (out.verify_strict pk preimage sig)

-- The rest of a round, for a key that the role lists.
unfoldable pub check_signature :
    Outside → Value → Text → Text → List Text → Value → Tried (List Text)
check_signature out root preimage id accepted sig = do
  text ← string_field sig (lit "sig")
  valid ← verifies out root preimage id text
  ok (if valid then id ∷ accepted else accepted)

-- A signature of a key that the role does not list is passed over, one that does not verify too.
unfoldable pub accept_signature :
    Outside → Value → List Value → Text → List Text → Value → Tried (List Text)
accept_signature out root ids preimage accepted sig = do
  id ← string_field sig (lit "keyid")
  if any (λ v. is_text v id) ids
      then check_signature out root preimage id accepted sig
      else ok accepted

unfoldable pub strict_signers : Outside → Value → Value → Text → Tried (List Text)
strict_signers out root metadata role = do
  let r = index (at (at root "signed") "roles") role
  ids ← or_error Code.signature (as_array (at r "keyids"))
  threshold ← number r (lit "threshold") 32
  preimage ← canonical out (at metadata "signed")
  sigs ← or_error Code.format (as_array (at metadata "signatures"))
  accepted ← try_fold (accept_signature out root ids preimage) [] sigs
  require (leb threshold (length accepted)) Code.signature
  ok (sort_by cmp accepted)
