-- ===== src/Trust/Import/Targets.antt =====
-- The loop over the target entries in `Session::import_metadata` of
-- crates/secureflow-knowledge/src/catalog_trust/consumer.rs, and the advance of the floors.
pub mod Laws
pub mod Floors
use secureflow.Prelude.{
  err, ℕ, ◌&&◌, not, Option, none, some, [], ◌∷◌, leb, ◌==◌, length, is_empty, if◌then◌else◌, ok,
  ◌>>=◌, ◌>>◌, if_some,
}
use secureflow.Text.{Text, lit, text_eq}
use secureflow.Trust.Errors.{Code, Tried, Checked, require, or_error, try_fold}
use secureflow.Trust.Map.{Map, lookup, insert}
use secureflow.Trust.Json.{Value, as_object, at, index}
use secureflow.Trust.Wire.{string_field, closed}
use secureflow.Trust.Types.{State, Target, Floor, target_scope, target_path}
use secureflow.Trust.Policy.{Host, validate_target, allows}
use secureflow.Trust.Checks.{target_link}

-- The first manifest of a profile is the one that the operator pinned, if there is a pin.
unfoldable pub check_pin : Option Text → Floor → Text → Checked
check_pin pin floor hash = elim floor.manifest_sha256 [
  | some _ ↦ ok tt
  | none ↦ if_some (λ p. require (text_eq hash p) Code.bootstrap) pin
]

unfoldable pub check_same : ℕ → Floor → Text → Checked
check_same sequence floor hash =
    if sequence == floor.sequence
    then if_some (λ previous. require (text_eq hash previous) Code.equivocation)
        floor.manifest_sha256
    else ok tt

unfoldable pub check_floor : State → Target → Text → Checked
check_floor state t hash = do
  floor ← or_error Code.state (lookup t.profile state.floors)
  require (leb floor.sequence t.release_sequence) Code.rollback
  check_pin state.policy.bootstrap_manifest_sha256 floor hash
  check_same t.release_sequence floor hash

unfoldable pub examine_target : Host → State → Text → Value → Tried Target
examine_target host state name entry = do
  target_link entry
  closed (at entry "custom") ("secureflow" ∷ [])
  t ← or_error Code.scope (host.to_target (at (at entry "custom") "secureflow"))
  validate_target host t
  allows state.policy (target_scope t)
  require (text_eq name (target_path (target_scope t))) Code.scope
  hash ← string_field (at entry "hashes") (lit "sha256")
  check_floor state t hash
  ok t

unfoldable pub accept_target : Host → State → Map Target → Text × Value → Tried (Map Target)
accept_target host state accepted (name, entry) = do
  t ← examine_target host state name entry
  ok (insert t.profile t accepted)

unfoldable pub accept_targets : Host → State → Value → Tried (Map Target)
accept_targets host state targets = do
  entries ← or_error Code.format (as_object (at (at targets "signed") "targets"))
  require (not (is_empty entries) && leb (length entries) 256) Code.format
  try_fold (accept_target host state) [] entries

-- The floor of one accepted target. `entries[..]` and `string` look the hash up again.
unfoldable pub advance_floor : Value → Map Floor → Text × Target → Tried (Map Floor)
advance_floor targets floors (profile, t) = do
  let entry = index (at (at targets "signed") "targets") (target_path (target_scope t))
  hash ← string_field (at entry "hashes") (lit "sha256")
  ok (
      insert t.profile (record { sequence = t.release_sequence; manifest_sha256 = some hash })
        floors)

abbrev pub advanced_or :
    Map Floor → Tried (Map Floor) → (Map Floor → Checked × Map Floor) → Checked × Map Floor
advanced_or old (ok floors) next = next floors
advanced_or old (err e) next = (err e, old)

-- The loop over the accepted targets, with the floors that it leaves.
unfoldable pub advance_all : Value → Map Floor → Map Target → Checked × Map Floor
advance_all targets floors [] = (ok tt, floors)
advance_all targets floors (t ∷ ts) =
    advanced_or floors (advance_floor targets floors t) (λ new. advance_all targets new ts)
