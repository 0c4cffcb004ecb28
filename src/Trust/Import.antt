-- ===== src/Trust/Import.antt =====
-- `import_metadata` of crates/secureflow-knowledge/src/catalog_trust/consumer.rs.
pub mod Roots
pub mod Targets
pub mod Laws
use secureflow.Prelude.{
  ℕ, Bool, true, false, Option, none, some, List, [], ◌∷◌, ◌++◌, leb, if◌then◌else◌, ok, err,
}
use secureflow.Text.{Text, lit}
use secureflow.Text.Format.{decimal}
use secureflow.Trust.Errors.{Code, Tried, Checked, require, check}
use secureflow.Trust.Map.{Map}
use secureflow.Trust.Json.{Value}
use secureflow.Trust.Wire.{parse_time, number, u32_max, envelope}
use secureflow.Trust.Wire.Keys.{strict_signers}
use secureflow.Trust.Types.{State, Target, Floor, Clock}
use secureflow.Trust.Policy.{Host, Event}
use secureflow.Trust.Examine.{examine_timestamp, examine_snapshot, examine_targets}
use secureflow.Trust.Checks.{
  current_root, tuf_update, expiry, role_floor, metadata_link, check_link,
}
use secureflow.Trust.Session.{
  Session, Action, ◌>>=◌, ◌>>◌, pure, asks, lift, save, read_metadata, retain_role,
}
use secureflow.Trust.Import.Roots.{Directory, import_roots}
use secureflow.Trust.Import.Targets.{accept_targets, advance_all}

-- The verification time is not before the latest one that was saved.
unfoldable pub check_time : Host → State → Clock → Checked
check_time host state clock = elim (parse_time host.outside clock.verification_time) [
  | err e ↦ err e
  | ok now ↦ elim (parse_time host.outside state.maximum_verification_time) [
    | err e ↦ err e
    | ok latest ↦ require (leb latest now) Code.clock
  ]
]

unfoldable pub versioned : ℕ → Text → Text
versioned version name = decimal version ++ (lit "." ++ name)

-- Keeps an examined document and hands on its link and the database.
unfoldable pub keep_link :
    Host → Value → Text → Text → Value × Value × List Event → Action (Value × List Event)
keep_link host root bytes role (v, link, db) = do
  retain_role host root v bytes role
  pure (link, db)

unfoldable pub accept_timestamp : Host → Value → List Event → ℕ → Text → Action (Value × List Event)
accept_timestamp host root db now bytes =
    asks (λ s. examine_timestamp host s.state s.clock root db now bytes)
    >>= keep_link host root bytes (lit "timestamp")

-- timestamp.json: the link to the snapshot and the database with the timestamp.
unfoldable pub import_timestamp :
    Host → Directory → Value → List Event → ℕ → Action (Value × List Event)
import_timestamp host dir root db now =
    read_metadata (dir.file (lit "timestamp.json")) 16_384 >>= accept_timestamp host root db now

unfoldable pub accept_snapshot :
    Host → Value → Value → List Event → ℕ → Text → Action (Value × List Event)
accept_snapshot host root parent db now bytes =
    asks (λ s. examine_snapshot host s.state s.clock root parent db now bytes)
    >>= keep_link host root bytes (lit "snapshot")

unfoldable pub import_snapshot :
    Host → Directory → Value → Value → List Event → ℕ → Action (Value × List Event)
import_snapshot host dir root parent db now = do
  version ← lift (number parent (lit "version") u32_max)
  bytes ← read_metadata (dir.file (versioned version (lit "snapshot.json"))) 262_144
  accept_snapshot host root parent db now bytes

abbrev pub with_floors : Session → Map Floor → Session
with_floors s floors = record s { state = record s.state { floors = floors } }

-- `for target in accepted.values() { floors.insert(..) }`; an error leaves the floors so far.
abbrev pub set_floors : Checked × Map Floor → Action (Unit {0})
set_floors (r, floors) s = (r, with_floors s floors)

unfoldable pub advance_floors : Value → Map Target → Action (Unit {0})
advance_floors targets accepted s = set_floors (advance_all targets s.state.floors accepted) s

-- All floors advance, then the document is kept.
unfoldable pub keep_targets : Host → Value → Value → Text → Map Target → Action (Map Target)
keep_targets host root v bytes accepted = do
  advance_floors v accepted
  retain_role host root v bytes (lit "targets")
  pure accepted

-- All targets are examined before any floor advances.
unfoldable pub accept : Host → Value → Text → Value → Action (Map Target)
accept host root bytes v =
    asks (λ s. accept_targets host s.state v) >>= keep_targets host root v bytes

unfoldable pub examine_then_accept :
    Host → Value → Value → List Event → ℕ → Text → Action (Map Target)
examine_then_accept host root parent db now bytes =
    asks (λ s. examine_targets host s.state s.clock root parent db now bytes)
    >>= accept host root bytes

unfoldable pub import_targets :
    Host → Directory → Value → Value → List Event → ℕ → Action (Map Target)
import_targets host dir root parent db now = do
  version ← lift (number parent (lit "version") u32_max)
  bytes ← read_metadata (dir.file (versioned version (lit "targets.json"))) 2_097_152
  examine_then_accept host root parent db now bytes

unfoldable pub import_roles : Host → Directory → Value → Action (Map Target)
import_roles host dir root = do
  (current, db) ← asks (λ s. current_root host s.state)
  now ← asks (λ s. parse_time host.outside s.clock.verification_time)
  (snapshot_link, db1) ← import_timestamp host dir root db now
  (targets_link, db2) ← import_snapshot host dir root snapshot_link db1 now
  import_targets host dir root targets_link db2 now

unfoldable pub import_metadata : Host → Directory → Bool → Action (Map Target)
import_metadata host dir root_only = do
  asks (λ s. check_time host s.state s.clock)
  root ← import_roots host dir
  if root_only then pure [] else import_roles host dir root
