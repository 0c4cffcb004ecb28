-- ===== src/Trust/Examine.antt =====
-- The tests of a new document in `Session::import_metadata` of
-- crates/secureflow-knowledge/src/catalog_trust/consumer.rs, from its bytes to its acceptance by the
-- tuf crate. The session does not change in between.
pub mod Laws
use secureflow.Prelude.{ℕ, List, ok, ◌>>=◌, ◌>>◌}
use secureflow.Text.{Text, lit}
use secureflow.Trust.Errors.{Tried, check}
use secureflow.Trust.Json.{Value}
use secureflow.Trust.Wire.{envelope}
use secureflow.Trust.Wire.Keys.{strict_signers}
use secureflow.Trust.Types.{State, Clock}
use secureflow.Trust.Policy.{Host, Event}
use secureflow.Trust.Checks.{tuf_update, expiry, role_floor, metadata_link, check_link}

unfoldable pub examine : Host → State → Clock → Text → Text → Tried Value
examine host state clock role bytes = do
  v ← envelope host.outside bytes role
  expiry host state clock v role
  role_floor host state role v
  ok v

unfoldable pub examine_timestamp :
    Host → State → Clock → Value → List Event → ℕ → Text → Tried (Value × Value × List Event)
examine_timestamp host state clock root db now bytes = do
  v ← examine host state clock (lit "timestamp") bytes
  link ← metadata_link v "snapshot.json"
  check (strict_signers host.outside root v (lit "timestamp"))
  db' ← tuf_update host db (Event.update_timestamp now bytes)
  ok (v, link, db')

unfoldable pub examine_snapshot :
    Host
    → State
    → Clock
    → Value
    → Value
    → List Event
    → ℕ
    → Text
    → Tried (Value × Value × List Event)
examine_snapshot host state clock root parent db now bytes = do
  check_link host parent bytes
  v ← examine host state clock (lit "snapshot") bytes
  link ← metadata_link v "targets.json"
  check (strict_signers host.outside root v (lit "snapshot"))
  db' ← tuf_update host db (Event.update_snapshot now bytes)
  ok (v, link, db')

unfoldable pub examine_targets :
    Host → State → Clock → Value → Value → List Event → ℕ → Text → Tried Value
examine_targets host state clock root parent db now bytes = do
  check_link host parent bytes
  v ← examine host state clock (lit "targets") bytes
  check (strict_signers host.outside root v (lit "targets"))
  check (tuf_update host db (Event.update_targets now bytes))
  ok v
