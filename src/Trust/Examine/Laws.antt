-- ===== src/Trust/Examine/Laws.antt =====
-- What an examined document has passed, for crates/secureflow-knowledge/src/catalog_trust/consumer.rs.
use secureflow.Trust.Wire.Keys.{strict_signers}
use secureflow.Trust.Errors.{check}
use secureflow.Trust.Checks.{check_link, tuf_update, metadata_link, role_floor}
use secureflow.Trust.Wire.{envelope}
use secureflow.Trust.Json.{Value}
use secureflow.Text.{lit, Text}
use secureflow.Trust.Types.{Clock, State}
use secureflow.Trust.Examine.{examine_targets, examine_snapshot, expiry, examine_timestamp, examine}
use secureflow.Trust.Policy.{Event, Host}
use secureflow.Prelude.{ap, ok_injective, >>-eq-ok, List, >>=-eq-ok, ℕ, ◌≡◌, ok}

module _ (host : Host) where
  -- The session's state and clock accept the document `v` with these bytes as the role's next one.
  pub record IsExamined (state : State) (clock : Clock) (role bytes : Text) (v : Value)
      : Type 0 where
    pub read : envelope host.outside bytes role ≡ ok v
    pub fresh : expiry host state clock v role ≡ ok tt
    pub floor : role_floor host state role v ≡ ok tt

  examine-IsExamined :
      (state : State) (clock : Clock) (role bytes : Text) {v : Value}
      → examine host state clock role bytes ≡ ok v
      → IsExamined state clock role bytes v
  unfolding examine
  examine-IsExamined state clock role bytes {v} h =
      let (w, r, a) = >>=-eq-ok (envelope host.outside bytes role) _ h in
      let b = >>-eq-ok (expiry host state clock w role) _ a in
      let c = >>-eq-ok (role_floor host state role w) _ b.1 in
      let e : w ≡ v = ok_injective c.1 in rw (← e) (record { read = r; fresh = b.0; floor = c.0 })

  pub examine_timestamp-IsExamined :
      (state : State) (clock : Clock) (root : Value) (db : List Event) (now : ℕ) (bytes : Text)
      (v link : Value) (db' : List Event)
      → examine_timestamp host state clock root db now bytes ≡ ok (v, link, db')
      → IsExamined state clock (lit "timestamp") bytes v
        × (metadata_link v "snapshot.json" ≡ ok link)
        × (check (strict_signers host.outside root v (lit "timestamp")) ≡ ok tt)
  unfolding examine_timestamp
  examine_timestamp-IsExamined state clock root db now bytes v link db' h =
      let (w, x, a) = >>=-eq-ok (examine host state clock (lit "timestamp") bytes) _ h in
      let (l, y, b) = >>=-eq-ok (metadata_link w "snapshot.json") _ a in
      let c = >>-eq-ok (check (strict_signers host.outside root w (lit "timestamp"))) _ b in
      let (d, z, f) = >>=-eq-ok (tuf_update host db (Event.update_timestamp now bytes)) _ c.1 in
      let e = ok_injective f in
      let ev : w ≡ v = ap (λ p. p.0) e in
      let el : l ≡ link = ap (λ p. p.1) e in
      rw (← ev, ← el) (examine-IsExamined state clock (lit "timestamp") bytes x, y, c.0)

  pub examine_snapshot-IsExamined :
      (state : State) (clock : Clock) (root parent : Value) (db : List Event) (now : ℕ)
      (bytes : Text) (v link : Value) (db' : List Event)
      → examine_snapshot host state clock root parent db now bytes ≡ ok (v, link, db')
      → IsExamined state clock (lit "snapshot") bytes v
        × (metadata_link v "targets.json" ≡ ok link)
        × (check (strict_signers host.outside root v (lit "snapshot")) ≡ ok tt)
        × (check_link host parent bytes ≡ ok tt)
  unfolding examine_snapshot
  examine_snapshot-IsExamined state clock root parent db now bytes v link db' h =
      let o = >>-eq-ok (check_link host parent bytes) _ h in
      let (w, x, a) = >>=-eq-ok (examine host state clock (lit "snapshot") bytes) _ o.1 in
      let (l, y, b) = >>=-eq-ok (metadata_link w "targets.json") _ a in
      let c = >>-eq-ok (check (strict_signers host.outside root w (lit "snapshot"))) _ b in
      let (d, z, f) = >>=-eq-ok (tuf_update host db (Event.update_snapshot now bytes)) _ c.1 in
      let e = ok_injective f in
      let ev : w ≡ v = ap (λ p. p.0) e in
      let el : l ≡ link = ap (λ p. p.1) e in
      rw (← ev, ← el) (examine-IsExamined state clock (lit "snapshot") bytes x, y, c.0, o.0)

  pub examine_targets-IsExamined :
      (state : State) (clock : Clock) (root parent : Value) (db : List Event) (now : ℕ)
      (bytes : Text) (v : Value)
      → examine_targets host state clock root parent db now bytes ≡ ok v
      → IsExamined state clock (lit "targets") bytes v
        × (check (strict_signers host.outside root v (lit "targets")) ≡ ok tt)
        × (check_link host parent bytes ≡ ok tt)
  unfolding examine_targets
  examine_targets-IsExamined state clock root parent db now bytes v h =
      let o = >>-eq-ok (check_link host parent bytes) _ h in
      let (w, x, a) = >>=-eq-ok (examine host state clock (lit "targets") bytes) _ o.1 in
      let c = >>-eq-ok (check (strict_signers host.outside root w (lit "targets"))) _ a in
      let d = >>-eq-ok (check (tuf_update host db (Event.update_targets now bytes))) _ c.1 in
      let ev : w ≡ v = ok_injective d.1 in
      rw (← ev) (examine-IsExamined state clock (lit "targets") bytes x, c.0, o.0)
