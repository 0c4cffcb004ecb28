-- ===== src/Trust/Import/Laws.antt =====
-- `import_metadata` of crates/secureflow-knowledge/src/catalog_trust/consumer.rs only moves a session
-- on, whatever the directory holds and however it ends.
use secureflow.Trust.Wire.Keys.Quorum.{envelope-IsStrict}
use secureflow.Trust.Import.Roots.Laws.{import_roots-Advances}
use secureflow.Trust.Import.Targets.{advance_all, accept_targets}
use secureflow.Trust.Wire.{envelope}
use secureflow.Trust.Import.Targets.Laws.{
  AllAllowed, advance_all-FloorsLe, accept_targets-AllAllowed, FloorsLe,
}
use secureflow.Trust.Types.{Target, Floor}
use secureflow.Trust.Map.{Map}
use secureflow.Trust.Checks.{role_floor}
use secureflow.Trust.Session.Roles.{retain_role-Later}
use secureflow.Trust.Examine.Laws.{
  examine_targets-IsExamined, examine_snapshot-IsExamined, examine_timestamp-IsExamined,
}
use secureflow.Trust.Examine.{examine_targets, examine_snapshot, examine_timestamp}
use secureflow.Text.{Text, lit}
use secureflow.Trust.Session.Steps.{
  pure-Advances, if-Advances, lift-Advances, asks-Advances, read_metadata-Advances, >>=-Advances,
  Advances,
}
use secureflow.Trust.Json.{at, as_object, Value}
use secureflow.Trust.Session.Forward.{IsLater-trans, IsForward-refl, IsLater-refl, IsLater}
use secureflow.Trust.Import.Roots.{Directory}
use secureflow.Trust.Errors.{Checked, Tried}
use secureflow.Trust.Session.{retain_role, pure, asks, Session, Action}
use secureflow.Trust.Import.{
  keep_targets, keep_link, examine_then_accept, accept_timestamp, accept_snapshot, set_floors,
  with_floors, advance_floors, import_targets, import_snapshot, import_roles, import_metadata,
  accept, import_timestamp,
}
use secureflow.Trust.Policy.{Event, Host}
use secureflow.Prelude.{some, inl, Bool, refl, err, List, ℕ, ◌≡◌, ok, arith}
use secureflow.Trust.Session.{◌>>=◌}

module _ (host : Host) where
  asks->>=-Later :
      {A B : Type 0} (g : Session → Tried A) (f : A → Action B) (s : Session)
      → ((a : A) → g s ≡ ok a → IsLater host s (f a s).1)
      → IsLater host s (◌>>=◌ (asks g) f s).1
  asks->>=-Later {A} {B} g f s h = go (g s) h
    where
      go :
          (r : Tried A)
          → ((a : A) → r ≡ ok a → IsLater host s (f a s).1)
          → IsLater host s
              (elim r as (λ _. Tried B × Session) [ ok a ↦ f a s | err e ↦ (err e, s) ]).1
      go (ok a) k = k a refl
      go (err e) k = IsLater-refl host s

  then_pure-Later :
      {A B : Type 0} (m : Action A) (b : B) (s : Session)
      → IsLater host s (m s).1
      → IsLater host s (◌>>=◌ m (λ _. pure b) s).1
  then_pure-Later {A} {B} m b s h = go (m s) h
    where
      go :
          (r : Tried A × Session)
          → IsLater host s r.1
          → IsLater host s
              (elim r.0 as (λ _. Tried B × Session) [ ok a ↦ (ok b, r.1) | err e ↦ (err e, r.1) ]).1
      go (ok a, t) k = k
      go (err e, t) k = k

  keep_link-Later :
      (s : Session) (root v link : Value) (db : List Event) (bytes role : Text)
      → envelope host.outside bytes role ≡ ok v
      → role_floor host s.state role v ≡ ok tt
      → IsLater host s (keep_link host root bytes role (v, link, db) s).1
  unfolding keep_link
  keep_link-Later s root v link db bytes role read floor =
      then_pure-Later (retain_role host root v bytes role) (link, db) s
        (retain_role-Later host s root v bytes role read floor)

  accept_timestamp-Advances :
      (root : Value) (db : List Event) (now : ℕ) (bytes : Text)
      → Advances host (accept_timestamp host root db now bytes)
  unfolding accept_timestamp
  accept_timestamp-Advances root db now bytes s =
      asks->>=-Later (λ s. examine_timestamp host s.state s.clock root db now bytes)
        (keep_link host root bytes (lit "timestamp")) s
        λ p e.
          let x =
            examine_timestamp-IsExamined host s.state s.clock root db now bytes p.0 p.1 p.2 e in
          keep_link-Later s root p.0 p.1 p.2 bytes (lit "timestamp") x.0.read x.0.floor

  import_timestamp-Advances :
      (dir : Directory) (root : Value) (db : List Event) (now : ℕ)
      → Advances host (import_timestamp host dir root db now)
  unfolding import_timestamp
  import_timestamp-Advances dir root db now =
      search (>>=-Advances host, read_metadata-Advances host, accept_timestamp-Advances)

  accept_snapshot-Advances :
      (root parent : Value) (db : List Event) (now : ℕ) (bytes : Text)
      → Advances host (accept_snapshot host root parent db now bytes)
  unfolding accept_snapshot
  accept_snapshot-Advances root parent db now bytes s =
      asks->>=-Later (λ s. examine_snapshot host s.state s.clock root parent db now bytes)
        (keep_link host root bytes (lit "snapshot")) s
        λ p e.
          let x =
            examine_snapshot-IsExamined host s.state s.clock root parent db now bytes p.0 p.1 p.2
              e in
          keep_link-Later s root p.0 p.1 p.2 bytes (lit "snapshot") x.0.read x.0.floor

  import_snapshot-Advances :
      (dir : Directory) (root parent : Value) (db : List Event) (now : ℕ)
      → Advances host (import_snapshot host dir root parent db now)
  unfolding import_snapshot
  import_snapshot-Advances dir root parent db now =
      search (
        >>=-Advances host,
        lift-Advances host,
        read_metadata-Advances host,
        accept_snapshot-Advances,
      )

  with_floors-Later :
      (s : Session) (floors : Map Floor)
      → FloorsLe host s.state floors
      → IsLater host s (with_floors s floors)
  with_floors-Later s floors h =
      let same = IsForward-refl host s.state in
      record {
        clock = refl;
        mutating = refl;
        state = record {
          policy = refl;
          floors = h;
          roles = same.roles;
          roots = same.roots;
          generation = same.generation;
        };
        stored = inl refl;
        time = λ latest t. (
          latest,
          record { now = t.now; clock = t.clock; saved = t.saved; before = t.before },
          omega arith,
        );
      }

  -- After an advance of the floors the roles are what they were, so the document can be kept.
  retain_advanced-Later :
      (s : Session) (root v : Value) (bytes : Text) (r : Checked × Map Floor)
      (accepted : Map Target)
      → envelope host.outside bytes (lit "targets") ≡ ok v
      → role_floor host s.state (lit "targets") v ≡ ok tt
      → FloorsLe host s.state r.1
      → IsLater host s
          (◌>>=◌
            (set_floors r)
            (λ _. ◌>>=◌ (retain_role host root v bytes (lit "targets")) (λ _. pure accepted))
            s).1
  unfolding role_floor
  retain_advanced-Later s root v bytes (ok tt, floors) accepted read floor h =
      IsLater-trans host (with_floors-Later s floors h) (
        then_pure-Later (retain_role host root v bytes (lit "targets")) accepted
          (with_floors s floors)
          (retain_role-Later host (with_floors s floors) root v bytes (lit "targets") read floor))
  retain_advanced-Later s root v bytes (err e, floors) accepted read floor h =
      with_floors-Later s floors h

  keep_targets-Later :
      (s : Session) (root v : Value) (bytes : Text) (entries : Map Value) (accepted : Map Target)
      → envelope host.outside bytes (lit "targets") ≡ ok v
      → role_floor host s.state (lit "targets") v ≡ ok tt
      → as_object (at (at v "signed") "targets") ≡ some entries
      → AllAllowed host s.state entries accepted
      → IsLater host s (keep_targets host root v bytes accepted s).1
  unfolding keep_targets advance_floors
  keep_targets-Later s root v bytes entries accepted read floor found allowed =
      retain_advanced-Later s root v bytes (advance_all v s.state.floors accepted) accepted read
        floor
        (advance_all-FloorsLe host s.state v entries accepted s.state.floors found allowed
          (IsForward-refl host s.state).floors)

  accept-Later :
      (s : Session) (root v : Value) (bytes : Text)
      → envelope host.outside bytes (lit "targets") ≡ ok v
      → role_floor host s.state (lit "targets") v ≡ ok tt
      → IsLater host s (accept host root bytes v s).1
  unfolding accept
  accept-Later s root v bytes read floor =
      asks->>=-Later (λ s. accept_targets host s.state v) (keep_targets host root v bytes) s
        λ accepted e.
          let (entries, found, allowed) =
            accept_targets-AllAllowed host s.state v
              (envelope-IsStrict host.outside bytes (lit "targets") read) e in
          keep_targets-Later s root v bytes entries accepted read floor found allowed

  examine_then_accept-Advances :
      (root parent : Value) (db : List Event) (now : ℕ) (bytes : Text)
      → Advances host (examine_then_accept host root parent db now bytes)
  unfolding examine_then_accept
  examine_then_accept-Advances root parent db now bytes s =
      asks->>=-Later (λ s. examine_targets host s.state s.clock root parent db now bytes)
        (accept host root bytes) s
        λ v e.
          let x = examine_targets-IsExamined host s.state s.clock root parent db now bytes v e in
          accept-Later s root v bytes x.0.read x.0.floor

  import_targets-Advances :
      (dir : Directory) (root parent : Value) (db : List Event) (now : ℕ)
      → Advances host (import_targets host dir root parent db now)
  unfolding import_targets
  import_targets-Advances dir root parent db now = search (
    >>=-Advances host,
    lift-Advances host,
    read_metadata-Advances host,
    examine_then_accept-Advances,
  )

  import_roles-Advances :
      (dir : Directory) (root : Value) → Advances host (import_roles host dir root)
  unfolding import_roles
  import_roles-Advances dir root =
      search
        (
          >>=-Advances host,
          asks-Advances host,
          import_timestamp-Advances dir root,
          import_snapshot-Advances dir root,
          import_targets-Advances dir root,
        )
        depth 24

  -- Whatever the directory holds, and however the import ends, an import moves the session on: the
  -- policy, the clock and the roots so far stay, no floor and no role goes back or changes at an
  -- equal sequence or version, no role names an older child, the generation does not fall, a
  -- verification time that was not before the latest saved one stays so, and state.json holds what
  -- it held or the encoding of a state that is no further back.
  pub import_metadata-IsLater :
      (dir : Directory) (root_only : Bool) (s : Session)
      → IsLater host s (import_metadata host dir root_only s).1
  unfolding import_metadata
  import_metadata-IsLater dir root_only =
      search
        (
          >>=-Advances host,
          asks-Advances host,
          if-Advances host,
          pure-Advances host,
          import_roots-Advances host dir,
          import_roles-Advances dir,
        )
        depth 24
