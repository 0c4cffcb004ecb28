-- ===== src/Trust/Session.antt =====
-- `Session` of crates/secureflow-knowledge/src/catalog_trust/consumer.rs: the state of a store while
-- it is locked, and the operations that read a signed document or write the state. An operation
-- returns the session that it leaves, also on an error.
pub mod Steps
pub mod Forward
pub mod Roles
pub mod Saved
use secureflow.Prelude.{
  ℕ, ◌+◌, ◌-◌, ◌*◌, Bool, true, false, Option, none, some, List, [], ◌∷◌, ltb, leb, ◌==◌, length,
  if◌then◌else◌, Result, ok, err,
}
use secureflow.Text.{Text, lit, text_eq}
use secureflow.Trust.Errors.{Code, Tried, Checked, require, check, or_error}
use secureflow.Trust.Map.{Map, lookup, insert}
use secureflow.Trust.Json.{Value, at, max_sequence}
use secureflow.Trust.Wire.{
  Outside, parse_time, digest, canonical, string_field, number, u32_max, envelope,
}
use secureflow.Trust.Types.{Clock, State, RoleEvidence, RoleRecord, Policy}
use secureflow.Trust.Policy.{Host}
use secureflow.Trust.Checks.{role_record}

-- How one replacement of state.json ends: refused before the rename, renamed without the final
-- `sync_all`, or done.
pub data Write : Type 0 where
  refused : Code → Write
  unsynced : Write
  done : Write

-- `state_json` is what state.json holds, `receipts` the directory of receipts, `outputs` the
-- installed databases by their paths. `writes` says how the writes to come end; after the last of
-- them all are done.
pub record Session : Type 0 where
  pub state : State
  pub clock : Clock
  pub mutating : Bool
  pub total : ℕ
  pub state_json : Text
  pub writes : List Write
  pub receipts : Map Text
  pub outputs : Map Text

abbrev pub Action : Type 0 → Type 0
Action A = Session → Tried A × Session

-- The `?` operator: the rest runs on the session that the first part leaves.
infixl 5 ◌>>=◌ ◌>>◌
abbrev pub ◌>>=◌ : {V W : Type 0} → Action V → (V → Action W) → Action W
◌>>=◌ first rest s = elim (first s).0 [ err e ↦ (err e, (first s).1) | ok v ↦ rest v (first s).1 ]

abbrev pub ◌>>◌ : {W : Type 0} → Action (Unit {0}) → Action W → Action W
first >> rest = first >>= λ _. rest

module _ {A : Type 0} where
  abbrev pub pure : A → Action A
  pure a s = (ok a, s)

  -- A computation that reads the session.
  abbrev pub asks : (Session → Tried A) → Action A
  asks f s = (f s, s)

  abbrev pub lift : Tried A → Action A
  lift r s = (r, s)

abbrev pub run_each : {A : Type 0} → (A → Action (Unit {0})) → List A → Action (Unit {0})
run_each f [] = pure tt
run_each f (x ∷ xs) = f x >> run_each f xs

abbrev pub fold_action : {A B : Type 0} → (B → A → Action B) → B → List A → Action B
fold_action f b [] = pure b
fold_action f b (x ∷ xs) = f b x >>= λ c. fold_action f c xs

abbrev pub max_state_bytes : ℕ
max_state_bytes = 64 * 1024 * 1024

abbrev pub encode_text : Bool → Text → Tried Text
encode_text false text = err Code.format
encode_text true text = if leb (length text) max_state_bytes then ok text else err Code.state

unfoldable pub encode_state : Host → State → Tried Text
encode_state host state = encode_text (host.state_schema state) (host.encode_state_json state)

-- `StoreLock::replace_state`, by how the next replacement ends
unfoldable pub replace_with : List Write → Text → Action (Unit {0})
replace_with [] bytes s = (ok tt, record s { state_json = bytes })
replace_with (Write.done ∷ ws) bytes s = (ok tt, record s { state_json = bytes; writes = ws })
replace_with (Write.unsynced ∷ ws) bytes s =
    (err Code.state, record s { state_json = bytes; writes = ws })
replace_with (Write.refused code ∷ ws) bytes s = (err code, record s { writes = ws })

abbrev pub replace_state : Text → Action (Unit {0})
replace_state bytes s = replace_with s.writes bytes s

-- `checked_add(1).filter(|v| *v <= MAX_SEQUENCE)`
abbrev pub next_generation : ℕ → Option ℕ
next_generation g = if leb (g + 1) max_sequence then some (g + 1) else none

abbrev pub advanced : Session → ℕ → Session
advanced s g = record s {
  state = record s.state { generation = g; maximum_verification_time = s.clock.verification_time };
}

abbrev pub write_encoded : Tried Text → Action (Unit {0})
write_encoded (ok bytes) s = replace_state bytes s
write_encoded (err e) s = (err e, s)

abbrev pub save_as : Host → Option ℕ → Action (Unit {0})
save_as host none s = (err Code.state, s)
save_as host (some g) s = let t = advanced s g in write_encoded (encode_state host t.state) t

abbrev pub save_if : Host → Bool → Action (Unit {0})
save_if host false s = (ok tt, s)
save_if host true s = save_as host (next_generation s.state.generation) s

unfoldable pub save : Host → Action (Unit {0})
save host s = save_if host s.mutating s

-- `storage::read`: the file is opened without following links, and it is no longer than the limit.
abbrev pub read_file : Option Text → ℕ → Tried Text
read_file none limit = err Code.filesystem
read_file (some bytes) limit = if leb (length bytes) limit then ok bytes else err Code.format

abbrev pub metadata_budget : ℕ
metadata_budget = 12 * 1024 * 1024

abbrev pub count_bytes : Tried Text → Action Text
count_bytes (err e) s = (err e, s)
count_bytes (ok bytes) s =
    let t = record s { total = s.total + length bytes } in
    (if leb t.total metadata_budget then ok bytes else err Code.format, t)

unfoldable pub read_metadata : Option Text → ℕ → Action Text
read_metadata file limit s = count_bytes (read_file file limit) s

abbrev pub with_role : Session → Text → RoleRecord → Session
with_role s role entry = record s {
  state = record s.state { roles = insert role entry s.state.roles };
}

abbrev pub retain : Host → Text → Tried RoleRecord → Action (Unit {0})
retain host role (err e) s = (err e, s)
retain host role (ok entry) s = save host (with_role s role entry)

unfoldable pub retain_role : Host → Value → Value → Text → Text → Action (Unit {0})
retain_role host root v bytes role s = retain host role (role_record host root v bytes role) s
