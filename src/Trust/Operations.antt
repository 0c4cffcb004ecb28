-- ===== src/Trust/Operations.antt =====
-- `Session::open` of crates/secureflow-knowledge/src/catalog_trust/consumer.rs, `Session::import` of
-- mod.rs and `Clock::capture` of types.rs.
pub mod Clocks
use secureflow.Prelude.{
  Bool, ◌&&◌, not, Option, none, some, List, leb, length, is_empty, if◌then◌else◌, ok, err,
}
use secureflow.Text.{Text, lit, text_eq}
use secureflow.Text.Chars.{trim}
use secureflow.Trust.Errors.{Code, Tried, Checked, require, check}
use secureflow.Trust.Map.{Map}
use secureflow.Trust.Wire.{parse_time}
use secureflow.Trust.Types.{Clock, State, Target, validate_clock}
use secureflow.Trust.Policy.{Host}
use secureflow.Trust.Checks.{current_root}
use secureflow.Trust.Session.{Session, Action, Write, ◌>>=◌, ◌>>◌, pure, asks, lift, save}
use secureflow.Trust.Import.{check_time, import_metadata}
use secureflow.Trust.Import.Roots.{Directory}
use secureflow.Trust.Install.{Bundles, recover}
use secureflow.Trust.Store.{load_state}

-- A session on a state that was read from state.json.
abbrev pub reopened : Session → State → Clock → Bool → List Write → Session
reopened s state clock mutating writes = record s {
  state = state;
  clock = clock;
  mutating = mutating;
  total = 0;
  writes = writes;
}

abbrev start_session : State → Clock → Bool → Action (Unit {0})
start_session state clock mutating s = (ok tt, reopened s state clock mutating s.writes)

-- `lock` is what taking the lock answers. A session that may write first recovers.
unfoldable pub open_session : Host → Bundles → Checked → Clock → Bool → Action (Unit {0})
open_session host bundles lock clock mutating = do
  lift (validate_clock host.outside clock)
  lift lock
  state ← asks (λ s. load_state host (some s.state_json))
  lift (check_time host state clock)
  start_session state clock mutating
  if mutating then recover host bundles else pure tt

-- The import of a publisher's metadata; the report that is printed is not modelled.
unfoldable pub import : Host → Directory → Text → Bool → Action (Map Target)
import host dir publisher root_only = do
  asks (λ s. require s.mutating Code.state)
  asks (λ s. require (text_eq s.state.policy.publisher_id publisher) Code.scope)
  asks (λ s. check (current_root host s.state))
  asks (λ s. require (not (is_empty s.state.roots)) Code.state)
  targets ← import_metadata host dir root_only
  save host
  asks (λ s. check (current_root host s.state))
  pure targets

-- A clock that the operator states.
unfoldable pub attest : Host → Text → Text → Tried Clock
attest host time reference = elim (parse_time host.outside time) [
  | err e ↦ err e
  | ok _ ↦
      if not (is_empty (trim reference)) && leb (length reference) 1024
      then ok (record {
        verification_time = time;
        time_source = lit "operator-attested";
        time_reference = reference;
      })
      else err Code.clock
]

-- `now` is the time of the system clock in whole seconds, as a text, if it can be formatted.
unfoldable pub capture : Host → Option Text → Option Text → Option Text → Tried Clock
capture host now (some time) (some reference) = attest host time reference
capture host (some now) none none = ok (record {
  verification_time = now;
  time_source = lit "operator-trusted-system-clock";
  time_reference = lit "local operating system clock";
})
capture host none none none = err Code.clock
capture host now (some _) none = err Code.clock
capture host now none (some _) = err Code.clock
