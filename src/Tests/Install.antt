-- ===== src/Tests/Install.antt =====
-- The theorems on installation, recovery and the history of a store, for
-- crates/secureflow-knowledge/src/catalog_trust, at a small signed catalog.
use secureflow.Trust.Session.Saved.{save-IsSaved}
use secureflow.Trust.Install.Capacity.{reserve-save}
use secureflow.Trust.Operations.{reopened}
use secureflow.Tests.Blank.{blank_host-IsFaithful, blank_session, blank, blank_host}
use secureflow.Trust.Wire.{digest}
use secureflow.Trust.Types.{State, Receipt, Pending}
use secureflow.Trust.Session.Forward.{IsForward}
use secureflow.Trust.Session.{save, replace_with, encode_state, Session}
use secureflow.Trust.Receipts.{complete, reserve, pending_receipt}
use secureflow.Trust.Install.Recovery.{recover_pending-IsRecovered, IsRecovered}
use secureflow.Trust.Install.Journal.{finish-IsJournaled, IsJournaled}
use secureflow.Trust.Install.{
  with_completed, with_pending, settle, recover_pending, publish_with, publish_journaled,
  publish_durable, finish, commit, Bundles,
}
use secureflow.Trust.History.{saved, here, next, Reach-IsForward, reopen, Reach}
use secureflow.Trust.Errors.{Code, require, Checked}
use secureflow.Text.Format.{encode_hex, decimal}
use secureflow.Text.Compare.{cmp}
use secureflow.Text.{text_eq, lit, Text}
use secureflow.Prelude.{not, String, ◌≡◌, refl, ok, true, false, some, none, [], ◌∷◌}
use secureflow.Tests.Catalog.{
  sample_clock, sample_state, sample_scope, sample_outside, sample_host, sample_session,
}
use secureflow.Trust.Map.{lookup, insert}

abbrev bundles : Bundles
bundles = record {
  parse_manifest = λ s. none;
  verify_trusted_bundle = λ m s. true;
  prepare_trusted_install = λ m s. some s;
  verify_installed_descriptor = λ d s. text_eq s (lit "database");
}

abbrev receipt : Receipt
receipt = record {
  contract_version = [];
  operation = lit "install";
  installation = lit "pending";
  transaction_id = some (lit "id");
  output = some (lit "/out");
  integrity = [];
  publisher_authenticity = [];
  freshness = [];
  rollback = [];
  scope = sample_scope;
  release_sequence = 3;
  initial_root_sha256 = [];
  current_root_sha256 = [];
  metadata = [];
  manifest_sha256 = [];
  manifest_bytes = 1;
  database_sha256 = lit "hash";
  database_bytes = 8;
  policy_sha256 = [];
  clock = sample_clock;
  earliest_expiry = [];
  state_generation = 2;
  reserves_acceptance = true;
  validation_authority = [];
  limitations = [];
}

abbrev pending : Pending
pending = record {
  receipt = receipt;
  descriptor = record { database_sha256 = lit "hash"; database_bytes = 8 };
}

-- The session that finds a pending installation, its database published.
abbrev interrupted : Session
interrupted = record sample_session {
  state = record sample_state { pending = some pending; generation = 2 };
  outputs = (lit "/out", lit "database") ∷ [];
}

recovers : (recover_pending sample_host bundles pending interrupted).0 ≡ ok tt
unfolding recover_pending settle save encode_state replace_with lookup insert cmp lit text_eq
    decimal
recovers = refl

recover_completes :
    lookup (lit "id") (recover_pending sample_host bundles pending interrupted).1.state.completed
    ≡ some (record receipt { installation = lit "complete" })
unfolding recover_pending settle save encode_state replace_with lookup insert cmp lit text_eq
    decimal
recover_completes = refl

recover_pending-IsRecovered_example :
    IsRecovered sample_host bundles pending interrupted
      (recover_pending sample_host bundles pending interrupted).1
recover_pending-IsRecovered_example =
    recover_pending-IsRecovered sample_host bundles pending interrupted refl recovers

-- The caller's closure breaks off when the database has been published.
abbrev crash : String → Checked
crash name = require (not (text_eq (lit name) (lit "published"))) Code.state

published :
    lookup
      (lit "/out")
      (finish sample_host crash
        (ok tt)
        pending
        (lit "/out")
        (lit "database")
        (lit "id")
        sample_session).1.outputs
    ≡ some (lit "database")
unfolding finish publish_journaled publish_durable publish_with commit save encode_state
    replace_with lookup insert cmp lit text_eq decimal
published = refl

not_published : lookup (lit "/out") sample_session.outputs ≡ none
unfolding lookup
not_published = refl

finish-IsJournaled_example :
    IsJournaled sample_host pending
      (lit "/out")
      (lit "id")
      (finish sample_host crash
        (ok tt)
        pending
        (lit "/out")
        (lit "database")
        (lit "id")
        sample_session).1
finish-IsJournaled_example =
    finish-IsJournaled sample_host pending (lit "/out") (lit "id") crash (ok tt) (lit "database")
      sample_session refl not_published (lit "database") published

abbrev reserved : Receipt
reserved = pending_receipt sample_host receipt (lit "/out") 2

abbrev transaction : Text
transaction = digest sample_outside (lit "pending")

reserves :
    reserve sample_host sample_state sample_clock (lit "/out") receipt ≡ ok (reserved, transaction)
unfolding reserve pending_receipt encode_state digest lit decimal encode_hex insert
reserves = refl

abbrev journaling : Session
journaling = record sample_session {
  state = record sample_state {
    pending = some (record { receipt = reserved; descriptor = pending.descriptor });
  };
}

journal_saved : (save sample_host journaling).0 ≡ ok tt
unfolding save encode_state replace_with decimal
journal_saved = refl

abbrev journaled : Session
journaled = (save sample_host journaling).1

still_mutating : journaled.mutating ≡ true
unfolding save encode_state replace_with decimal
still_mutating = refl

no_faults : journaled.writes ≡ []
unfolding save encode_state replace_with decimal
no_faults = refl

reserve-save_example :
    (save sample_host
      (with_pending (with_completed journaled transaction (complete reserved)) none)).0
    ≡ ok tt
reserve-save_example =
    reserve-save sample_host (lit "/out") receipt reserved transaction pending.descriptor
      sample_session journaled reserves (save-IsSaved sample_host journaling refl journal_saved)
      still_mutating no_faults

blank_stored : encode_state blank_host blank_session.state ≡ ok blank_session.state_json
unfolding encode_state
blank_stored = refl

abbrev once_saved : Session
once_saved = (save blank_host blank_session).1

resaved : encode_state blank_host (blank 2 0 0) ≡ ok once_saved.state_json
unfolding save encode_state replace_with
resaved = refl

-- A save, and a session on what it wrote, without the lock.
abbrev reopening : Session
reopening = reopened once_saved (blank 2 0 0) blank_session.clock false []

reaches : Reach blank_host bundles blank_session reopening
reaches = next (next here saved) (reopen (blank 2 0 0) blank_session.clock false [] resaved)

Reach-IsForward_example :
    IsForward blank_host blank_session.state reopening.state
    × ((u : State)
        → encode_state blank_host u ≡ ok reopening.state_json
        → IsForward blank_host blank_session.state u)
Reach-IsForward_example =
    Reach-IsForward blank_host bundles {s = blank_session} {t = reopening} blank_host-IsFaithful
      blank_stored reaches
