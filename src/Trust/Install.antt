-- ===== src/Trust/Install.antt =====
-- crates/secureflow-knowledge/src/catalog_trust/install.rs: recovery of a pending installation, the
-- receipts, and verification and installation of a catalog. What catalog_bundle.rs and the file
-- system answer is in `Bundles` and in the session.
pub mod Recovery
pub mod Capacity
pub mod Journal
use secureflow.Prelude.{
  is_none, ℕ, ◌+◌, String, Bool, true, false, ◌&&◌, not, is_none, Option, none, some, List, [], ◌∷◌,
  leb, ◌==◌, length, if◌then◌else◌, ok, err,
}
use secureflow.Text.{Text, lit, text_eq}
use secureflow.Trust.Errors.{Code, Tried, Checked, require, check, or_error}
use secureflow.Trust.Map.{Map, lookup, insert}
use secureflow.Trust.Json.{max_sequence, parse}
use secureflow.Trust.Wire.{digest, hex}
use secureflow.Trust.Types.{Scope, Target, Descriptor, Pending, Receipt, State}
use secureflow.Trust.Policy.{Host, allows}
use secureflow.Trust.Receipts.{Parsed, authenticate, make_receipt, complete, reserve}
use secureflow.Trust.Session.{
  Session, Action, Write, ◌>>=◌, ◌>>◌, pure, asks, lift, save, encode_state, next_generation,
  read_file, run_each,
}
use secureflow.Trust.Import.{import_metadata}
use secureflow.Trust.Import.Roots.{Directory}

-- What catalog_bundle.rs answers: the parsed manifest, whether a payload is the one it describes,
-- the database that is prepared from it, and whether an installed file is that database.
pub record Bundles : Type 0 where
  pub parse_manifest : Text → Option Parsed
  pub verify_trusted_bundle : Parsed → Text → Bool
  pub prepare_trusted_install : Parsed → Text → Option Text
  pub verify_installed_descriptor : Descriptor → Text → Bool

-- What a look at the output path finds, and what `check_identity` of the lock answers later.
pub record Location : Type 0 where
  pub text : Option Text
  pub has_private_parent : Bool
  pub is_outside_store : Bool
  pub identity : Checked

abbrev pub with_pending : Session → Option Pending → Session
with_pending s pending = record s { state = record s.state { pending = pending } }

abbrev pub with_completed : Session → Text → Receipt → Session
with_completed s id receipt = record s {
  state = record s.state { completed = insert id receipt s.state.completed };
}

-- `storage::write_new`: refused, or done; an error after the rename leaves the file.
unfoldable pub write_receipt : List Write → Text → Text → Action (Unit {0})
write_receipt [] id bytes s = (ok tt, record s { receipts = insert id bytes s.receipts })
write_receipt (Write.done ∷ ws) id bytes s =
    (ok tt, record s { receipts = insert id bytes s.receipts; writes = ws })
write_receipt (Write.unsynced ∷ ws) id bytes s =
    (err Code.filesystem, record s { receipts = insert id bytes s.receipts; writes = ws })
write_receipt (Write.refused code ∷ ws) id bytes s = (err code, record s { writes = ws })

abbrev pub export_as : Text → Text → Option Text → Action (Unit {0})
export_as id bytes (some old) s = (
  if leb (length old) 262_144 then require (text_eq old bytes) Code.state else err Code.format,
  s,
)
export_as id bytes none s = write_receipt s.writes id bytes s

unfoldable pub export_receipt : Host → Text × Receipt → Action (Unit {0})
export_receipt host (id, receipt) = do
  lift (check (hex 32 id))
  λ s. export_as id (host.encode_receipt receipt) (lookup id s.receipts) s

unfoldable pub export_receipts : Host → Action (Unit {0})
export_receipts host s = run_each (export_receipt host) s.state.completed s

-- The receipt of a pending installation whose database is there is completed.
abbrev pub complete_as : Receipt → Option Text → Action (Unit {0})
complete_as receipt none s = (err Code.state, s)
complete_as receipt (some id) s = (ok tt, with_completed s id (complete receipt))

abbrev pub complete_if : Pending → Bool → Action (Unit {0})
complete_if pending false s = (err Code.state, s)
complete_if pending true s = complete_as pending.receipt pending.receipt.transaction_id s

-- By the file at the output: if there is none the installation is dropped.
abbrev pub settle_file : Bundles → Pending → Option Text → Action (Unit {0})
settle_file bundles pending none s = (ok tt, s)
settle_file bundles pending (some installed) s =
    complete_if pending (bundles.verify_installed_descriptor pending.descriptor installed) s

abbrev pub settle_path : Bundles → Pending → Option Text → Action (Unit {0})
settle_path bundles pending none s = (err Code.state, s)
settle_path bundles pending (some path) s = settle_file bundles pending (lookup path s.outputs) s

unfoldable pub settle : Bundles → Pending → Action (Unit {0})
settle bundles pending s = settle_path bundles pending pending.receipt.output s

abbrev pub is_consistent : Pending → Bool
is_consistent p =
    text_eq p.receipt.database_sha256 p.descriptor.database_sha256
    && p.receipt.database_bytes == p.descriptor.database_bytes
    && text_eq p.receipt.installation (lit "pending")

abbrev pub clear_pending : Action (Unit {0})
clear_pending s = (ok tt, with_pending s none)

unfoldable pub recover_pending : Host → Bundles → Pending → Action (Unit {0})
recover_pending host bundles pending = do
  lift (require (is_consistent pending) Code.state)
  settle bundles pending
  clear_pending
  save host

unfoldable pub recover_as : Host → Bundles → Option Pending → Action (Unit {0})
recover_as host bundles none = export_receipts host
recover_as host bundles (some pending) =
    recover_pending host bundles pending >> export_receipts host

unfoldable pub recover : Host → Bundles → Action (Unit {0})
recover host bundles s = recover_as host bundles s.state.pending s

-- A session that only reads verifies, one that holds the mutation lock installs.
unfoldable pub verify :
    Host → Bundles → Directory → Scope → Option Text → Option Text → Action Receipt
verify host bundles dir scope manifest payload = do
  asks (λ s. require (not s.mutating) Code.state)
  asks (λ s. allows s.state.policy scope)
  targets ← import_metadata host dir false
  (parsed, t) ← asks (λ s. authenticate host s.state bundles.parse_manifest scope manifest targets)
  bytes ← lift (or_error Code.filesystem payload)
  lift (require (bundles.verify_trusted_bundle parsed bytes) Code.integrity)
  asks (λ s. make_receipt host s.state s.clock t parsed)

-- `publish`: the output must be new; an error after the hard link leaves the file.
unfoldable pub publish_with : List Write → Text → Text → Action (Unit {0})
publish_with [] path database s = (ok tt, record s { outputs = insert path database s.outputs })
publish_with (Write.done ∷ ws) path database s =
    (ok tt, record s { outputs = insert path database s.outputs; writes = ws })
publish_with (Write.unsynced ∷ ws) path database s =
    (err Code.integrity, record s { outputs = insert path database s.outputs; writes = ws })
publish_with (Write.refused code ∷ ws) path database s =
    (err Code.integrity, record s { writes = ws })

abbrev pub publish : Text → Text → Action (Unit {0})
publish path database s = publish_with s.writes path database s

abbrev pub is_new : Text → Session → Checked
is_new path s = require (is_none (lookup path s.outputs)) Code.integrity

abbrev pub set_pending : Pending → Action (Unit {0})
set_pending pending s = (ok tt, with_pending s (some pending))

abbrev pub add_completed : Text → Receipt → Action (Unit {0})
add_completed id receipt s = (ok tt, with_completed s id receipt)

-- What happens once the journal is durable. `checkpoint` is the closure of the caller, `identity` the
-- answer of `check_identity`.
unfoldable pub publish_durable : (String → Checked) → Checked → Text → Text → Action (Unit {0})
publish_durable checkpoint identity path database = do
  lift (checkpoint "pending-durable")
  lift identity
  asks (is_new path)
  publish path database
  lift (checkpoint "published")

-- What happens after the reservation: the journal, then the publication.
unfoldable pub publish_journaled :
    Host → (String → Checked) → Checked → Pending → Text → Text → Action (Unit {0})
publish_journaled host checkpoint identity pending path database = do
  set_pending pending
  save host
  publish_durable checkpoint identity path database

unfoldable pub commit : Host → (String → Checked) → Text → Receipt → Action Receipt
commit host checkpoint id receipt = do
  add_completed id (complete receipt)
  clear_pending
  save host
  lift (checkpoint "receipt-durable")
  export_receipts host
  pure (complete receipt)

unfoldable pub finish :
    Host → (String → Checked) → Checked → Pending → Text → Text → Text → Action Receipt
finish host checkpoint identity pending path database id = do
  publish_journaled host checkpoint identity pending path database
  commit host checkpoint id pending.receipt

unfoldable pub install_with_checkpoint :
    Host
    → Bundles
    → Directory
    → Scope
    → Option Text
    → Option Text
    → Location
    → (String → Checked)
    → Action Receipt
install_with_checkpoint host bundles dir scope manifest payload location checkpoint = do
  asks (λ s. require s.mutating Code.state)
  path ← lift (or_error Code.filesystem location.text)
  asks (λ s. allows s.state.policy scope)
  lift (require location.has_private_parent Code.filesystem)
  lift (require location.is_outside_store Code.filesystem)
  targets ← import_metadata host dir false
  (parsed, t) ← asks (λ s. authenticate host s.state bundles.parse_manifest scope manifest targets)
  bytes ← lift (or_error Code.filesystem payload)
  asks (is_new path)
  database ← lift (or_error Code.integrity (bundles.prepare_trusted_install parsed bytes))
  lift (checkpoint "verified")
  receipt ← asks (λ s. make_receipt host s.state s.clock t parsed)
  (reserved, id) ← asks (λ s. reserve host s.state s.clock path receipt)
  finish host checkpoint location.identity
      (record { receipt = reserved; descriptor = parsed.payload }) path database id

abbrev no_checkpoint : String → Checked
no_checkpoint _ = ok tt

unfoldable pub install :
    Host → Bundles → Directory → Scope → Option Text → Option Text → Location → Action Receipt
install host bundles dir scope manifest payload location =
    install_with_checkpoint host bundles dir scope manifest payload location no_checkpoint
