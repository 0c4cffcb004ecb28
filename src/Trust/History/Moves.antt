-- ===== src/Trust/History/Moves.antt =====
-- Verification, installation and recovery (crates/secureflow-knowledge/src/catalog_trust/install.rs)
-- move a session on, as an import does.
use secureflow.Trust.Operations.{import}
use secureflow.Trust.Wire.{hex}
use secureflow.Trust.Import.Laws.{import_metadata-IsLater}
use secureflow.Trust.Receipts.{complete}
use secureflow.Trust.Session.Forward.{IsForward-refl, IsLater-refl, IsLater}
use secureflow.Trust.Import.Roots.{Directory}
use secureflow.Trust.Errors.{check, Checked}
use secureflow.Trust.Types.{Scope, Receipt, Pending}
use secureflow.Trust.Session.Steps.{
  pure-Advances, asks-Advances, save-Advances, lift-Advances, >>=-Advances, Advances,
}
use secureflow.Trust.Session.{lift, run_each, Write, Session}
use secureflow.Trust.Map.{lookup, insert, Map}
use secureflow.Trust.Install.{
  Location, settle_path, settle_file, export_as, complete_if, complete_as, add_completed, verify,
  settle, set_pending, recover_pending, recover_as, recover, publish, install_with_checkpoint,
  clear_pending, write_receipt, publish_with, publish_journaled, publish_durable, finish,
  export_receipts, export_receipt, commit, Bundles,
}
use secureflow.Text.{Text}
use secureflow.Trust.Policy.{Host}
use secureflow.Prelude.{
  true, false, some, none, String, Option, List, Bool, arith, ◌∷◌, [], refl, inl,
}

module _ (host : Host) where
  -- The journal, the receipts and the outputs are not in the order.
  aside :
      (s : Session) (pending : Option Pending) (completed : Map Receipt)
      (receipts outputs : Map Text) (ws : List Write)
      → IsLater host s (record s {
        state = record s.state { pending = pending; completed = completed };
        receipts = receipts;
        outputs = outputs;
        writes = ws;
      })
  aside s pending completed receipts outputs ws =
      let same = IsForward-refl host s.state in
      record {
        clock = refl;
        mutating = refl;
        state = record {
          policy = refl;
          floors = same.floors;
          roles = same.roles;
          roots = same.roots;
          generation = same.generation;
        };
        stored = inl refl;
        time = λ latest t. (
          latest,
          record { now = t.now; clock = t.clock; saved = t.saved; before = t.before },
          omega arith,
        );
      }

  write_receipt-Later :
      (ws : List Write) (name bytes : Text) → Advances host (write_receipt ws name bytes)
  unfolding write_receipt
  write_receipt-Later [] name bytes s =
      aside s s.state.pending s.state.completed (insert name bytes s.receipts) s.outputs s.writes
  write_receipt-Later (Write.done ∷ ws) name bytes s =
      aside s s.state.pending s.state.completed (insert name bytes s.receipts) s.outputs ws
  write_receipt-Later (Write.unsynced ∷ ws) name bytes s =
      aside s s.state.pending s.state.completed (insert name bytes s.receipts) s.outputs ws
  write_receipt-Later (Write.refused code ∷ ws) name bytes s =
      aside s s.state.pending s.state.completed s.receipts s.outputs ws

  export_as-Later :
      (name bytes : Text) (old : Option Text) → Advances host (export_as name bytes old)
  export_as-Later name bytes none s = write_receipt-Later s.writes name bytes s
  export_as-Later name bytes (some old) s = IsLater-refl host s

  export_receipt-Later : (e : Text × Receipt) → Advances host (export_receipt host e)
  unfolding export_receipt
  export_receipt-Later (name, receipt) =
      >>=-Advances host (lift (check (hex 32 name)))
        (λ _ (s : Session). export_as name (host.encode_receipt receipt) (lookup name s.receipts) s)
        (lift-Advances host (check (hex 32 name)))
        (λ _ s. export_as-Later name (host.encode_receipt receipt) (lookup name s.receipts) s)

  export_all-Later : (es : Map Receipt) → Advances host (run_each (export_receipt host) es)
  export_all-Later [] s = IsLater-refl host s
  export_all-Later (e ∷ es) s =
      >>=-Advances host (export_receipt host e) (λ _. run_each (export_receipt host) es)
        (export_receipt-Later e) (λ _. export_all-Later es) s

  export_receipts-Later : Advances host (export_receipts host)
  unfolding export_receipts
  export_receipts-Later s = export_all-Later s.state.completed s

  publish_with-Later :
      (ws : List Write) (path database : Text) → Advances host (publish_with ws path database)
  unfolding publish_with
  publish_with-Later [] path database s =
      aside s s.state.pending s.state.completed s.receipts (insert path database s.outputs) s.writes
  publish_with-Later (Write.done ∷ ws) path database s =
      aside s s.state.pending s.state.completed s.receipts (insert path database s.outputs) ws
  publish_with-Later (Write.unsynced ∷ ws) path database s =
      aside s s.state.pending s.state.completed s.receipts (insert path database s.outputs) ws
  publish_with-Later (Write.refused code ∷ ws) path database s =
      aside s s.state.pending s.state.completed s.receipts s.outputs ws

  publish-Later : (path database : Text) → Advances host (publish path database)
  publish-Later path database s = publish_with-Later s.writes path database s

  set_pending-Later : (p : Pending) → Advances host (set_pending p)
  set_pending-Later p s = aside s (some p) s.state.completed s.receipts s.outputs s.writes

  clear_pending-Later : Advances host clear_pending
  clear_pending-Later s = aside s none s.state.completed s.receipts s.outputs s.writes

  add_completed-Later : (id : Text) (r : Receipt) → Advances host (add_completed id r)
  add_completed-Later id r s =
      aside s s.state.pending (insert id r s.state.completed) s.receipts s.outputs s.writes

  publish_durable-Later :
      (checkpoint : String → Checked) (identity : Checked) (path database : Text)
      → Advances host (publish_durable checkpoint identity path database)
  unfolding publish_durable
  publish_durable-Later checkpoint identity path database =
      search (>>=-Advances host, lift-Advances host, asks-Advances host, publish-Later) depth 24

  publish_journaled-Later :
      (checkpoint : String → Checked) (identity : Checked) (p : Pending) (path database : Text)
      → Advances host (publish_journaled host checkpoint identity p path database)
  unfolding publish_journaled
  publish_journaled-Later checkpoint identity p path database =
      search (>>=-Advances host, set_pending-Later, save-Advances host, publish_durable-Later) depth
        24

  commit-Later :
      (checkpoint : String → Checked) (id : Text) (r : Receipt)
      → Advances host (commit host checkpoint id r)
  unfolding commit
  commit-Later checkpoint id r =
      search
        (
          >>=-Advances host,
          add_completed-Later,
          clear_pending-Later,
          save-Advances host,
          lift-Advances host,
          export_receipts-Later,
          pure-Advances host,
        )
        depth 24

  finish-Later :
      (checkpoint : String → Checked) (identity : Checked) (p : Pending) (path database id : Text)
      → Advances host (finish host checkpoint identity p path database id)
  unfolding finish
  finish-Later checkpoint identity p path database id =
      search (>>=-Advances host, publish_journaled-Later, commit-Later)

  pub import-Advances :
      (dir : Directory) (publisher : Text) (root_only : Bool)
      → Advances host (import host dir publisher root_only)
  unfolding import
  import-Advances dir publisher root_only =
      search
        (
          >>=-Advances host,
          asks-Advances host,
          pure-Advances host,
          save-Advances host,
          import_metadata-IsLater host dir root_only,
        )
        depth 24

module _ (host : Host) (bundles : Bundles) where
  complete_as-Later : (r : Receipt) (id : Option Text) → Advances host (complete_as r id)
  complete_as-Later r none s = IsLater-refl host s
  complete_as-Later r (some id) s =
      aside host s s.state.pending (insert id (complete r) s.state.completed) s.receipts s.outputs
        s.writes

  complete_if-Later : (p : Pending) (valid : Bool) → Advances host (complete_if p valid)
  complete_if-Later p false s = IsLater-refl host s
  complete_if-Later p true s = complete_as-Later p.receipt p.receipt.transaction_id s

  settle_file-Later :
      (p : Pending) (file : Option Text) → Advances host (settle_file bundles p file)
  settle_file-Later p none s = IsLater-refl host s
  settle_file-Later p (some installed) s =
      complete_if-Later p (bundles.verify_installed_descriptor p.descriptor installed) s

  settle_path-Later :
      (p : Pending) (path : Option Text) → Advances host (settle_path bundles p path)
  settle_path-Later p none s = IsLater-refl host s
  settle_path-Later p (some path) s = settle_file-Later p (lookup path s.outputs) s

  settle-Later : (p : Pending) → Advances host (settle bundles p)
  unfolding settle
  settle-Later p s = settle_path-Later p p.receipt.output s

  recover_pending-Later : (p : Pending) → Advances host (recover_pending host bundles p)
  unfolding recover_pending
  recover_pending-Later p =
      search
        (
          >>=-Advances host,
          lift-Advances host,
          settle-Later,
          clear_pending-Later host,
          save-Advances host,
        )
        depth 24

  recover_as-Later : (p : Option Pending) → Advances host (recover_as host bundles p)
  unfolding recover_as
  recover_as-Later none = export_receipts-Later host
  recover_as-Later (some p) =
      search (>>=-Advances host, recover_pending-Later, export_receipts-Later host)

  pub recover-Advances : Advances host (recover host bundles)
  unfolding recover
  recover-Advances s = recover_as-Later s.state.pending s

  pub verify-Advances :
      (dir : Directory) (scope : Scope) (manifest payload : Option Text)
      → Advances host (verify host bundles dir scope manifest payload)
  unfolding verify
  verify-Advances dir scope manifest payload =
      search
        (
          >>=-Advances host,
          asks-Advances host,
          lift-Advances host,
          import_metadata-IsLater host dir false,
        )
        depth 24

  pub install-Advances :
      (dir : Directory) (scope : Scope) (manifest payload : Option Text) (location : Location)
      (checkpoint : String → Checked)
      → Advances host
          (install_with_checkpoint host bundles dir scope manifest payload location checkpoint)
  unfolding install_with_checkpoint
  install-Advances dir scope manifest payload location checkpoint =
      search
        (
          >>=-Advances host,
          asks-Advances host,
          lift-Advances host,
          import_metadata-IsLater host dir false,
          finish-Later host checkpoint location.identity,
        )
        depth 40
