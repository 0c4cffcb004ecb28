-- ===== src/Trust/Install/Recovery.antt =====
-- `recover` of crates/secureflow-knowledge/src/catalog_trust/install.rs against its specification:
-- an interrupted installation is committed if its database was published, else rolled back.
use secureflow.Trust.Session.Saved.{save-IsSaved}
use secureflow.Trust.Session.Steps.{action_ok}
use secureflow.Trust.Receipts.{complete}
use secureflow.Trust.Errors.{require-eq-ok, require, Code, Checked}
use secureflow.Trust.Map.{lookup, insert, Map}
use secureflow.Text.{Text}
use secureflow.Trust.Types.{Receipt, Pending}
use secureflow.Trust.Session.{◌>>◌, advanced, save, lift, encode_state, Session}
use secureflow.Trust.Policy.{Host}
use secureflow.Trust.Install.{
  with_pending, clear_pending, complete_as, complete_if, settle_path, settle_file, settle,
  is_consistent, recover_pending, Bundles,
}
use secureflow.Prelude.{
  ◌∙◌, sym, false, ap, subst, inr, ◌+◌, refl, inl, none, err, Bool-cases, true, some, Bool, Option,
  ◌≡◌, ok,
}

-- The specification: which receipt a pending installation leaves behind, by what is at its output.
abbrev pub file_at : Option Text → Map Text → Option Text
file_at none outputs = none
file_at (some path) outputs = lookup path outputs

abbrev pub completion : Receipt → Option Text → Option Text → Map Receipt → Map Receipt
completion receipt none id completed = completed
completion receipt (some _) none completed = completed
completion receipt (some _) (some id) completed = insert id (complete receipt) completed

-- The receipts once the installation is settled, as one step.
abbrev pub settled : Pending → Map Text → Map Receipt → Map Receipt
settled p outputs completed =
    completion p.receipt (file_at p.receipt.output outputs) p.receipt.transaction_id completed

abbrev with_receipts : Session → Map Receipt → Session
with_receipts s completed = record s { state = record s.state { completed = completed } }

module _ (bundles : Bundles) where
  complete_if-Settled :
      (p : Pending) (s : Session) (installed : Text) (valid : Bool) (id : Option Text)
      → p.receipt.transaction_id ≡ id
      → (complete_if p valid s).0 ≡ ok tt
      → (complete_if p valid s).1
        ≡ with_receipts s (completion p.receipt (some installed) id s.state.completed)
  complete_if-Settled p s installed false id e h = cc
  complete_if-Settled p s installed true none e h =
      let failed : ◌≡◌ {A = Checked} (err Code.state) (ok tt) =
        subst (λ i. (complete_as p.receipt i s).0 ≡ ok tt) e h in
      cc failed
  complete_if-Settled p s installed true (some id) e h = ap (λ i. (complete_as p.receipt i s).1) e

  settle_file-Settled :
      (p : Pending) (s : Session) (file : Option Text)
      → (settle_file bundles p file s).0 ≡ ok tt
      → (settle_file bundles p file s).1
        ≡ with_receipts s (completion p.receipt file p.receipt.transaction_id s.state.completed)
  settle_file-Settled p s none h = refl
  settle_file-Settled p s (some installed) h =
      complete_if-Settled p s installed (bundles.verify_installed_descriptor p.descriptor installed)
        p.receipt.transaction_id refl h

  settle_path-Settled :
      (p : Pending) (s : Session) (path : Option Text)
      → (settle_path bundles p path s).0 ≡ ok tt
      → (settle_path bundles p path s).1
        ≡ with_receipts s (
            completion p.receipt
              (file_at path s.outputs)
              p.receipt.transaction_id
              s.state.completed)
  settle_path-Settled p s none h = cc
  settle_path-Settled p s (some path) h = settle_file-Settled p s (lookup path s.outputs) h

  -- A published database that recovery lets pass is the one that the journal describes.
  settle_path-Verified :
      (p : Pending) (s : Session) (path : Option Text) (installed : Text)
      → (settle_path bundles p path s).0 ≡ ok tt
      → file_at path s.outputs ≡ some installed
      → bundles.verify_installed_descriptor p.descriptor installed ≡ true
  settle_path-Verified p s none installed h e = cc
  settle_path-Verified p s (some path) installed h e =
      elim (Bool-cases (bundles.verify_installed_descriptor p.descriptor installed)) [
        | inl valid ↦ valid
        | inr bad ↦
            let k : (complete_if p (bundles.verify_installed_descriptor p.descriptor installed) s).0
                ≡ ok tt =
              subst (λ f. (settle_file bundles p f s).0 ≡ ok tt) e h in
            let failed : ◌≡◌ {A = Checked} (err Code.state) (ok tt) =
              subst (λ b. (complete_if p b s).0 ≡ ok tt) bad k in
            cc failed
      ]

-- The state after recovery is the specified one, saved: nothing pending, the receipt completed
-- exactly if the database is at its output, and nothing else touched but generation and time.
pub record IsRecovered (host : Host) (bundles : Bundles) (p : Pending) (s t : Session)
    : Type 0 where
  pub consistent : is_consistent p ≡ true
  pub state : t.state ≡ record s.state {
    completed = settled p s.outputs s.state.completed;
    pending = none;
    generation = s.state.generation + 1;
    maximum_verification_time = s.clock.verification_time;
  }
  pub stored : encode_state host t.state ≡ ok t.state_json
  pub outputs : t.outputs ≡ s.outputs
  pub verified :
      (installed : Text)
      → file_at p.receipt.output s.outputs ≡ some installed
      → bundles.verify_installed_descriptor p.descriptor installed ≡ true

-- Recovery of a pending installation in a session that may write: when it succeeds the session is
-- the specified one: nothing is pending, the receipt is completed exactly if a file is at its output,
-- which is then the described database, the generation is one more, the time is the session's,
-- nothing else of the state is changed, and state.json encodes it.
pub recover_pending-IsRecovered :
    (host : Host) (bundles : Bundles) (p : Pending) (s : Session)
    → s.mutating ≡ true
    → (recover_pending host bundles p s).0 ≡ ok tt
    → IsRecovered host bundles p s (recover_pending host bundles p s).1
unfolding recover_pending settle
recover_pending-IsRecovered host bundles p s m h =
    let (_, c, r1) =
      action_ok (lift (require (is_consistent p) Code.state))
        (λ _. settle bundles p >> (clear_pending >> save host)) s h in
    let h1 : ((settle bundles p >> (clear_pending >> save host)) s).0 ≡ ok tt =
      ap (λ q. q.0) (sym r1) ∙ h in
    let (_, c2, r2) = action_ok (settle bundles p) (λ _. clear_pending >> save host) s h1 in
    let after = (settle_path bundles p p.receipt.output s).1 in
    let e1 = settle_path-Settled bundles p s p.receipt.output c2 in
    let path = r1 ∙ r2 in
    let h2 : (save host (with_pending after none)).0 ≡ ok tt = ap (λ q. q.0) (sym path) ∙ h in
    let sv = save-IsSaved host (with_pending after none) (ap (λ u. u.mutating) e1 ∙ m) h2 in
    subst (λ q. IsRecovered host bundles p s q.1) (sym path)
      (record {
        consistent = require-eq-ok (is_consistent p) Code.state c;
        state =
            sv.state ∙ ap (λ u. (advanced (with_pending u none) (u.state.generation + 1)).state) e1;
        stored = sv.stored;
        outputs = sv.outputs ∙ ap (λ u. u.outputs) e1;
        verified = λ installed f. settle_path-Verified bundles p s p.receipt.output installed c2 f;
      })
