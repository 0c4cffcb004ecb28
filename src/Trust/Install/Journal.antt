-- ===== src/Trust/Install/Journal.antt =====
-- The journal of an installation (crates/secureflow-knowledge/src/catalog_trust/install.rs): a
-- database is never published before its receipt is in state.json.
use secureflow.Trust.Wire.{hex}
use secureflow.Trust.Session.Saved.{save-IsSaved, IsSaved, save-IsWritten}
use secureflow.Trust.Receipts.{complete}
use secureflow.Trust.Map.{lookup-insert_self, Map, lookup}
use secureflow.Trust.Errors.{check, Tried, Checked}
use secureflow.Trust.Session.{
  run_each, pure, advanced, save, Action, asks, ◌>>◌, lift, encode_state, Write, Session,
}
use secureflow.Trust.Install.{
  with_completed, export_receipts, write_receipt, finish, export_receipt, export_as, commit,
  with_pending, publish_journaled, publish_durable, publish, is_new, publish_with,
}
use secureflow.Text.{Text}
use secureflow.Trust.Types.{Receipt, State, Pending}
use secureflow.Trust.Policy.{Host}
use secureflow.Prelude.{
  Option, inr, inl, true, err, none, ◌⊎◌, sym, some, ◌∙◌, ap, List, String, ◌≡◌, ok, ◌∷◌, [], refl,
}

module _ (host : Host) (p : Pending) (path id : Text) where
  -- state.json holds the pending installation, or its completion.
  pub record IsJournaled (t : Session) : Type 0 where
    pub state : State
    pub stored : encode_state host state ≡ ok t.state_json
    pub entry :
        (state.pending ≡ some p)
        ⊎ ((state.pending ≡ none) × (lookup id state.completed ≡ some (complete p.receipt)))

  -- If there is a file at the output, the journal has it.
  abbrev pub Guards : Session → Type 0
  Guards t = (file : Text) → lookup path t.outputs ≡ some file → IsJournaled t

  IsJournaled-of : {s t : Session} → t.state_json ≡ s.state_json → IsJournaled s → IsJournaled t
  IsJournaled-of e j = record {
    state = j.state;
    stored = j.stored ∙ ap ok (sym e);
    entry = j.entry;
  }

  Guards-of :
      {s t : Session} → t.outputs ≡ s.outputs → t.state_json ≡ s.state_json → Guards s → Guards t
  Guards-of o e g file f = IsJournaled-of e (g file (ap (lookup path) (sym o) ∙ f))

  publish_with-Journaled :
      (ws : List Write) (database : Text) (s : Session)
      → IsJournaled s
      → IsJournaled (publish_with ws path database s).1
  unfolding publish_with
  publish_with-Journaled [] database s j = IsJournaled-of refl j
  publish_with-Journaled (Write.done ∷ ws) database s j = IsJournaled-of refl j
  publish_with-Journaled (Write.unsynced ∷ ws) database s j = IsJournaled-of refl j
  publish_with-Journaled (Write.refused code ∷ ws) database s j = IsJournaled-of refl j

  -- What an action leaves and the next one keeps, a sequence leaves.
  keep_from :
      {B : Type 0} (m : Action (Unit {0})) (n : Action B) (t : Session)
      → IsJournaled (m t).1
      → ((u : Session) → IsJournaled u → IsJournaled (n u).1)
      → IsJournaled ((m >> n) t).1
  keep_from {B} m n t h hn = go (m t) h
    where
      go :
          (r : Checked × Session)
          → IsJournaled r.1
          → IsJournaled
              (elim r.0 as (λ _. Tried B × Session) [ ok a ↦ n r.1 | err e ↦ (err e, r.1) ]).1
      go (ok a, u) x = hn u x
      go (err e, u) x = x

  keep :
      {B : Type 0} (m : Action (Unit {0})) (n : Action B)
      → ((t : Session) → IsJournaled t → IsJournaled (m t).1)
      → ((t : Session) → IsJournaled t → IsJournaled (n t).1)
      → (t : Session) → IsJournaled t
      → IsJournaled ((m >> n) t).1
  keep {B} m n hm hn t k = keep_from {B = B} m n t (hm t k) hn

  publish_durable-Journaled :
      (checkpoint : String → Checked) (identity : Checked) (database : Text) (s : Session)
      → IsJournaled s
      → IsJournaled (publish_durable checkpoint identity path database s).1
  unfolding publish_durable
  publish_durable-Journaled checkpoint identity database =
      let last = lift (checkpoint "published") in
      let fourth = publish path database >> last in
      let third = asks (is_new path) >> fourth in
      let second = lift identity >> third in
      keep {B = Unit {0}} (lift (checkpoint "pending-durable")) second (λ t k. k)
        (keep {B = Unit {0}} (lift identity) third (λ t k. k)
          (keep {B = Unit {0}} (asks (is_new path)) fourth (λ t k. k)
            (keep {B = Unit {0}} (publish path database) last
              (λ t k. publish_with-Journaled t.writes database t k) (λ t k. k))))

  -- A save of a session that holds the pending installation, or its completion, journals it.
  save-Journaled :
      (s : Session)
      → IsJournaled s
      → ((s.state.pending ≡ some p)
          ⊎ ((s.state.pending ≡ none) × (lookup id s.state.completed ≡ some (complete p.receipt))))
      → IsJournaled (save host s).1
  save-Journaled s j entry =
      let w = save-IsWritten host s in
      elim w.stored [
        | inl same ↦ IsJournaled-of same j
        | inr (g, e) ↦ record { state = (advanced s g).state; stored = e; entry = entry }
      ]

  -- What a step of the installation leaves, by how it ended.
  abbrev Leaves : {B : Type 0} → Tried B × Session → Type 0
  Leaves (ok _, t) = IsJournaled t
  Leaves (err _, t) = Guards t

  always : {B : Type 0} (r : Tried B × Session) → IsJournaled r.1 → Leaves r
  always (ok b, t) h = h
  always (err e, t) h = λ file f. h

  -- The first save, whose success is what lets the publication begin.
  publish_journaled-Leaves :
      (checkpoint : String → Checked) (identity : Checked) (database : Text) (s : Session)
      → s.mutating ≡ true
      → lookup path s.outputs ≡ none
      → Leaves (publish_journaled host checkpoint identity p path database s)
  unfolding publish_journaled
  publish_journaled-Leaves checkpoint identity database s m new =
      go (save host (with_pending s (some p))) (save-IsSaved host (with_pending s (some p)) m)
        (save-IsWritten host (with_pending s (some p))).outputs
    where
      go :
          (r : Checked × Session)
          → (r.0 ≡ ok tt → IsSaved host (with_pending s (some p)) r.1)
          → r.1.outputs ≡ s.outputs
          → Leaves (elim r.0 as (λ _. Checked × Session) [
            | ok a ↦ publish_durable checkpoint identity path database r.1
            | err e ↦ (err e, r.1)
          ])
      go (ok a, u) saved same =
          let sv = saved refl in
          always (publish_durable checkpoint identity path database u) (
            publish_durable-Journaled checkpoint identity database u (record {
              state = u.state;
              stored = sv.stored;
              entry = inl (ap (λ x. x.pending) sv.state);
            }))
      go (err e, u) saved same = λ file f.
          let absent : lookup path u.outputs ≡ none = ap (lookup path) same ∙ new in
          let clash : ◌≡◌ {A = Option Text} none (some file) = sym absent ∙ f in cc clash

  write_receipt-Journaled :
      (ws : List Write) (name bytes : Text) (s : Session)
      → IsJournaled s
      → IsJournaled (write_receipt ws name bytes s).1
  unfolding write_receipt
  write_receipt-Journaled [] name bytes s j = IsJournaled-of refl j
  write_receipt-Journaled (Write.done ∷ ws) name bytes s j = IsJournaled-of refl j
  write_receipt-Journaled (Write.unsynced ∷ ws) name bytes s j = IsJournaled-of refl j
  write_receipt-Journaled (Write.refused code ∷ ws) name bytes s j = IsJournaled-of refl j

  export_as-Journaled :
      (name bytes : Text) (old : Option Text) (s : Session)
      → IsJournaled s
      → IsJournaled (export_as name bytes old s).1
  export_as-Journaled name bytes none s j = write_receipt-Journaled s.writes name bytes s j
  export_as-Journaled name bytes (some old) s j = j

  export_receipt-Journaled :
      (e : Text × Receipt) (s : Session) → IsJournaled s → IsJournaled (export_receipt host e s).1
  unfolding export_receipt
  export_receipt-Journaled (name, receipt) =
      keep (lift (check (hex 32 name)))
        (λ s. export_as name (host.encode_receipt receipt) (lookup name s.receipts) s) (λ t k. k)
        (λ t k. export_as-Journaled name (host.encode_receipt receipt) (lookup name t.receipts) t k)

  export_all-Journaled :
      (es : Map Receipt) (s : Session)
      → IsJournaled s
      → IsJournaled (run_each (export_receipt host) es s).1
  export_all-Journaled [] s j = j
  export_all-Journaled (e ∷ es) s j =
      keep (export_receipt host e) (run_each (export_receipt host) es) (export_receipt-Journaled e)
        (λ t k. export_all-Journaled es t k) s j

  commit-Journaled :
      (checkpoint : String → Checked) (s : Session)
      → IsJournaled s
      → IsJournaled (commit host checkpoint id p.receipt s).1
  unfolding commit export_receipts
  commit-Journaled checkpoint s j =
      let done = pure {A = Receipt} (complete p.receipt) in
      let exported =
        (λ (t : Session). run_each (export_receipt host) t.state.completed t) >> done in
      let u = with_pending (with_completed s id (complete p.receipt)) none in
      keep_from {B = Receipt} (save host) (lift (checkpoint "receipt-durable") >> exported) u
        (save-Journaled u (IsJournaled-of refl j)
          (inr (refl, lookup-insert_self id (complete p.receipt) s.state.completed)))
        (keep {B = Receipt} (lift (checkpoint "receipt-durable")) exported (λ t k. k)
          (keep {B = Receipt} (λ t. run_each (export_receipt host) t.state.completed t) done
            (λ t k. export_all-Journaled t.state.completed t k) (λ t k. k)))

  -- In a session that may write, from the reservation on, with no file at the output: however the
  -- installation ends, by an error at any step, a failed write or a crash at any checkpoint, if the
  -- output then holds a file, then state.json holds the encoding of a state with the pending
  -- installation or with its completed receipt, from which recovery goes on.
  pub finish-IsJournaled :
      (checkpoint : String → Checked) (identity : Checked) (database : Text) (s : Session)
      → s.mutating ≡ true
      → lookup path s.outputs ≡ none
      → Guards (finish host checkpoint identity p path database id s).1
  unfolding finish
  finish-IsJournaled checkpoint identity database s m new =
      go (publish_journaled host checkpoint identity p path database s)
        (publish_journaled-Leaves checkpoint identity database s m new)
    where
      go :
          (r : Checked × Session)
          → Leaves r
          → Guards
              (elim r.0 as (λ _. Tried Receipt × Session) [
                | ok a ↦ commit host checkpoint id p.receipt r.1
                | err e ↦ (err e, r.1)
              ]).1
      go (ok a, u) h = λ file f. commit-Journaled checkpoint u h
      go (err e, u) h = h
