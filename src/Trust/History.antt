-- ===== src/Trust/History.antt =====
-- The history of a store: sessions are opened on what state.json holds, import, install, verify and
-- recover (crates/secureflow-knowledge/src/catalog_trust/consumer.rs and install.rs), in any order, and
-- may break off at any point.
mod Moves
use secureflow.Trust.Operations.{reopened, import}
use secureflow.Trust.Errors.{Checked}
use secureflow.Trust.Session.Steps.{save-Advances}
use secureflow.Trust.Import.{import_metadata}
use secureflow.Trust.History.Moves.{
  import-Advances, recover-Advances, install-Advances, verify-Advances,
}
use secureflow.Trust.Session.Forward.{IsForward-trans, IsForward-refl, IsLater, IsForward}
use secureflow.Trust.Import.Roots.{Directory}
use secureflow.Trust.Import.Laws.{import_metadata-IsLater}
use secureflow.Text.{Text}
use secureflow.Trust.Types.{Scope, Clock, State}
use secureflow.Trust.Install.{recover, install_with_checkpoint, Location, verify, Bundles}
use secureflow.Trust.Session.{save, Write, encode_state, Session}
use secureflow.Trust.Policy.{Host}
use secureflow.Prelude.{
  String, sym, ap, Option, ◌∙◌, subst, List, ◌⊎◌, Bool, ℕ, ◌≡◌, ok, arith, ◌∷◌, [], refl, inl, inr,
}

-- One operation on a store, with whatever directory, documents and outcomes it meets. `reopen` is
-- what `open_session` makes before it recovers, its tests left out, with any outcomes of the writes
-- to come.
pub data Step (host : Host) (bundles : Bundles) (s : Session) : Session → Type 0 where
  imported :
      (dir : Directory) (publisher : Text) (root_only : Bool)
      → Step host bundles s (import host dir publisher root_only s).1
  received :
      (dir : Directory) (root_only : Bool)
      → Step host bundles s (import_metadata host dir root_only s).1
  verified :
      (dir : Directory) (scope : Scope) (manifest payload : Option Text)
      → Step host bundles s (verify host bundles dir scope manifest payload s).1
  installed :
      (dir : Directory) (scope : Scope) (manifest payload : Option Text) (location : Location)
      (checkpoint : String → Checked)
      → Step host bundles s
          (install_with_checkpoint host bundles dir scope manifest payload location checkpoint s).1
  recovered : Step host bundles s (recover host bundles s).1
  saved : Step host bundles s (save host s).1
  reopen :
      (state : State) (clock : Clock) (mutating : Bool) (writes : List Write)
      → encode_state host state ≡ ok s.state_json
      → Step host bundles s (reopened s state clock mutating writes)

pub data Reach (host : Host) (bundles : Bundles) (s : Session) : Session → Type 0 where
  here : Reach host bundles s s
  next : {t u : Session} → Reach host bundles s t → Step host bundles t u → Reach host bundles s u

-- serde_json writes different states differently.
abbrev pub IsFaithful : Host → Type 0
IsFaithful host =
    (a b : State) (bytes : Text)
    → encode_state host a ≡ ok bytes
    → encode_state host b ≡ ok bytes
    → a ≡ b

-- Memory and state.json are both no further back than the state `a`.
record IsPast (host : Host) (a : State) (t : Session) : Type 0 where
  memory : IsForward host a t.state
  state : State
  stored : encode_state host state ≡ ok t.state_json
  disk : IsForward host a state

Later-Past :
    (host : Host) (a : State) {s t : Session} → IsLater host s t → IsPast host a s → IsPast host a t
Later-Past host a {s} {t} later p = go later.stored
  where
    go :
        (t.state_json ≡ s.state_json)
          ⊎ ((u : State) × IsForward host s.state u × (encode_state host u ≡ ok t.state_json))
        → IsPast host a t
    go (inl same) = record {
      memory = IsForward-trans host p.memory later.state;
      state = p.state;
      stored = p.stored ∙ ap ok (sym same);
      disk = p.disk;
    }
    go (inr (u, f, e)) = record {
      memory = IsForward-trans host p.memory later.state;
      state = u;
      stored = e;
      disk = IsForward-trans host p.memory f;
    }

Step-Past :
    (host : Host) (bundles : Bundles) (a : State) {s t : Session}
    → IsFaithful host
    → Step host bundles s t
    → IsPast host a s
    → IsPast host a t
Step-Past host bundles a faithful (imported dir publisher root_only) p =
    Later-Past host a (import-Advances host dir publisher root_only _) p
Step-Past host bundles a faithful (received dir root_only) p =
    Later-Past host a (import_metadata-IsLater host dir root_only _) p
Step-Past host bundles a faithful (verified dir scope manifest payload) p =
    Later-Past host a (verify-Advances host bundles dir scope manifest payload _) p
Step-Past host bundles a faithful (installed dir scope manifest payload location checkpoint) p =
    Later-Past host a
      (install-Advances host bundles dir scope manifest payload location checkpoint _) p
Step-Past host bundles a faithful recovered p =
    Later-Past host a (recover-Advances host bundles _) p
Step-Past host bundles a faithful saved p = Later-Past host a (save-Advances host _) p
Step-Past host bundles a faithful (reopen state clock mutating writes e) p =
    let same : p.state ≡ state = faithful p.state state _ p.stored e in
    record {
      memory = subst (IsForward host a) same p.disk;
      state = state;
      stored = e;
      disk = subst (IsForward host a) same p.disk;
    }

Reach-Past :
    (host : Host) (bundles : Bundles) (a : State) {s t : Session}
    → IsFaithful host
    → IsPast host a s
    → Reach host bundles s t
    → IsPast host a t
Reach-Past host bundles a faithful p here = p
Reach-Past host bundles a faithful p (next r st) =
    Step-Past host bundles a faithful st (Reach-Past host bundles a faithful p r)

-- If different states are encoded differently and the state of the first session is in state.json:
-- after any sequence of imports, verifications, installations, recoveries, saves and reopenings, each
-- of which may fail or break off anywhere, the state in memory, and every state that state.json
-- encodes, are no further back than the first one: same policy, roots that only grow, floors and
-- roles that neither go back nor change at an equal number.
pub Reach-IsForward :
    (host : Host) (bundles : Bundles) {s t : Session}
    → IsFaithful host
    → encode_state host s.state ≡ ok s.state_json
    → Reach host bundles s t
    → IsForward host s.state t.state
      × ((u : State) → encode_state host u ≡ ok t.state_json → IsForward host s.state u)
Reach-IsForward host bundles {s} {t} faithful e r =
    let start : IsPast host s.state s = record {
      memory = IsForward-refl host s.state;
      state = s.state;
      stored = e;
      disk = IsForward-refl host s.state;
    } in
    let p = Reach-Past host bundles s.state faithful start r in
    (
      p.memory,
      λ u h. subst (IsForward host s.state) (faithful p.state u t.state_json p.stored h) p.disk,
    )
