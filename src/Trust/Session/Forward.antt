-- ===== src/Trust/Session/Forward.antt =====
-- The order in which the state of a store moves, for
-- crates/secureflow-knowledge/src/catalog_trust/consumer.rs: floors, roles, roots, generation and
-- time, in memory and in state.json.
use secureflow.Prelude.{
  ap, ℕ, ◌≤◌, ◌≡◌, refl, String, some, List, [], ◌++◌, ok, arith, ◌⊎◌, inl, inr, sym, ◌∙◌,
}
use mathlib.Core.List.{append_assoc, append-nil}
use secureflow.Text.{Text, lit}
use secureflow.Trust.Map.{lookup}
use secureflow.Trust.Json.{Value, at}
use secureflow.Trust.Wire.{parse_time, number, u32_max, envelope}
use secureflow.Trust.Types.{State, Floor, RoleRecord}
use secureflow.Trust.Policy.{Host}
use secureflow.Trust.Checks.{child_of}
use secureflow.Trust.Session.{Session, encode_state}

-- A later floor has at least the sequence, and at the same sequence the same manifest.
pub record FloorLe (f g : Floor) : Type 0 where
  pub sequence : f.sequence ≤ g.sequence
  pub manifest :
      (hash : Text)
      → f.sequence ≡ g.sequence
      → f.manifest_sha256 ≡ some hash
      → g.manifest_sha256 ≡ some hash

-- The version of the child that a kept document names.
abbrev pub HasChild : Host → Text → String → Text → ℕ → Type 0
HasChild host role child raw version =
    (v : Value) × (envelope host.outside raw role ≡ ok v)
    × (number (at (at (at v "signed") "meta") child) (lit "version") u32_max ≡ ok version)

-- A later record of a role has at least the version, at the same version the same signed part, and
-- it names a child that is at least as new.
pub record RoleLe (host : Host) (role : Text) (r q : RoleRecord) : Type 0 where
  pub version : r.evidence.version ≤ q.evidence.version
  pub content :
      r.evidence.version ≡ q.evidence.version → q.evidence.signed_sha256 ≡ r.evidence.signed_sha256
  pub child :
      (name : String) (n : ℕ)
      → child_of role ≡ some name
      → HasChild host role name r.raw n
      → (m : ℕ) × HasChild host role name q.raw m × (n ≤ m)

pub record IsForward (host : Host) (a b : State) : Type 0 where
  pub policy : b.policy ≡ a.policy
  pub floors :
      (profile : Text) (f : Floor)
      → lookup profile a.floors ≡ some f
      → (g : Floor) × (lookup profile b.floors ≡ some g) × FloorLe f g
  pub roles :
      (role : Text) (r : RoleRecord)
      → lookup role a.roles ≡ some r
      → (q : RoleRecord) × (lookup role b.roles ≡ some q) × RoleLe host role r q
  pub roots : (more : List Text) × (b.roots ≡ a.roots ++ more)
  pub generation : a.generation ≤ b.generation

-- The latest saved time is `latest`, and the session's clock is not before it.
pub record IsTimely (host : Host) (s : Session) (latest : ℕ) : Type 0 where
  pub now : ℕ
  pub clock : parse_time host.outside s.clock.verification_time ≡ ok now
  pub saved : parse_time host.outside s.state.maximum_verification_time ≡ ok latest
  pub before : latest ≤ now

-- What any operation does to a session: state.json holds what it held, or a later state.
pub record IsLater (host : Host) (s t : Session) : Type 0 where
  pub clock : t.clock ≡ s.clock
  pub mutating : t.mutating ≡ s.mutating
  pub state : IsForward host s.state t.state
  pub stored :
      (t.state_json ≡ s.state_json)
      ⊎ ((u : State) × IsForward host s.state u × (encode_state host u ≡ ok t.state_json))
  pub time :
      (latest : ℕ) → IsTimely host s latest → (later : ℕ) × IsTimely host t later × (latest ≤ later)

FloorLe-refl : (f : Floor) → FloorLe f f
FloorLe-refl f = record { sequence = omega arith; manifest = λ hash e h. h }

FloorLe-trans : {f g h : Floor} → FloorLe f g → FloorLe g h → FloorLe f h
FloorLe-trans p q = record {
  sequence = omega (arith, p.sequence, q.sequence);
  manifest = λ hash e m.
      q.manifest hash (omega (arith, p.sequence, q.sequence, e))
        (p.manifest hash (omega (arith, p.sequence, q.sequence, e)) m);
}

module _ (host : Host) where
  pub RoleLe-refl : (role : Text) (r : RoleRecord) → RoleLe host role r r
  RoleLe-refl role r = record {
    version = omega arith;
    content = λ e. refl;
    child = λ name n c h. (n, h, omega arith);
  }

  RoleLe-trans :
      (role : Text) {r q p : RoleRecord}
      → RoleLe host role r q
      → RoleLe host role q p
      → RoleLe host role r p
  RoleLe-trans role {r} {q} {p} a b = record {
    version = omega (arith, a.version, b.version);
    content = λ e.
        b.content (omega (arith, a.version, b.version, e))
        ∙ a.content (omega (arith, a.version, b.version, e));
    child = λ name n c h.
        let (m, hm, le) = a.child name n c h in
        let (k, hk, le') = b.child name m c hm in (k, hk, omega arith);
  }

  pub IsForward-refl : (a : State) → IsForward host a a
  IsForward-refl a = record {
    policy = refl;
    floors = λ profile f e. (f, e, FloorLe-refl f);
    roles = λ role r e. (r, e, RoleLe-refl role r);
    roots = ([], sym (append-nil a.roots));
    generation = omega arith;
  }

  pub IsForward-trans :
      {a b c : State} → IsForward host a b → IsForward host b c → IsForward host a c
  IsForward-trans {a} {b} {c} p q = record {
    policy = q.policy ∙ p.policy;
    floors = λ profile f e.
        let (g, eg, le) = p.floors profile f e in
        let (h, eh, le') = q.floors profile g eg in (h, eh, FloorLe-trans le le');
    roles = λ role r e.
        let (g, eg, le) = p.roles role r e in
        let (h, eh, le') = q.roles role g eg in (h, eh, RoleLe-trans role le le');
    roots =
        let (xs, ex) = p.roots in
        let (ys, ey) = q.roots in
        (xs ++ ys, ey ∙ ap (λ l. l ++ ys) ex ∙ append_assoc a.roots xs ys);
    generation = omega (arith, p.generation, q.generation);
  }

  pub IsLater-refl : (s : Session) → IsLater host s s
  IsLater-refl s = record {
    clock = refl;
    mutating = refl;
    state = IsForward-refl s.state;
    stored = inl refl;
    time = λ latest h. (latest, h, omega arith);
  }

  pub IsLater-trans : {s t u : Session} → IsLater host s t → IsLater host t u → IsLater host s u
  IsLater-trans {s} {t} {u} p q = record {
    clock = q.clock ∙ p.clock;
    mutating = q.mutating ∙ p.mutating;
    state = IsForward-trans p.state q.state;
    stored = stored q.stored;
    time = λ latest h.
        let (m, hm, le) = p.time latest h in let (k, hk, le') = q.time m hm in (k, hk, omega arith);
  }
    where
      stored :
          (u.state_json ≡ t.state_json)
            ⊎ ((x : State) × IsForward host t.state x × (encode_state host x ≡ ok u.state_json))
          → (u.state_json ≡ s.state_json)
            ⊎ ((x : State) × IsForward host s.state x × (encode_state host x ≡ ok u.state_json))
      stored (inr (x, f, e)) = inr (x, IsForward-trans p.state f, e)
      stored (inl e) = elim p.stored [
        | inl e' ↦ inl (e ∙ e')
        | inr (x, f, e') ↦ inr (x, f, rw e e')
      ]
