-- ===== src/Trust/Session/Roles.antt =====
-- Keeping an examined document as the record of its role
-- (crates/secureflow-knowledge/src/catalog_trust/consumer.rs).
use secureflow.Trust.Wire.Keys.{strict_signers}
use secureflow.Trust.Errors.{require-eq-ok, Code, require}
use secureflow.Trust.Session.Steps.{retain-Later}
use secureflow.Trust.Wire.{string_field, digest, canonical, u32_max, number, envelope}
use secureflow.Trust.Session.Forward.{RoleLe-refl, HasChild, IsForward-refl, RoleLe, IsLater}
use secureflow.Trust.Map.{lookup-insert_ne, lookup-insert_self, insert, lookup}
use secureflow.Trust.Types.{RoleRecord}
use secureflow.Trust.Checks.{
  same_content, role_record, role_floor, child_floor, record_floor, evidence,
}
use secureflow.Text.{text_eq_iff, text_eq, lit, Text}
use secureflow.Trust.Session.{with_role, retain_role, Session}
use secureflow.Trust.Json.{index, at, Value}
use secureflow.Trust.Policy.{Host}
use secureflow.Prelude.{
  ==_iff, true, ◌==◌, inr, leb_iff, leb, ◌∙◌, ap, ◌≤◌, sym, if_some, subst, refl, ok_injective,
  >>-eq-ok, inl, String, Bool-cases, >>=-eq-ok, some, ℕ, ◌≡◌, ok, arith,
}

module _ (host : Host) where
  -- The record that `retain_role` makes of a document.
  role_record-eq-ok :
      (root v : Value) (bytes role : Text) {entry : RoleRecord}
      → role_record host root v bytes role ≡ ok entry
      → (version : ℕ) × (preimage : Text) × (number (at v "signed") (lit "version") u32_max
          ≡ ok version)
        × (canonical host.outside (at v "signed") ≡ ok preimage)
        × (entry.raw ≡ bytes)
        × (entry.evidence.version ≡ version)
        × (entry.evidence.signed_sha256 ≡ digest host.outside preimage)
  unfolding role_record evidence
  role_record-eq-ok root v bytes role {entry} h =
      let (ev, x, a) = >>=-eq-ok (evidence host root v bytes role) _ h in
      let b = >>-eq-ok (require (host.is_utf8 bytes) Code.format) _ a in
      let made : record { raw = bytes; evidence = ev } ≡ entry = ok_injective b.1 in
      let s = at v "signed" in
      let (version, n, c) = >>=-eq-ok (number s (lit "version") u32_max) _ x in
      let (preimage, p, d) = >>=-eq-ok (canonical host.outside s) _ c in
      let (expires, _, e) = >>=-eq-ok (string_field s (lit "expires")) _ d in
      let (signers, _, f) = >>=-eq-ok (strict_signers host.outside root v role) _ e in
      let (threshold, _, g) =
        >>=-eq-ok (number (index (at (at root "signed") "roles") role) (lit "threshold") 32) _ f in
      let fields = ok_injective g in
      (
        version,
        preimage,
        n,
        p,
        sym (ap (λ r. r.raw) made),
        sym (ap (λ r. r.evidence.version) made) ∙ sym (ap (λ r. r.version) fields),
        sym (ap (λ r. r.evidence.signed_sha256) made) ∙ sym (ap (λ r. r.signed_sha256) fields),
      )

  same_content-digest :
      (old : RoleRecord) (v : Value) (version : ℕ) (preimage : Text)
      → same_content host old v version ≡ ok tt
      → version ≡ old.evidence.version
      → canonical host.outside (at v "signed") ≡ ok preimage
      → digest host.outside preimage ≡ old.evidence.signed_sha256
  unfolding same_content
  same_content-digest old v version preimage h e p =
      let test : version == old.evidence.version ≡ true =
        (==_iff version old.evidence.version).1 e in
      let a = rw test at h in
      let (q, found, b) = >>=-eq-ok (canonical host.outside (at v "signed")) _ a in
      let same_bytes : q ≡ preimage = ok_injective (sym found ∙ p) in
      let c =
        require-eq-ok (text_eq (digest host.outside q) old.evidence.signed_sha256) Code.equivocation
          b in
      rw (← same_bytes) ((text_eq_iff (digest host.outside q) old.evidence.signed_sha256).0 c)

  child_floor-le :
      (old : RoleRecord) (v : Value) (role : Text) (child : String) (n : ℕ)
      → child_floor host old v role child ≡ ok tt
      → HasChild host role child old.raw n
      → (m : ℕ) × (number (at (at (at v "signed") "meta") child) (lit "version") u32_max ≡ ok m)
        × (n ≤ m)
  unfolding child_floor
  child_floor-le old v role child n h (w, read, named) =
      let (w', x, a) = >>=-eq-ok (envelope host.outside old.raw role) _ h in
      let (ov, y, b) =
        >>=-eq-ok (number (at (at (at w' "signed") "meta") child) (lit "version") u32_max) _ a in
      let (nv, z, c) =
        >>=-eq-ok (number (at (at (at v "signed") "meta") child) (lit "version") u32_max) _ b in
      let ew : w' ≡ w = ok_injective (sym x ∙ read) in
      let ev : ov ≡ n = ok_injective (
        sym y
        ∙ ap (λ u. number (at (at (at u "signed") "meta") child) (lit "version") u32_max) ew
        ∙ named) in
      let le = (leb_iff ov nv).0 (require-eq-ok (leb ov nv) Code.rollback c) in
      (nv, z, omega (arith, le, ev))

  record_floor-RoleLe :
      (root v : Value) (bytes role : Text) (old entry : RoleRecord)
      → envelope host.outside bytes role ≡ ok v
      → record_floor host role v old ≡ ok tt
      → role_record host root v bytes role ≡ ok entry
      → RoleLe host role old entry
  unfolding record_floor
  record_floor-RoleLe root v bytes role old entry read h made =
      let (version, preimage, n, p, raw, ve, se) = role_record-eq-ok root v bytes role made in
      let (ver, n', a) = >>=-eq-ok (number (at v "signed") (lit "version") u32_max) _ h in
      let ev : ver ≡ version = ok_injective (sym n' ∙ n) in
      let b = >>-eq-ok (require (leb old.evidence.version ver) Code.rollback) _ a in
      let le =
        (leb_iff old.evidence.version ver).0
          (require-eq-ok (leb old.evidence.version ver) Code.rollback b.0) in
      let c = >>-eq-ok (same_content host old v ver) _ b.1 in
      record {
        version = omega (arith, le, ev, ve);
        content = λ e. se ∙ same_content-digest old v ver preimage c.0 (omega (arith, e, ev, ve)) p;
        child = λ name m is_child had.
            let floor : child_floor host old v role name ≡ ok tt =
              subst (λ o. if_some (child_floor host old v role) o ≡ ok tt) is_child c.1 in
            let (k, ek, lk) = child_floor-le old v role name m floor had in
            (k, (v, rw raw read, ek), lk);
      }

  roles_with :
      (s : Session) (role : Text) (entry : RoleRecord)
      → ((old : RoleRecord) → lookup role s.state.roles ≡ some old → RoleLe host role old entry)
      → (name : Text) (r : RoleRecord) → lookup name s.state.roles ≡ some r
      → (q : RoleRecord) × (lookup name (insert role entry s.state.roles) ≡ some q)
        × RoleLe host name r q
  roles_with s role entry h name r e = elim (Bool-cases (text_eq name role)) [
    | inl same ↦
        let path : name ≡ role = (text_eq_iff name role).0 same in
        (
          entry,
          ap (λ x. lookup x (insert role entry s.state.roles)) path
              ∙ lookup-insert_self role entry s.state.roles,
          subst (λ x. RoleLe host x r entry) (sym path)
              (h r (ap (λ x. lookup x s.state.roles) (sym path) ∙ e)),
        )
    | inr other ↦
        (r, lookup-insert_ne name role entry s.state.roles other ∙ e, RoleLe-refl host name r)
  ]

  with_role-Later :
      (s : Session) (role : Text) (entry : RoleRecord)
      → ((old : RoleRecord) → lookup role s.state.roles ≡ some old → RoleLe host role old entry)
      → IsLater host s (with_role s role entry)
  with_role-Later s role entry h =
      let same = IsForward-refl host s.state in
      record {
        clock = refl;
        mutating = refl;
        state = record {
          policy = refl;
          floors = same.floors;
          roles = roles_with s role entry h;
          roots = same.roots;
          generation = same.generation;
        };
        stored = inl refl;
        time = λ latest t. (
          latest,
          record { now = t.now; clock = t.clock; saved = t.saved; before = t.before },
          omega arith,
        );
      }

  -- A document that the session has examined can be kept.
  pub retain_role-Later :
      (s : Session) (root v : Value) (bytes role : Text)
      → envelope host.outside bytes role ≡ ok v
      → role_floor host s.state role v ≡ ok tt
      → IsLater host s (retain_role host root v bytes role s).1
  unfolding retain_role role_floor
  retain_role-Later s root v bytes role read floor =
      retain-Later host role (role_record host root v bytes role) s λ entry made.
        with_role-Later s role entry λ old kept.
          record_floor-RoleLe root v bytes role old entry read
            (subst (λ o. if_some (record_floor host role v) o ≡ ok tt) kept floor) made
