-- ===== src/Trust/Import/Targets/Laws.antt =====
-- What an accepted target may do to the floor of its profile
-- (crates/secureflow-knowledge/src/catalog_trust/consumer.rs).
use secureflow.Trust.Import.Targets.Floors.{check_floor-Le, check_floor-IsAbove, IsAbove}
use secureflow.Trust.Wire.{string_field, closed}
use secureflow.Trust.Errors.{
  Tried, try_fold_inv, require-eq-ok, require, or_error-eq-ok, Code, or_error,
}
use secureflow.Trust.Checks.{target_link}
use secureflow.Trust.Session.Forward.{FloorLe}
use secureflow.Trust.Json.Laws.{index-lookup, index-IsStrict, as_object-IsDistinct, IsStrict}
use secureflow.Text.{text_eq_iff, text_eq, lit, Text}
use secureflow.Trust.Json.{index, at, as_object, Value}
use secureflow.Trust.Map.{
  lookup-insert_ne, lookup-insert_self, insert, All-lookup_self, All-insert, lookup, Map,
}
use secureflow.Trust.Import.Targets.{
  advanced_or, advance_floor, advance_all, examine_target, check_floor, accept_targets,
  accept_target,
}
use secureflow.Trust.Types.{target_path, target_scope, Floor, Target, State}
use secureflow.Trust.Policy.{allows, validate_target, Host}
use secureflow.Prelude.{
  err, inr, inl, Bool-cases, ap, length, leb, ◌∙◌, ◌&&◌, sym, is_empty, [], ◌∷◌, not, refl,
  ok_injective, subst, >>=-eq-ok, >>-eq-ok, some, All, ◌≡◌, ok,
}

module _ (host : Host) (state : State) where
  -- A target that passed all tests: the policy allows it, and its floor may move to it.
  pub record IsAllowed (entries : Map Value) (t : Target) : Type 0 where
    pub valid : validate_target host t ≡ ok tt
    pub allowed : allows state.policy (target_scope t) ≡ ok tt
    pub hash : Text
    pub entry : Value
    pub named : lookup (target_path (target_scope t)) entries ≡ some entry
    pub hashed : string_field (at entry "hashes") (lit "sha256") ≡ ok hash
    pub floor : check_floor state t hash ≡ ok tt
    pub above : IsAbove state t hash

  examine_target-IsAllowed :
      (entries : Map Value) (name : Text) (entry : Value) {t : Target}
      → lookup name entries ≡ some entry
      → examine_target host state name entry ≡ ok t
      → IsAllowed entries t
  unfolding examine_target
  examine_target-IsAllowed entries name entry {t} found h =
      let a = >>-eq-ok (target_link entry) _ h in
      let b = >>-eq-ok (closed (at entry "custom") ("secureflow" ∷ [])) _ a.1 in
      let (u, x, c) =
        >>=-eq-ok (or_error Code.scope (host.to_target (at (at entry "custom") "secureflow"))) _
          b.1 in
      let d = >>-eq-ok (validate_target host u) _ c in
      let e = >>-eq-ok (allows state.policy (target_scope u)) _ d.1 in
      let f = >>-eq-ok (require (text_eq name (target_path (target_scope u))) Code.scope) _ e.1 in
      let (hash, y, g) = >>=-eq-ok (string_field (at entry "hashes") (lit "sha256")) _ f.1 in
      let k = >>-eq-ok (check_floor state u hash) _ g in
      let path : name ≡ target_path (target_scope u) =
        (text_eq_iff name (target_path (target_scope u))).0 (require-eq-ok _ Code.scope f.0) in
      subst (IsAllowed entries) (ok_injective k.1) (record {
        valid = d.0;
        allowed = e.0;
        hash = hash;
        entry = entry;
        named = subst (λ n. lookup n entries ≡ some entry) path found;
        hashed = y;
        floor = k.0;
        above = check_floor-IsAbove state u hash k.0;
      })

  abbrev pub AllAllowed : Map Value → Map Target → Type 0
  AllAllowed entries = All (λ e. (e.0 ≡ e.1.profile) × IsAllowed entries e.1)

  accept_target-AllAllowed :
      (entries : Map Value) (accepted out : Map Target) (name : Text) (entry : Value)
      → lookup name entries ≡ some entry
      → AllAllowed entries accepted
      → accept_target host state accepted (name, entry) ≡ ok out
      → AllAllowed entries out
  unfolding accept_target
  accept_target-AllAllowed entries accepted out name entry found h e =
      let (t, x, a) = >>=-eq-ok (examine_target host state name entry) _ e in
      subst (AllAllowed entries) (ok_injective a) (
        All-insert (λ p. (p.0 ≡ p.1.profile) × IsAllowed entries p.1) t.profile t accepted
          (refl, examine_target-IsAllowed entries name entry found x) h)

  -- If the loop over the targets of a strictly read document succeeds, every target that it returns
  -- stands in the document under its own path, has a scope of the enrollment, and meets the floor of
  -- its profile: no lower sequence, the same manifest at an equal one, and the enrolled pin where
  -- there is no manifest yet.
  pub accept_targets-AllAllowed :
      (v : Value) {accepted : Map Target}
      → IsStrict 0 v
      → accept_targets host state v ≡ ok accepted
      → (entries : Map Value) × (as_object (at (at v "signed") "targets") ≡ some entries)
        × AllAllowed entries accepted
  unfolding accept_targets
  accept_targets-AllAllowed v {accepted} s h =
      let (entries, x, a) =
        >>=-eq-ok (or_error Code.format (as_object (at (at v "signed") "targets"))) _ h in
      let found = or_error-eq-ok Code.format _ x in
      let b =
        >>-eq-ok (require (not (is_empty entries) && leb (length entries) 256) Code.format) _ a in
      let distinct =
        as_object-IsDistinct 2 (at (at v "signed") "targets")
          (index-IsStrict 1 (at v "signed") (lit "targets") (index-IsStrict 0 v (lit "signed") s))
          found in
      let loop =
        try_fold_inv (accept_target host state)
          (λ acc rest. AllAllowed entries acc × All (λ e. lookup e.0 entries ≡ some e.1) rest)
          (λ acc out e es p step.
            (accept_target-AllAllowed entries acc out e.0 e.1 p.1.0 p.0 step, p.1.1))
          entries [] accepted (tt, All-lookup_self entries distinct) b.1 in
      (entries, found, loop.0)

  abbrev pub FloorsLe : Map Floor → Type 0
  FloorsLe floors =
      (profile : Text) (f : Floor)
      → lookup profile state.floors ≡ some f
      → (g : Floor) × (lookup profile floors ≡ some g) × FloorLe f g

  insert-FloorsLe :
      (floors : Map Floor) (t : Target) (hash : Text)
      → check_floor state t hash ≡ ok tt
      → FloorsLe floors
      → FloorsLe (
          insert t.profile
            (record { sequence = t.release_sequence; manifest_sha256 = some hash })
            floors)
  insert-FloorsLe floors t hash ok_floor h profile f e =
      elim (Bool-cases (text_eq profile t.profile)) [
        | inl same ↦
            let path : profile ≡ t.profile = (text_eq_iff profile t.profile).0 same in
            let new : Floor = record {
              sequence = t.release_sequence;
              manifest_sha256 = some hash;
            } in
            (
              new,
              ap (λ x. lookup x (insert t.profile new floors)) path
                  ∙ lookup-insert_self t.profile new floors,
              check_floor-Le state t hash f ok_floor
                  (ap (λ x. lookup x state.floors) (sym path) ∙ e),
            )
        | inr other ↦
            let (g, eg, le) = h profile f e in
            (g, lookup-insert_ne profile t.profile _ floors other ∙ eg, le)
      ]

  advance_floor-FloorsLe :
      (v : Value) (entries : Map Value) (floors new : Map Floor) (profile : Text) (t : Target)
      → as_object (at (at v "signed") "targets") ≡ some entries
      → IsAllowed entries t
      → FloorsLe floors
      → advance_floor v floors (profile, t) ≡ ok new
      → FloorsLe new
  unfolding advance_floor
  advance_floor-FloorsLe v entries floors new profile t found a h e =
      let r = index (at (at v "signed") "targets") (target_path (target_scope t)) in
      let (hash, x, b) = >>=-eq-ok (string_field (at r "hashes") (lit "sha256")) _ e in
      let here : r ≡ a.entry =
        index-lookup (at (at v "signed") "targets") (target_path (target_scope t)) found a.named in
      let same : hash ≡ a.hash =
        ok_injective
          (sym x ∙ ap (λ w. string_field (at w "hashes") (lit "sha256")) here ∙ a.hashed) in
      subst FloorsLe (ok_injective b) (
        insert-FloorsLe floors t hash
          (subst (λ y. check_floor state t y ≡ ok tt) (sym same) a.floor) h)

  -- However far the loop gets, no floor has gone back.
  pub advance_all-FloorsLe :
      (v : Value) (entries : Map Value) (accepted : Map Target) (floors : Map Floor)
      → as_object (at (at v "signed") "targets") ≡ some entries
      → AllAllowed entries accepted
      → FloorsLe floors
      → FloorsLe (advance_all v floors accepted).1
  unfolding advance_all
  advance_all-FloorsLe v entries [] floors found a h = h
  advance_all-FloorsLe v entries (t ∷ ts) floors found a h =
      next (λ new hn. advance_all-FloorsLe v entries ts new found a.1 hn) (advance_floor v floors t)
        refl
    where
      next :
          ((new : Map Floor) → FloorsLe new → FloorsLe (advance_all v new ts).1)
          → (r : Tried (Map Floor)) → advance_floor v floors t ≡ r
          → FloorsLe (advanced_or floors r (λ new. advance_all v new ts)).1
      next ih (err e) step = h
      next ih (ok new) step =
          ih new (advance_floor-FloorsLe v entries floors new t.0 t.1 found a.0.1 h step)
