-- ===== src/Trust/Import/Targets/Floors.antt =====
-- The floor of a profile against a new target, by `import_metadata` of
-- crates/secureflow-knowledge/src/catalog_trust/consumer.rs.
use mathlib.Core.Option.{some-injective}
use secureflow.Trust.Errors.{require-eq-ok, require, or_error-eq-ok, Code, or_error}
use secureflow.Trust.Session.Forward.{FloorLe}
use secureflow.Text.{text_eq_iff, text_eq, Text}
use secureflow.Trust.Map.{lookup}
use secureflow.Trust.Import.Targets.{check_pin, check_same, check_floor}
use secureflow.Trust.Types.{Floor, Target, State}
use secureflow.Prelude.{
  none, Option, ap, true, ◌==◌, leb_iff, leb, ◌∙◌, sym, subst, >>=-eq-ok, >>-eq-ok, some, ◌≡◌, ok,
  arith,
}

module _ (state : State) where
  pub check_floor-Le :
      (t : Target) (hash : Text) (f : Floor)
      → check_floor state t hash ≡ ok tt
      → lookup t.profile state.floors ≡ some f
      → FloorLe f (record { sequence = t.release_sequence; manifest_sha256 = some hash })
  unfolding check_floor check_same
  check_floor-Le t hash f h e =
      let (g, found, a) = >>=-eq-ok (or_error Code.state (lookup t.profile state.floors)) _ h in
      let same : g ≡ f = some-injective g f (sym (or_error-eq-ok Code.state _ found) ∙ e) in
      let b = >>-eq-ok (require (leb g.sequence t.release_sequence) Code.rollback) _ a in
      let c = >>-eq-ok (check_pin state.policy.bootstrap_manifest_sha256 g hash) _ b.1 in
      let le = (leb_iff g.sequence t.release_sequence).0 (require-eq-ok _ Code.rollback b.0) in
      subst (λ x. FloorLe x (record { sequence = t.release_sequence; manifest_sha256 = some hash }))
        same
        (record {
          sequence = le;
          manifest = λ old equal was.
              let test : t.release_sequence == g.sequence ≡ true = ground (arith, equal) in
              let d = rw (test, was) at c.1 in
              let k =
                (text_eq_iff hash old).0 (require-eq-ok (text_eq hash old) Code.equivocation d) in
              ap some k;
        })

  check_pin-eq-ok :
      (pin : Option Text) (f : Floor) (hash : Text) {p : Text}
      → check_pin pin f hash ≡ ok tt
      → f.manifest_sha256 ≡ none
      → pin ≡ some p
      → hash ≡ p
  unfolding check_pin
  check_pin-eq-ok pin f hash {p} h e q =
      (text_eq_iff hash p).0 (require-eq-ok (text_eq hash p) Code.bootstrap (rw (e, q) at h))

  -- What a target may claim over the floor of its profile: no lower sequence, at an equal one the
  -- manifest of the floor, and as the first manifest the one that is pinned.
  pub record IsAbove (t : Target) (hash : Text) : Type 0 where
    pub floor : Floor
    pub found : lookup t.profile state.floors ≡ some floor
    pub le : FloorLe floor (record { sequence = t.release_sequence; manifest_sha256 = some hash })
    pub pinned :
        (p : Text)
        → floor.manifest_sha256 ≡ none
        → state.policy.bootstrap_manifest_sha256 ≡ some p
        → hash ≡ p

  pub check_floor-IsAbove :
      (t : Target) (hash : Text) → check_floor state t hash ≡ ok tt → IsAbove t hash
  unfolding check_floor
  check_floor-IsAbove t hash h =
      let (f, found, a) = >>=-eq-ok (or_error Code.state (lookup t.profile state.floors)) _ h in
      let b = >>-eq-ok (require (leb f.sequence t.release_sequence) Code.rollback) _ a in
      let c = >>-eq-ok (check_pin state.policy.bootstrap_manifest_sha256 f hash) _ b.1 in
      let here = or_error-eq-ok Code.state _ found in
      record {
        floor = f;
        found = here;
        le = check_floor-Le t hash f h here;
        pinned = λ p. check_pin-eq-ok state.policy.bootstrap_manifest_sha256 f hash c.0;
      }
