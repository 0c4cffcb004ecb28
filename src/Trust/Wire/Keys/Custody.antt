-- ===== src/Trust/Wire/Keys/Custody.antt =====
-- What `root_profile` of crates/secureflow-knowledge/src/catalog_trust/wire.rs says of the keys.
use secureflow.Prelude.{
  ◌==◌, not, leb, leb_iff, ==_iff, ◌&&◌, ◌∙◌, ok_injective, ℕ, ◌≤◌, ◌≡◌, refl, true, none, some,
  List, [], ◌∷◌, length, any, All, arith, ok, >>=-eq-ok, >>-eq-ok, ap, subst, sym, String,
}
use secureflow.Text.{Text, lit, text_eq}
use secureflow.Run.Unique.{KeysUnique}
use secureflow.Trust.Errors.{
  Code, or_error, require, check, try_fold, require-eq-ok, or_error-eq-ok,
}
use secureflow.Trust.Map.{Map, contains_key}
use secureflow.Trust.Json.{Value, as_array, as_object, as_str, at}
use secureflow.Trust.Wire.{roles, Outside, number, closed}
use secureflow.Trust.Wire.Keys.{
  is_true, assign_key, role_profile, root_profile, least_threshold, least_keys, numbered_roles,
  key_profile,
}
use secureflow.Trust.Wire.Keys.Quorum.{apart_of_new, same}

-- The identifiers of a list of JSON values, and the list with its elements put before another one,
-- the last first.
abbrev text_of : Value → Text
text_of v = elim (as_str v) [ some s ↦ s | none ↦ [] ]

abbrev pub reverse_onto : List Value → List Text → List Text
reverse_onto [] seen = seen
reverse_onto (v ∷ vs) seen = reverse_onto vs (text_of v ∷ seen)

module _ (keys : Map Value) where
  abbrev IsAssigned : List Text → Type 0
  IsAssigned assigned = KeysUnique same assigned × All (λ id. contains_key id keys ≡ true) assigned

  assign_key-eq-ok :
      (assigned : List Text) (v : Value) {t : List Text}
      → assign_key keys assigned v ≡ ok t
      → IsAssigned assigned
      → (t ≡ text_of v ∷ assigned) × IsAssigned t
  unfolding assign_key
  assign_key-eq-ok assigned v {t} h a =
      let (id, found, b) = >>=-eq-ok (or_error Code.format (as_str v)) _ h in
      let test = contains_key id keys && not (any (text_eq id) assigned) in
      let c = >>-eq-ok (require test Code.signature) (ok (id ∷ assigned)) b in
      let known : test ≡ true = require-eq-ok test Code.signature c.0 in
      let e : id ∷ assigned ≡ t = ok_injective c.1 in
      let e' : text_of v ≡ id = ground (arith, or_error-eq-ok Code.format (as_str v) found) in
      rw (← e) (
        ap (λ x. x ∷ assigned) (sym e'),
        ((apart_of_new id assigned (ground (arith, known)), a.0), (ground (arith, known), a.1)),
      )

  assign_all-eq-ok :
      (vs : List Value) (assigned t : List Text)
      → try_fold (assign_key keys) assigned vs ≡ ok t
      → IsAssigned assigned
      → (t ≡ reverse_onto vs assigned) × IsAssigned t
  assign_all-eq-ok [] assigned t h a = let e : assigned ≡ t = ok_injective h in rw (← e) (refl, a)
  assign_all-eq-ok (v ∷ vs) assigned t h a =
      let (u, first, rest) = >>=-eq-ok (assign_key keys assigned v) _ h in
      let step = assign_key-eq-ok assigned v first a in
      let ih = assign_all-eq-ok vs u t rest step.1 in (rw (← step.0) ih.0, ih.1)

-- A role of a root whose quorum meets the local floor: at least 2 of 3 keys for root and targets,
-- at least 1 of 2 for the others.
unfoldable pub MeetsFloor : Value → ℕ × String → List Value → Type 0
MeetsFloor s (i, role) ids =
    (threshold : ℕ) × (as_array (at (at (at s "roles") role) "keyids") ≡ some ids)
    × (number (at (at s "roles") role) (lit "threshold") 32 ≡ ok threshold)
    × (least_threshold i ≤ threshold)
    × (threshold ≤ length ids)
    × (least_keys i ≤ length ids)

floor_bounds :
    (i threshold n : ℕ)
    → (leb (least_threshold i) threshold && leb threshold n && leb (least_keys i) n) ≡ true
    → (least_threshold i ≤ threshold) × (threshold ≤ n) × (least_keys i ≤ n)
floor_bounds i threshold n h = ground arith

role_profile-eq-ok :
    (s : Value) (keys : Map Value) (assigned : List Text) (i : ℕ) (role : String) {t : List Text}
    → role_profile s keys assigned (i, role) ≡ ok t
    → IsAssigned keys assigned
    → (ids : List Value) × MeetsFloor s (i, role) ids
      × (t ≡ reverse_onto ids assigned)
      × IsAssigned keys t
unfolding role_profile MeetsFloor
role_profile-eq-ok s keys assigned i role {t} h a =
    let r = at (at s "roles") role in
    let b = >>-eq-ok _ _ h in
    let (threshold, n, c) = >>=-eq-ok (number r (lit "threshold") 32) _ b.1 in
    let (ids, found, d) = >>=-eq-ok (or_error Code.format (as_array (at r "keyids"))) _ c in
    let e = >>-eq-ok _ _ d in
    let bounds : (least_threshold i ≤ threshold)
        × (threshold ≤ length ids)
        × (least_keys i ≤ length ids) =
      floor_bounds i threshold (length ids) (require-eq-ok _ Code.signature e.0) in
    let loop = assign_all-eq-ok keys ids assigned t e.1 a in
    (
      ids,
      (threshold, or_error-eq-ok Code.format _ found, n, bounds.0, bounds.1, bounds.2),
      loop.0,
      loop.1,
    )

-- The key identifiers of the four roles, taken together.
abbrev pub all_ids : List Value → List Value → List Value → List Value → List Text
all_ids root targets snapshot timestamp =
    reverse_onto timestamp (reverse_onto snapshot (reverse_onto targets (reverse_onto root [])))

-- What the profile of a root promises.
pub record IsCustody (s : Value) : Type 0 where
  pub root : List Value
  pub targets : List Value
  pub snapshot : List Value
  pub timestamp : List Value
  pub root_floor : MeetsFloor s (0, "root") root
  pub targets_floor : MeetsFloor s (1, "targets") targets
  pub snapshot_floor : MeetsFloor s (2, "snapshot") snapshot
  pub timestamp_floor : MeetsFloor s (3, "timestamp") timestamp
  pub keys : Map Value
  pub has_keys : as_object (at s "keys") ≡ some keys
  pub few : length keys ≤ 32
  pub apart : KeysUnique same (all_ids root targets snapshot timestamp)
  pub known : All (λ id. contains_key id keys ≡ true) (all_ids root targets snapshot timestamp)
  pub complete : length (all_ids root targets snapshot timestamp) ≡ length keys

IsCustody-of :
    (s : Value) (keys : Map Value) (r t n c : List Value) {t0 t1 t2 t3 : List Text}
    → MeetsFloor s (0, "root") r
    → MeetsFloor s (1, "targets") t
    → MeetsFloor s (2, "snapshot") n
    → MeetsFloor s (3, "timestamp") c
    → t0 ≡ reverse_onto r []
    → t1 ≡ reverse_onto t t0
    → t2 ≡ reverse_onto n t1
    → t3 ≡ reverse_onto c t2
    → IsAssigned keys t3
    → as_object (at s "keys") ≡ some keys
    → length keys ≤ 32
    → length t3 ≡ length keys
    → IsCustody s
IsCustody-of s keys r t n c {t0} {t1} {t2} {t3} m0 m1 m2 m3 e0 e1 e2 e3 a found few count =
    let whole : t3 ≡ all_ids r t n c =
      e3 ∙ ap (reverse_onto c) (e2 ∙ ap (reverse_onto n) (e1 ∙ ap (reverse_onto t) e0)) in
    record {
      root = r;
      targets = t;
      snapshot = n;
      timestamp = c;
      root_floor = m0;
      targets_floor = m1;
      snapshot_floor = m2;
      timestamp_floor = m3;
      keys = keys;
      has_keys = found;
      few = few;
      apart = subst (KeysUnique same) whole a.0;
      known = subst (All (λ id. contains_key id keys ≡ true)) whole a.1;
      complete = ap length (sym whole) ∙ count;
    }

-- When root_profile accepts a root, each role meets its floor of thresholds and keys, no key serves
-- two roles or stands twice in one role, every key identifier of a role is a key of the root, of
-- which there are at most 32, and the roles use as many keys as the root has.
pub root_profile-IsCustody :
    (out : Outside) (root : Value) → root_profile out root ≡ ok tt → IsCustody (at root "signed")
unfolding root_profile
root_profile-IsCustody out root h =
    let s = at root "signed" in
    let a = >>-eq-ok (require (is_true (at s "consistent_snapshot")) Code.format) _ h in
    let (keys, found, b) = >>=-eq-ok (or_error Code.format (as_object (at s "keys"))) _ a.1 in
    let c = >>-eq-ok (require (leb (length keys) 32) Code.format) _ b in
    let d = >>-eq-ok (closed (at s "roles") roles) _ c.1 in
    let e = >>-eq-ok (check (try_fold (key_profile out) [] keys)) _ d.1 in
    let (assigned, loop, last) =
      >>=-eq-ok (try_fold (role_profile s keys) [] numbered_roles) _ e.1 in
    let count = require-eq-ok (length assigned == length keys) Code.signature last in
    let (t0, f0, g0) = >>=-eq-ok (role_profile s keys [] (0, "root")) _ loop in
    let (t1, f1, g1) = >>=-eq-ok (role_profile s keys t0 (1, "targets")) _ g0 in
    let (t2, f2, g2) = >>=-eq-ok (role_profile s keys t1 (2, "snapshot")) _ g1 in
    let (t3, f3, g3) = >>=-eq-ok (role_profile s keys t2 (3, "timestamp")) _ g2 in
    let (ids0, m0, e0, a0) = role_profile-eq-ok s keys [] 0 "root" f0 (tt, tt) in
    let (ids1, m1, e1, a1) = role_profile-eq-ok s keys t0 1 "targets" f1 a0 in
    let (ids2, m2, e2, a2) = role_profile-eq-ok s keys t1 2 "snapshot" f2 a1 in
    let (ids3, m3, e3, a3) = role_profile-eq-ok s keys t2 3 "timestamp" f3 a2 in
    IsCustody-of s keys ids0 ids1 ids2 ids3 m0 m1 m2 m3 e0 e1 e2 e3 a3
      (or_error-eq-ok Code.format _ found)
      ((leb_iff (length keys) 32).0 (require-eq-ok (leb (length keys) 32) Code.format c.0))
      (ap length (ok_injective g3) ∙ (==_iff (length assigned) (length keys)).0 count)
