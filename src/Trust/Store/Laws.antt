-- ===== src/Trust/Store/Laws.antt =====
-- `initialize` of crates/secureflow-knowledge/src/catalog_trust/mod.rs against `load_state` of
-- consumer.rs.
use secureflow.Trust.Json.Laws.{parse-IsStrict}
use secureflow.Trust.Checks.{current_root}
use secureflow.Trust.Session.{max_state_bytes, read_file}
use secureflow.Trust.Wire.{digest, canonical, parse_time}
use secureflow.Trust.Json.{parse, Value, max_sequence}
use secureflow.Trust.Errors.{Code, require, check}
use secureflow.Text.{lit, text_eq_refl, text_eq_iff, text_eq, Text}
use secureflow.Trust.Types.{Policy, State, Floor}
use secureflow.Trust.Store.{
  load_state, fresh_state, floors_of, check_state, initialize, check_state_floor, check_bootstrap,
}
use secureflow.Trust.Policy.{Host, validate_policy, all_unique}
use secureflow.Trust.Map.{insert, lookup-insert_ne, lookup-insert_self, length-insert, lookup}
use secureflow.Prelude.{
  leb_iff, ◌≤◌, sym, subst, ok_injective, ◌==◌, >>=-eq-ok, each_iff, >>-eq-ok, each, ap, Bool-cases,
  ◌∙◌, All-map, false, length, leb, true, some, any, Option, All, none, List, ℕ, ◌≡◌, ok, arith,
  ◌∷◌, [], refl, inl, inr,
}

validate_policy-facts :
    (host : Host) (p : Policy)
    → validate_policy host p ≡ ok tt
    → (all_unique p.profiles ≡ true) × (leb p.minimum_sequence max_sequence ≡ true)
unfolding validate_policy
validate_policy-facts host p h = ground arith

module _ (minimum : ℕ) where
  abbrev first_floor : Floor
  first_floor = record { sequence = minimum; manifest_sha256 = none }

  missing :
      (t : Text) (ps : List Text)
      → any (text_eq t) ps ≡ false
      → lookup t (floors_of minimum ps) ≡ none
  unfolding lookup
  missing t [] h = refl
  missing t (p ∷ ps) h =
      lookup-insert_ne t p first_floor (floors_of minimum ps) (ground (arith, h))
      ∙ missing t ps (ground (arith, h))

  length-floors_of :
      (ps : List Text) → all_unique ps ≡ true → length (floors_of minimum ps) ≡ length ps
  unfolding all_unique
  length-floors_of [] h = refl
  length-floors_of (p ∷ ps) h = omega (
    arith,
    length-insert p first_floor (floors_of minimum ps) (missing p ps (ground (arith, h))),
    length-floors_of ps (ground (arith, h)),
  )

  floors_of-All :
      (ps : List Text) → All (λ p. lookup p (floors_of minimum ps) ≡ some first_floor) ps
  floors_of-All [] = tt
  floors_of-All (p ∷ ps) = (
    lookup-insert_self p first_floor (floors_of minimum ps),
    All-map ps
        (λ q h. elim (Bool-cases (text_eq q p)) [
          | inl same ↦
              ap (λ x. lookup x (insert p first_floor (floors_of minimum ps)))
                ((text_eq_iff q p).0 same)
              ∙ lookup-insert_self p first_floor (floors_of minimum ps)
          | inr other ↦ lookup-insert_ne q p first_floor (floors_of minimum ps) other ∙ h
        ])
        (floors_of-All ps),
  )

check_state_floor-first :
    (state : State) (profile : Text)
    → lookup profile state.floors ≡ some (first_floor state.policy.minimum_sequence)
    → leb state.policy.minimum_sequence max_sequence ≡ true
    → check_state_floor state profile ≡ ok tt
unfolding check_state_floor
check_state_floor-first state profile e h = rw e (ground (arith, h))

check_bootstrap-time :
    (host : Host) (policy : Policy) (bytes : Text)
    → check_bootstrap host policy bytes ≡ ok tt
    → check (parse_time host.outside policy.enrolled_at.verification_time) ≡ ok tt
unfolding check_bootstrap
check_bootstrap-time host policy bytes h = ground arith

fresh_floors :
    (state : State) (ps : List Text)
    → leb state.policy.minimum_sequence max_sequence ≡ true
    → All (λ p. lookup p state.floors ≡ some (first_floor state.policy.minimum_sequence)) ps
    → each (check_state_floor state) ps ≡ ok tt
fresh_floors state ps h f =
    (each_iff (check_state_floor state) ps).1
      (All-map ps (λ p e. check_state_floor-first state p e h) f)

fresh_state-check_state :
    (host : Host) (policy : Policy) (bytes preimage : Text)
    → validate_policy host policy ≡ ok tt
    → canonical host.outside (host.policy_value policy) ≡ ok preimage
    → check (parse_time host.outside policy.enrolled_at.verification_time) ≡ ok tt
    → check (current_root host (fresh_state host policy bytes preimage)) ≡ ok tt
    → check_state host (fresh_state host policy bytes preimage) ≡ ok tt
unfolding check_state
fresh_state-check_state host policy bytes preimage valid c time root =
    let state = fresh_state host policy bytes preimage in
    let facts = validate_policy-facts host policy valid in
    let count : (length state.floors == length policy.profiles) ≡ true =
      ground (arith, length-floors_of policy.minimum_sequence policy.profiles facts.0) in
    let floors : each (check_state_floor state) policy.profiles ≡ ok tt =
      fresh_floors state policy.profiles facts.1
        (floors_of-All policy.minimum_sequence policy.profiles) in
    let version = text_eq_refl (lit "secureflow-catalog-trust-state-v1") in
    let hash = text_eq_refl (digest host.outside preimage) in
    ground (arith, valid, c, time, root, count, floors, version, hash)

-- Whatever `initialize` returns passes `check_state`; it has the given policy and generation 1, and its
-- one root is the file that was read.
initialize-check_state :
    (host : Host) (root : Option Text) (policy : Policy) {state : State}
    → initialize host root policy ≡ ok state
    → (check_state host state ≡ ok tt)
      × (state.policy ≡ policy)
      × (state.generation ≡ 1)
      × (bytes : Text) × (state.roots ≡ bytes ∷ [])
      × (read_file root 65_536 ≡ ok bytes)
unfolding initialize
initialize-check_state host root policy {state} h =
    let a = >>-eq-ok (validate_policy host policy) _ h in
    let (bytes, read, b) = >>=-eq-ok (read_file root 65_536) _ a.1 in
    let c = >>-eq-ok (check_bootstrap host policy bytes) _ b in
    let (preimage, p, d) = >>=-eq-ok (canonical host.outside (host.policy_value policy)) _ c.1 in
    let e = >>-eq-ok (require (host.is_utf8 bytes) Code.format) _ d in
    let f = >>-eq-ok (check (current_root host (fresh_state host policy bytes preimage))) _ e.1 in
    let made : fresh_state host policy bytes preimage ≡ state = ok_injective f.1 in
    let checked =
      fresh_state-check_state host policy bytes preimage a.0 p
        (check_bootstrap-time host policy bytes c.0) f.0 in
    (
      subst (λ s. check_state host s ≡ ok tt) made checked,
      sym (ap (λ s. s.policy) made),
      sym (ap (λ s. s.generation) made),
      bytes,
      sym (ap (λ s. s.roots) made),
      read,
    )

read_file-le :
    (root : Option Text) (limit : ℕ) {bytes : Text}
    → read_file root limit ≡ ok bytes
    → length bytes ≤ limit
read_file-le none limit h = cc
read_file-le (some raw) limit {bytes} h = elim (Bool-cases (leb (length raw) limit)) [
  | inl fits ↦
      let same : raw ≡ bytes = ok_injective {E = Code} (ground (arith, h, fits)) in
      subst (λ b. length b ≤ limit) same ((leb_iff (length raw) limit).0 fits)
  | inr long ↦ absurd (ground (arith, h, long))
]

-- If `initialize` returns a state, and the strict reader accepts the bytes that it then writes, with a
-- value that meets the state schema and from which serde reads the state: `load_state` returns the
-- state from these bytes. The state has the given policy and generation 1, and its only root is the
-- file that was read, of at most 65,536 bytes.
pub initialize-load_state :
    (host : Host) (root : Option Text) (policy : Policy) {state : State} {v : Value}
    → initialize host root policy ≡ ok state
    → parse host.outside.read_json (host.encode_state_json state) max_state_bytes ≡ ok v
    → host.state_value_schema v ≡ true
    → host.to_state v ≡ some state
    → (load_state host (some (host.encode_state_json state)) ≡ ok state)
      × (state.policy ≡ policy)
      × (state.generation ≡ 1)
      × (bytes : Text) × (state.roots ≡ bytes ∷ [])
      × (read_file root 65_536 ≡ ok bytes)
      × (length bytes ≤ 65_536)
unfolding load_state
initialize-load_state host root policy {state} {v} h read schema back =
    let (checked, p, g, bytes, r, file) = initialize-check_state host root policy h in
    let small =
      (parse-IsStrict host.outside.read_json (host.encode_state_json state) max_state_bytes
        read).1 in
    let fits = (leb_iff (length (host.encode_state_json state)) max_state_bytes).1 small in
    (
      rw (fits, read, schema, back, checked) refl,
      p,
      g,
      bytes,
      r,
      file,
      read_file-le root 65_536 file,
    )
