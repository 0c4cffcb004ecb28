-- ===== src/Run/Manifest/WellFormed/Header.antt =====
-- The first part of `RunManifest::validate` in crates/secureflow-model/src/lib.rs: the fields of the
-- run itself.
use secureflow.Prelude.{
  ℕ, ◌≤◌, ◌≡◌, ◌↔◌, ◌⊎◌, inl, inr, refl, Option, none, some, Bool, true, false, not, ◌&&◌, arith,
  ok, Passes, WhenSome, >>-iff, refuse-Passes, if_some_iff, String, ◌>>=◌, refuse, ltb,
  if◌then◌else◌, Bool-cases, if_some, is_some,
}
use secureflow.Text.{Text, text_eq, text_eq_iff, lit}
use secureflow.Run.Errors.{Checked, inconsistent_state}
use secureflow.Run.Kinds.{is_terminal}
use secureflow.Run.Fields.{
  TimeParser, parsed, validate_timestamp, validate_sha256, valid_identifier,
}
use secureflow.Run.Manifest.{
  RunManifest, validate_run, validate_completion, validate_completed_at, validate_v1_shape,
  run_contract_version, legacy_contract_version,
}
use secureflow.Run.Manifest.Legacy.{IsV1, validate_v1_shape_iff}

-- The run ended at or after the time it was created.
abbrev pub EndsAfter : TimeParser → ℕ → Text → Type 0
EndsAfter parse start value = (finish : ℕ) × (parse value ≡ some finish) × (start ≤ finish)

-- What `validate` asks of the fields of the run itself.
pub record RunFits (parse : TimeParser) (m : RunManifest) : Type 0 where
  pub version :
      (m.contract_version ≡ run_contract_version) ⊎ (m.contract_version ≡ legacy_contract_version)
  pub legacy : m.contract_version ≡ legacy_contract_version → IsV1 m
  pub run_id : valid_identifier m.run_id (lit "sf_run_") 16 80 ≡ true
  pub terminal : is_terminal m.status ≡ is_some m.completed_at
  pub times :
      (start : ℕ) × (parse m.created_at ≡ some start)
      × WhenSome (EndsAfter parse start) m.completed_at
  pub configuration :
      WhenSome (λ v. Passes (validate_sha256 v "configuration_sha256")) m.configuration_sha256

completion_iff :
    (terminal : Bool) (o : Option Text)
    → Passes (validate_completion terminal o) ↔ (terminal ≡ is_some o)
unfolding validate_completion
completion_iff true none = ((λ h. cc), (λ h. cc))
completion_iff true (some t) = ((λ h. refl), (λ h. refl))
completion_iff false none = ((λ h. refl), (λ h. refl))
completion_iff false (some t) = ((λ h. cc), (λ h. cc))

timestamp_iff :
    (parse : TimeParser) (t : Text) (field : String) (k : ℕ → Checked)
    → Passes (validate_timestamp parse t field >>= k)
      ↔ ((n : ℕ) × (parse t ≡ some n) × Passes (k n))
unfolding validate_timestamp
timestamp_iff parse t field k =
    ((λ h. go (parse t) refl h), (λ h. let e = h.1 in ground (arith, h.2)))
  where
    go :
        (o : Option ℕ)
        → parse t ≡ o
        → Passes (parsed field o >>= k)
        → (n : ℕ) × (parse t ≡ some n) × Passes (k n)
    go none e h = cc
    go (some n) e h = (n, e, h)

ends_iff :
    (parse : TimeParser) (start : ℕ) (o : Option Text)
    → Passes (if_some (validate_completed_at parse start) o) ↔ WhenSome (EndsAfter parse start) o
unfolding validate_completed_at
ends_iff parse start none = ((λ h. tt), (λ h. refl))
ends_iff parse start (some t) =
    let read = timestamp_iff parse t "completed_at" (λ finish.
      refuse (ltb finish start) (inconsistent_state "completed_at cannot precede created_at")) in
    (
      (λ h. let r = read.0 h in (r.0, r.1, let p = r.2 in ground arith)),
      (λ h. let le = h.2 in read.1 (h.0, h.1, ground arith)),
    )

legacy_iff :
    (m : RunManifest)
    → Passes
        (if text_eq m.contract_version legacy_contract_version then validate_v1_shape m else ok tt)
      ↔ (m.contract_version ≡ legacy_contract_version → IsV1 m)
legacy_iff m =
    let shape = validate_v1_shape_iff m in
    let eq = text_eq_iff m.contract_version legacy_contract_version in
    (
      (λ h e. let t = eq.1 e in shape.0 (ground arith)),
      (λ h. elim (Bool-cases (text_eq m.contract_version legacy_contract_version)) [
        | inl t ↦ rw t (shape.1 (h (eq.0 t)))
        | inr f ↦ rw f refl
      ]),
    )

version_iff :
    (v : Text)
    → ((not (text_eq v run_contract_version) && not (text_eq v legacy_contract_version)) ≡ false)
      ↔ ((v ≡ run_contract_version) ⊎ (v ≡ legacy_contract_version))
version_iff v =
    let a = text_eq_iff v run_contract_version in
    let b = text_eq_iff v legacy_contract_version in
    (
      (λ h. elim (Bool-cases (text_eq v run_contract_version)) [
        | inl t ↦ inl (a.0 t)
        | inr f ↦ inr (b.0 (ground arith))
      ]),
      (λ h. elim h [
        | inl e ↦ (let t = a.1 e in ground arith)
        | inr e ↦ (let t = b.1 e in ground arith)
      ]),
    )

pub run_iff :
    (parse : TimeParser) (m : RunManifest) → Passes (validate_run parse m) ↔ RunFits parse m
unfolding validate_run
run_iff parse m =
    let created = timestamp_iff parse m.created_at "created_at" in
    let rest = λ (start : ℕ). >>-iff (completion_iff (is_terminal m.status) m.completed_at) (
      >>-iff (ends_iff parse start m.completed_at)
        (if_some_iff (λ v. validate_sha256 v "configuration_sha256") m.configuration_sha256)) in
    let all =
      >>-iff (refuse-Passes _ _) (>>-iff (legacy_iff m) (>>-iff (refuse-Passes _ _) (created _))) in
    (
      (λ h.
          let a = all.0 h in
          let c = a.1.1.1 in
          let r = (rest c.0).0 c.2 in
          record {
            version = (version_iff m.contract_version).0 a.0;
            legacy = a.1.0;
            run_id = (let b = a.1.1.0 in ground arith);
            terminal = r.0;
            times = (c.0, c.1, r.1.0);
            configuration = r.1.1;
          }),
      (λ h.
          let t = h.times in
          all.1 (
            (version_iff m.contract_version).1 h.version,
            (
              h.legacy,
              (
                (let r = h.run_id in ground arith),
                (t.0, t.1, (rest t.0).1 (h.terminal, (t.2, h.configuration))),
              ),
            ),
          )),
    )
