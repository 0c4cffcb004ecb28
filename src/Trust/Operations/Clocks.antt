-- ===== src/Trust/Operations/Clocks.antt =====
-- What `Clock::capture` of crates/secureflow-knowledge/src/catalog_trust/types.rs returns.
use secureflow.Prelude.{
  Option, none, some, ok, ◌≡◌, refl, subst, ok_injective, ◌&&◌, not, leb, length, is_empty,
  Result-cases, inl, inr, arith, Bool-cases,
}
use secureflow.Text.{Text, lit, text_eq}
use secureflow.Text.Chars.{chars, trim}
use secureflow.Trust.Errors.{Code, check}
use secureflow.Trust.Wire.{parse_time}
use secureflow.Trust.Types.{Clock, validate_clock}
use secureflow.Trust.Policy.{Host}
use secureflow.Trust.Operations.{attest, capture}

abbrev attested : Text → Text → Clock
attested time reference = record {
  verification_time = time;
  time_source = lit "operator-attested";
  time_reference = reference;
}

abbrev system : Text → Clock
system now = record {
  verification_time = now;
  time_source = lit "operator-trusted-system-clock";
  time_reference = lit "local operating system clock";
}

attested-validate_clock :
    (host : Host) (time reference : Text) {c : Clock}
    → attest host time reference ≡ ok c
    → validate_clock host.outside c ≡ ok tt
unfolding attest validate_clock lit text_eq
attested-validate_clock host time reference {c} h =
    elim (Result-cases (parse_time host.outside time)) [
      | inr (e, failed) ↦ absurd (ground (arith, h, failed))
      | inl (t, parsed) ↦
          elim (Bool-cases (not (is_empty (trim reference)) && leb (length reference) 1024)) [
            | inr refused ↦ absurd (ground (arith, h, parsed, refused))
            | inl bounded ↦
                let made : attested time reference ≡ c =
                  ok_injective {E = Code} (ground (arith, h, parsed, bounded)) in
                subst (λ d. validate_clock host.outside d ≡ ok tt) made (rw (parsed, bounded) refl)
          ]
    ]

system-validate_clock :
    (host : Host) (now : Text)
    → check (parse_time host.outside now) ≡ ok tt
    → validate_clock host.outside (system now) ≡ ok tt
unfolding validate_clock lit text_eq trim chars
system-validate_clock host now h = rw h refl

-- If the text of the system clock is one that `parse_time` reads, every clock that `capture` returns
-- passes `validate_clock`: the source is known, and the reference is neither blank nor too long.
pub capture-validate_clock :
    (host : Host) (now time reference : Option Text) {c : Clock}
    → ((n : Text) → now ≡ some n → check (parse_time host.outside n) ≡ ok tt)
    → capture host now time reference ≡ ok c
    → validate_clock host.outside c ≡ ok tt
unfolding capture
capture-validate_clock host none (some time) (some reference) reads h =
    attested-validate_clock host time reference h
capture-validate_clock host (some _) (some time) (some reference) reads h =
    attested-validate_clock host time reference h
capture-validate_clock host (some now) none none reads h =
    subst (λ d. validate_clock host.outside d ≡ ok tt) (ok_injective h)
      (system-validate_clock host now (reads now refl))
capture-validate_clock host none none none reads h = cc
capture-validate_clock host now (some _) none reads h = cc
capture-validate_clock host now none (some _) reads h = cc
