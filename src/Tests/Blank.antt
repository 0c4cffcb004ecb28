-- ===== src/Tests/Blank.antt =====
-- A host that accepts the blank states only, whose encoding shows all their numbers, so that different
-- states are written differently.
use secureflow.Prelude.{
  ◌∙◌, sym, ℕ, ◌≡◌, refl, Bool, true, false, ◌&&◌, Option, none, some, List, [], ◌∷◌, is_empty,
  is_none, arith, ok,
}
use secureflow.Text.{Text}
use secureflow.Trust.Types.{Clock, Policy, State}
use secureflow.Trust.Policy.{Host}
use secureflow.Trust.Session.{encode_text, Session, encode_state}
use secureflow.Trust.History.{IsFaithful}
use secureflow.Tests.Catalog.{sample_host, sample_session}

abbrev is_blank_clock : Clock → Bool
is_blank_clock c =
    is_empty c.verification_time && (is_empty c.time_source && is_empty c.time_reference)

abbrev is_blank_policy : Policy → Bool
is_blank_policy p =
    (is_empty p.contract_version
      && (is_empty p.publisher_id && (is_empty p.publisher_label && is_empty p.catalog_id)))
    && ((is_empty p.channel
          && (is_empty p.profiles
              && (is_empty p.initial_root_sha256 && is_none p.bootstrap_manifest_sha256)))
        && ((is_empty p.minimum_thresholds
              && (is_empty p.maximum_horizon_days
                  && (is_empty p.operator && is_empty p.authorization_reference)))
            && is_blank_clock p.enrolled_at))

abbrev is_blank : State → Bool
is_blank s =
    (is_empty s.contract_version
      && (is_blank_policy s.policy && (is_empty s.policy_sha256 && is_empty s.roots)))
    && ((is_empty s.roles && (is_empty s.floors && is_empty s.maximum_verification_time))
        && (is_none s.pending && is_empty s.completed))

abbrev blank_clock : Clock
blank_clock = record { verification_time = []; time_source = []; time_reference = [] }

abbrev blank_policy : ℕ → ℕ → Policy
blank_policy version sequence = record {
  contract_version = [];
  publisher_id = [];
  publisher_label = [];
  catalog_id = [];
  channel = [];
  profiles = [];
  initial_root_sha256 = [];
  minimum_root_version = version;
  minimum_sequence = sequence;
  bootstrap_manifest_sha256 = none;
  minimum_thresholds = [];
  maximum_horizon_days = [];
  operator = [];
  authorization_reference = [];
  enrolled_at = blank_clock;
}

abbrev pub blank : ℕ → ℕ → ℕ → State
blank generation version sequence = record {
  contract_version = [];
  policy = blank_policy version sequence;
  policy_sha256 = [];
  roots = [];
  roles = [];
  floors = [];
  maximum_verification_time = [];
  generation = generation;
  pending = none;
  completed = [];
}

nil_of {ℓ} : {A : Type ℓ} (xs : List A) → is_empty xs ≡ true → xs ≡ []
nil_of [] h = refl
nil_of (x ∷ xs) h = cc

none_of {ℓ} : {A : Type ℓ} (o : Option A) → is_none o ≡ true → o ≡ none
none_of none h = refl
none_of (some a) h = cc

both : (a b : Bool) → (a && b) ≡ true → (a ≡ true) × (b ≡ true)
both true b h = (refl, h)
both false b h = cc

clock_of : (c : Clock) → is_blank_clock c ≡ true → c ≡ blank_clock
clock_of c h =
    let a = both _ _ h in
    let b = both _ _ a.1 in
    λ i. record {
      verification_time = nil_of c.verification_time a.0 i;
      time_source = nil_of c.time_source b.0 i;
      time_reference = nil_of c.time_reference b.1 i;
    }

policy_of :
    (p : Policy)
    → is_blank_policy p ≡ true
    → p ≡ blank_policy p.minimum_root_version p.minimum_sequence
policy_of p h =
    let a = both _ _ h in
    let a1 = both _ _ a.0 in
    let a2 = both _ _ a1.1 in
    let a3 = both _ _ a2.1 in
    let b = both _ _ a.1 in
    let b1 = both _ _ b.0 in
    let b2 = both _ _ b1.1 in
    let b3 = both _ _ b2.1 in
    let c = both _ _ b.1 in
    let c1 = both _ _ c.0 in
    let c2 = both _ _ c1.1 in
    let c3 = both _ _ c2.1 in
    λ i. record {
      contract_version = nil_of p.contract_version a1.0 i;
      publisher_id = nil_of p.publisher_id a2.0 i;
      publisher_label = nil_of p.publisher_label a3.0 i;
      catalog_id = nil_of p.catalog_id a3.1 i;
      channel = nil_of p.channel b1.0 i;
      profiles = nil_of p.profiles b2.0 i;
      initial_root_sha256 = nil_of p.initial_root_sha256 b3.0 i;
      minimum_root_version = p.minimum_root_version;
      minimum_sequence = p.minimum_sequence;
      bootstrap_manifest_sha256 = none_of p.bootstrap_manifest_sha256 b3.1 i;
      minimum_thresholds = nil_of p.minimum_thresholds c1.0 i;
      maximum_horizon_days = nil_of p.maximum_horizon_days c2.0 i;
      operator = nil_of p.operator c3.0 i;
      authorization_reference = nil_of p.authorization_reference c3.1 i;
      enrolled_at = clock_of p.enrolled_at c.1 i;
    }

state_of :
    (s : State)
    → is_blank s ≡ true
    → s ≡ blank s.generation s.policy.minimum_root_version s.policy.minimum_sequence
state_of s h =
    let a = both _ _ h in
    let a1 = both _ _ a.0 in
    let a2 = both _ _ a1.1 in
    let a3 = both _ _ a2.1 in
    let b = both _ _ a.1 in
    let b1 = both _ _ b.0 in
    let b2 = both _ _ b1.1 in
    let c = both _ _ b.1 in
    λ i. record {
      contract_version = nil_of s.contract_version a1.0 i;
      policy = policy_of s.policy a2.0 i;
      policy_sha256 = nil_of s.policy_sha256 a3.0 i;
      roots = nil_of s.roots a3.1 i;
      roles = nil_of s.roles b1.0 i;
      floors = nil_of s.floors b2.0 i;
      maximum_verification_time = nil_of s.maximum_verification_time b2.1 i;
      generation = s.generation;
      pending = none_of s.pending c.0 i;
      completed = nil_of s.completed c.1 i;
    }

abbrev shown : State → Text
shown s = s.generation ∷ s.policy.minimum_root_version ∷ s.policy.minimum_sequence ∷ []

abbrev pub blank_host : Host
blank_host = record sample_host { state_schema = is_blank; encode_state_json = shown }

encode_text-eq-ok :
    (valid : Bool) (text : Text) {bytes : Text}
    → encode_text valid text ≡ ok bytes
    → (valid ≡ true) × (bytes ≡ text)
encode_text-eq-ok false text h = cc
encode_text-eq-ok true text h = ground (arith, h)

encoded_blank :
    (s : State) (bytes : Text)
    → encode_state blank_host s ≡ ok bytes
    → (is_blank s ≡ true) × (bytes ≡ shown s)
unfolding encode_state
encoded_blank s bytes h = encode_text-eq-ok (is_blank s) (shown s) h

pub blank_host-IsFaithful : IsFaithful blank_host
blank_host-IsFaithful a b bytes ha hb =
    let pa = encoded_blank a bytes ha in
    let pb = encoded_blank b bytes hb in
    let e : shown a ≡ shown b = sym pa.1 ∙ pb.1 in state_of a pa.0 ∙ cc e ∙ sym (state_of b pb.0)

abbrev pub blank_session : Session
blank_session = record sample_session {
  state = blank 1 0 0;
  clock = blank_clock;
  state_json = shown (blank 1 0 0);
}
