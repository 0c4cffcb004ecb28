-- ===== src/Tests/Catalog.antt =====
-- A catalog's signed documents with ten keys, a host that reads them, and a store that is enrolled with
-- their root, for the tests of crates/secureflow-knowledge/src/catalog_trust.
use secureflow.Prelude.{
  ℕ, zero, suc, ◌+◌, ◌*◌, ◌/◌, ◌%◌, ◌-◌, String, true, false, Option, none, some, List, [], ◌∷◌,
  ◌++◌, take, if◌then◌else◌, map, get_elem?, unwrap_or,
}
use secureflow.Text.{Text, lit, text_eq}
use secureflow.Text.Format.{encode_hex, decimal}
use secureflow.Trust.Json.{Value, Raw, Raws, RawMembers, at, as_str}
use secureflow.Trust.Wire.{Outside, Stamp}
use secureflow.Trust.Types.{Clock, Policy, State, Target, Scope}
use secureflow.Trust.Policy.{Host, thresholds, horizons}
use secureflow.Trust.Session.{Session}
use secureflow.Trust.Import.Roots.{Directory}

abbrev repeat : ℕ → Text → Text
repeat zero s = []
repeat (suc n) s = s ++ repeat n s

-- The public key `n` as hexadecimal text: its two decimal digits, 32 times.
abbrev public : ℕ → Text
public n = repeat 32 ((b'0' + n / 10) ∷ (b'0' + n % 10) ∷ [])

-- A stand-in for SHA-256: the first 32 bytes, filled up with zeros.
abbrev pub first_32 : Text → List ℕ
first_32 s = take 32 (s ++ repeat 32 (0 ∷ []))

abbrev key_id : ℕ → Text
key_id n = encode_hex (first_32 (public n))

abbrev members : List (String × Raw) → RawMembers
members [] = RawMembers.close
members ((k, r) ∷ rs) = RawMembers.entry (lit k) r (members rs)

abbrev obj : List (String × Raw) → Raw
obj rs = Raw.map (members rs)

abbrev raws : List Raw → Raws
raws [] = Raws.last
raws (r ∷ rs) = Raws.element r (raws rs)

abbrev key_members : List ℕ → RawMembers
key_members [] = RawMembers.close
key_members (n ∷ ns) =
    RawMembers.entry (key_id n)
      (obj (
        ("keytype", Raw.str (lit "ed25519"))
        ∷ ("scheme", Raw.str (lit "ed25519"))
        ∷ ("keyval", obj (("public", Raw.str (public n)) ∷ []))
        ∷ []))
      (key_members ns)

abbrev role_raw : ℕ → List ℕ → Raw
role_raw threshold ns = obj (
    ("threshold", Raw.u64 threshold)
    ∷ ("keyids", Raw.seq (raws (map (λ n. Raw.str (key_id n)) ns)))
    ∷ [])

-- A signature by key `n`, as `sample_host` verifies it: the key, twice.
abbrev signature : ℕ → Raw
signature n = obj (("keyid", Raw.str (key_id n)) ∷ ("sig", Raw.str (public n ++ public n)) ∷ [])

abbrev document : String → List (String × Raw) → List ℕ → Raw
document role extra signers = obj (
    (
      "signed",
      obj (
          ("_type", Raw.str (lit role))
          ∷ ("spec_version", Raw.str (lit "1.0.0"))
          ∷ ("version", Raw.u64 1)
          ∷ ("expires", Raw.str (lit "2026-01-05T00:00:00Z"))
          ∷ extra),
    )
    ∷ ("signatures", Raw.seq (raws (map signature signers)))
    ∷ [])

abbrev link : String → Raw
link file = obj (
    ("version", Raw.u64 1)
    ∷ ("length", Raw.u64 1)
    ∷ ("hashes", obj (("sha256", Raw.str (encode_hex (first_32 (lit file)))) ∷ []))
    ∷ [])

abbrev root_raw : Raw
root_raw =
    document "root"
      (("consistent_snapshot", Raw.bool true)
        ∷ ("keys", Raw.map (key_members (1 ∷ 2 ∷ 3 ∷ 4 ∷ 5 ∷ 6 ∷ 7 ∷ 8 ∷ 9 ∷ 10 ∷ [])))
        ∷ (
          "roles",
          obj (
              ("root", role_raw 2 (1 ∷ 2 ∷ 3 ∷ []))
              ∷ ("targets", role_raw 2 (4 ∷ 5 ∷ 6 ∷ []))
              ∷ ("snapshot", role_raw 1 (7 ∷ 8 ∷ []))
              ∷ ("timestamp", role_raw 1 (9 ∷ 10 ∷ []))
              ∷ []),
        )
        ∷ [])
      (1 ∷ 2 ∷ [])

abbrev target_raw : Raw
target_raw = obj (
    ("length", Raw.u64 1)
    ∷ ("hashes", obj (("sha256", Raw.str (encode_hex (first_32 (lit "M")))) ∷ []))
    ∷ ("custom", obj (("secureflow", Raw.unit) ∷ []))
    ∷ [])

-- The documents by their files, of one byte each: R, T, S and G.
abbrev read_sample : Text → Option Raw
read_sample s =
    if text_eq s (lit "R")
    then some root_raw
    else if text_eq s (lit "T")
    then some
        (document "timestamp" (("meta", obj (("snapshot.json", link "S") ∷ [])) ∷ []) (9 ∷ []))
    else if text_eq s (lit "S")
    then some (document "snapshot" (("meta", obj (("targets.json", link "G") ∷ [])) ∷ []) (7 ∷ []))
    else if text_eq s (lit "G")
    then some (
        document "targets"
          (("targets", obj (("catalogs/cat/main/core.manifest.json", target_raw) ∷ [])) ∷ [])
          (4 ∷ 6 ∷ []))
    else none

-- The canonical form of a key is its public text, of a signed part its type.
abbrev canonical_sample : Value → Option Text
canonical_sample v =
    some (unwrap_or (unwrap_or [] (as_str (at v "_type"))) (as_str (at (at v "keyval") "public")))

-- A day of January 2026, from the text of its date.
abbrev stamp : Text → Option Stamp
stamp s = some (record {
  seconds =
      86_400 * (10 * (unwrap_or 0 (get_elem? s 8) - b'0') + (unwrap_or 0 (get_elem? s 9) - b'0'));
  nanos = 0;
  is_utc = true;
})

abbrev pub sample_outside : Outside
sample_outside = record {
  read_json = read_sample;
  canonicalize = canonical_sample;
  sha256 = first_32;
  parse_from_rfc3339 = stamp;
  verifying_key = λ b. some b;
  is_weak = λ b. false;
  verify_strict = λ pk preimage sig. text_eq sig (pk ++ pk);
}

abbrev pub sample_scope : Scope
sample_scope = record {
  publisher_id = lit "pub";
  catalog_id = lit "cat";
  channel = lit "main";
  profile = lit "core";
}

abbrev pub sample_target : Target
sample_target = record {
  contract_version = lit "secureflow-catalog-target-v1";
  publisher_id = lit "pub";
  catalog_id = lit "cat";
  channel = lit "main";
  profile = lit "core";
  profile_policy_version = lit "secureflow-catalog-profile-policy-v2";
  bundle_id = lit "sf_catalog_bundle_" ++ repeat 64 (lit "0");
  release_sequence = 3;
  manifest_contract_version = lit "secureflow-catalog-bundle-v1";
  validation_authority = lit "external-records-require-human-validation";
}

-- The encoding of a state shows its generation, its time and whether an installation is pending.
abbrev pub sample_host : Host
sample_host = record {
  outside = sample_outside;
  target_schema = λ t. true;
  policy_schema = λ p. true;
  state_schema = λ s. true;
  state_value_schema = λ v. true;
  to_target = λ v. some sample_target;
  to_state = λ v. none;
  policy_value = λ p. Value.null;
  encode_state_json = λ s. decimal s.generation;
  encode_receipt = λ r. r.installation;
  is_utf8 = λ s. true;
  tuf = λ db event. true;
}

abbrev pub sample_clock : Clock
sample_clock = record {
  verification_time = lit "2026-01-02T00:00:00Z";
  time_source = lit "operator-attested";
  time_reference = lit "log";
}

abbrev pub sample_policy : Policy
sample_policy = record {
  contract_version = lit "secureflow-catalog-trust-policy-v1";
  publisher_id = lit "pub";
  publisher_label = lit "Publisher";
  catalog_id = lit "cat";
  channel = lit "main";
  profiles = lit "core" ∷ [];
  initial_root_sha256 = encode_hex (first_32 (lit "R"));
  minimum_root_version = 1;
  minimum_sequence = 2;
  bootstrap_manifest_sha256 = none;
  minimum_thresholds = thresholds;
  maximum_horizon_days = horizons;
  operator = lit "ana";
  authorization_reference = lit "AUTH";
  enrolled_at = record sample_clock { verification_time = lit "2026-01-01T00:00:00Z" };
}

abbrev pub sample_state : State
sample_state = record {
  contract_version = lit "secureflow-catalog-trust-state-v1";
  policy = sample_policy;
  policy_sha256 = [];
  roots = lit "R" ∷ [];
  roles = [];
  floors = (lit "core", record { sequence = 2; manifest_sha256 = none }) ∷ [];
  maximum_verification_time = lit "2026-01-01T00:00:00Z";
  generation = 1;
  pending = none;
  completed = [];
}

abbrev pub sample_session : Session
sample_session = record {
  state = sample_state;
  clock = sample_clock;
  mutating = true;
  total = 0;
  state_json = decimal 1;
  writes = [];
  receipts = [];
  outputs = [];
}

abbrev file_of : Text → Option Text
file_of name =
    if text_eq name (lit "timestamp.json")
    then some (lit "T")
    else if text_eq name (lit "1.snapshot.json")
    then some (lit "S")
    else if text_eq name (lit "1.targets.json")
    then some (lit "G")
    else none

abbrev pub sample_directory : Directory
sample_directory = record { is_checked = true; listing = some []; file = file_of }
