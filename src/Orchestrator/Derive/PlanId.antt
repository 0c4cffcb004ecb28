-- ===== src/Orchestrator/Derive/PlanId.antt =====
-- The identifier of a plan: it has the form that `validate` asks for, and it does not depend on
-- the place where it is stored.
use secureflow.Prelude.{◌++◌, ℕ, ◌<◌, ◌≡◌, refl, true, List, arith, All, length}
use secureflow.Text.{Text, lit, strip_prefix_iff, text_eq, text_eq_refl}
use secureflow.Text.Format.{encode_hex, length-encode_hex, encode_hex_lem}
use secureflow.Orchestrator.Types.{Host, OrchestrationEnvelope, identity_of, expected_plan_id}
use secureflow.Orchestrator.Validate.{valid_prefixed_hash, valid_sha256}
use secureflow.Orchestrator.Derive.{with_plan_id}

-- A SHA-256 value is 32 bytes.
abbrev pub Hashes : (Text → List ℕ) → Type 0
Hashes sha256 = (input : Text) → (length (sha256 input) ≡ 32) × All (λ b. b < 256) (sha256 input)

hex_valid :
    (bytes : List ℕ)
    → length bytes ≡ 32
    → All (λ b. b < 256) bytes
    → valid_sha256 (encode_hex bytes) ≡ true
unfolding valid_sha256
hex_valid bytes l h = ground (arith, length-encode_hex bytes, encode_hex_lem bytes h)

pub valid_prefixed_hash-plan_id :
    (host : Host) (e : OrchestrationEnvelope)
    → Hashes host.sha256
    → valid_prefixed_hash (expected_plan_id host e) (lit "sf_plan_") ≡ true
unfolding valid_prefixed_hash expected_plan_id
valid_prefixed_hash-plan_id host e hashes =
    let bytes = host.sha256 (host.to_vec (identity_of e)) in
    let h = hashes (host.to_vec (identity_of e)) in
    let whole = lit "sf_plan_" ++ encode_hex bytes in
    let stripped = (strip_prefix_iff (lit "sf_plan_") whole (encode_hex bytes)).1 refl in
    ground (arith, stripped, hex_valid bytes h.0 h.1)

pub plan_id_stable :
    (host : Host) (d : OrchestrationEnvelope)
    → text_eq (with_plan_id host d).plan_id (expected_plan_id host (with_plan_id host d)) ≡ true
unfolding with_plan_id expected_plan_id
plan_id_stable host d =
    text_eq_refl (lit "sf_plan_" ++ encode_hex (host.sha256 (host.to_vec (identity_of d))))
