-- ===== src/Trust/Wire.antt =====
-- The strict profile of crates/secureflow-knowledge/src/catalog_trust/wire.rs around TUF metadata:
-- field readers, the envelope of a role, the profile of a root and the strict signatures.
pub mod Keys
use secureflow.Prelude.{
  ℕ, suc, ◌+◌, ◌-◌, ◌*◌, String, ◌≡◌, Bool, true, false, ◌&&◌, ◌||◌, not, Option, none, some, List,
  [], ◌∷◌, ltb, leb, ◌==◌, length, all, any, is_some, is_some_and, get_elem?, is_none, is_empty,
  if◌then◌else◌, Result, ok, err, ◌>>=◌, ◌>>◌, each, map,
}
use secureflow.Prelude.Sorting.{sort_by}
use secureflow.Text.{
  Text, lit, text_eq, ends_with_byte, is_ascii_digit, is_ascii_lowercase, is_ascii_uppercase,
}
use secureflow.Text.Chars.{chars}
use secureflow.Text.Compare.{cmp}
use secureflow.Text.Format.{encode_hex, is_lower_hex}
use secureflow.Trust.Errors.{Code, Tried, Checked, require, check, or_error, try_fold}
use secureflow.Trust.Map.{Map, contains_key}
use secureflow.Trust.Json.{
  Value, Values, Members, null, boolean, natural, negative, string_value, array, object, nil, cons,
  end, member, JsonReader, entries, elements, as_object, as_array, as_str, as_u64, is_text, get, at,
  index, parse,
}

-- An instant as chrono reads it: whole seconds from the earliest one, the rest, and the offset.
pub record Stamp : Type 0 where
  pub seconds : ℕ
  pub nanos : ℕ
  pub is_utc : Bool

-- What the wire profile calls: serde_json, the canonical form of the tuf crate, sha2, chrono, and
-- ed25519-dalek, whose keys are compressed points.
pub record Outside : Type 0 where
  pub read_json : JsonReader
  pub canonicalize : Value → Option Text
  pub sha256 : Text → List ℕ
  pub parse_from_rfc3339 : Text → Option Stamp
  pub verifying_key : List ℕ → Option (List ℕ)
  pub is_weak : List ℕ → Bool
  pub verify_strict : List ℕ → Text → List ℕ → Bool

abbrev pub u32_max : ℕ
u32_max = 4_294_967_295

abbrev pub roles : List String
roles = "root" ∷ "targets" ∷ "snapshot" ∷ "timestamp" ∷ []

-- `ROLES.iter().position(..)` with the entry of `LIMITS` at it
abbrev pub limit_of : Text → Option ℕ
limit_of role =
    if text_eq (lit "root") role
    then some 65_536
    else if text_eq (lit "targets") role
    then some 2_097_152
    else if text_eq (lit "snapshot") role
    then some 262_144
    else if text_eq (lit "timestamp") role
    then some 16_384
    else none

-- Seconds of `parse_time`.
unfoldable pub parse_time : Outside → Text → Tried ℕ
parse_time out s = do
  require (length s == 20 && is_some_and (λ b. b == b'T') (get_elem? s 10) && ends_with_byte b'Z' s)
      Code.clock
  t ← or_error Code.clock (out.parse_from_rfc3339 s)
  require (t.nanos == 0 && t.is_utc) Code.clock
  ok t.seconds

unfoldable pub digest : Outside → Text → Text
digest out bytes = encode_hex (out.sha256 bytes)

abbrev pub canonical : Outside → Value → Tried Text
canonical out v = or_error Code.format (out.canonicalize v)

abbrev pub hex_value : ℕ → ℕ
hex_value c = if is_ascii_digit c then c - b'0' else c - b'a' + 10

abbrev pub hex_pairs : Text → List ℕ
hex_pairs (a ∷ b ∷ s) = (16 * hex_value a + hex_value b) ∷ hex_pairs s
hex_pairs _ = []

-- `hex::<N>`; `from_str_radix` reads two lower-case hexadecimal digits.
unfoldable pub hex : ℕ → Text → Tried (List ℕ)
hex n s = do require (length s == 2 * n && all is_lower_hex s) Code.format; ok (hex_pairs s)

unfoldable pub string_field : Value → Text → Tried Text
string_field v k = or_error Code.format (elim (get v k) [ none ↦ none | some w ↦ as_str w ])

unfoldable pub number : Value → Text → ℕ → Tried ℕ
number v k max = do
  n ← or_error Code.format (elim (get v k) [ none ↦ none | some w ↦ as_u64 w ])
  require (ltb 0 n && leb n max) Code.format
  ok n

is_ascii_alphanumeric : ℕ → Bool
is_ascii_alphanumeric c = is_ascii_digit c || is_ascii_lowercase c || is_ascii_uppercase c

first_is_alphanumeric : Text → Bool
first_is_alphanumeric [] = false
first_is_alphanumeric (c ∷ _) = is_ascii_alphanumeric c

unfoldable pub identifier : Text → Bool
unfolding is_ascii_alphanumeric first_is_alphanumeric
identifier s =
    not (is_empty s)
    && leb (length s) 64
    && first_is_alphanumeric s
    && all (λ b. is_ascii_lowercase b || is_ascii_digit b || b == b'-') s

unfoldable pub closed : Value → List String → Checked
closed v fields = do
  o ← or_error Code.format (as_object v)
  require (length o == length fields && all (λ k. contains_key (lit k) o) fields) Code.format

abbrev pub has_c0 : Text → Bool
has_c0 s = any (λ c. ltb c 0x20) (chars s)

-- `metadata_strings`
unfoldable mutual
  pub metadata_strings : Value → Checked
  metadata_strings (string_value s) = require (not (has_c0 s)) Code.format
  metadata_strings (array vs) = element_strings vs
  metadata_strings (object ms) = member_strings ms
  metadata_strings _ = ok tt

  pub element_strings : Values → Checked
  element_strings nil = ok tt
  element_strings (cons v vs) = metadata_strings v >> element_strings vs

  pub member_strings : Members → Checked
  member_strings end = ok tt
  member_strings (member k v ms) =
      require (not (has_c0 k)) Code.format >> metadata_strings v >> member_strings ms

-- One round of the loop over the signatures, which inserts the key's identifier into `seen`.
unfoldable pub signature_profile : List Text → Value → Tried (List Text)
signature_profile seen sig = do
  closed sig ("keyid" ∷ "sig" ∷ [])
  key ← string_field sig (lit "keyid")
  check (hex 32 key)
  text ← string_field sig (lit "sig")
  check (hex 64 text)
  require (not (any (text_eq key) seen)) Code.signature
  ok (key ∷ seen)

unfoldable pub signatures_profile : Value → Checked
signatures_profile v = do
  sigs ← or_error Code.format (as_array (at v "signatures"))
  require (leb (length sigs) 32) Code.format
  check (try_fold signature_profile [] sigs)
  ok tt

-- The part that is signed: its type, version and expiry, and no extension that changes its meaning.
unfoldable pub signed_profile : Outside → Value → Text → Checked
signed_profile out s role = do
  type ← string_field s (lit "_type")
  require (text_eq type role) Code.format
  version ← string_field s (lit "spec_version")
  require (text_eq version (lit "1.0.0")) Code.format
  check (number s (lit "version") u32_max)
  expires ← string_field s (lit "expires")
  check (parse_time out expires)
  require (is_none (get s (lit "critical")) && is_none (get s (lit "delegations"))) Code.format

unfoldable pub envelope : Outside → Text → Text → Tried Value
envelope out bytes role = do
  limit ← or_error Code.format (limit_of role)
  v ← parse out.read_json bytes limit
  closed v ("signed" ∷ "signatures" ∷ [])
  metadata_strings v
  signed_profile out (at v "signed") role
  signatures_profile v
  ok v
