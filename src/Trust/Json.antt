-- ===== src/Trust/Json.antt =====
-- `serde_json::Value` with its readers, and the reader `Strict` of
-- crates/secureflow-knowledge/src/catalog_trust/wire.rs, which stands between serde_json and every
-- document of the trust store. serde_json is a parameter: it turns bytes into the calls that a
-- `Visitor` gets, here the tree `Raw`.
pub mod Laws
use secureflow.Prelude.{
  ℕ, suc, ◌+◌, String, ◌≡◌, Bool, true, false, ◌&&◌, Option, none, some, List, [], ◌∷◌, ltb, length,
  all, if◌then◌else◌, unwrap_or, Result, ok, err, ◌>>=◌, ◌>>◌,
}
use secureflow.Text.{Text, lit, text_eq}
use secureflow.Trust.Errors.{Code, Tried, Checked, require, or_error, format}
use secureflow.Trust.Map.{Map, lookup, insert, contains_key}

mutual
  pub data Value : Type 0 where
    null : Value
    boolean : Bool → Value
    natural : ℕ → Value
    negative : ℕ → Value
    string_value : Text → Value
    array : Values → Value
    object : Members → Value

  pub data Values : Type 0 where
    nil : Values
    cons : Value → Values → Values

  pub data Members : Type 0 where
    end : Members
    member : Text → Value → Members → Members

-- The entries of an object in the order of its map, and the elements of an array.
abbrev pub entries : Members → Map Value
entries end = []
entries (member k v ms) = (k, v) ∷ entries ms

abbrev pub elements : Values → List Value
elements nil = []
elements (cons v vs) = v ∷ elements vs

abbrev pub from_entries : Map Value → Members
from_entries [] = end
from_entries ((k, v) ∷ m) = member k v (from_entries m)

abbrev pub as_object : Value → Option (Map Value)
as_object (object ms) = some (entries ms)
as_object _ = none

abbrev pub as_array : Value → Option (List Value)
as_array (array vs) = some (elements vs)
as_array _ = none

abbrev pub as_str : Value → Option Text
as_str (string_value s) = some s
as_str _ = none

abbrev pub as_u64 : Value → Option ℕ
as_u64 (natural n) = some n
as_u64 _ = none

-- `value.get(key)`, and the index `value[key]`, which is null where the key is missing
unfoldable pub get : Value → Text → Option Value
get (object ms) k = lookup k (entries ms)
get _ k = none

unfoldable pub index : Value → Text → Value
index v k = unwrap_or null (get v k)

abbrev pub at : Value → String → Value
at v k = index v (lit k)

-- `value == "text"`
abbrev pub is_text : Value → Text → Bool
is_text v t = elim (as_str v) [ none ↦ false | some s ↦ text_eq s t ]

-- The calls that serde_json makes on a `Visitor`.
mutual
  pub data Raw : Type 0 where
    unit : Raw
    bool : Bool → Raw
    u64 : ℕ → Raw
    i64 : ℕ → Raw
    f64 : Raw
    str : Text → Raw
    seq : Raws → Raw
    map : RawMembers → Raw

  pub data Raws : Type 0 where
    last : Raws
    element : Raw → Raws → Raws

  pub data RawMembers : Type 0 where
    close : RawMembers
    entry : Text → Raw → RawMembers → RawMembers

abbrev pub max_sequence : ℕ
max_sequence = 9_007_199_254_740_991

abbrev pub max_depth : ℕ
max_depth = 32

-- The test of `Strict(depth)`, before it visits a value.
abbrev pub bounded : ℕ → Option Value → Option Value
bounded depth read = if ltb max_depth depth then none else read

-- The visitor `Strict(depth)`. `i64` holds the absolute value of a negative number.
unfoldable mutual
  pub visit : ℕ → Raw → Option Value
  visit depth unit = some null
  visit depth (bool b) = some (boolean b)
  visit depth (u64 n) = if ltb max_sequence n then none else some (natural n)
  visit depth (i64 n) = if ltb max_sequence n then none else some (negative n)
  visit depth f64 = none
  visit depth (str s) = some (string_value s)
  visit depth (seq rs) = elim (visit_seq depth rs) [ none ↦ none | some vs ↦ some (array vs) ]
  visit depth (map rs) = elim (visit_map depth [] rs) [
    | none ↦ none
    | some m ↦ some (object (from_entries m))
  ]

  pub visit_seq : ℕ → Raws → Option Values
  visit_seq depth last = some nil
  visit_seq depth (element r rs) = elim (bounded (suc depth) (visit (suc depth) r)) [
    | none ↦ none
    | some v ↦ elim (visit_seq depth rs) [ none ↦ none | some vs ↦ some (cons v vs) ]
  ]

  pub visit_map : ℕ → Map Value → RawMembers → Option (Map Value)
  visit_map depth out close = some out
  visit_map depth out (entry k r rs) = elim (contains_key k out) [
    | true ↦ none
    | false ↦ elim (bounded (suc depth) (visit (suc depth) r)) [
      | none ↦ none
      | some v ↦ visit_map depth (insert k v out) rs
    ]
  ]

abbrev pub strict : ℕ → Raw → Option Value
strict depth raw = bounded depth (visit depth raw)

-- serde_json on a slice, up to and including `Deserializer::end`
abbrev pub JsonReader : Type 0
JsonReader = Text → Option Raw

unfoldable pub parse : JsonReader → Text → ℕ → Tried Value
parse read bytes limit = do
  require (if ltb limit (length bytes) then false else true) format
  raw ← or_error format (read bytes)
  or_error format (strict 0 raw)
