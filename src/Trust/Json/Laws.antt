-- ===== src/Trust/Json/Laws.antt =====
-- What the reader `Strict` of crates/secureflow-knowledge/src/catalog_trust/wire.rs lets through.
use mathlib.Core.Option.{some-injective}
use secureflow.Prelude.{
  ◌∙◌, ap, Option-cases, subst, >>=-eq-ok, >>-eq-ok, length, ok, ℕ, suc, ◌≤◌, ◌≡◌, refl, true,
  false, Option, none, some, [], ◌∷◌, ltb, arith, All, is_some, WhenSome, ℕ, Bool-cases, inl, inr,
}
use secureflow.Text.{Text}
use secureflow.Trust.Json.{
  get, index, as_object, format, or_error, Value, Values, Members, null, boolean, natural, negative,
  string_value, array, object, nil, cons, end, member, Raw, Raws, RawMembers, unit, bool, u64, i64,
  f64, str, seq, map, last, element, close, entry, entries, from_entries, max_sequence, max_depth,
  bounded, visit, visit_seq, visit_map, strict, parse, JsonReader,
}
use secureflow.Trust.Errors.{or_error-eq-ok, require-eq-ok}
use secureflow.Trust.Map.{
  All-lookup, Map, lookup, insert, All-insert, IsDistinct, insert-IsDistinct,
}

-- A value that the strict profile allows below `depth` levels: numbers in the range that doubles
-- hold exactly, no key of an object twice, and nothing below level 32.
abbrev mutual
  pub IsStrict : ℕ → Value → Type 0
  IsStrict depth null = Unit
  IsStrict depth (boolean b) = Unit
  IsStrict depth (natural n) = n ≤ max_sequence
  IsStrict depth (negative n) = n ≤ max_sequence
  IsStrict depth (string_value s) = Unit
  IsStrict depth (array vs) = AllStrict depth vs
  IsStrict depth (object ms) = MembersStrict depth ms × IsDistinct (entries ms)

  pub AllStrict : ℕ → Values → Type 0
  AllStrict depth nil = Unit
  AllStrict depth (cons v vs) =
      ((suc depth ≤ max_depth) × IsStrict (suc depth) v) × AllStrict depth vs

  pub MembersStrict : ℕ → Members → Type 0
  MembersStrict depth end = Unit
  MembersStrict depth (member k v ms) =
      ((suc depth ≤ max_depth) × IsStrict (suc depth) v) × MembersStrict depth ms

abbrev pub Fits : ℕ → Text × Value → Type 0
Fits depth e = (suc depth ≤ max_depth) × IsStrict (suc depth) e.1

entries-from_entries : (m : Map Value) → entries (from_entries m) ≡ m
entries-from_entries [] = refl
entries-from_entries ((k, v) ∷ m) = cc (entries-from_entries m)

from_entries-Strict :
    (depth : ℕ) (m : Map Value) → All (Fits depth) m → MembersStrict depth (from_entries m)
from_entries-Strict depth [] h = tt
from_entries-Strict depth ((k, v) ∷ m) h = (h.0, from_entries-Strict depth m h.1)

abbrev IsRead : ℕ → Map Value → Type 0
IsRead depth m = All (Fits depth) m × IsDistinct m

object-Strict :
    (depth : ℕ) (o : Option (Map Value))
    → WhenSome (IsRead depth) o
    → WhenSome (IsStrict depth) (elim o [ none ↦ none | some m ↦ some (object (from_entries m)) ])
object-Strict depth none h = tt
object-Strict depth (some m) h = (from_entries-Strict depth m h.0, rw (entries-from_entries m) h.1)

-- Reading goes on with a member that is new and lies within the depth.
next-IsRead :
    (depth : ℕ) (seen : Option Value) (r : Option Value) (next : Value → Option (Map Value))
    → WhenSome (IsStrict (suc depth)) r
    → ((v : Value)
        → seen ≡ none
        → suc depth ≤ max_depth
        → IsStrict (suc depth) v
        → WhenSome (IsRead depth) (next v))
    → WhenSome (IsRead depth) (elim (is_some seen) [
      | true ↦ none
      | false ↦ elim (bounded (suc depth) r) [ none ↦ none | some v ↦ next v ]
    ])
next-IsRead depth (some _) r next h k = tt
next-IsRead depth none none next h k = ground arith
next-IsRead depth none (some v) next h k = elim (Bool-cases (ltb max_depth (suc depth))) [
  | inl deep ↦ rw deep tt
  | inr fits ↦ rw fits (k v refl (ground arith) h)
]

mutual
  unfolding visit

  visit-Strict : (depth : ℕ) (r : Raw) → WhenSome (IsStrict depth) (visit depth r)
  visit-Strict depth unit = tt
  visit-Strict depth (bool b) = tt
  visit-Strict depth (u64 n) = ground arith
  visit-Strict depth (i64 n) = ground arith
  visit-Strict depth f64 = tt
  visit-Strict depth (str s) = tt
  visit-Strict depth (seq rs) = ground (arith, visit_seq-Strict depth rs)
  visit-Strict depth (map rs) =
      object-Strict depth (visit_map depth [] rs) (visit_map-Strict depth [] rs (tt, tt))

  visit_seq-Strict : (depth : ℕ) (rs : Raws) → WhenSome (AllStrict depth) (visit_seq depth rs)
  visit_seq-Strict depth last = tt
  visit_seq-Strict depth (element r rs) =
      ground (arith, visit-Strict (suc depth) r, visit_seq-Strict depth rs)

  visit_map-Strict :
      (depth : ℕ) (out : Map Value) (rs : RawMembers)
      → All (Fits depth) out × IsDistinct out
      → WhenSome (IsRead depth) (visit_map depth out rs)
  visit_map-Strict depth out close h = h
  visit_map-Strict depth out (entry k r rs) h =
      next-IsRead depth (lookup k out) (visit (suc depth) r)
        (λ v. visit_map depth (insert k v out) rs) (visit-Strict (suc depth) r)
        λ v new room s.
          visit_map-Strict depth (insert k v out) rs
            (All-insert (Fits depth) k v out (room, s) h.0, insert-IsDistinct k v out new h.1)

-- What the strict reader returns is strict, whatever serde_json hands it: every number is at most
-- 2 ^ 53 - 1 in absolute value, no object has a key twice, no value lies deeper than 32 levels below
-- the document, and the document is no longer than the limit.
pub parse-IsStrict :
    (read : JsonReader) (bytes : Text) (limit : ℕ) {v : Value}
    → parse read bytes limit ≡ ok v
    → IsStrict 0 v × (length bytes ≤ limit)
unfolding parse
parse-IsStrict read bytes limit {v} h =
    let a = >>-eq-ok _ _ h in
    let (raw, _, r) = >>=-eq-ok (or_error format (read bytes)) _ a.1 in
    let e : strict 0 raw ≡ some v = or_error-eq-ok format (strict 0 raw) r in
    let e' : visit 0 raw ≡ some v = ground (arith, e) in
    (
      subst (WhenSome (IsStrict 0)) e' (visit-Strict 0 raw),
      ground (arith, require-eq-ok _ format a.0),
    )

members-Fits : (depth : ℕ) (ms : Members) → MembersStrict depth ms → All (Fits depth) (entries ms)
members-Fits depth end h = tt
members-Fits depth (member k v ms) h = (h.0, members-Fits depth ms h.1)

-- A member of a strict value is strict.
pub index-IsStrict :
    (depth : ℕ) (v : Value) (k : Text) → IsStrict depth v → IsStrict (suc depth) (index v k)
unfolding index get
index-IsStrict depth (object ms) k h = elim (Option-cases (lookup k (entries ms))) [
  | inl missing ↦ rw missing tt
  | inr (w, found) ↦
      rw found
        (All-lookup (λ u. (suc depth ≤ max_depth) × IsStrict (suc depth) u) k (entries ms)
          (members-Fits depth ms h.0) found).1
]
index-IsStrict depth null k h = tt
index-IsStrict depth (boolean b) k h = tt
index-IsStrict depth (natural n) k h = tt
index-IsStrict depth (negative n) k h = tt
index-IsStrict depth (string_value s) k h = tt
index-IsStrict depth (array vs) k h = tt

pub as_object-IsDistinct :
    (depth : ℕ) (v : Value) {m : Map Value} → IsStrict depth v → as_object v ≡ some m → IsDistinct m
as_object-IsDistinct depth (object ms) {m} h e =
    subst IsDistinct (some-injective (entries ms) m e) h.1
as_object-IsDistinct depth null h e = cc
as_object-IsDistinct depth (boolean b) h e = cc
as_object-IsDistinct depth (natural n) h e = cc
as_object-IsDistinct depth (negative n) h e = cc
as_object-IsDistinct depth (string_value s) h e = cc
as_object-IsDistinct depth (array vs) h e = cc

pub index-lookup :
    (v : Value) (k : Text) {m : Map Value} {w : Value}
    → as_object v ≡ some m
    → lookup k m ≡ some w
    → index v k ≡ w
unfolding index get
index-lookup (object ms) k {m} {w} e h =
    let path : entries ms ≡ m = some-injective (entries ms) m e in rw (ap (lookup k) path ∙ h) refl
index-lookup null k e h = cc
index-lookup (boolean b) k e h = cc
index-lookup (natural n) k e h = cc
index-lookup (negative n) k e h = cc
index-lookup (string_value s) k e h = cc
index-lookup (array vs) k e h = cc
