-- ===== src/Run/Dedup/Keys.antt =====
-- When the key of `deduplicate_findings` in crates/secureflow-model/src/lib.rs identifies what it is
-- made of.
use mathlib.Core.List.{append_assoc}
use secureflow.Prelude.{
  subst, all-append, ℕ, ◌<◌, ◌^◌, ◌≡◌, refl, sym, ◌∙◌, arith, Bool, true, not, [], ◌∷◌, ◌++◌, all,
  ◌==◌, unwrap_or,
}
use secureflow.Text.{Text, lit, is_ascii_digit}
use secureflow.Text.Format.{decimal}
use secureflow.Text.Format.Decimal.{decimal-digits, decimal_injective}
use secureflow.Run.Location.{Location}
use secureflow.Run.Dedup.{fingerprint, dedup_key, Finding, location_key}

abbrev pub lacks : ℕ → Text → Bool
lacks b = all (λ c. not (c == b))

-- Texts that lack the separator are found again in front of it.
split_at :
    (b : ℕ) (s t u v : Text)
    → lacks b s ≡ true
    → lacks b t ≡ true
    → s ++ (b ∷ u) ≡ t ++ (b ∷ v)
    → (s ≡ t) × (u ≡ v)
split_at b [] [] u v hs ht e = ground arith
split_at b [] (y ∷ t) u v hs ht e = ground arith
split_at b (x ∷ s) [] u v hs ht e = ground arith
split_at b (x ∷ s) (y ∷ t) u v hs ht e = ground (arith, split_at b s t u v)

digits-lacks :
    (b : ℕ) (s : Text)
    → is_ascii_digit b ≡ Bool.false
    → all is_ascii_digit s ≡ true
    → lacks b s ≡ true
digits-lacks b [] h d = refl
digits-lacks b (c ∷ s) h d = ground (arith, digits-lacks b s h)

-- The numeral in front of a colon is found again.
number_at :
    (m n : ℕ) (u v : Text)
    → m < 2 ^ 64
    → n < 2 ^ 64
    → decimal m ++ (b':' ∷ u) ≡ decimal n ++ (b':' ∷ v)
    → (m ≡ n) × (u ≡ v)
number_at m n u v hm hn e =
    let parts =
      split_at b':' (decimal m) (decimal n) u v
        (digits-lacks b':' (decimal m) refl (decimal-digits m))
        (digits-lacks b':' (decimal n) refl (decimal-digits n)) e in
    (decimal_injective m n hm hn parts.0, parts.1)

-- The numbers of a location are below 2 ^ 64, and its path has none of the separators.
pub record IsPlain (l : Location) : Type 0 where
  pub colon : lacks b':' l.path ≡ true
  pub bar : lacks b'|' l.path ≡ true
  pub start_byte : unwrap_or 0 l.start_byte < 2 ^ 64
  pub end_byte : unwrap_or 0 l.end_byte < 2 ^ 64
  pub start_line : l.start_line < 2 ^ 64
  pub start_column : l.start_column < 2 ^ 64
  pub end_line : unwrap_or 0 l.end_line < 2 ^ 64
  pub end_column : unwrap_or 0 l.end_column < 2 ^ 64

-- Equal locations, where a number that is missing counts as 0.
pub record SameSpot (l m : Location) : Type 0 where
  pub path : l.path ≡ m.path
  pub start_byte : unwrap_or 0 l.start_byte ≡ unwrap_or 0 m.start_byte
  pub end_byte : unwrap_or 0 l.end_byte ≡ unwrap_or 0 m.end_byte
  pub start_line : l.start_line ≡ m.start_line
  pub start_column : l.start_column ≡ m.start_column
  pub end_line : unwrap_or 0 l.end_line ≡ unwrap_or 0 m.end_line
  pub end_column : unwrap_or 0 l.end_column ≡ unwrap_or 0 m.end_column

-- The key with the colons written out.
abbrev colon_joined : Location → Text
colon_joined l =
    l.path
    ++ (b':'
        ∷ (decimal (unwrap_or 0 l.start_byte)
            ++ (b':'
                ∷ (decimal (unwrap_or 0 l.end_byte)
                    ++ (b':'
                        ∷ (decimal l.start_line
                            ++ (b':'
                                ∷ (decimal l.start_column
                                    ++ (b':'
                                        ∷ (decimal (unwrap_or 0 l.end_line)
                                            ++ (b':' ∷ decimal (unwrap_or 0 l.end_column))))))))))))

location_key-joined : (l : Location) → location_key l ≡ colon_joined l
unfolding location_key lit
location_key-joined l = simp append_assoc

location_key-SameSpot :
    (l m : Location) → IsPlain l → IsPlain m → location_key l ≡ location_key m → SameSpot l m
location_key-SameSpot l m p q e =
    let (path, e0) =
      split_at b':' l.path m.path _ _ p.colon q.colon
        (sym (location_key-joined l) ∙ e ∙ location_key-joined m) in
    let (start_byte, e1) = number_at _ _ _ _ p.start_byte q.start_byte e0 in
    let (end_byte, e2) = number_at _ _ _ _ p.end_byte q.end_byte e1 in
    let (start_line, e3) = number_at _ _ _ _ p.start_line q.start_line e2 in
    let (start_column, e4) = number_at _ _ _ _ p.start_column q.start_column e3 in
    let (end_line, e5) = number_at _ _ _ _ p.end_line q.end_line e4 in
    record {
      path = path;
      start_byte = start_byte;
      end_byte = end_byte;
      start_line = start_line;
      start_column = start_column;
      end_line = end_line;
      end_column = decimal_injective _ _ p.end_column q.end_column e5;
    }

lacks-append : (b : ℕ) (s t : Text) → lacks b s ≡ true → lacks b t ≡ true → lacks b (s ++ t) ≡ true
lacks-append b s t hs ht = ground (arith, all-append (λ c. not (c == b)) s t)

-- A numeral and a colon add no bar.
numeral-lacks :
    (n : ℕ) (s : Text) → lacks b'|' s ≡ true → lacks b'|' (decimal n ++ (b':' ∷ s)) ≡ true
numeral-lacks n s h =
    lacks-append b'|' (decimal n) (b':' ∷ s) (digits-lacks b'|' (decimal n) refl (decimal-digits n))
      h

location_key-lacks : (l : Location) → IsPlain l → lacks b'|' (location_key l) ≡ true
location_key-lacks l p =
    subst (λ k. lacks b'|' k ≡ true) (sym (location_key-joined l))
      (lacks-append b'|' l.path _ p.bar (
        numeral-lacks _ _ (
          numeral-lacks _ _ (
            numeral-lacks _ _ (
              numeral-lacks _ _ (
                numeral-lacks _ _ (
                  digits-lacks b'|' (decimal (unwrap_or 0 l.end_column)) refl
                    (decimal-digits (unwrap_or 0 l.end_column)))))))))

-- The key with the bars written out.
abbrev bar_joined : Finding → Text
bar_joined f =
    fingerprint f
    ++ (b'|'
        ∷ (f.rule_id
            ++ (b'|' ∷ (location_key f.source_location ++ (b'|' ∷ location_key f.sink_location)))))

dedup_key-joined : (f : Finding) → dedup_key f ≡ bar_joined f
unfolding dedup_key lit
dedup_key-joined f = simp append_assoc

-- A finding whose fingerprint and rule have no bar, and whose locations are plain.
pub record IsPlainFinding (f : Finding) : Type 0 where
  pub print : lacks b'|' (fingerprint f) ≡ true
  pub rule : lacks b'|' f.rule_id ≡ true
  pub source : IsPlain f.source_location
  pub sink : IsPlain f.sink_location

-- Two findings with one key, whose fingerprints and rules have no bar and whose paths have no bar and
-- no colon, and whose positions are below 2 ^ 64, have the same fingerprint, rule, source and sink,
-- where a number that is missing counts as 0.
pub dedup_key_faithful :
    (f g : Finding)
    → IsPlainFinding f
    → IsPlainFinding g
    → dedup_key f ≡ dedup_key g
    → (fingerprint f ≡ fingerprint g)
      × (f.rule_id ≡ g.rule_id)
      × SameSpot f.source_location g.source_location
      × SameSpot f.sink_location g.sink_location
dedup_key_faithful f g p q e =
    let (print, e1) =
      split_at b'|' (fingerprint f) (fingerprint g) _ _ p.print q.print
        (sym (dedup_key-joined f) ∙ e ∙ dedup_key-joined g) in
    let (rule, e2) = split_at b'|' f.rule_id g.rule_id _ _ p.rule q.rule e1 in
    let (source, sink) =
      split_at b'|' (location_key f.source_location) (location_key g.source_location) _ _
        (location_key-lacks f.source_location p.source)
        (location_key-lacks g.source_location q.source) e2 in
    (
      print,
      rule,
      location_key-SameSpot f.source_location g.source_location p.source q.source source,
      location_key-SameSpot f.sink_location g.sink_location p.sink q.sink sink,
    )
