-- ===== src/Run/Location/Laws.antt =====
-- What `validate_location` accepts, told without the code.
use secureflow.Prelude.{
  differ, false, ◌||◌, ◌&&◌, ltb, ◌==◌, is_some, is_some_and, ℕ, ◌≤◌, ◌<◌, ◌≡◌, ◌↔◌, refl, Option,
  none, some, Bool, arith, Passes, WhenSome,
}
use secureflow.Run.Fields.{validate_relative_path}
use secureflow.Run.Location.{Location, validate_location, ends_before_start}

abbrev pub BytesMatch : Option ℕ → Option ℕ → Type 0
BytesMatch none none = Unit
BytesMatch (some start) (some finish) = start ≤ finish
BytesMatch (some _) none = ⊥
BytesMatch none (some _) = ⊥

-- Byte offsets come together and in order; lines and columns count from 1; an end line does not
-- precede the start line, and on the start line an end column does not precede the start column.
-- An end column with no end line is only positive.
pub record IsSpan (l : Location) : Type 0 where
  pub path : Passes (validate_relative_path l.path "location.path")
  pub bytes : BytesMatch l.start_byte l.end_byte
  pub line : 0 < l.start_line
  pub column : 0 < l.start_column
  pub end_line : WhenSome (λ n. (0 < n) × (l.start_line ≤ n)) l.end_line
  pub end_column : WhenSome (λ c. 0 < c) l.end_column
  pub same_line :
      WhenSome (λ n. n ≡ l.start_line → WhenSome (λ c. l.start_column ≤ c) l.end_column) l.end_line

module _ (start finish : Option ℕ) where
  abbrev bytes_refused : Bool
  bytes_refused = differ (is_some start) (is_some finish) || ends_before_start start finish

bytes_iff : (s e : Option ℕ) → (bytes_refused s e ≡ false) ↔ BytesMatch s e
bytes_iff none none = (λ _. tt, λ _. refl)
bytes_iff none (some e) = (λ h. cc, λ h. absurd h)
bytes_iff (some s) none = (λ h. cc, λ h. absurd h)
bytes_iff (some s) (some e) = (λ h. ground arith, λ h. ground arith)

-- The tests on the end of the span, as a whole.
module _ (start_line start_column : ℕ) where
  abbrev end_refused : Option ℕ → Option ℕ → Bool
  end_refused end_line end_column =
      (is_some_and (λ n. n == 0) end_line || is_some_and (λ n. n == 0) end_column)
      || is_some_and
          (λ n.
            ltb n start_line || n == start_line && is_some_and (λ c. ltb c start_column) end_column)
          end_line

  record EndsLater (end_line end_column : Option ℕ) : Type 0 where
    pub line : WhenSome (λ n. (0 < n) × (start_line ≤ n)) end_line
    pub column : WhenSome (λ c. 0 < c) end_column
    pub same : WhenSome (λ n. n ≡ start_line → WhenSome (λ c. start_column ≤ c) end_column) end_line

  end_iff : (n c : Option ℕ) → (end_refused n c ≡ false) ↔ EndsLater n c
  end_iff none none = (λ h. record { line = tt; column = tt; same = tt }, λ h. refl)
  end_iff none (some c) = (
    (λ h. record { line = tt; column = ground arith; same = tt }),
    (λ h. let p = h.column in ground arith),
  )
  end_iff (some n) none = (
    (λ h. record { line = ground arith; column = tt; same = λ e. tt }),
    (λ h. let p = h.line in ground arith),
  )
  end_iff (some n) (some c) = (
    (λ h. record { line = ground arith; column = ground arith; same = λ e. ground arith }),
    (λ h. let p = h.line in let q = h.column in let r = h.same in ground arith),
  )

-- `validate_location` accepts exactly the locations that are spans: a confined path, both byte offsets
-- or none and in order, lines and columns from one on, an end line that does not precede the start
-- line, and on the start line an end column that does not precede the start column.
pub validate_location_iff : (l : Location) → Passes (validate_location l) ↔ IsSpan l
unfolding validate_location
validate_location_iff l =
    let bytes = bytes_iff l.start_byte l.end_byte in
    let ends = end_iff l.start_line l.start_column l.end_line l.end_column in
    (
      (λ h.
          let later = ends.0 (ground arith) in
          record {
            path = ground arith;
            bytes = bytes.0 (ground arith);
            line = ground arith;
            column = ground arith;
            end_line = later.line;
            end_column = later.column;
            same_line = later.same;
          }),
      (λ h.
          let b = bytes.1 h.bytes in
          let later : EndsLater l.start_line l.start_column l.end_line l.end_column = record {
            line = h.end_line;
            column = h.end_column;
            same = h.same_line;
          } in
          let e = ends.1 later in ground arith),
    )
