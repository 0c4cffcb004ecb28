-- ===== src/Text/Chars.antt =====
-- `str::chars` decodes UTF-8, `str::trim` drops Unicode white space at both ends.
use mathlib.Core.List.{reverse}
use secureflow.Prelude.{
  ℕ, zero, suc, ◌+◌, ◌-◌, ◌*◌, ◌%◌, ◌≡◌, Bool, true, ◌&&◌, ◌||◌, List, [], ◌∷◌, arith, ltb, leb,
  ◌==◌, if◌then◌else◌, drop_while, all, refl,
}

-- The bytes still due for the scalar value that is being read, and its bits so far
-- (`core::str::next_code_point`).
decode : ℕ → ℕ → List ℕ → List ℕ
decode due bits [] = []
decode zero bits (b ∷ bs) =
    let ascii = b ∷ decode 0 0 bs in
    let two = decode 1 (b - 192) bs in
    let three = decode 2 (b - 224) bs in
    let four = decode 3 (b - 240) bs in
    if ltb b 128 then ascii else if ltb b 224 then two else if ltb b 240 then three else four
decode (suc zero) bits (b ∷ bs) = (bits * 64 + b % 64) ∷ decode 0 0 bs
decode (suc (suc due)) bits (b ∷ bs) = decode (suc due) (bits * 64 + b % 64) bs

unfoldable pub chars : List ℕ → List ℕ
unfolding decode
chars = decode 0 0

-- `char::is_whitespace`: the Unicode property White_Space
pub is_whitespace : ℕ → Bool
is_whitespace c =
    leb 0x9 c && leb c 0xd
    || c == 0x20
    || c == 0x85
    || c == 0xa0
    || c == 0x1680
    || leb 0x2000 c && leb c 0x200a
    || c == 0x2028
    || c == 0x2029
    || c == 0x202f
    || c == 0x205f
    || c == 0x3000

-- `char::is_control`: the Unicode category Cc
unfoldable pub is_control : ℕ → Bool
is_control c = ltb c 0x20 || leb 0x7f c && leb c 0x9f

-- The scalar values of `str::trim`.
unfoldable pub trim : List ℕ → List ℕ
unfolding chars is_whitespace
trim s = reverse (drop_while is_whitespace (reverse (drop_while is_whitespace (chars s))))

-- An ASCII text is its own list of scalar values.
pub chars_ascii : (s : List ℕ) → all (λ b. ltb b 128) s ≡ true → chars s ≡ s
unfolding chars
chars_ascii [] h = refl
chars_ascii (b ∷ s) h = ground (arith, chars_ascii s)
