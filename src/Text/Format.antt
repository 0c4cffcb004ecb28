-- ===== src/Text/Format.antt =====
-- `format!` of a number (`{n}`), and of bytes in lower-case hexadecimal (`{byte:02x}`).
pub mod Decimal
use mathlib.Core.Bool.{◌&&◌}
use secureflow.Prelude.{
  ℕ, zero, suc, ◌+◌, ◌-◌, ◌*◌, ◌/◌, ◌%◌, ◌<◌, ◌≡◌, refl, Bool, true, ◌||◌, List, [], ◌∷◌, ◌++◌,
  arith, ltb, leb, if◌then◌else◌, all, All, length,
}

-- The decimal digits of `n`, most significant first. A `u64` has at most 20.
decimal_digits : ℕ → ℕ → List ℕ
decimal_digits zero n = []
decimal_digits (suc fuel) n =
    let more = decimal_digits fuel (n / 10) ++ (b'0' + n % 10) ∷ [] in
    if ltb n 10 then (b'0' + n) ∷ [] else more

unfoldable pub decimal : ℕ → List ℕ
unfolding decimal_digits
decimal = decimal_digits 20

-- One digit of `{:x}`.
hex_digit : ℕ → ℕ
hex_digit d = if ltb d 10 then b'0' + d else b'a' + (d - 10)

-- `encode_hex` of the orchestrator, `digest` of the case crate after the hash.
unfoldable pub encode_hex : List ℕ → List ℕ
unfolding hex_digit
encode_hex [] = []
encode_hex (byte ∷ bytes) = hex_digit (byte / 16) ∷ hex_digit (byte % 16) ∷ encode_hex bytes

-- `byte.is_ascii_digit() || matches!(byte, b'a'..=b'f')`
abbrev pub is_lower_hex : ℕ → Bool
is_lower_hex c = leb b'0' c && leb c b'9' || leb b'a' c && leb c b'f'

pub length-encode_hex : (bytes : List ℕ) → length (encode_hex bytes) ≡ 2 * length bytes
unfolding encode_hex
length-encode_hex [] = refl
length-encode_hex (b ∷ bytes) = omega (arith, length-encode_hex bytes)

hex_digit_lem : (d : ℕ) → d < 16 → is_lower_hex (hex_digit d) ≡ true
unfolding hex_digit
hex_digit_lem d h = ground arith

pub encode_hex_lem :
    (bytes : List ℕ) → All (λ b. b < 256) bytes → all is_lower_hex (encode_hex bytes) ≡ true
unfolding encode_hex
encode_hex_lem [] h = refl
encode_hex_lem (b ∷ bytes) h = ground (
  arith,
  hex_digit_lem (b / 16) (omega arith),
  hex_digit_lem (b % 16) (omega arith),
  encode_hex_lem bytes h.1,
)
