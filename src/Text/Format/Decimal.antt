-- ===== src/Text/Format/Decimal.antt =====
-- The decimal numerals that `format!` writes can be read back.
use secureflow.Prelude.{
  ℕ, zero, suc, ◌+◌, ◌-◌, ◌*◌, ◌^◌, ◌/◌, ◌%◌, ◌<◌, ◌≡◌, ap, sym, ◌∙◌, refl, ◌∙◌, true, List, [],
  ◌∷◌, ◌++◌, arith, all, all-append, ltb, Bool-cases, inl, inr,
}
use secureflow.Text.{is_ascii_digit}
use secureflow.Text.Format.{decimal, decimal_digits}

-- Reading digits, most significant first.
unfoldable pub read_decimal : ℕ → List ℕ → ℕ
read_decimal acc [] = acc
read_decimal acc (c ∷ s) = read_decimal (acc * 10 + (c - b'0')) s

read_decimal-append :
    (acc : ℕ) (s : List ℕ) (c : ℕ)
    → read_decimal acc (s ++ (c ∷ [])) ≡ read_decimal acc s * 10 + (c - b'0')
unfolding read_decimal
read_decimal-append acc [] c = refl
read_decimal-append acc (x ∷ s) c = read_decimal-append (acc * 10 + (x - b'0')) s c

power : (fuel : ℕ) → 10 ^ suc fuel ≡ 10 * 10 ^ fuel
power fuel = omega arith

decimal_digits-read : (fuel n : ℕ) → n < 10 ^ fuel → read_decimal 0 (decimal_digits fuel n) ≡ n
unfolding decimal_digits
decimal_digits-read zero n h = unfold read_decimal in omega arith
decimal_digits-read (suc fuel) n h = elim (Bool-cases (ltb n 10)) [
  | inl small ↦ unfold read_decimal in ground arith
  | inr large ↦
      let smaller : n / 10 < 10 ^ fuel = omega (arith, power fuel) in
      let ih = decimal_digits-read fuel (n / 10) smaller in
      let last = read_decimal-append 0 (decimal_digits fuel (n / 10)) (b'0' + n % 10) in
      rw large (last ∙ omega (arith, ih))
]

decimal_digits-digits : (fuel n : ℕ) → all is_ascii_digit (decimal_digits fuel n) ≡ true
unfolding decimal_digits
decimal_digits-digits zero n = refl
decimal_digits-digits (suc fuel) n =
    let ih = decimal_digits-digits fuel (n / 10) in
    ground (arith, all-append is_ascii_digit (decimal_digits fuel (n / 10)) ((b'0' + n % 10) ∷ []))

pub decimal-digits : (n : ℕ) → all is_ascii_digit (decimal n) ≡ true
unfolding decimal
decimal-digits n = decimal_digits-digits 20 n

-- 20 digits are enough for every `u64`.
pub decimal-read : (n : ℕ) → n < 2 ^ 64 → read_decimal 0 (decimal n) ≡ n
unfolding decimal
decimal-read n h = decimal_digits-read 20 n (omega arith)

pub decimal_injective : (m n : ℕ) → m < 2 ^ 64 → n < 2 ^ 64 → decimal m ≡ decimal n → m ≡ n
decimal_injective m n hm hn e = sym (decimal-read m hm) ∙ ap (read_decimal 0) e ∙ decimal-read n hn
