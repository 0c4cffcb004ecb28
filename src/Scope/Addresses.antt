-- ===== src/Scope/Addresses.antt =====
-- `str::parse::<IpAddr>` of the standard library, and `valid_dns_name` of
-- crates/secureflow-web/src/scope.rs.
use secureflow.Prelude.{
  ℕ, zero, suc, ◌+◌, ◌-◌, ◌*◌, Bool, true, false, not, ◌&&◌, ◌||◌, Option, none, some, List, [],
  ◌∷◌, leb, ltb, ◌==◌, length, all, any, is_empty, is_some, if◌then◌else◌,
}
use secureflow.Text.{ends_with_byte, Text, is_ascii_digit, is_ascii_lowercase, is_ascii_uppercase}
use secureflow.Text.Paths.{grow}

-- `char::to_digit`, for the bases 10 and 16
digit : ℕ → ℕ → Option ℕ
digit base c =
    if is_ascii_digit c
    then some (c - b'0')
    else if base == 16 && leb b'a' c && leb c b'f'
    then some (c - b'a' + 10)
    else if base == 16 && leb b'A' c && leb c b'F'
    then some (c - b'A' + 10)
    else none

-- The digits at the front, and what follows.
digits : ℕ → Text → List ℕ × Text
unfolding digit
digits base [] = ([], [])
digits base (c ∷ s) =
    let rest = digits base s in
    elim (digit base c) [ none ↦ ([], c ∷ s) | some d ↦ (d ∷ rest.0, rest.1) ]

value_of : ℕ → ℕ → List ℕ → ℕ
value_of base acc [] = acc
value_of base acc (d ∷ ds) = value_of base (acc * base + d) ds

abbrev starts_with_zero : List ℕ → Bool
starts_with_zero (d ∷ ds) = d == 0
starts_with_zero [] = false

-- `Parser::read_number`: what follows the number, if it has at most `most` digits, fits below
-- `bound`, and has no zero in front where none is allowed.
number : ℕ → ℕ → ℕ → Bool → Text → Option Text
unfolding digits value_of
number base most bound zeros s =
    let (ds, rest) = digits base s in
    if is_empty ds
      || ltb most (length ds)
      || leb bound (value_of base 0 ds)
      || not zeros && starts_with_zero ds && ltb 1 (length ds)
    then none
    else some rest

-- `Parser::read_given_char`
given : ℕ → Text → Option Text
given c [] = none
given c (x ∷ s) = if x == c then some s else none

abbrev then_read : Option Text → (Text → Option Text) → Option Text
then_read none f = none
then_read (some s) f = f s

octet : Text → Option Text
unfolding number
octet = number 10 3 256 false

-- `Parser::read_ipv4_addr`
ipv4 : Text → Option Text
unfolding octet given
ipv4 s = then_read (octet s) (λ s. then_read (given b'.' s) (λ s. then_read (octet s) (λ s.
    then_read (given b'.' s) (λ s. then_read (octet s) (λ s. then_read (given b'.' s) octet)))))

group : Text → Option Text
unfolding number
group = number 16 4 65536 true

-- `Parser::read_separator`, which reads the colon but before the first group.
separated : Bool → (Text → Option Text) → Text → Option Text
unfolding given
separated first read s = if first then read s else then_read (given b':' s) read

-- `read_groups` of `Parser::read_ipv6_addr`: how many of the `room` groups were read, whether the
-- last two are an IPv4 address, and what follows.
groups : Bool → ℕ → Text → ℕ × Bool × Text
unfolding separated group ipv4
groups first zero s = (0, false, s)
groups first (suc room) s =
    let embedded = if room == 0 then none else separated first ipv4 s in
    elim embedded [
      | some rest ↦ (2, true, rest)
      | none ↦ elim (separated first group s) [
        | none ↦ (0, false, s)
        | some rest ↦ let later = groups false room rest in (suc later.0, later.1, later.2)
      ]
    ]

-- After the head: the address is whole, or `::` and a tail follow.
tail_of : ℕ → Bool → Text → Option Text
unfolding given groups
tail_of head embedded rest =
    if head == 8
    then some rest
    else if embedded
    then none
    else then_read (given b':' rest)
        (λ s. then_read (given b':' s) (λ s. some (groups true (8 - (head + 1)) s).2))

-- `Parser::read_ipv6_addr`
ipv6 : Text → Option Text
unfolding groups tail_of
ipv6 s = let head = groups true 8 s in tail_of head.0 head.1 head.2

abbrev at_end : Option Text → Bool
at_end (some []) = true
at_end _ = false

-- An IPv4 address if there is one in front, else an IPv6 address, and nothing after it.
unfoldable pub is_ip_addr : Text → Bool
unfolding ipv4 ipv6
is_ip_addr s = if is_some (ipv4 s) then at_end (ipv4 s) else at_end (ipv6 s)

-- `value.split('.')`, never empty
split_dot : Text → List Text
split_dot [] = [] ∷ []
split_dot (c ∷ s) = let rest = split_dot s in if c == b'.' then [] ∷ rest else grow c rest

abbrev starts_with_byte : ℕ → Text → Bool
starts_with_byte b [] = false
starts_with_byte b (c ∷ s) = c == b

unfoldable pub valid_label : Text → Bool
valid_label label =
    not (is_empty label)
    && leb (length label) 63
    && not (starts_with_byte b'-' label)
    && not (ends_with_byte b'-' label)
    && all (λ c. is_ascii_lowercase c || is_ascii_digit c || c == b'-') label

unfoldable pub valid_dns_name : Text → Bool
unfolding split_dot
valid_dns_name value =
    if is_empty value
      || ltb 253 (length value)
      || ends_with_byte b'.' value
      || any is_ascii_uppercase value
    then false
    else all valid_label (split_dot value)
