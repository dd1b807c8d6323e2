-- ===== src/Endpoint/Address.antt =====
-- src/endpoint.rs, `parse::<std::net::IpAddr>().is_ok()`: the readers of the standard library's addresses,
-- which give the rest of the text.
use Prim.Native.Char.{Char, code}
use rsqlite_rsync.Base.{
  ℕ, zero, suc, ◌+◌, ◌-◌, ◌*◌, List, [], ◌∷◌, Option, none, some, Bool, true, false, not, ◌&&◌,
  ◌||◌, leb, ltb, ◌==◌, if◌then◌else◌,
}

-- The value of a digit in a base up to 16; none where it is no digit.
abbrev digit_value : ℕ → ℕ → Option ℕ
digit_value base n =
    let value : ℕ =
      if leb 48 n && leb n 57
      then n - 48
      else if leb 97 n && leb n 102
      then n - 87
      else if leb 65 n && leb n 70
      then n - 55
      else 16 in
    if ltb value base then some value else none

-- The end of a number: at least one digit, and no zero in front where that is not allowed.
abbrev number_end : Bool → Bool → ℕ → List Char → Option (List Char)
number_end allow_zero_prefix starts_with_zero count rest =
    if count == 0 || (not allow_zero_prefix && (starts_with_zero && ltb 1 count))
    then none
    else some rest

abbrev or_zero : Option ℕ → ℕ
or_zero none = 0
or_zero (some d) = d

abbrev is_digit : Option ℕ → Bool
is_digit none = false
is_digit (some d) = true

module _ (base max_digits bound : ℕ) (allow_zero_prefix : Bool) where
  -- `read_number`, after `count` digits.
  read_digits : Bool → ℕ → ℕ → List Char → Option (List Char)
  read_digits starts_with_zero count value [] =
      number_end allow_zero_prefix starts_with_zero count []
  read_digits starts_with_zero count value (c ∷ s) =
      let d : Option ℕ = digit_value base (code c) in
      let next : ℕ = value * base + or_zero d in
      let later = read_digits starts_with_zero (suc count) next s in
      if is_digit d
      then (if leb next bound && leb (suc count) max_digits then later else none)
      else number_end allow_zero_prefix starts_with_zero count (c ∷ s)

  abbrev begins_with_zero : List Char → Bool
  begins_with_zero [] = false
  begins_with_zero (c ∷ s) = code c == 48

  read_number : List Char → Option (List Char)
  unfolding read_digits
  read_number s = read_digits (begins_with_zero s) 0 0 s

abbrev then_read : Option (List Char) → (List Char → Option (List Char)) → Option (List Char)
then_read none f = none
then_read (some rest) f = f rest

-- `read_given_char`.
abbrev read_char : ℕ → List Char → Option (List Char)
read_char n [] = none
read_char n (c ∷ s) = if code c == n then some s else none

abbrev read_octet : List Char → Option (List Char)
read_octet s = read_number 10 3 255 false s

-- Four numbers below 256 with dots between them.
read_ipv4_addr : List Char → Option (List Char)
unfolding read_number
read_ipv4_addr s = then_read (read_octet s) (λ a. then_read (read_char 46 a) (λ b.
    then_read (read_octet b) (λ c.
      then_read (read_char 46 c)
        (λ d. then_read (read_octet d) (λ e. then_read (read_char 46 e) read_octet)))))

-- `read_separator`: a colon before every group but the first.
abbrev after_separator : ℕ → List Char → Option (List Char)
after_separator zero s = some s
after_separator (suc i) s = read_char 58 s

-- What `read_groups` gives: the rest, the number of groups, and whether the last two were an IPv4 address.
abbrev Groups : Type 0
Groups = List Char × ℕ × Bool

abbrev embedded : ℕ → List Char → Option (List Char)
embedded i s = then_read (after_separator i s) read_ipv4_addr

abbrev group : ℕ → List Char → Option (List Char)
group i s = then_read (after_separator i s) (read_number 16 4 65535 true)

-- The loop, with the slots that are left.
read_groups : ℕ → ℕ → List Char → Groups
unfolding read_ipv4_addr read_number
read_groups zero i s = (s, i, false)
read_groups (suc left) i s = elim (if ltb 0 left then embedded i s else none) [
  | some rest ↦ (rest, i + 2, true)
  | none ↦ elim (group i s) [ some rest ↦ read_groups left (suc i) rest | none ↦ (s, i, false) ]
]

-- After the first groups: all eight, or two colons and the rest of the groups.
abbrev after_head : Groups → Option (List Char)
after_head (rest, size, has_ipv4) =
    if size == 8
    then some rest
    else if has_ipv4
    then none
    else then_read (read_char 58 rest)
        (λ a. then_read (read_char 58 a) (λ b. some (read_groups (8 - (size + 1)) 0 b).0))

read_ipv6_addr : List Char → Option (List Char)
unfolding read_groups
read_ipv6_addr s = after_head (read_groups 8 0 s)

-- The whole text is read.
abbrev whole : Option (List Char) → Bool
whole none = false
whole (some []) = true
whole (some (c ∷ s)) = false

-- `read_ip_addr`: an IPv4 address, or else an IPv6 address.
abbrev or_read : Option (List Char) → Option (List Char) → Option (List Char)
or_read (some rest) other = some rest
or_read none other = other

unfoldable pub is_ip_addr : List Char → Bool
unfolding read_ipv4_addr read_ipv6_addr
is_ip_addr s = whole (or_read (read_ipv4_addr s) (read_ipv6_addr s))
