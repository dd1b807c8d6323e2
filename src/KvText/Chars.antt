-- ===== src/KvText/Chars.antt =====
-- Texts as lists of characters, the characters that count as white space, and decimal numbers.
use Prim.Native.Char.{Char, code}
use Prim.Native.String.{String, [], ◌∷◌}
use mathlib.Core.List.{List, [] as []ᴸ, ◌∷◌ as ◌∷ᴸ◌}
use rsqlite_rsync.Base.{
  ℕ, zero, suc, ◌+◌, ◌*◌, ◌/◌, ◌%◌, ◌-◌, ◌≡◌, refl, ap, Bool, ◌&&◌, ◌||◌, leb, ltb, ◌==◌,
  if◌then◌else◌, Option, none, some,
}

unfoldable pub chars : String → List Char
chars [] = []ᴸ
chars (c ∷ s) = c ∷ᴸ chars s

unfoldable pub text : List Char → String
text []ᴸ = []
text (c ∷ᴸ l) = c ∷ text l

pub text-chars : (s : String) → text (chars s) ≡ s
unfolding text chars
text-chars [] = refl
text-chars (c ∷ s) = ap (λ t. c ∷ t) (text-chars s)

-- Unicode's `White_Space`.
abbrev pub is_white : Char → Bool
is_white c =
    let n = code c in
    (leb 9 n && leb n 13)
    || (n == 32
        || (n == 133
            || (n == 160
                || (n == 5760
                    || ((leb 8192 n && leb n 8202)
                        || (n == 8232
                            || (n == 8233 || (n == 8239 || (n == 8287 || n == 12288)))))))))

-- `strip_prefix`.
unfoldable pub strip_prefix : List Char → List Char → Option (List Char)
strip_prefix []ᴸ s = some s
strip_prefix (p ∷ᴸ ps) []ᴸ = none
strip_prefix (p ∷ᴸ ps) (c ∷ᴸ s) =
    let later = strip_prefix ps s in if code p == code c then later else none

-- The digit of a number below 10.
abbrev pub digit : ℕ → Char
digit n =
    if n == 0
    then "0"
    else if n == 1
    then "1"
    else if n == 2
    then "2"
    else if n == 3
    then "3"
    else if n == 4
    then "4"
    else if n == 5
    then "5"
    else if n == 6
    then "6"
    else if n == 7
    then "7"
    else if n == 8
    then "8"
    else "9"

-- The decimal digits of `n` and then `rest`; twenty digits are enough for 64 bits.
unfoldable pub digits : ℕ → ℕ → List Char → List Char
digits zero n rest = rest
digits (suc fuel) n rest =
    let more = digits fuel (n / 10) (digit (n % 10) ∷ᴸ rest) in
    if ltb n 10 then digit n ∷ᴸ rest else more

-- `{}` of a `u64`.
unfoldable pub display : ℕ → List Char
unfolding digits
display n = digits 20 n []ᴸ

-- The loop of `parse::<u64>`: a character that is no digit and an overflow end it.
unfoldable pub digits_value : ℕ → List Char → Option ℕ
digits_value value []ᴸ = some value
digits_value value (c ∷ᴸ rest) =
    let next = value * 10 + (code c - 48) in
    let later = digits_value next rest in
    if leb 48 (code c) && (leb (code c) 57 && leb next 18446744073709551615) then later else none

-- After the sign: no digit at all is an error.
abbrev unsigned : List Char → Option ℕ
unsigned []ᴸ = none
unsigned (c ∷ᴸ rest) = digits_value 0 (c ∷ᴸ rest)

-- `parse::<u64>`; one `+` may stand in front.
unfoldable pub parse_u64 : List Char → Option ℕ
unfolding digits_value
parse_u64 []ᴸ = none
parse_u64 (c ∷ᴸ rest) = if code c == 43 then unsigned rest else digits_value 0 (c ∷ᴸ rest)
