-- ===== src/KvText/Numbers.antt =====
-- src/kv_text.rs: a 64-bit number as it is displayed, and read back.
use Prim.Native.Char.{Char, code}
use native.Mathlib.Decide.{dec_lt}
use rsqlite_rsync.Base.{
  ℕ, zero, suc, ◌+◌, ◌*◌, ◌/◌, ◌%◌, ◌-◌, ◌≤◌, ◌<◌, ◌≡◌, refl, ap, ◌∙◌, List, [], ◌∷◌, some, false,
  lt→ltb, le→ltb_false, le→leb, ◌==◌, arith,
}
use rsqlite_rsync.KvText.Chars.{digit, digits, display, digits_value, parse_u64}

abbrev pub NonEmpty : List Char → Type 0
NonEmpty [] = ⊥
NonEmpty (c ∷ s) = Unit {0}

abbrev pub AllDigits : List Char → Type 0
AllDigits [] = Unit {0}
AllDigits (c ∷ s) = ((48 ≤ code c) × (code c ≤ 57)) × AllDigits s

code-digit : (n : ℕ) → n < 10 → code (digit n) ≡ 48 + n
code-digit zero h = refl
code-digit (suc zero) h = refl
code-digit (suc (suc zero)) h = refl
code-digit (suc (suc (suc zero))) h = refl
code-digit (suc (suc (suc (suc zero)))) h = refl
code-digit (suc (suc (suc (suc (suc zero))))) h = refl
code-digit (suc (suc (suc (suc (suc (suc zero)))))) h = refl
code-digit (suc (suc (suc (suc (suc (suc (suc zero))))))) h = refl
code-digit (suc (suc (suc (suc (suc (suc (suc (suc zero)))))))) h = refl
code-digit (suc (suc (suc (suc (suc (suc (suc (suc (suc zero))))))))) h = refl
code-digit (suc (suc (suc (suc (suc (suc (suc (suc (suc (suc n)))))))))) h = absurd (omega arith)

digits-AllDigits : (fuel n : ℕ) (rest : List Char) → AllDigits rest → AllDigits (digits fuel n rest)
unfolding digits
digits-AllDigits zero n rest all = all
digits-AllDigits (suc fuel) n rest all = elim (dec_lt n 10) [
  | yes h ↦
      rw (lt→ltb n 10 h) ((omega (arith, code-digit n h), omega (arith, h, code-digit n h)), all)
  | no h ↦ rw (le→ltb_false n 10 (omega (arith, h))) (
      digits-AllDigits fuel (n / 10) (digit (n % 10) ∷ rest) (
        (
          omega (arith, code-digit (n % 10) (omega arith)),
          omega (arith, code-digit (n % 10) (omega arith)),
        ),
        all,
      ))
]

digits-NonEmpty : (fuel n : ℕ) (rest : List Char) → NonEmpty rest → NonEmpty (digits fuel n rest)
unfolding digits
digits-NonEmpty zero n rest some_rest = some_rest
digits-NonEmpty (suc fuel) n rest some_rest = elim (dec_lt n 10) [
  | yes h ↦ rw (lt→ltb n 10 h) tt
  | no h ↦
      rw (le→ltb_false n 10 (omega (arith, h)))
        (digits-NonEmpty fuel (n / 10) (digit (n % 10) ∷ rest) tt)
]

pub display-AllDigits : (n : ℕ) → AllDigits (display n)
unfolding display
display-AllDigits n = digits-AllDigits 20 n [] tt

pub display-NonEmpty : (n : ℕ) → NonEmpty (display n)
unfolding display digits
display-NonEmpty n = elim (dec_lt n 10) [
  | yes h ↦ rw (lt→ltb n 10 h) tt
  | no h ↦
      rw (le→ltb_false n 10 (omega (arith, h)))
        (digits-NonEmpty 19 (n / 10) (digit (n % 10) ∷ []) tt)
]

abbrev power : ℕ → ℕ
power zero = 1
power (suc k) = 10 * power k

value-digit :
    (value n : ℕ) (rest : List Char)
    → n < 10
    → value * 10 + n ≤ 18446744073709551615
    → digits_value value (digit n ∷ rest) ≡ digits_value (value * 10 + n) rest
unfolding digits_value
value-digit value n rest h fits =
    let back : 48 + n - 48 ≡ n = omega arith in
    rw
      (
        code-digit n h,
        back,
        le→leb 48 (48 + n) (omega arith),
        le→leb (48 + n) 57 (omega arith),
        le→leb (value * 10 + n) 18446744073709551615 fits,
      )
      refl

value-digits :
    (fuel n : ℕ) (rest : List Char)
    → n < power fuel
    → n ≤ 18446744073709551615
    → digits_value 0 (digits fuel n rest) ≡ digits_value n rest
unfolding digits
value-digits zero n rest small fits =
    ap (λ (k : ℕ). digits_value k rest) {x = 0} {y = n} (omega arith)
value-digits (suc fuel) n rest small fits = elim (dec_lt n 10) [
  | yes h ↦ rw (lt→ltb n 10 h) (
      value-digit 0 n rest h (omega arith)
      ∙ ap (λ (k : ℕ). digits_value k rest) {x = 0 * 10 + n} {y = n} (omega arith))
  | no h ↦ rw (le→ltb_false n 10 (omega (arith, h))) (
      value-digits fuel (n / 10) (digit (n % 10) ∷ rest) (omega arith) (omega arith)
      ∙ value-digit (n / 10) (n % 10) rest (omega arith) (omega arith)
      ∙ ap (λ (k : ℕ). digits_value k rest) {x = n / 10 * 10 + n % 10} {y = n} (omega arith))
]

parse_of_digits : (s : List Char) → AllDigits s → NonEmpty s → parse_u64 s ≡ digits_value 0 s
unfolding parse_u64
parse_of_digits [] all some_digit = absurd some_digit
parse_of_digits (c ∷ s) all some_digit = rw (other_than (code c) 43 (omega (arith, all.0))) refl
  where
    other_than : (a b : ℕ) → b < a → (a == b) ≡ false
    other_than a b h = ground arith

-- A 64-bit number that is displayed is read back.
pub parse_u64-display : (n : ℕ) → n ≤ 18446744073709551615 → parse_u64 (display n) ≡ some n
unfolding display digits_value
parse_u64-display n fits =
    parse_of_digits (display n) (display-AllDigits n) (display-NonEmpty n)
    ∙ value-digits 20 n [] (omega arith) fits
