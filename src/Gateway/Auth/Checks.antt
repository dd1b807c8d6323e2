-- ===== src/Gateway/Auth/Checks.antt =====
-- src/gateway/auth.rs: whom the checks accept.
use Prim.Native.Char.{Char, code}
use Prim.Native.Nat.{bit_or, bit_xor, digits, differ, max, bit_or-bitwise, bit_xor-bitwise}
use text.Mathlib.TextEquality.{Char-path}
use rsqlite_rsync.Base.{
  ℕ, zero, suc, ◌≤◌, ◌/◌, ◌%◌, ◌≡◌, refl, ap, sym, subst, ◌∙◌, ◌↔◌, ◌++◌, List, [], ◌∷◌, true,
  length, arith,
}
use rsqlite_rsync.Gateway.Auth.{utf8_char, as_bytes, differences, constant_time_eq}

utf8_split :
    (m n : ℕ) (xs ys : List ℕ) → utf8_char m ++ xs ≡ utf8_char n ++ ys → (m ≡ n) × (xs ≡ ys)
utf8_split m n xs ys e = ground arith

utf8_some : (n : ℕ) (xs : List ℕ) → utf8_char n ++ xs ≡ [] → ⊥
utf8_some n xs e = ground arith

-- Different texts have different bytes.
pub as_bytes-injective : (s t : List Char) → as_bytes s ≡ as_bytes t → s ≡ t
unfolding as_bytes
as_bytes-injective [] [] e = refl
as_bytes-injective [] (d ∷ t) e = absurd (utf8_some (code d) (as_bytes t) (sym e))
as_bytes-injective (c ∷ s) [] e = absurd (utf8_some (code c) (as_bytes s) e)
as_bytes-injective (c ∷ s) (d ∷ t) e =
    let parts = utf8_split (code c) (code d) (as_bytes s) (as_bytes t) e in
    cc (Char-path c d parts.0, as_bytes-injective s t parts.1)

-- The binary digits from which `|` and `^` are computed.
or_digits_zero : (n a b : ℕ) → a ≤ n → digits (λ b. b) max n a b ≡ 0 → (a ≡ 0) × (b ≡ 0)
or_digits_zero zero zero b h e = (refl, e)
or_digits_zero zero (suc a) b h e = absurd (omega arith)
or_digits_zero (suc n) zero b h e = (refl, e)
or_digits_zero (suc n) (suc a) b h e =
    absurd (omega (arith, or_digits_zero n (suc a / 2) (b / 2) (omega arith) (omega arith)))

or_zero : (a b : ℕ) → bit_or a b ≡ 0 → (a ≡ 0) × (b ≡ 0)
or_zero a b e = or_digits_zero a a b (omega arith) (sym (bit_or-bitwise a b) ∙ e)

differ_zero : (x y : ℕ) → differ x y ≡ 0 → x ≡ y
differ_zero zero y e = sym e
differ_zero (suc x) zero e = e
differ_zero (suc x) (suc y) e = ap suc (differ_zero x y e)

differ_self : (x : ℕ) → differ x x ≡ 0
differ_self zero = refl
differ_self (suc x) = differ_self x

xor_digits_zero : (n a b : ℕ) → a ≤ n → digits (λ b. b) differ n a b ≡ 0 → a ≡ b
xor_digits_zero zero zero b h e = sym e
xor_digits_zero zero (suc a) b h e = absurd (omega arith)
xor_digits_zero (suc n) zero b h e = sym e
xor_digits_zero (suc n) (suc a) b h e =
    let high = xor_digits_zero n (suc a / 2) (b / 2) (omega arith) (omega arith) in
    let low = differ_zero (suc a % 2) (b % 2) (omega arith) in omega arith

xor_zero : (a b : ℕ) → bit_xor a b ≡ 0 → a ≡ b
xor_zero a b e = xor_digits_zero a a b (omega arith) (sym (bit_xor-bitwise a b) ∙ e)

xor_digits_self : (n a : ℕ) → a ≤ n → digits (λ b. b) differ n a a ≡ 0
xor_digits_self zero zero h = refl
xor_digits_self zero (suc a) h = absurd (omega arith)
xor_digits_self (suc n) zero h = refl
xor_digits_self (suc n) (suc a) h =
    omega (arith, xor_digits_self n (suc a / 2) (omega arith), differ_self (suc a % 2))

xor_self : (a : ℕ) → bit_xor a a ≡ 0
xor_self a = bit_xor-bitwise a a ∙ xor_digits_self a a (omega arith)

differences_zero :
    (acc : ℕ) (xs ys : List ℕ)
    → length xs ≡ length ys
    → differences acc xs ys ≡ 0
    → (acc ≡ 0) × (xs ≡ ys)
unfolding differences
differences_zero acc [] [] len e = (e, refl)
differences_zero acc [] (y ∷ ys) len e = absurd (omega arith)
differences_zero acc (x ∷ xs) [] len e = absurd (omega arith)
differences_zero acc (x ∷ xs) (y ∷ ys) len e =
    let later = differences_zero (bit_or acc (bit_xor x y)) xs ys (omega arith) e in
    let now = or_zero acc (bit_xor x y) later.0 in (now.0, cc (xor_zero x y now.1, later.1))

differences_self : (xs : List ℕ) → differences 0 xs xs ≡ 0
unfolding differences
differences_self [] = refl
differences_self (x ∷ xs) =
    ap (λ (d : ℕ). differences d xs xs) (bit_or-bitwise 0 (bit_xor x x) ∙ xor_self x)
    ∙ differences_self xs

-- The comparison without early exit decides equality.
pub constant_time_eq_iff : (xs ys : List ℕ) → (constant_time_eq xs ys ≡ true) ↔ (xs ≡ ys)
unfolding constant_time_eq
constant_time_eq_iff xs ys =
    (same, λ e. subst (λ (l : List ℕ). constant_time_eq xs l ≡ true) e self)
  where
    same : constant_time_eq xs ys ≡ true → xs ≡ ys
    same e = ground (arith, differences_zero 0 xs ys)

    self : constant_time_eq xs xs ≡ true
    self = ground (arith, differences_self xs)

-- For texts.
pub tokens_iff : (s t : List Char) → (constant_time_eq (as_bytes s) (as_bytes t) ≡ true) ↔ (s ≡ t)
tokens_iff s t = (
  λ e. as_bytes-injective s t ((constant_time_eq_iff (as_bytes s) (as_bytes t)).0 e),
  λ e. (constant_time_eq_iff (as_bytes s) (as_bytes t)).1 (ap as_bytes e),
)
