-- ===== src/KvText/Lines.antt =====
-- src/kv_text.rs: lines, white space at the ends, and one `key=value` line.
use Prim.Native.Char.{Char, code}
use rsqlite_rsync.Base.{
  ℕ, ◌≤◌, ◌≡◌, refl, ap, ◌∙◌, List, [], ◌∷◌, ◌++◌, Option, some, Bool, true, false, ◌==◌,
  if◌then◌else◌, arith,
}
use rsqlite_rsync.KvText.{
  KvMap, KvResult, trim_start, trim_end, trim, keep, lines, split_once, one_of, insert_line,
  insert_pair, bad, unknown_key,
}
use rsqlite_rsync.KvText.Chars.{is_white}
use rsqlite_rsync.KvText.Numbers.{NonEmpty, AllDigits}

-- No character has this code.
abbrev pub Without : ℕ → List Char → Type 0
Without n [] = Unit {0}
Without n (c ∷ s) = ((code c == n) ≡ false) × Without n s

-- The same as a test.
abbrev pub without : ℕ → List Char → Bool
without n [] = true
without n (c ∷ s) = if code c == n then false else without n s

pub without-Without : (n : ℕ) (s : List Char) → without n s ≡ true → Without n s
without-Without n [] h = tt
without-Without n (c ∷ s) h = (ground arith, without-Without n s (ground arith))

abbrev pub StartsTight : List Char → Type 0
StartsTight [] = ⊥
StartsTight (c ∷ s) = is_white c ≡ false

abbrev pub EndsTight : List Char → Type 0
EndsTight [] = ⊥
EndsTight (c ∷ []) = is_white c ≡ false
EndsTight (c ∷ d ∷ s) = EndsTight (d ∷ s)

-- A value that a line can hold: no end of line in it, and no white space at its ends.
pub record IsValue (s : List Char) : Type 0 where
  pub one_line : Without 10 s
  pub starts : StartsTight s
  pub ends : EndsTight s

pub lines-line : (l rest : List Char) → Without 10 l → lines (l ++ "\n" ∷ rest) ≡ l ∷ lines rest
unfolding lines
lines-line [] rest h = refl
lines-line (c ∷ l) rest (other, h) = rw (other, lines-line l rest h) refl

pub lines-last : (l : List Char) → Without 10 l → NonEmpty l → lines l ≡ l ∷ []
unfolding lines
lines-last [] h some_char = absurd some_char
lines-last (c ∷ []) (other, h) some_char = rw other refl
lines-last (c ∷ d ∷ l) (other, h) some_char = rw (other, lines-last (d ∷ l) h tt) refl

pub trim_start-StartsTight : (s : List Char) → StartsTight s → trim_start s ≡ s
trim_start-StartsTight [] h = absurd h
trim_start-StartsTight (c ∷ s) h = rw h refl

pub trim_end-EndsTight : (s : List Char) → EndsTight s → trim_end s ≡ s
trim_end-EndsTight [] h = absurd h
trim_end-EndsTight (c ∷ []) h = rw h refl
trim_end-EndsTight (c ∷ d ∷ s) h = ap (keep c) (trim_end-EndsTight (d ∷ s) h)

-- One white character after it is taken off.
pub trim_end-one :
    (s : List Char) (w : Char) → EndsTight s → is_white w ≡ true → trim_end (s ++ w ∷ []) ≡ s
trim_end-one [] w h white = absurd h
trim_end-one (c ∷ []) w h white = rw (white, h) refl
trim_end-one (c ∷ d ∷ s) w h white = ap (keep c) (trim_end-one (d ∷ s) w h white)

pub EndsTight-append : (l s : List Char) → EndsTight s → EndsTight (l ++ s)
EndsTight-append [] s h = h
EndsTight-append (c ∷ []) [] h = absurd h
EndsTight-append (c ∷ []) (d ∷ s) h = h
EndsTight-append (c ∷ d ∷ l) s h = EndsTight-append (d ∷ l) s h

pub Without-append : (n : ℕ) (l s : List Char) → Without n l → Without n s → Without n (l ++ s)
Without-append n [] s h k = k
Without-append n (c ∷ l) s (other, h) k = (other, Without-append n l s h k)

pub trim-IsValue : (s : List Char) → IsValue s → trim s ≡ s
trim-IsValue s v = ap trim_end (trim_start-StartsTight s v.starts) ∙ trim_end-EndsTight s v.ends

digit_tight : (c : Char) → 48 ≤ code c → code c ≤ 57 → is_white c ≡ false
digit_tight c low high = ground arith

digits_one_line : (s : List Char) → AllDigits s → Without 10 s
digits_one_line [] all = tt
digits_one_line (c ∷ s) all = (ground arith, digits_one_line s all.1)

digits_end : (s : List Char) → AllDigits s → NonEmpty s → EndsTight s
digits_end [] all some_digit = absurd some_digit
digits_end (c ∷ []) all some_digit = digit_tight c all.0.0 all.0.1
digits_end (c ∷ d ∷ s) all some_digit = digits_end (d ∷ s) all.1 tt

pub digits-IsValue : (s : List Char) → AllDigits s → NonEmpty s → IsValue s
digits-IsValue [] all some_digit = absurd some_digit
digits-IsValue (c ∷ s) all some_digit = record {
  one_line = digits_one_line (c ∷ s) all;
  starts = digit_tight c all.0.0 all.0.1;
  ends = digits_end (c ∷ s) all tt;
}

split_once-key :
    (key value : List Char) → Without 61 key → split_once (key ++ "=" ∷ value) ≡ some (key, value)
unfolding split_once
split_once-key [] value h = refl
split_once-key (c ∷ key) value (other, h) = rw (other, split_once-key key value h) refl

-- The line of a key and a value.
abbrev pub raw_line : List Char → List Char → List Char
raw_line key value = key ++ "=" ∷ value

-- A known key: no `=` and no end of line in it, and no white space at its ends.
pub record IsKey (allowed_keys : List (List Char)) (key : List Char) : Type 0 where
  pub no_equals : Without 61 key
  pub value : IsValue key
  pub known : one_of allowed_keys key ≡ true

ends_with_value : (key value : List Char) → IsValue value → EndsTight (raw_line key value)
ends_with_value key [] v = absurd v.ends
ends_with_value key (c ∷ value) v = EndsTight-append key ("=" ∷ c ∷ value) v.ends

pub raw_line-IsValue :
    (allowed_keys : List (List Char)) (key value : List Char)
    → IsKey allowed_keys key
    → IsValue value
    → IsValue (raw_line key value)
raw_line-IsValue allowed [] value k v = absurd k.value.starts
raw_line-IsValue allowed (c ∷ key) value k v = record {
  one_line = Without-append 10 (c ∷ key) ("=" ∷ value) k.value.one_line (refl, v.one_line);
  starts = k.value.starts;
  ends = ends_with_value (c ∷ key) value v;
}

-- A line inserts its key and value.
pub insert_line-raw_line :
    (subject : List Char) (allowed_keys : List (List Char)) (key value : List Char) (map : KvMap)
    (next : KvMap → KvResult KvMap)
    → IsKey allowed_keys key
    → IsValue value
    → insert_line subject allowed_keys (trim (raw_line key value)) map next
      ≡ next ((key, value) ∷ map)
insert_line-raw_line subject allowed [] value map next k v = absurd k.value.starts
insert_line-raw_line subject allowed (c ∷ key) value map next k v =
    ap (λ (l : List Char). insert_line subject allowed l map next)
      (trim-IsValue (raw_line (c ∷ key) value) (raw_line-IsValue allowed (c ∷ key) value k v))
    ∙ ap
        (λ (o : Option (List Char × List Char)).
          insert_pair subject allowed (raw_line (c ∷ key) value) map o next)
        (split_once-key (c ∷ key) value k.no_equals)
    ∙ ap (λ (t : List Char). inserted t (trim value)) (trim-IsValue (c ∷ key) k.value)
    ∙ ap (inserted (c ∷ key)) (trim-IsValue value v)
    ∙ rw k.known refl
  where
    inserted : List Char → List Char → KvResult KvMap
    inserted t u = if one_of allowed t then next ((t, u) ∷ map) else bad (unknown_key subject t)
