-- ===== src/KvText.antt =====
-- src/kv_text.rs: the `key=value` text of the small files. The ordered map is an association list in
-- which a later insertion stands first.
pub mod Chars
pub mod Numbers
pub mod Lines
pub mod Prefixes
use Prim.Native.Char.{Char, code}
use rsqlite_rsync.Base.{
  ℕ, String, List, [], ◌∷◌, Option, none, some, Bool, true, false, ◌&&◌, ◌==◌, leb, ◌+◌,
  if◌then◌else◌,
}
use rsqlite_rsync.KvText.Chars.{chars, is_white, parse_u64}

-- An error names the subject or the key, and the line, key or value that is at fault.
pub data KvError : Type 0 where
  invalid_line : List Char → List Char → KvError
  unknown_key : List Char → List Char → KvError
  missing_key : List Char → KvError
  invalid_number : List Char → List Char → KvError
  empty_value : List Char → KvError
  failed_reading : List Char → KvError

pub data KvResult {ℓ} (A : Type ℓ) : Type ℓ where
  good : A → KvResult A
  bad : KvError → KvResult A

abbrev pub then_kv {ℓ κ} : {A : Type ℓ} {B : Type κ} → KvResult A → (A → KvResult B) → KvResult B
then_kv (good a) f = f a
then_kv (bad e) f = bad e

abbrev pub same_chars : List Char → List Char → Bool
same_chars [] [] = true
same_chars (x ∷ xs) (y ∷ ys) = code x == code y && same_chars xs ys
same_chars [] (y ∷ ys) = false
same_chars (x ∷ xs) [] = false

abbrev pub trim_start : List Char → List Char
trim_start [] = []
trim_start (c ∷ s) = let rest = trim_start s in if is_white c then rest else c ∷ s

abbrev pub keep : Char → List Char → List Char
keep c [] = if is_white c then [] else c ∷ []
keep c (x ∷ xs) = c ∷ x ∷ xs

abbrev pub trim_end : List Char → List Char
trim_end [] = []
trim_end (c ∷ s) = keep c (trim_end s)

abbrev pub trim : List Char → List Char
trim s = trim_end (trim_start s)

-- `lines()`, with a `\r` left at the end of a line: every line is trimmed next.
abbrev onto_first : Char → List (List Char) → List (List Char)
onto_first c [] = (c ∷ []) ∷ []
onto_first c (l ∷ ls) = (c ∷ l) ∷ ls

unfoldable pub lines : List Char → List (List Char)
lines [] = []
lines (c ∷ s) = let rest = lines s in if code c == 10 then [] ∷ rest else onto_first c rest

abbrev before : Char → Option (List Char × List Char) → Option (List Char × List Char)
before c none = none
before c (some (key, value)) = some (c ∷ key, value)

-- `split_once('=')`.
unfoldable pub split_once : List Char → Option (List Char × List Char)
split_once [] = none
split_once (c ∷ s) = let rest = split_once s in if code c == 61 then some ([], s) else before c rest

abbrev pub one_of : List (List Char) → List Char → Bool
one_of [] key = false
one_of (k ∷ ks) key = if same_chars k key then true else one_of ks key

abbrev pub KvMap : Type 0
KvMap = List (List Char × List Char)

module _ (subject : List Char) (allowed_keys : List (List Char)) where
  abbrev pub insert_pair :
      List Char → KvMap → Option (List Char × List Char) → (KvMap → KvResult KvMap) → KvResult KvMap
  insert_pair line map none next = bad (invalid_line subject line)
  insert_pair line map (some (key, value)) next =
      if one_of allowed_keys (trim key)
      then next ((trim key, trim value) ∷ map)
      else bad (unknown_key subject (trim key))

  -- One trimmed line: blank lines are skipped.
  abbrev pub insert_line : List Char → KvMap → (KvMap → KvResult KvMap) → KvResult KvMap
  insert_line [] map next = next map
  insert_line (c ∷ s) map next = insert_pair (c ∷ s) map (split_once (c ∷ s)) next

  unfoldable pub insert_lines : List (List Char) → KvMap → KvResult KvMap
  unfolding split_once
  insert_lines [] map = good map
  insert_lines (raw_line ∷ rest) map = insert_line (trim raw_line) map (insert_lines rest)

  unfoldable pub parse_kv_lines : List Char → KvResult KvMap
  unfolding insert_lines lines
  parse_kv_lines input = insert_lines (lines input) []

unfoldable pub lookup : KvMap → List Char → Option (List Char)
lookup [] key = none
lookup ((k, v) ∷ rest) key =
    let later = lookup rest key in if same_chars k key then some v else later

abbrev number_or : List Char → List Char → Option ℕ → KvResult ℕ
number_or key raw none = bad (invalid_number key raw)
number_or key raw (some n) = good n

abbrev as_number : List Char → Option (List Char) → KvResult ℕ
as_number key none = bad (missing_key key)
as_number key (some raw) = number_or key raw (parse_u64 raw)

unfoldable pub require_u64 : KvMap → List Char → KvResult ℕ
unfolding lookup parse_u64
require_u64 map key = as_number key (lookup map key)

abbrev non_empty : List Char → Option (List Char) → KvResult (List Char)
non_empty key none = bad (missing_key key)
non_empty key (some []) = bad (empty_value key)
non_empty key (some (c ∷ s)) = good (c ∷ s)

unfoldable pub require_non_empty : KvMap → List Char → KvResult (List Char)
unfolding lookup
require_non_empty map key = non_empty key (lookup map key)

-- What reading a file gives.
pub data FileRead : Type 0 where
  content : List Char → FileRead
  not_found : FileRead
  unreadable : List Char → FileRead

-- `eq_ignore_ascii_case` with a word in small letters.
abbrev pub small : ℕ → ℕ
small n = if leb 65 n && leb n 90 then n + 32 else n

abbrev pub same_word : List Char → List Char → Bool
same_word [] [] = true
same_word (x ∷ xs) (y ∷ ys) = small (code x) == code y && same_word xs ys
same_word [] (y ∷ ys) = false
same_word (x ∷ xs) [] = false

unfoldable pub record_text : List Char → Option (List Char)
unfolding chars
record_text [] = none
record_text (c ∷ s) = if same_word (c ∷ s) (chars "none") then none else some (c ∷ s)

unfoldable pub read_optional_kv_text : FileRead → KvResult (Option (List Char))
unfolding record_text
read_optional_kv_text not_found = good none
read_optional_kv_text (unreadable e) = bad (failed_reading e)
read_optional_kv_text (content s) = good (record_text (trim s))
