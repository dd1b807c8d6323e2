-- ===== src/Gateway/Values.antt =====
-- src/gateway/engine.rs: the values and columns of SQLite and of the wire. An integer or a float is
-- its 64-bit pattern.
use Prim.Native.Char.{Char, code}
use rsqlite_rsync.Base.{
  ℕ, ◌-◌, List, [], ◌∷◌, Option, none, some, Bool, true, false, ◌&&◌, ◌||◌, ◌==◌, leb,
  if◌then◌else◌,
}
use rsqlite_rsync.KvText.Chars.{chars}

-- src/db.rs
pub data SqlValue : Type 0 where
  null : SqlValue
  integer : ℕ → SqlValue
  float : ℕ → SqlValue
  text_value : List Char → SqlValue
  blob : List ℕ → SqlValue

pub data ProtoValueInner : Type 0 where
  null_value : Bool → ProtoValueInner
  int_value : ℕ → ProtoValueInner
  float_value : ℕ → ProtoValueInner
  proto_text : List Char → ProtoValueInner
  blob_value : List ℕ → ProtoValueInner

-- A `Value` of the wire.
abbrev pub Value : Type 0
Value = Option ProtoValueInner

unfoldable pub sql_value_to_proto : SqlValue → Value
sql_value_to_proto null = some (null_value true)
sql_value_to_proto (integer i) = some (int_value i)
sql_value_to_proto (float f) = some (float_value f)
sql_value_to_proto (text_value t) = some (proto_text t)
sql_value_to_proto (blob b) = some (blob_value b)

-- Also the call of `bind_proto_value`: the value that is bound.
unfoldable pub proto_value_to_sql : Value → SqlValue
proto_value_to_sql none = null
proto_value_to_sql (some (null_value b)) = null
proto_value_to_sql (some (int_value i)) = integer i
proto_value_to_sql (some (float_value f)) = float f
proto_value_to_sql (some (proto_text t)) = text_value t
proto_value_to_sql (some (blob_value b)) = blob b

pub data ColumnType : Type 0 where
  unspecified integer_column float_column text_column blob_column : ColumnType

abbrev upper_code : ℕ → ℕ
upper_code n = if leb 97 n && leb n 122 then n - 32 else n

-- A text that starts with the word, in capitals.
abbrev starts_with_word : List Char → List Char → Bool
starts_with_word [] s = true
starts_with_word (w ∷ ws) [] = false
starts_with_word (w ∷ ws) (c ∷ s) = upper_code (code c) == code w && starts_with_word ws s

-- `to_ascii_uppercase().contains(word)`.
unfoldable pub contains_word : List Char → List Char → Bool
contains_word word [] = starts_with_word word []
contains_word word (c ∷ s) = starts_with_word word (c ∷ s) || contains_word word s

unfoldable pub map_decltype_to_proto : List Char → ColumnType
unfolding contains_word chars
map_decltype_to_proto d =
    if contains_word (chars "INT") d
    then integer_column
    else if contains_word (chars "CHAR") d
        || (contains_word (chars "TEXT") d || contains_word (chars "CLOB") d)
    then text_column
    else if contains_word (chars "BLOB") d
    then blob_column
    else if contains_word (chars "REAL") d
        || (contains_word (chars "FLOA") d || contains_word (chars "DOUB") d)
    then float_column
    else unspecified

pub record ColumnHeader : Type 0 where
  pub name : List Char
  pub column_type : ColumnType
  pub declared_type : List Char

pub record NamedParameter : Type 0 where
  pub name : List Char
  pub value : Option Value

pub record Parameters : Type 0 where
  pub positional : List Value
  pub named : List NamedParameter

pub record Statement : Type 0 where
  pub sql : List Char
  pub parameters : Option Parameters
