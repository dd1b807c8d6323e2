-- ===== src/Gateway/Status.antt =====
-- The statuses of the gateway: the keys of crates/rsqlite-rsync-proto/src/lib.rs, a `Status` of the
-- crate tonic with its metadata, and the values of metadata, which are a parameter.
use Prim.Native.Char.{Char, code}
use text.Mathlib.Text.{◌==◌ as str_eq}
use rsqlite_rsync.Base.{
  ℕ, String, ◌≡◌, List, [], ◌∷◌, Option, none, some, Bool, true, ◌&&◌, leb, if◌then◌else◌,
}
use rsqlite_rsync.Error.{SyncError}
use rsqlite_rsync.KvText.Chars.{chars}
use rsqlite_rsync.KvText.{same_chars}

-- Visible ASCII and the space, which every header value may hold.
abbrev pub is_plain : List Char → Bool
is_plain [] = true
is_plain (c ∷ s) = leb 32 (code c) && (leb (code c) 126 && is_plain s)

-- tonic's `MetadataValue<Ascii>`: `parse`, `to_str` and `==` with a text, and what the program relies
-- on; and the test of `Endpoint::from_shared`.
pub record Tonic : Type 1 where
  pub Value : Type 0
  pub parse : List Char → Option Value
  pub to_str : Value → Option (List Char)
  pub is_text : Value → List Char → Bool
  pub valid_endpoint : List Char → Bool
  pub parse_plain : (s : List Char) → is_plain s ≡ true → (v : Value) × (parse s ≡ some v)
  pub parse-to_str : (s : List Char) (v : Value) → parse s ≡ some v → to_str v ≡ some s
  pub parse-is_text :
      (s t : List Char) (v : Value) → parse s ≡ some v → is_text v t ≡ same_chars s t

abbrev pub header_code : String
header_code = "x-rsqlite-code"

abbrev pub header_leader_id : String
header_leader_id = "x-rsqlite-leader-id"

abbrev pub header_generation : String
header_generation = "x-rsqlite-generation"

abbrev pub header_leader_endpoint : String
header_leader_endpoint = "x-rsqlite-leader-endpoint"

abbrev pub code_not_leader : List Char
code_not_leader = chars "NOT_LEADER"

-- The codes that the program names, and any other.
pub data Code : Type 0 where
  invalid_argument unauthenticated failed_precondition internal unavailable deadline_exceeded : Code
  other_code : ℕ → Code

module _ {V : Type 0} where
  -- `MetadataMap`.
  abbrev pub get : List (String × V) → String → Option V
  get [] key = none
  get ((k, v) ∷ rest) key = let later = get rest key in if str_eq k key then some v else later

  -- A new value takes the place of an old one.
  abbrev pub put : String → V → List (String × V) → List (String × V)
  put key v [] = (key, v) ∷ []
  put key v ((k, w) ∷ rest) =
      let later = put key v rest in if str_eq k key then (key, v) ∷ rest else (k, w) ∷ later

-- The message of a status: a text, an error as it is displayed, or a text with a value and an error.
pub data Reason : Type 0 where
  says : String → Reason
  shows : SyncError → Reason
  shows_with : String → List Char → SyncError → Reason

pub record Status (V : Type 0) : Type 0 where
  pub code : Code
  pub message : Reason
  pub metadata : List (String × V)

-- The constructors of `Status` without metadata.
abbrev pub status : {V : Type 0} → Code → Reason → Status V
status c message = record { code = c; message = message; metadata = [] }
