-- ===== src/Gateway/Auth.antt =====
-- src/gateway/auth.rs: the bearer token of a request.
pub mod Checks
pub mod Accepted
use Prim.Native.Char.{Char, code}
use Prim.Native.Nat.{bit_or, bit_xor}
use rsqlite_rsync.Base.{
  ℕ, String, List, [], ◌∷◌, ◌++◌, Option, none, some, Bool, true, false, ◌&&◌, not, length, ◌==◌,
  ltb, ◌+◌, ◌/◌, ◌%◌, if◌then◌else◌,
}
use rsqlite_rsync.KvText.Chars.{chars, strip_prefix}
use rsqlite_rsync.KvText.{same_chars}
use rsqlite_rsync.Gateway.Status.{Tonic, Code, unauthenticated, Status, status, says, get}

-- `as_bytes` of a text, its UTF-8.
abbrev pub utf8_char : ℕ → List ℕ
utf8_char n =
    if ltb n 128
    then n ∷ []
    else if ltb n 2048
    then (192 + n / 64) ∷ (128 + n % 64) ∷ []
    else if ltb n 65536
    then (224 + n / 4096) ∷ (128 + n / 64 % 64) ∷ (128 + n % 64) ∷ []
    else (240 + n / 262144) ∷ (128 + n / 4096 % 64) ∷ (128 + n / 64 % 64) ∷ (128 + n % 64) ∷ []

unfoldable pub as_bytes : List Char → List ℕ
as_bytes [] = []
as_bytes (c ∷ s) = utf8_char (code c) ++ as_bytes s

-- The fold over the zipped bytes.
unfoldable pub differences : ℕ → List ℕ → List ℕ → ℕ
differences acc [] ys = acc
differences acc (x ∷ xs) [] = acc
differences acc (x ∷ xs) (y ∷ ys) = differences (bit_or acc (bit_xor x y)) xs ys

unfoldable pub constant_time_eq : List ℕ → List ℕ → Bool
unfolding differences
constant_time_eq a b = if not (length a == length b) then false else differences 0 a b == 0

pub record AuthConfig : Type 0 where
  pub token : Option (List Char)

unfoldable pub required : List Char → AuthConfig
required token = record { token = some token }

unfoldable pub disabled : AuthConfig
disabled = record { token = none }

unfoldable pub is_disabled : AuthConfig → Bool
is_disabled auth = elim auth.token [ none ↦ true | some t ↦ false ]

-- The outcome of a check; `accepted` lets the request through.
pub data Access (V : Type 0) : Type 0 where
  accepted : Access V
  denied : Status V → Access V

module _ (t : Tonic) where
  open t use {Value, to_str}

  abbrev pub unauthenticated_status : String → Access Value
  unauthenticated_status s = denied (status unauthenticated (says s))

  -- The last step of `check`, and of the other checks on a token.
  abbrev pub compare_token : List Char → List Char → String → Access Value
  compare_token provided expected message =
      if constant_time_eq (as_bytes provided) (as_bytes expected)
      then accepted
      else unauthenticated_status message

  abbrev pub check_scheme : List Char → Option (List Char) → Access Value
  check_scheme expected none =
      unauthenticated_status "authorization header must use the Bearer scheme"
  check_scheme expected (some provided) = compare_token provided expected "invalid bearer token"

  abbrev pub check_text : List Char → Option (List Char) → Access Value
  check_text expected none = unauthenticated_status "authorization header is not valid UTF-8"
  check_text expected (some value) = check_scheme expected (strip_prefix (chars "Bearer ") value)

  abbrev pub check_header : List Char → Option Value → Access Value
  check_header expected none = unauthenticated_status "missing authorization header"
  check_header expected (some header) = check_text expected (to_str header)

  abbrev pub check_against : Option (List Char) → List (String × Value) → Access Value
  check_against none metadata = accepted
  check_against (some expected) metadata = check_header expected (get metadata "authorization")

  -- On the metadata of the request.
  unfoldable pub check : AuthConfig → List (String × Value) → Access Value
  unfolding constant_time_eq as_bytes strip_prefix chars
  check auth metadata = check_against auth.token metadata

  abbrev pub token_against : Option (List Char) → List Char → Access Value
  token_against none token = accepted
  token_against (some expected) token = compare_token token expected "invalid auth token"

  unfoldable pub check_token : AuthConfig → List Char → Access Value
  unfolding constant_time_eq as_bytes chars
  check_token auth token = token_against auth.token token

  -- The chain of the header's tests.
  abbrev pub provides : List Char → Option (List Char) → Bool
  provides expected none = false
  provides expected (some provided) = constant_time_eq (as_bytes provided) (as_bytes expected)

  abbrev pub bearer : Option (List Char) → Option (List Char)
  bearer none = none
  bearer (some value) = strip_prefix (chars "Bearer ") value

  abbrev pub text_of : Option Value → Option (List Char)
  text_of none = none
  text_of (some header) = to_str header

  abbrev pub payload_provides : List Char → Option (List Char) → Bool
  payload_provides expected none = false
  payload_provides expected (some []) = false
  payload_provides expected (some (c ∷ token)) =
      constant_time_eq (as_bytes (c ∷ token)) (as_bytes expected)

  abbrev pub either_against :
      Option (List Char) → List (String × Value) → Option (List Char) → Access Value
  either_against none metadata payload = accepted
  either_against (some expected) metadata payload =
      if provides expected (bearer (text_of (get metadata "authorization")))
      then accepted
      else if payload_provides expected payload
      then accepted
      else unauthenticated_status "missing or invalid authorization credentials"

  unfoldable pub check_request_or_token :
      AuthConfig → List (String × Value) → Option (List Char) → Access Value
  unfolding constant_time_eq as_bytes strip_prefix chars
  check_request_or_token auth metadata payload = either_against auth.token metadata payload
