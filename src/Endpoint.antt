-- ===== src/Endpoint.antt =====
-- src/endpoint.rs: `Endpoint`, the grammar of database locations.
pub mod Address
pub mod Remote
pub mod Whole
use Prim.Native.Char.{Char, code}
use rsqlite_rsync.Base.{
  ℕ, zero, suc, List, [], ◌∷◌, ◌++◌, Option, none, some, Bool, true, false, not, ◌&&◌, ◌||◌, leb,
  ◌==◌, if◌then◌else◌,
}
use rsqlite_rsync.KvText.Chars.{chars, strip_prefix, is_white}
use rsqlite_rsync.KvText.{same_word}
use rsqlite_rsync.Endpoint.Address.{is_ip_addr}

-- The endpoints are values of the type; the path of a local one is its text.
pub data Endpoint : Type 0 where
  local : List Char → Endpoint
  remote : List Char → List Char → Endpoint
  grpc : List Char → List Char → Endpoint

abbrev contains_code : ℕ → List Char → Bool
contains_code n [] = false
contains_code n (c ∷ s) = code c == n || contains_code n s

abbrev any_white : List Char → Bool
any_white [] = false
any_white (c ∷ s) = is_white c || any_white s

abbrev starts_with_dot : List Char → Bool
starts_with_dot [] = false
starts_with_dot (c ∷ s) = code c == 46

abbrev pub is_empty : List Char → Bool
is_empty [] = true
is_empty (c ∷ s) = false

unfoldable pub looks_like_remote_host : List Char → Bool
unfolding is_ip_addr chars
looks_like_remote_host host =
    if is_empty host
      || (starts_with_dot host
          || (contains_code 47 host || (contains_code 92 host || any_white host)))
    then false
    else if contains_code 64 host
    then true
    else if same_word host (chars "localhost")
    then true
    else if is_ip_addr host
    then true
    else contains_code 46 host

-- A text before and after a character or a word that is found.
abbrev pub Split : Type 0
Split = Option (List Char × List Char)

abbrev pub onto_split : Char → Split → Split
onto_split c none = none
onto_split c (some (before, after)) = some (c ∷ before, after)

-- `split_once`.
unfoldable pub split_first : ℕ → List Char → Split
split_first n [] = none
split_first n (c ∷ s) =
    let later = split_first n s in if code c == n then some ([], s) else onto_split c later

abbrev or_here : Char → List Char → Bool → Split → Split
or_here c s found (some (before, after)) = some (c ∷ before, after)
or_here c s true none = some ([], s)
or_here c s false none = none

-- Around the last place: `rfind`.
unfoldable pub split_last : ℕ → List Char → Split
split_last n [] = none
split_last n (c ∷ s) = or_here c s (code c == n) (split_last n s)

-- `find("]:")`, with the text around it.
abbrev then_colon : List Char → Bool
then_colon [] = false
then_colon (c ∷ s) = code c == 58

abbrev rest_of : List Char → List Char
rest_of [] = []
rest_of (c ∷ s) = s

unfoldable pub split_bracket : List Char → Split
split_bracket [] = none
split_bracket (c ∷ s) =
    let later = split_bracket s in
    if code c == 93 && then_colon s then some ([], rest_of s) else onto_split c later

abbrev is_ascii_alphabetic : ℕ → Bool
is_ascii_alphabetic n = (leb 65 n && leb n 90) || (leb 97 n && leb n 122)

abbrev is_windows_drive : List Char → Bool
is_windows_drive [] = false
is_windows_drive (c ∷ []) = is_ascii_alphabetic (code c)
is_windows_drive (c ∷ d ∷ s) = false

unfoldable pub is_remote_candidate : List Char → List Char → Bool
unfolding looks_like_remote_host
is_remote_candidate host_part path_part =
    not (is_windows_drive host_part)
    && (not (is_empty path_part) && looks_like_remote_host host_part)

-- The three attempts of `parse_remote_parts`; each ends the search or goes on.
abbrev pub bracketed : List Char → Split → Split → Split
bracketed s none next = next
bracketed s (some ([], path)) next = next
bracketed s (some (c ∷ [], path)) next = next
bracketed s (some (c ∷ h ∷ host, [])) next = next
bracketed s (some (c ∷ h ∷ host, p ∷ path)) next =
    if code c == 91 then some (h ∷ host, p ∷ path) else next

abbrev pub bare_address : Split → Split → Split
bare_address none next = next
bare_address (some (host_part, path_part)) next =
    if is_ip_addr host_part && is_remote_candidate host_part path_part
    then some (host_part, path_part)
    else next

abbrev pub host_and_path : Split → Split
host_and_path none = none
host_and_path (some (host_part, path_part)) =
    if is_remote_candidate host_part path_part then some (host_part, path_part) else none

unfoldable pub parse_remote_parts : List Char → Split
unfolding split_bracket split_last split_first is_remote_candidate is_ip_addr
parse_remote_parts s =
    bracketed s (split_bracket s)
      (bare_address (split_last 58 s) (host_and_path (split_first 58 s)))

-- The scheme: whether it is a secure one, and the rest.
abbrev pub after_scheme : List Char → Option (Bool × List Char)
after_scheme s = elim (strip_prefix (chars "grpc://") s) [
  | some rest ↦ some (false, rest)
  | none ↦ elim (strip_prefix (chars "grpcs://") s) [
    | some rest ↦ some (true, rest)
    | none ↦ elim (strip_prefix (chars "http://") s) [
      | some rest ↦ some (false, rest)
      | none ↦ elim (strip_prefix (chars "https://") s) [
        | some rest ↦ some (true, rest)
        | none ↦ none
      ]
    ]
  ]
]

-- `trim_start_matches('/')`.
abbrev pub trim_slashes : List Char → List Char
trim_slashes [] = []
trim_slashes (c ∷ s) = let rest = trim_slashes s in if code c == 47 then rest else c ∷ s

abbrev pub or_whole : List Char → Split → List Char × List Char
or_whole rest none = (rest, [])
or_whole rest (some parts) = parts

abbrev pub grpc_parts : Bool → List Char × List Char → Split
grpc_parts is_tls ([], db_path) = none
grpc_parts is_tls (c ∷ host_port, db_path) = some (
  (if is_tls then chars "https" else chars "http") ++ (chars "://" ++ (c ∷ host_port)),
  trim_slashes db_path,
)

abbrev pub with_scheme : Option (Bool × List Char) → Split
with_scheme none = none
with_scheme (some (is_tls, rest)) = grpc_parts is_tls (or_whole rest (split_first 47 rest))

unfoldable pub parse_grpc_parts : List Char → Split
unfolding strip_prefix split_first chars
parse_grpc_parts s = with_scheme (after_scheme s)

abbrev pub endpoint_of : List Char → Split → Split → Endpoint
endpoint_of s (some (url, database)) remote_parts = grpc url database
endpoint_of s none (some (user_host, path)) = remote user_host path
endpoint_of s none none = local s

unfoldable pub parse : List Char → Endpoint
unfolding parse_grpc_parts parse_remote_parts
parse s = endpoint_of s (parse_grpc_parts s) (parse_remote_parts s)

unfoldable pub is_remote : Endpoint → Bool
is_remote (local p) = false
is_remote (remote u p) = true
is_remote (grpc u d) = true

unfoldable pub is_grpc : Endpoint → Bool
is_grpc (grpc u d) = true
is_grpc (local p) = false
is_grpc (remote u p) = false
