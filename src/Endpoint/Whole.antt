-- ===== src/Endpoint/Whole.antt =====
-- src/endpoint.rs: an endpoint keeps the whole text, apart from its scheme and its separators.
use Prim.Native.Char.{Char, code}
use rsqlite_rsync.Base.{◌≡◌, ◌⊎◌, List, [], ◌∷◌, ◌++◌, Bool, false, if◌then◌else◌}
use rsqlite_rsync.KvText.Chars.{chars}
use rsqlite_rsync.Endpoint.{Endpoint, local, remote, grpc, is_empty}
use rsqlite_rsync.Endpoint.Remote.{RemoteOf}

-- The schemes, with the scheme of the address that each gives.
pub data Scheme : List Char → List Char → Type 0 where
  plain : Scheme (chars "grpc://") (chars "http")
  secure : Scheme (chars "grpcs://") (chars "https")
  http : Scheme (chars "http://") (chars "http")
  https : Scheme (chars "https://") (chars "https")

abbrev pub Slashes : List Char → Type 0
Slashes [] = Unit
Slashes (c ∷ s) = (code c ≡ 47) × Slashes s

-- What stands after the scheme: the host alone, or the host, slashes and the database.
abbrev pub HostAndDatabase : List Char → List Char → List Char → Type 0
HostAndDatabase rest host database =
    ((rest ≡ host) × (database ≡ []))
    ⊎ ((c : Char) × (l : List Char) × (code c ≡ 47)
        × Slashes l
        × (rest ≡ host ++ (c ∷ (l ++ database))))

abbrev pub GrpcOf : List Char → List Char → List Char → Type 0
GrpcOf s url database =
    (scheme : List Char) × (word : List Char) × (host : List Char) × (rest : List Char) × Scheme
      scheme word
    × (s ≡ scheme ++ rest)
    × (is_empty host ≡ false)
    × (url ≡ word ++ (chars "://" ++ host))
    × HostAndDatabase rest host database

abbrev word_of : Bool → List Char
word_of is_tls = if is_tls then chars "https" else chars "http"

-- What an endpoint keeps of the text it is read from.
abbrev pub WholeOf : List Char → Endpoint → Type 0
WholeOf s (local p) = p ≡ s
WholeOf s (remote u p) = RemoteOf s u p
WholeOf s (grpc url database) = GrpcOf s url database
