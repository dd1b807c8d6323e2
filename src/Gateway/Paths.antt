-- ===== src/Gateway/Paths.antt =====
-- src/gateway/engine.rs: `resolve_db_path`. `components` is that of `std::path` on Unix.
pub mod Safe
use Prim.Native.Char.{Char, code}
use rsqlite_rsync.Base.{
  ℕ, String, List, [], ◌∷◌, ◌++◌, Option, none, some, Bool, true, false, ◌&&◌, ◌||◌, ◌==◌,
  if◌then◌else◌,
}
use rsqlite_rsync.Error.{SyncError, protocol, Result, ok, err}
use rsqlite_rsync.Protocol.Messages.{plain, format_text}
use rsqlite_rsync.KvText.Chars.{chars}
use rsqlite_rsync.KvText.{trim, same_chars}
use rsqlite_rsync.Gateway.Host.{Host, Call, continue_call, pure_call}

-- `data_dir` is the engine's only field beside its locks.
pub record DatabaseEngine : Type 0 where
  pub data_dir : List Char

abbrev pub onto_segment : Char → List (List Char) → List (List Char)
onto_segment c [] = (c ∷ []) ∷ []
onto_segment c (s ∷ ss) = (c ∷ s) ∷ ss

-- `split('/')`.
unfoldable pub segments : List Char → List (List Char)
segments [] = [] ∷ []
segments (c ∷ s) = let rest = segments s in if code c == 47 then [] ∷ rest else onto_segment c rest

pub data Component : Type 0 where
  root_dir cur_dir parent_dir : Component
  normal : List Char → Component

-- A segment after the first: empty ones and `.` are left out.
abbrev pub after_first : List (List Char) → List Component
after_first [] = []
after_first (s ∷ ss) =
    let rest = after_first ss in
    if same_chars s [] || same_chars s (chars ".")
    then rest
    else if same_chars s (chars "..")
    then parent_dir ∷ rest
    else normal s ∷ rest

-- The first segment: an empty one is the root of a path that starts with `/`.
abbrev pub from_first : List (List Char) → List Component
from_first [] = []
from_first (s ∷ ss) =
    if same_chars s []
    then root_dir ∷ after_first ss
    else if same_chars s (chars ".")
    then cur_dir ∷ after_first ss
    else if same_chars s (chars "..")
    then parent_dir ∷ after_first ss
    else normal s ∷ after_first ss

unfoldable pub components : List Char → List Component
unfolding segments chars
components [] = []
components (c ∷ s) = from_first (segments (c ∷ s))

-- The loop over the components.
abbrev pub all_normal : List Component → Bool
all_normal [] = true
all_normal (normal s ∷ rest) = all_normal rest
all_normal (root_dir ∷ rest) = false
all_normal (cur_dir ∷ rest) = false
all_normal (parent_dir ∷ rest) = false

abbrev ends_with_slash : List Char → Bool
ends_with_slash [] = true
ends_with_slash (c ∷ []) = code c == 47
ends_with_slash (c ∷ d ∷ s) = ends_with_slash (d ∷ s)

-- `join` with a relative path; an empty directory stands for the current one.
unfoldable pub join : List Char → List Char → List Char
unfolding chars
join dir p = if ends_with_slash dir then dir ++ p else dir ++ (chars "/" ++ p)

abbrev pub invalid_name : List Char → SyncError
invalid_name trimmed =
    protocol
      (format_text "invalid database name '{trimmed}': path traversal not permitted" (trimmed ∷ []))

-- The checks, and the full path.
abbrev pub checked_path : DatabaseEngine → List Char → Result (List Char)
checked_path engine [] = err (protocol (plain "database name cannot be empty"))
checked_path engine (c ∷ s) =
    if all_normal (components (c ∷ s))
    then ok (join engine.data_dir (c ∷ s))
    else err (invalid_name (c ∷ s))

module _ (h : Host) where
  open h use {World, create_parent}

  unfoldable pub resolve_db_path : DatabaseEngine → List Char → Call World (List Char)
  unfolding components join
  resolve_db_path engine db_name w =
      continue_call (w, checked_path engine (trim db_name))
        (λ full_path w1. continue_call (create_parent full_path w1) (λ _. pure_call (ok full_path)))
