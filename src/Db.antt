-- ===== src/Db.antt =====
-- src/db.rs: the page writes and reads of a `Connection`, on the bytes of the database file, and
-- what SQLite answers about it (`page_count`, `serialize`), which is a parameter.
pub mod Pages
pub mod Roundtrip
use rsqlite_rsync.Base.{
  ℕ, zero, suc, ◌+◌, ◌-◌, ◌*◌, List, [], ◌∷◌, ◌++◌, Bool, true, false, length, drop, slice, Option,
  none, some, ◌==◌, if◌then◌else◌,
}
use rsqlite_rsync.Protocol.Messages.{plain, format}
use rsqlite_rsync.Error.{Result, ok, err, protocol, sqlite, and_then}

pub record Connection : Type 0 where
  pub page_size : ℕ
  pub file : List ℕ
  pub writable : Bool

-- The answers of the SQLite library for an open connection.
pub record Sqlite : Type 0 where
  pub page_count : Connection → Result ℕ
  pub serialize : Connection → Result (List ℕ)

-- Seek to `offset` and write: the file grows as far as it must, with zeros in a gap.
unfoldable pub write_at : ℕ → List ℕ → List ℕ → List ℕ
write_at zero content bytes = content ++ drop (length content) bytes
write_at (suc offset) content [] = 0 ∷ write_at offset content []
write_at (suc offset) content (b ∷ bytes) = b ∷ write_at offset content bytes

unfoldable pub validate_page_no : ℕ → Result (Unit {0})
validate_page_no page_no =
    if page_no == 0
    then err (protocol (plain "page numbers are 1-indexed; page 0 is invalid"))
    else ok tt

abbrev pub checked_write : Connection → ℕ → List ℕ → Bool → Result Connection
checked_write c page_no content true =
    ok (record c { file = write_at ((page_no - 1) * c.page_size) content c.file })
checked_write c page_no content false =
    err (protocol (plain "connection is read-only; cannot write pages"))

unfoldable pub write_page : Connection → ℕ → List ℕ → Result Connection
unfolding validate_page_no
write_page c page_no content = and_then (validate_page_no page_no) λ _.
    if length content == c.page_size
    then checked_write c page_no content c.writable
    else err (
        protocol (
          format "page {} has {} bytes, expected {}" (page_no ∷ length content ∷ c.page_size ∷ [])))

abbrev read_or_fail : ℕ → ℕ → ℕ → Option (List ℕ) → Result (List ℕ)
read_or_fail page_no n ps none =
    err (sqlite 1 (format "page {} is out of range (read {} of {} bytes)" (page_no ∷ n ∷ ps ∷ [])))
read_or_fail page_no n ps (some content) = ok content

unfoldable pub read_page : Connection → ℕ → Result (List ℕ)
unfolding validate_page_no
read_page c page_no = and_then (validate_page_no page_no) λ _.
    let offset = (page_no - 1) * c.page_size in
    read_or_fail page_no (length c.file - offset) c.page_size (slice c.file offset c.page_size)
