-- ===== src/Snapshot.antt =====
-- src/snapshot.rs: the captured bytes of the origin database.
use rsqlite_rsync.Base.{ℕ, ◌-◌, ◌*◌, List, [], ◌∷◌, Option, none, some, slice, ◌==◌, if◌then◌else◌}
use rsqlite_rsync.Protocol.Messages.{plain, format}
use rsqlite_rsync.Error.{Result, ok, err, protocol, sqlite, and_then}
use rsqlite_rsync.Db.{Connection, Sqlite}

pub record Snapshot : Type 0 where
  pub bytes : List ℕ
  pub page_size : ℕ
  pub page_count : ℕ

-- After `BEGIN DEFERRED`, the result of which is `begun`.
unfoldable pub begin : Sqlite → Result (Unit {0}) → Connection → Result Snapshot
begin sqlite_api begun conn = and_then begun λ _. and_then (sqlite_api.page_count conn) λ count.
    and_then (if count == 0 then ok [] else sqlite_api.serialize conn)
      λ bytes. ok (record { bytes = bytes; page_size = conn.page_size; page_count = count })

abbrev read_or_fail : ℕ → ℕ → Option (List ℕ) → Result (List ℕ)
read_or_fail page_no count none =
    err (sqlite 1 (format "page {} is out of range (snapshot has {} pages)" (page_no ∷ count ∷ [])))
read_or_fail page_no count (some content) = ok content

unfoldable pub read_page : Snapshot → ℕ → Result (List ℕ)
read_page s page_no =
    if page_no == 0
    then err (protocol (plain "page numbers are 1-indexed; page 0 is invalid"))
    else read_or_fail page_no s.page_count (slice s.bytes ((page_no - 1) * s.page_size) s.page_size)
