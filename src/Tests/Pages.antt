-- ===== src/Tests/Pages.antt =====
-- The checks of the origin and the pages of a connection, at small lists.
use rsqlite_rsync.Base.{◌≡◌, ◌↔◌, refl, [], ◌∷◌, true, arith}
use rsqlite_rsync.Hash.{blake3_v2}
use rsqlite_rsync.Error.{ok}
use rsqlite_rsync.Tuning.{default_tuning}
use rsqlite_rsync.Db.{Connection, write_page, read_page}
use rsqlite_rsync.Db.Roundtrip.{Leaves, write_page-read_page}
use rsqlite_rsync.Protocol.Origin.Checks.{validate_page_hashes_for_group}
use rsqlite_rsync.Protocol.Origin.Acceptance.{IsListing, validate_page_hashes_iff}
use rsqlite_rsync.Protocol.Origin.Coarse.{groups_to_refine}
use rsqlite_rsync.Protocol.Origin.Strategy.{groups_to_refine-tuning}
use rsqlite_rsync.Sync.Listing.{snapshot_of}
use rsqlite_rsync.Tests.Databases.{toy, serial, tuned, two_pages}

validate_page_hashes_iff_example :
    (validate_page_hashes_for_group (65 ∷ 66 ∷ []) ((1 ∷ []) ∷ (2 ∷ []) ∷ []) 1 ≡ ok tt)
    ↔ IsListing 1 (65 ∷ 66 ∷ []) ((1 ∷ []) ∷ (2 ∷ []) ∷ [])
validate_page_hashes_iff_example =
    validate_page_hashes_iff 1 (65 ∷ 66 ∷ []) ((1 ∷ []) ∷ (2 ∷ []) ∷ []) (omega arith)

groups_to_refine-tuning_example :
    groups_to_refine toy blake3_v2 (snapshot_of two_pages) serial tuned 0 ((9 ∷ []) ∷ [])
    ≡ groups_to_refine toy blake3_v2 (snapshot_of two_pages) serial default_tuning 0 ((9 ∷ []) ∷ [])
groups_to_refine-tuning_example =
    groups_to_refine-tuning toy blake3_v2 (snapshot_of two_pages) serial serial tuned default_tuning
      0 ((9 ∷ []) ∷ [])

abbrev open_db : Connection
open_db = record { page_size = 2; file = 1 ∷ 2 ∷ 3 ∷ 4 ∷ []; writable = true }

abbrev grown_db : Connection
grown_db = record { page_size = 2; file = 1 ∷ 2 ∷ 3 ∷ 4 ∷ 5 ∷ 6 ∷ []; writable = true }

writes_third : write_page open_db 3 (5 ∷ 6 ∷ []) ≡ ok grown_db
unfolding write_page rsqlite_rsync.Db.write_at
writes_third = refl

-- The first write of a new database.
abbrev empty_db : Connection
empty_db = record { page_size = 2; file = []; writable = true }

abbrev first_db : Connection
first_db = record { page_size = 2; file = 5 ∷ 6 ∷ []; writable = true }

writes_first : write_page empty_db 1 (5 ∷ 6 ∷ []) ≡ ok first_db
unfolding write_page rsqlite_rsync.Db.write_at
writes_first = refl

write_page-read_page_example : Leaves empty_db first_db 1 (5 ∷ 6 ∷ [])
write_page-read_page_example = write_page-read_page empty_db first_db 1 (5 ∷ 6 ∷ []) writes_first

-- A database that is there already.
third_page : Leaves open_db grown_db 3 (5 ∷ 6 ∷ [])
third_page = write_page-read_page open_db grown_db 3 (5 ∷ 6 ∷ []) writes_third
