-- ===== src/Tests/Syncs.antt =====
-- The sync of the two small databases, in one order and in others.
use rsqlite_rsync.Base.{◌≤◌, ◌≡◌, ◌↔◌, refl, List, [], ◌∷◌, map, count_up, some, arith}
use rsqlite_rsync.Hash.{blake3_v2}
use rsqlite_rsync.Error.{ok, panic}
use rsqlite_rsync.Snapshot.{Snapshot}
use rsqlite_rsync.Protocol.Messages.{hello, PageData, page_hashes}
use rsqlite_rsync.Protocol.Process.{Process, finish}
use rsqlite_rsync.Protocol.Replica.{run_with_tuning}
use rsqlite_rsync.Protocol.Origin.Fine as OriginFine
use rsqlite_rsync.Protocol.Origin.Fine.{changed_pages, fine_pass}
use rsqlite_rsync.Sync.{Session, step_origin, step_replica}
use rsqlite_rsync.Sync.Steps.{Steps, here, by_origin, by_replica}
use rsqlite_rsync.Sync.View.{pages_in, digest_of, replica_page}
use rsqlite_rsync.Sync.Listing.{snapshot_of}
use rsqlite_rsync.Sync.Sent.{AmongPages, AreSent, Rising}
use rsqlite_rsync.Sync.Exact.{Lacks, exact_transfer}
use rsqlite_rsync.Sync.Correct.{opened_replica, sync_correct}
use rsqlite_rsync.Sync.Orders.{steps}
use rsqlite_rsync.Sync.Schedules.{start, synced, synced-IsOver, every_schedule, only_end}
use rsqlite_rsync.Sync.Handshake.{handshake_cases, Opening, opened}
use rsqlite_rsync.Sync.Overrun.{overrun_panics}
use rsqlite_rsync.Tests.Databases.{
  toy, serial, tuned, two_pages, two_pages-IsSized, two_pages-NoCollision, two_pages-Answers,
  whole_file,
}

abbrev begin_at : Session
begin_at =
    start two_pages two_pages-IsSized serial tuned whole_file two_pages-Answers refl
      two_pages-NoCollision

-- The run of `sync_correct`.
abbrev whole : Steps begin_at (synced two_pages)
whole =
    sync_correct two_pages two_pages-IsSized serial tuned whole_file two_pages-Answers refl
      two_pages-NoCollision

sync_correct_example : Steps begin_at (synced two_pages)
sync_correct_example =
    sync_correct two_pages two_pages-IsSized serial tuned whole_file two_pages-Answers refl
      two_pages-NoCollision

-- The replica greets, and the origin takes the greeting.
greeting : (u : Session) × Steps begin_at u
unfolding step_origin step_replica run_with_tuning OriginFine.run_with_tuning
greeting = (_, by_replica refl (by_origin refl here))

every_schedule_example : Steps greeting.0 (synced two_pages) × (steps greeting.1 ≤ steps whole)
every_schedule_example =
    every_schedule two_pages two_pages-IsSized serial tuned whole_file two_pages-Answers refl
      two_pages-NoCollision greeting.1

only_end_example : synced two_pages ≡ synced two_pages
only_end_example =
    only_end two_pages two_pages-IsSized serial tuned whole_file two_pages-Answers refl
      two_pages-NoCollision whole (synced-IsOver two_pages)

exact_transfer_example :
    (reply : List PageData) × (changed_pages toy serial tuned
        (snapshot_of two_pages)
        blake3_v2
        0
        (count_up 1 (pages_in 1 0))
        (map (λ p. digest_of two_pages (replica_page two_pages p)) (count_up 1 (pages_in 1 0)))
      ≡ ok reply)
    × AreSent two_pages reply
    × Rising 1 reply
    × (AmongPages 2 reply ↔ Lacks two_pages 2)
exact_transfer_example =
    exact_transfer two_pages two_pages-IsSized 0 (omega arith) serial tuned 2 (omega arith)
      (omega arith) (omega arith)

-- An origin with one page, and a side that does nothing.
abbrev one_page : Snapshot
one_page = record { bytes = 7 ∷ []; page_size = 1; page_count = 1 }

abbrev idle : Process (Unit {0})
idle = finish (ok tt)

handshake_cases_example :
    (s : Session) × Opening toy serial tuned one_page
      (λ a. idle)
      idle
      []
      []
      (opened_replica two_pages)
      (hello 3 2 0)
      s
    × Steps
        (opened toy serial tuned one_page
          (λ a. idle)
          idle
          []
          []
          (opened_replica two_pages)
          (hello 3 2 0))
        s
handshake_cases_example =
    handshake_cases toy serial tuned one_page (λ a. idle) idle [] [] (opened_replica two_pages)
      (hello 3 2 0)

-- The origin has one page, the replica lists two.
abbrev listed : Session
listed = record {
  origin = fine_pass toy serial tuned one_page blake3_v2 (0 ∷ []);
  replica = idle;
  to_origin = page_hashes (1 ∷ 2 ∷ []) ((7 ∷ []) ∷ (8 ∷ []) ∷ []) ∷ [];
  to_replica = [];
  conn = opened_replica two_pages;
}

overrun_panics_example :
    step_origin listed ≡ some (record listed { origin = finish panic; to_origin = [] })
overrun_panics_example =
    overrun_panics toy one_page blake3_v2 refl (omega arith) serial tuned 0 []
      ((7 ∷ []) ∷ (8 ∷ []) ∷ []) [] listed (omega arith) (omega arith) (omega arith) (omega arith)
      refl refl
