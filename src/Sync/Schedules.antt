-- ===== src/Sync/Schedules.antt =====
-- src/lib.rs: `sync_local_with_tuning` under every schedule of its two handlers.
use rsqlite_rsync.Base.{◌≤◌, ◌≡◌, refl, arith}
use rsqlite_rsync.Hash.{blake3_v2}
use rsqlite_rsync.Tuning.{SyncTuning}
use rsqlite_rsync.Error.{ok}
use rsqlite_rsync.Db.{Sqlite}
use rsqlite_rsync.Protocol.{Rayon}
use rsqlite_rsync.Protocol.Process.{finish}
use rsqlite_rsync.Sync.{Session, step_origin, step_replica}
use rsqlite_rsync.Sync.Steps.{Steps}
use rsqlite_rsync.Sync.View.{Databases, IsSized}
use rsqlite_rsync.Sync.Agreement.{NoCollision}
use rsqlite_rsync.Sync.Exchange.{quiet, with_file}
use rsqlite_rsync.Sync.Correct.{opened_replica, Answers, origin_run, replica_run, sync_correct}
use rsqlite_rsync.Sync.Orders.{IsOver, steps, any_order, over_unique}

-- The session in which both sides have returned and the replica's file is the origin's snapshot.
abbrev pub synced : Databases → Session
synced v = quiet (finish (ok tt)) (finish (ok tt)) (with_file (opened_replica v) v.origin_bytes)

pub synced-IsOver : (v : Databases) → IsOver (synced v)
unfolding step_origin step_replica
synced-IsOver v = (refl, refl)

module _ (v : Databases) (sized : IsSized v) (rayon : Rayon) (tuning : SyncTuning) (api : Sqlite)
    (answers : Answers v api) (modern : v.algorithm ≡ blake3_v2) (apart : NoCollision v) where
  abbrev pub start : Session
  start =
      quiet (origin_run v sized rayon tuning) (replica_run v sized rayon tuning api answers modern)
        (opened_replica v)

  -- However the two handlers are interleaved, a sync of a replica that is no larger than the origin
  -- never blocks before it is done: from every session it reaches, some steps lead to the session in
  -- which both have returned without an error and the replica is the origin's snapshot, and the steps
  -- taken are no more than those of one fixed run. The origin is not empty, both databases consist of
  -- whole pages of one size, SQLite reports them as they are, the version is the newest, and the
  -- digests compared in this run do not collide.
  pub every_schedule :
      {u : Session} (run : Steps start u)
      → Steps u (synced v)
        × (steps run ≤ steps (sync_correct v sized rayon tuning api answers modern apart))
  every_schedule run =
      let (rest, total) =
        any_order (synced-IsOver v) (sync_correct v sized rayon tuning api answers modern apart)
          run in
      (rest, omega arith)

  -- In such a sync a session in which neither side can step is the one in which both have returned
  -- without an error and the replica's file is the origin's snapshot.
  pub only_end : {u : Session} (run : Steps start u) → IsOver u → u ≡ synced v
  only_end run over = over_unique over (every_schedule run).0
