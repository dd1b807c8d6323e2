-- ===== src/Sync.antt =====
-- src/lib.rs: `sync_local_with_tuning`, the two handlers side by side over a pair of reliable
-- channels (src/transport/local.rs). A step is one effect of one side; the executor may take the
-- sides in any order.
pub mod Steps
pub mod View
pub mod Listing
pub mod Groups
pub mod Asked
pub mod Agreement
pub mod Sent
pub mod Exact
pub mod Apply
pub mod Exchange
pub mod Rounds
pub mod Correct
pub mod Orders
pub mod Schedules
pub mod Handshake
pub mod Overrun
use rsqlite_rsync.Base.{ℕ, List, [], ◌∷◌, ◌++◌, Option, none, some}
use rsqlite_rsync.Protocol.Messages.{Message}
use rsqlite_rsync.Error.{Result, ok, err, panic, and_then}
use rsqlite_rsync.Db.{Connection, write_page}
use rsqlite_rsync.Protocol.Process.{Process, finish, send, recv, write}

pub record Session : Type 0 where
  pub origin : Process (Unit {0})
  pub replica : Process (Unit {0})
  pub to_origin : List Message
  pub to_replica : List Message
  pub conn : Connection

-- The result of a page write, and the connection after it.
abbrev pub written : Connection → Result Connection → Result (Unit {0}) × Connection
written c (ok c') = (ok tt, c')
written c (err e) = (err e, c)
written c panic = (panic, c)

-- The origin writes no page.
unfoldable pub step_origin : Session → Option Session
step_origin s = elim s.origin [
  | finish r ↦ none
  | send m k ↦ some (record s { origin = k (ok tt); to_replica = s.to_replica ++ m ∷ [] })
  | recv k ↦ elim s.to_origin [
    | [] ↦ none
    | m ∷ rest ↦ some (record s { origin = k (ok m); to_origin = rest })
  ]
  | write n b k ↦ none
]

unfoldable pub step_replica : Session → Option Session
unfolding write_page
step_replica s = elim s.replica [
  | finish r ↦ none
  | send m k ↦ some (record s { replica = k (ok tt); to_origin = s.to_origin ++ m ∷ [] })
  | recv k ↦ elim s.to_replica [
    | [] ↦ none
    | m ∷ rest ↦ some (record s { replica = k (ok m); to_replica = rest })
  ]
  | write n b k ↦
      let w = written s.conn (write_page s.conn n b) in
      some (record s { replica = k (w.0); conn = w.1 })
]
