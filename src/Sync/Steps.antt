-- ===== src/Sync/Steps.antt =====
-- Runs of a session: finite sequences of steps, in any order of the two sides.
use rsqlite_rsync.Base.{◌≡◌, some}
use rsqlite_rsync.Sync.{Session, step_origin, step_replica}

pub data Steps : Session → Session → Type 0 where
  here : {s : Session} → Steps s s
  by_origin : {s t u : Session} → step_origin s ≡ some t → Steps t u → Steps s u
  by_replica : {s t u : Session} → step_replica s ≡ some t → Steps t u → Steps s u

pub Steps-trans : {s t u : Session} → Steps s t → Steps t u → Steps s u
Steps-trans here r = r
Steps-trans (by_origin e q) r = by_origin e (Steps-trans q r)
Steps-trans (by_replica e q) r = by_replica e (Steps-trans q r)
