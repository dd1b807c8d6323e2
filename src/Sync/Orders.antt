-- ===== src/Sync/Orders.antt =====
-- src/lib.rs: the orders in which the executor may run the two handlers.
use mathlib.Core.Path.{subst₂}
use rsqlite_rsync.Base.{ℕ, suc, ◌+◌, ◌≡◌, refl, ap, subst, List, [], ◌∷◌, Option, none, some, arith}
use rsqlite_rsync.Db.{Connection}
use rsqlite_rsync.Protocol.Messages.{Message}
use rsqlite_rsync.Protocol.Process.{Process, finish, send, recv, write}
use rsqlite_rsync.Sync.{Session, step_origin, step_replica}
use rsqlite_rsync.Sync.Steps.{Steps, here, by_origin, by_replica}

abbrev session :
    Process (Unit {0}) → Process (Unit {0}) → List Message → List Message → Connection → Session
session o r qo qr c = record { origin = o; replica = r; to_origin = qo; to_replica = qr; conn = c }

-- Both sides have ended.
abbrev pub IsOver : Session → Type 0
IsOver s = (step_origin s ≡ none) × (step_replica s ≡ none)

-- If both sides can step, the two steps lead to one session in either order.
abbrev Commutes : Option Session → Option Session → Type 0
Commutes none y = Unit {0}
Commutes (some a) none = Unit {0}
Commutes (some a) (some b) = (d : Session) × (step_replica a ≡ some d) × (step_origin b ≡ some d)

-- Each step only appends to the other side's queue.
diamond_at :
    (o r : Process (Unit {0})) (qo qr : List Message) (c : Connection)
    → Commutes (step_origin (session o r qo qr c)) (step_replica (session o r qo qr c))
unfolding step_origin step_replica
diamond_at (finish x) r qo qr c = tt
diamond_at (write n x k) r qo qr c = tt
diamond_at (send m k) (finish x) qo qr c = tt
diamond_at (send m k) (send m' k') qo qr c = (_, refl, refl)
diamond_at (send m k) (recv k') qo [] c = tt
diamond_at (send m k) (recv k') qo (m' ∷ qr) c = (_, refl, refl)
diamond_at (send m k) (write n x k') qo qr c = (_, refl, refl)
diamond_at (recv k) r [] qr c = tt
diamond_at (recv k) (finish x) (m ∷ qo) qr c = tt
diamond_at (recv k) (send m' k') (m ∷ qo) qr c = (_, refl, refl)
diamond_at (recv k) (recv k') (m ∷ qo) [] c = tt
diamond_at (recv k) (recv k') (m ∷ qo) (m' ∷ qr) c = (_, refl, refl)
diamond_at (recv k) (write n x k') (m ∷ qo) qr c = (_, refl, refl)

diamond :
    (s : Session) {a b : Session}
    → step_origin s ≡ some a
    → step_replica s ≡ some b
    → (d : Session) × (step_replica a ≡ some d) × (step_origin b ≡ some d)
diamond s e f = subst₂ Commutes e f (diamond_at s.origin s.replica s.to_origin s.to_replica s.conn)

-- The number of steps of a run.
abbrev pub steps : {s t : Session} → Steps s t → ℕ
steps here = 0
steps (by_origin e r) = suc (steps r)
steps (by_replica e r) = suc (steps r)

same_step : {x : Option Session} {a b : Session} → x ≡ some a → x ≡ some b → a ≡ b
same_step e f = cc

-- A step is a run's first one, or can be moved to its front.
strip_origin :
    {s t a : Session}
    → IsOver t
    → step_origin s ≡ some a
    → (r : Steps s t) → (q : Steps a t) × (suc (steps q) ≡ steps r)
strip_origin over e here = let ended = over.0 in cc
strip_origin {t} over e (by_origin f r) =
    subst (λ x. (q : Steps x t) × (suc (steps q) ≡ suc (steps r))) (same_step f e) (r, refl)
strip_origin {s} over e (by_replica f r) =
    let (d, p, q) = diamond s e f in
    let (rest, fewer) = strip_origin over q r in (by_replica p rest, ap suc fewer)

strip_replica :
    {s t b : Session}
    → IsOver t
    → step_replica s ≡ some b
    → (r : Steps s t) → (q : Steps b t) × (suc (steps q) ≡ steps r)
strip_replica over f here = let ended = over.1 in cc
strip_replica {t} over f (by_replica e r) =
    subst (λ x. (q : Steps x t) × (suc (steps q) ≡ suc (steps r))) (same_step e f) (r, refl)
strip_replica {s} over f (by_origin e r) =
    let (d, p, q) = diamond s e f in
    let (rest, fewer) = strip_replica over p r in (by_origin q rest, ap suc fewer)

-- If one order of the sides ends a session, then every order is a part of a run to that same end, and
-- the rest of it and what was done come to the same number of steps.
pub any_order :
    {s t u : Session}
    → IsOver t
    → (r : Steps s t) (q : Steps s u) → (rest : Steps u t) × (steps q + steps rest ≡ steps r)
any_order over r here = (r, omega arith)
any_order over r (by_origin e q) =
    let (r', fewer) = strip_origin over e r in
    let (rest, total) = any_order over r' q in (rest, omega arith)
any_order over r (by_replica e q) =
    let (r', fewer) = strip_replica over e r in
    let (rest, total) = any_order over r' q in (rest, omega arith)

-- So a session that cannot go on is at that end.
pub over_unique : {t u : Session} → IsOver u → Steps u t → u ≡ t
over_unique over here = refl
over_unique over (by_origin e r) = let ended = over.0 in cc
over_unique over (by_replica e r) = let ended = over.1 in cc
