-- ===== src/Error.antt =====
-- src/error.rs: `SyncError` and `Result`, with a third outcome for a panic (an index out of range).
use rsqlite_rsync.Base.{ℕ, List, [], ◌∷◌}
use rsqlite_rsync.Protocol.Messages.{Text}

pub data SyncError : Type 0 where
  sqlite : ℕ → Text → SyncError
  io : Text → SyncError
  protocol : Text → SyncError
  remote_launch : Text → SyncError
  network : Text → SyncError
  page_size_mismatch : ℕ → ℕ → SyncError
  busy : Text → SyncError
  codec : Text → SyncError

pub data Result {ℓ} (A : Type ℓ) : Type ℓ where
  ok : A → Result A
  err : SyncError → Result A
  panic : Result A

-- `?` on a fallible step, then the rest.
abbrev pub and_then {ℓ κ} : {A : Type ℓ} {B : Type κ} → Result A → (A → Result B) → Result B
and_then (ok a) f = f a
and_then (err e) f = err e
and_then panic f = panic

-- `.collect()` of results: the first failure, or all the values.
abbrev pub collect {ℓ} : {A : Type ℓ} → List (Result A) → Result (List A)
collect [] = ok []
collect (r ∷ rs) = and_then r (λ a. and_then (collect rs) (λ as'. ok (a ∷ as')))
