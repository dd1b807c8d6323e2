-- ===== src/Protocol/Process.antt =====
-- src/transport/mod.rs: a handler as a process. Its effects are `send` and `recv` on its transport
-- and, for the replica, a page write; each hands the process the result of the call.
use rsqlite_rsync.Base.{ℕ, List}
use rsqlite_rsync.Protocol.Messages.{Message, Text, error}
use rsqlite_rsync.Error.{SyncError, Result, ok, err, panic, protocol}

pub data Process {ℓ} (A : Type ℓ) : Type ℓ where
  finish : Result A → Process A
  send : Message → (Result (Unit {0}) → Process A) → Process A
  recv : (Result Message → Process A) → Process A
  write : ℕ → List ℕ → (Result (Unit {0}) → Process A) → Process A

-- `?` is part of the bind: an error or a panic ends the process.
infixl 5 ◌>>=◌ ◌>>◌
abbrev pub ◌>>=◌ : {A B : Type 0} → Process A → (A → Process B) → Process B
finish (ok a) >>= f = f a
finish (err e) >>= f = finish (err e)
finish panic >>= f = finish panic
send m k >>= f = send m (λ r. k r >>= f)
recv k >>= f = recv (λ r. k r >>= f)
write n b k >>= f = write n b (λ r. k r >>= f)

abbrev pub ◌>>◌ : {B : Type 0} → Process (Unit {0}) → Process B → Process B
m >> k = m >>= λ _. k

-- `transport.send(&m).await?`.
abbrev pub send_message : Message → Process (Unit {0})
send_message m = send m finish

-- `transport.recv().await?`.
abbrev pub receive : Process Message
receive = recv finish

-- `conn.write_page(n, b)?`.
abbrev pub write_to : ℕ → List ℕ → Process (Unit {0})
write_to n b = write n b finish

abbrev pub pure : {A : Type 0} → A → Process A
pure a = finish (ok a)

abbrev pub fail : {A : Type 0} → SyncError → Process A
fail e = finish (err e)

-- Tell the peer, whatever comes of it, and end with the protocol error.
unfoldable pub protocol_violation : {A : Type 0} → Text → Process A
protocol_violation t = send (error t) (λ _. finish (err (protocol t)))
