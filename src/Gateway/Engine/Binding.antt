-- ===== src/Gateway/Engine/Binding.antt =====
-- src/gateway/engine.rs: connections, locks and parameters; `execute`.
use Prim.Native.Char.{Char}
use rsqlite_rsync.Base.{ℕ, suc, List, [], ◌∷◌, Option, none, some, Bool, false, if◌then◌else◌}
use rsqlite_rsync.Error.{protocol, Result, ok, err, and_then}
use rsqlite_rsync.Protocol.Messages.{format_text}
use rsqlite_rsync.KvText.{trim, same_chars}
use rsqlite_rsync.Gateway.Values.{Value, proto_value_to_sql, NamedParameter, Parameters, Statement}
use rsqlite_rsync.Gateway.Host.{Host, Steps, finished, failing, row, Call, continue_call, pure_call}
use rsqlite_rsync.Gateway.Paths.{DatabaseEngine, resolve_db_path}

-- `db_mutexes`: the lock of each name, and the number of locks made.
pub record Locks : Type 0 where
  pub entries : List (List Char × ℕ)
  pub made : ℕ

abbrev pub lock_of : List (List Char × ℕ) → List Char → Option ℕ
lock_of [] name = none
lock_of ((n, l) ∷ rest) name =
    let later = lock_of rest name in if same_chars n name then some l else later

abbrev lock_entry : Locks → List Char → Option ℕ → Locks × ℕ
lock_entry locks name (some l) = (locks, l)
lock_entry locks name none =
    (record { entries = (name, locks.made) ∷ locks.entries; made = suc locks.made }, locks.made)

unfoldable pub get_db_lock : Locks → List Char → Locks × ℕ
get_db_lock locks db_name = lock_entry locks (trim db_name) (lock_of locks.entries (trim db_name))

abbrev pub without : List (List Char × ℕ) → List Char → List (List Char × ℕ)
without [] name = []
without ((n, l) ∷ rest) name =
    let later = without rest name in if same_chars n name then later else (n, l) ∷ later

-- `db_mutexes.remove`.
unfoldable pub remove_lock : Locks → List Char → Locks
remove_lock locks name = record locks { entries = without locks.entries name }

pub record ExecuteResponse : Type 0 where
  pub rows_affected : ℕ
  pub last_insert_rowid : ℕ
  pub execution_time_us : ℕ
  pub generation : ℕ

module _ (h : Host) where
  open h use {
    World, Conn, Prepared, open_file, exec, prepare, bind_value, bind_parameter_index, steps,
    changes, last_insert_rowid,
  }

  abbrev configure : Conn → Call World Conn
  configure conn w = continue_call (exec conn "PRAGMA journal_mode=WAL;" w) (λ _ w1.
      continue_call (exec conn "PRAGMA synchronous=NORMAL;" w1) (λ _ w2.
        continue_call (exec conn "PRAGMA busy_timeout=5000;" w2) (λ _. pure_call (ok conn))))

  unfoldable pub open_connection : DatabaseEngine → List Char → Bool → Call World Conn
  unfolding resolve_db_path
  open_connection engine db_name read_only w =
      continue_call (resolve_db_path h engine db_name w) (λ path w1.
        continue_call (open_file path read_only w1)
          (λ conn w2. if read_only then (w2, ok conn) else configure conn w2))

  -- Positional parameters count from 1.
  unfoldable pub bind_positional : Prepared → ℕ → List Value → Result Prepared
  unfolding proto_value_to_sql
  bind_positional stmt idx [] = ok stmt
  bind_positional stmt idx (v ∷ vs) =
      and_then (bind_value stmt idx (proto_value_to_sql v)) (λ s. bind_positional s (suc idx) vs)

  abbrev pub bind_at : Prepared → List Char → Value → Option ℕ → Result Prepared
  bind_at stmt name v (some idx) = bind_value stmt idx (proto_value_to_sql v)
  bind_at stmt name v none = err (
      protocol (format_text "named parameter '{name}' not found in prepared statement" (name ∷ [])))

  abbrev pub bind_one : Prepared → List Char → Option Value → Result Prepared
  bind_one stmt name none = ok stmt
  bind_one stmt name (some v) = bind_at stmt name v (bind_parameter_index stmt name)

  unfoldable pub bind_named : Prepared → List NamedParameter → Result Prepared
  unfolding proto_value_to_sql
  bind_named stmt [] = ok stmt
  bind_named stmt (p ∷ ps) = and_then (bind_one stmt p.name p.value) (λ s. bind_named s ps)

  unfoldable pub bind_parameters : Prepared → Option Parameters → Result Prepared
  unfolding bind_positional bind_named
  bind_parameters stmt none = ok stmt
  bind_parameters stmt (some params) =
      and_then (bind_positional stmt 1 params.positional) (λ s. bind_named s params.named)

  -- One call of `step`.
  abbrev pub first_step : Steps World → World × Result (Unit {0})
  first_step (finished w) = (w, ok tt)
  first_step (failing w e) = (w, err e)
  first_step (row w vs rest) = (w, ok tt)

  abbrev pub execute_response : Conn → ℕ → ℕ → World → ExecuteResponse
  execute_response conn generation elapsed w = record {
    rows_affected = changes conn w;
    last_insert_rowid = last_insert_rowid conn w;
    execution_time_us = elapsed;
    generation = generation;
  }

  -- A statement prepared and its parameters bound.
  abbrev pub prepare_bound : Conn → Statement → World → Result Prepared
  prepare_bound conn stmt w =
      and_then (prepare conn stmt.sql w) (λ p. bind_parameters p stmt.parameters)

  unfoldable pub execute :
      DatabaseEngine
      → List Char
      → Statement
      → ℕ
      → ℕ
      → Locks
      → World
      → Locks × (World × Result ExecuteResponse)
  unfolding get_db_lock open_connection bind_parameters
  execute engine db_name stmt generation elapsed locks w = (
    (get_db_lock locks db_name).0,
    continue_call (open_connection engine db_name false w) (λ conn w1.
        continue_call (w1, prepare_bound conn stmt w1)
          (λ prepared w2.
            continue_call (first_step (steps prepared w2))
              (λ _ w3. (w3, ok (execute_response conn generation elapsed w3))))),
  )
