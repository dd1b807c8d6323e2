-- ===== src/Gateway/Engine/Batch.antt =====
-- src/gateway/engine.rs: `batch`, the statements in a transaction or one by one.
pub mod Atomic
use Prim.Native.Char.{Char}
use rsqlite_rsync.Base.{
  ℕ, suc, String, List, [], ◌∷◌, ◌++◌, map, length, Option, none, some, Bool, true, false, not,
  ◌&&◌, ◌||◌, if◌then◌else◌,
}
use rsqlite_rsync.Error.{SyncError, Result, ok, err, panic}
use rsqlite_rsync.Gateway.Values.{Statement, sql_value_to_proto}
use rsqlite_rsync.Gateway.Host.{Host, Steps, finished, failing, row, Call, continue_call}
use rsqlite_rsync.Gateway.Paths.{DatabaseEngine}
use rsqlite_rsync.Gateway.Engine.Binding.{
  Locks, get_db_lock, open_connection, bind_parameters, ExecuteResponse, execute_response,
  first_step,
}
use rsqlite_rsync.Gateway.Engine.Query.{Row, QueryResponse, columns_of}

pub data BatchTransactionMode : Type 0 where
  no_transaction deferred immediate exclusive : BatchTransactionMode

abbrev pub use_tx : BatchTransactionMode → Bool
use_tx no_transaction = false
use_tx deferred = true
use_tx immediate = true
use_tx exclusive = true

abbrev pub begin_sql : BatchTransactionMode → String
begin_sql no_transaction = "BEGIN DEFERRED"
begin_sql deferred = "BEGIN DEFERRED"
begin_sql immediate = "BEGIN IMMEDIATE"
begin_sql exclusive = "BEGIN EXCLUSIVE"

pub data StatementOutcome : Type 0 where
  query_result : QueryResponse → StatementOutcome
  execute_result : ExecuteResponse → StatementOutcome

-- `error` is empty, or an error as it is displayed.
pub record StatementResult : Type 0 where
  pub result : Option StatementOutcome
  pub error : Option SyncError

abbrev pub failed_with : SyncError → StatementResult
failed_with e = record { result = none; error = some e }

abbrev pub succeeded_with : StatementOutcome → StatementResult
succeeded_with o = record { result = some o; error = none }

abbrev pub is_failed : StatementResult → Bool
is_failed r = elim r.error [ none ↦ false | some e ↦ true ]

pub record BatchResponse : Type 0 where
  pub results : List StatementResult
  pub total_execution_time_us : ℕ
  pub generation : ℕ
  pub committed : Bool

abbrev pub is_ok : {A : Type 0} → Result A → Bool
is_ok (ok a) = true
is_ok (err e) = false
is_ok panic = false

module _ (h : Host) (generation : ℕ) (elapsed : ℕ → ℕ) where
  open h use {World, Conn, Prepared, exec, prepare, is_readonly, steps}

  -- All the rows of a reading statement.
  unfoldable pub all_rows : List Row → Steps World → World × Result (List Row)
  unfolding sql_value_to_proto
  all_rows rows (finished w) = (w, ok rows)
  all_rows rows (failing w e) = (w, err e)
  all_rows rows (row w vs rest) = all_rows (rows ++ map sql_value_to_proto vs ∷ []) rest

  abbrev pub read_result : Prepared → ℕ → World × Result (List Row) → World × Result StatementResult
  read_result prepared index (w, ok rows) = (
    w,
    ok (
        succeeded_with (
          query_result (record {
            columns = columns_of h prepared;
            rows = rows;
            total_rows = length rows;
            execution_time_us = elapsed index;
            generation = generation;
            is_replica_read = false;
          }))),
  )
  read_result prepared index (w, err e) = (w, ok (failed_with e))
  read_result prepared index (w, panic) = (w, panic)

  abbrev pub write_result : Conn → ℕ → World × Result (Unit {0}) → World × Result StatementResult
  write_result conn index (w, ok t) = (
    w,
    ok (succeeded_with (execute_result (execute_response h conn generation (elapsed index) w))),
  )
  write_result conn index (w, err e) = (w, ok (failed_with e))
  write_result conn index (w, panic) = (w, panic)

  -- A statement that is bound, by what it is.
  abbrev pub run_bound : Conn → ℕ → Bool → Result Prepared → World → World × Result StatementResult
  run_bound conn index is_read (err e) w = (w, ok (failed_with e))
  run_bound conn index is_read panic w = (w, panic)
  run_bound conn index true (ok bound) w = read_result bound index (all_rows [] (steps bound w))
  run_bound conn index false (ok bound) w = write_result conn index (first_step h (steps bound w))

  abbrev pub run_prepared :
      Conn → ℕ → Statement → Result Prepared → World → World × Result StatementResult
  run_prepared conn index stmt (err e) w = (w, ok (failed_with e))
  run_prepared conn index stmt panic w = (w, panic)
  run_prepared conn index stmt (ok prepared) w =
      run_bound conn index (is_readonly prepared) (bind_parameters h prepared stmt.parameters) w

  -- The body of the loop: the result that is pushed.
  unfoldable pub run_statement : Conn → ℕ → Statement → World → World × Result StatementResult
  unfolding all_rows bind_parameters columns_of
  run_statement conn index stmt w = run_prepared conn index stmt (prepare conn stmt.sql w) w

  -- What the loop leaves: the state, the results and `has_error`.
  abbrev pub Ran : Type 0
  Ran = World × Result (List StatementResult × Bool)

  abbrev pub push_result : StatementResult → Ran → Ran
  push_result x (v, ok (rs, e)) = (v, ok (x ∷ rs, e))
  push_result x (v, err e) = (v, err e)
  push_result x (v, panic) = (v, panic)

  abbrev pub after_statement :
      Bool → Bool → World × Result StatementResult → (Bool → World → Ran) → Ran
  after_statement stop_on_error has_error (w, ok r) next =
      if is_failed r && stop_on_error
      then (w, ok (r ∷ [], true))
      else push_result r (next (has_error || is_failed r) w)
  after_statement stop_on_error has_error (w, err e) next = (w, err e)
  after_statement stop_on_error has_error (w, panic) next = (w, panic)

  -- The loop, from the statement at `index` on.
  unfoldable pub run_statements : Conn → Bool → ℕ → Bool → List Statement → World → Ran
  unfolding run_statement
  run_statements conn stop_on_error index has_error [] w = (w, ok ([], has_error))
  run_statements conn stop_on_error index has_error (stmt ∷ stmts) w =
      after_statement stop_on_error has_error (run_statement conn index stmt w)
        (λ e v. run_statements conn stop_on_error (suc index) e stmts v)

  abbrev pub response : List StatementResult → Bool → BatchResponse
  response results committed = record {
    results = results;
    total_execution_time_us = elapsed (length results);
    generation = generation;
    committed = committed;
  }

  -- The end of the transaction.
  abbrev pub end_tx : Conn → World → List StatementResult → Bool → World × Result BatchResponse
  end_tx conn w results false =
      ((exec conn "COMMIT" w).0, ok (response results (is_ok (exec conn "COMMIT" w).1)))
  end_tx conn w results true = ((exec conn "ROLLBACK" w).0, ok (response results false))

  abbrev pub end_batch : Conn → Bool → Bool → Ran → World × Result BatchResponse
  end_batch conn true stop_on_error (w, ok (results, has_error)) =
      end_tx conn w results (has_error && stop_on_error)
  end_batch conn false stop_on_error (w, ok (results, has_error)) =
      (w, ok (response results (not has_error)))
  end_batch conn tx stop_on_error (w, err e) = (w, err e)
  end_batch conn tx stop_on_error (w, panic) = (w, panic)

  abbrev pub begin_tx : Conn → BatchTransactionMode → World → World × Result (Unit {0})
  begin_tx conn mode w = if use_tx mode then exec conn (begin_sql mode) w else (w, ok tt)

  -- On the open connection.
  unfoldable pub batch_on :
      Conn → List Statement → BatchTransactionMode → Bool → World → World × Result BatchResponse
  unfolding run_statements
  batch_on conn statements mode stop_on_error w = continue_call (begin_tx conn mode w) (λ _ w1.
      end_batch conn (use_tx mode) stop_on_error
        (run_statements conn stop_on_error 0 false statements w1))

  unfoldable pub batch :
      DatabaseEngine
      → List Char
      → List Statement
      → BatchTransactionMode
      → Bool
      → Locks
      → World
      → Locks × (World × Result BatchResponse)
  unfolding get_db_lock open_connection batch_on
  batch engine db_name statements mode stop_on_error locks w = (
    (get_db_lock locks db_name).0,
    continue_call (open_connection h engine db_name false w)
        (λ conn w1. batch_on conn statements mode stop_on_error w1),
  )
