-- ===== src/Tests/Gateways.antt =====
-- A gateway over a host that counts the statements it commits: requests with and without a token, a
-- query of three rows in chunks, a batch that fails, and a node without a lease.
use Prim.Native.Char.{Char}
use text.Mathlib.Text.{◌==◌ as str_eq}
use rsqlite_rsync.Base.{
  ℕ, suc, String, ◌≡◌, refl, sym, ap, ◌⊎◌, ◌↔◌, List, [], ◌∷◌, Option, none, some, Bool, true,
  false, ◌||◌, if◌then◌else◌, arith,
}
use rsqlite_rsync.Error.{SyncError, protocol, ok, err}
use rsqlite_rsync.Protocol.Messages.{plain}
use rsqlite_rsync.KvText.Chars.{chars}
use rsqlite_rsync.KvText.{same_chars, trim}
use rsqlite_rsync.Ha.Runtime.{new_shared}
use rsqlite_rsync.Gateway.Status.{Tonic}
use rsqlite_rsync.Gateway.Auth.{required, check, check_token, check_request_or_token, accepted}
use rsqlite_rsync.Gateway.Auth.Accepted.{Bears, Presents, accepted_iff}
use rsqlite_rsync.Gateway.Values.{integer, Statement}
use rsqlite_rsync.Gateway.Host.{
  Host, Steps, finished, failing, row, removed, continue_call, pure_call,
}
use rsqlite_rsync.Gateway.Paths.{DatabaseEngine, join, resolve_db_path}
use rsqlite_rsync.Gateway.Paths.Safe.{Inside, resolve_db_path_cases}
use rsqlite_rsync.Gateway.Engine.Query.{query, stream_query_chunks}
use rsqlite_rsync.Gateway.Engine.Query.Chunks.{Ends, stream-query}
use rsqlite_rsync.Gateway.Engine.Batch.{
  BatchTransactionMode, immediate, no_transaction, deferred, exclusive, begin_sql, batch_on,
}
use rsqlite_rsync.Gateway.Engine.Batch.Atomic.{
  Transactions, Isolated, Hidden, AllOrNothing, batch_atomic,
}
use rsqlite_rsync.Gateway.Server.{
  SqlGatewayServer, QueryRequest, consistency_of, strong, serve_execute, serve_batch,
  serve_drop_database, serve_query, serve_stream_query,
}
use rsqlite_rsync.Gateway.Server.Fenced.{HoldsWriterLease, Refused, writes_fenced}

abbrev read : Option (List Char) → List Char → Bool
read none t = false
read (some v) t = same_chars v t

abbrev pub plain_tonic : Tonic
plain_tonic = record {
  Value = List Char;
  parse = λ s. some s;
  to_str = λ v. some v;
  is_text = same_chars;
  valid_endpoint = λ ep. true;
  parse_plain = λ s h. (s, refl);
  parse-to_str = λ s v e. sym e;
  parse-is_text = λ s t v e. ap (λ (o : Option (List Char)). read o t) (sym e);
}

-- What is committed, and what a transaction has added to.
abbrev Counter : Type 0
Counter = ℕ × Option ℕ

abbrev run_sql : String → Counter → Counter
run_sql sql (n, none) =
    if str_eq sql "BEGIN DEFERRED" || (str_eq sql "BEGIN IMMEDIATE" || str_eq sql "BEGIN EXCLUSIVE")
    then (n, some n)
    else (n, none)
run_sql sql (n, some m) =
    if str_eq sql "COMMIT"
    then (m, none)
    else if str_eq sql "ROLLBACK"
    then (n, none)
    else (n, some m)

abbrev add_one : Counter → Counter
add_one (n, none) = (suc n, none)
add_one (n, some m) = (n, some (suc m))

abbrev steps_of : List Char → Counter → Steps Counter
steps_of sql w =
    if same_chars sql (chars "rows")
    then row w (integer 1 ∷ []) (row w (integer 2 ∷ []) (row w (integer 3 ∷ []) (finished w)))
    else if same_chars sql (chars "bad")
    then failing w (protocol (plain "no such table"))
    else finished (add_one w)

abbrev pub counting : Host
counting = record {
  World = Counter;
  Conn = Unit {0};
  Prepared = List Char;
  open_file = λ path read_only w. (w, ok tt);
  exec = λ conn sql w. (run_sql sql w, ok tt);
  prepare = λ conn sql w. ok sql;
  is_readonly = λ p. same_chars p (chars "rows");
  bind_value = λ p idx v. ok p;
  bind_parameter_index = λ p name. none;
  column_count = λ p. 1;
  column_name = λ p idx. chars "n";
  column_decltype = λ p idx. none;
  steps = steps_of;
  changes = λ conn w. 1;
  last_insert_rowid = λ conn w. w.0;
  create_parent = λ path w. (w, ok tt);
  path_exists = λ path w. true;
  remove_file = λ path w. (w, removed);
}

abbrev HasSome : Option ℕ → Type 0
HasSome none = ⊥
HasSome (some m) = Unit

abbrev counter_transactions : Transactions counting
counter_transactions = record {
  Content = ℕ;
  content = λ w. w.0;
  Active = λ conn w. HasSome w.1;
  Plain = λ sql. Unit {0};
}

counter_begins :
    (mode : BatchTransactionMode) (w : Counter)
    → ((run_sql (begin_sql mode) w).0 ≡ w.0) × HasSome (run_sql (begin_sql mode) w).1
counter_begins no_transaction (n, none) = (refl, tt)
counter_begins no_transaction (n, some m) = (refl, tt)
counter_begins deferred (n, none) = (refl, tt)
counter_begins deferred (n, some m) = (refl, tt)
counter_begins immediate (n, none) = (refl, tt)
counter_begins immediate (n, some m) = (refl, tt)
counter_begins exclusive (n, none) = (refl, tt)
counter_begins exclusive (n, some m) = (refl, tt)

counter_hides :
    (sql : List Char) (w : Counter)
    → HasSome w.1
    → Hidden counting counter_transactions tt w.0 (steps_of sql w)
counter_hides sql (n, none) a = absurd a
counter_hides sql (n, some m) a = ground arith

counter_rolls_back : (w : Counter) → (run_sql "ROLLBACK" w).0 ≡ w.0
counter_rolls_back (n, none) = refl
counter_rolls_back (n, some m) = refl

counter_isolated : Isolated counting counter_transactions
counter_isolated = record {
  begins = λ conn mode w. ((counter_begins mode w).0, λ e. (counter_begins mode w).1);
  hides = λ conn stmt w0 w p bound plain e e' a. counter_hides bound w a;
  rolls_back = λ conn w. counter_rolls_back w;
  commit_fails = λ conn w e. cc;
}

abbrev insert_one : Statement
insert_one = record { sql = chars "insert"; parameters = none }

abbrev bad_one : Statement
bad_one = record { sql = chars "bad"; parameters = none }

batch_atomic_example :
    AllOrNothing counting counter_transactions counter_isolated 3
      (λ n. n)
      tt
      7
      (insert_one ∷ bad_one ∷ [])
      (batch_on counting 3 (λ n. n) tt (insert_one ∷ bad_one ∷ []) immediate true (7, none))
batch_atomic_example =
    batch_atomic counting counter_transactions counter_isolated 3 (λ n. n) tt immediate
      (insert_one ∷ bad_one ∷ []) (7, none) refl (tt, (tt, tt))

-- The insertion is rolled back.
batch_rolls_back :
    (batch_on counting 3 (λ n. n) tt (insert_one ∷ bad_one ∷ []) immediate true (7, none)).0
    ≡ (7, none)
unfolding batch_on
batch_rolls_back = refl

abbrev rows_query : Statement
rows_query = record { sql = chars "rows"; parameters = none }

abbrev engine : DatabaseEngine
engine = record { data_dir = chars "/data" }

stream-query_example :
    Ends counting 0 2
      (omega arith)
      (λ n. n)
      (stream_query_chunks counting engine (chars "a.db") rows_query 0 2 (λ n. n) (7, none))
      (query counting engine (chars "a.db") rows_query 0 3 false 0 (7, none))
stream-query_example =
    stream-query counting 0 2 (omega arith) (λ n. n) engine (chars "a.db") rows_query 3 0 false
      (7, none)

resolve_db_path_cases_example :
    (Inside (trim (chars "../x"))
      × (resolve_db_path counting engine (chars "../x") (7, none)
          ≡ continue_call {W = Counter}
              ((7, none), ok tt)
              (λ _. pure_call (ok (join engine.data_dir (trim (chars "../x")))))))
    ⊎ ((Inside (trim (chars "../x")) → ⊥)
        × ((e : SyncError) × (resolve_db_path counting engine (chars "../x") (7, none)
              ≡ ((7, none), err e))))
resolve_db_path_cases_example = resolve_db_path_cases counting engine (chars "../x") (7, none)

abbrev headers : List (String × List Char)
headers = ("authorization", chars "Bearer key") ∷ []

accepted_iff_example :
    ((check plain_tonic (required (chars "key")) headers ≡ accepted) ↔ (
      (expected : List Char)
      → some (chars "key") ≡ some expected
      → Bears plain_tonic headers expected))
    × ((check_token plain_tonic (required (chars "key")) (chars "no") ≡ accepted)
        ↔ ((expected : List Char) → some (chars "key") ≡ some expected → chars "no" ≡ expected))
    × ((check_request_or_token plain_tonic (required (chars "key")) headers none ≡ accepted) ↔ (
        (expected : List Char)
        → some (chars "key") ≡ some expected
        → Presents plain_tonic headers none expected))
unfolding required
accepted_iff_example = accepted_iff plain_tonic (required (chars "key")) headers none (chars "no")

abbrev node : SqlGatewayServer
node = record {
  engine = engine;
  ha_state = new_shared "n1" false;
  locks = record { entries = []; made = 0 };
}

abbrev read_rows : QueryRequest
read_rows = record {
  database = chars "a.db";
  statement = some rows_query;
  max_rows = 0;
  chunk_size = 0;
  consistency = 1;
}

writes_fenced_example :
    HoldsWriterLease node.ha_state 5
    ⊎ (Refused plain_tonic counting node 5
          (λ n. n)
          (7, none)
          (serve_execute plain_tonic counting node 5
            (λ n. n)
            (7, none)
            (chars "a.db")
            (some insert_one))
        × Refused plain_tonic counting node 5
            (λ n. n)
            (7, none)
            (serve_batch plain_tonic counting node 5
              (λ n. n)
              (7, none)
              (chars "a.db")
              (insert_one ∷ [])
              1
              true)
        × Refused plain_tonic counting node 5
            (λ n. n)
            (7, none)
            (serve_drop_database plain_tonic counting node 5 (λ n. n) (7, none) (chars "a.db"))
        × ((consistency_of read_rows.consistency ≡ strong)
              ⊎ (node.ha_state.allow_replica_reads ≡ false)
            → Refused plain_tonic counting node 5
                (λ n. n)
                (7, none)
                (serve_query plain_tonic counting node 5 (λ n. n) (7, none) read_rows)
              × Refused plain_tonic counting node 5
                  (λ n. n)
                  (7, none)
                  (serve_stream_query plain_tonic counting node 5 (λ n. n) (7, none) read_rows)))
writes_fenced_example =
    writes_fenced plain_tonic counting node 5 (λ n. n) (7, none) (chars "a.db") (some insert_one)
      (insert_one ∷ []) 1 true read_rows
