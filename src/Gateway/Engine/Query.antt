-- ===== src/Gateway/Engine/Query.antt =====
-- src/gateway/engine.rs: `query` and `stream_query_chunks`.
pub mod Chunks
use Prim.Native.Char.{Char}
use rsqlite_rsync.Base.{
  ℕ, suc, ◌+◌, List, [], ◌∷◌, ◌++◌, map, Option, none, some, Bool, true, false, ◌&&◌, ltb, leb,
  length, count_up, if◌then◌else◌,
}
use rsqlite_rsync.Error.{SyncError, Result, ok, err, panic, and_then}
use rsqlite_rsync.Gateway.Values.{
  Value, SqlValue, sql_value_to_proto, ColumnHeader, map_decltype_to_proto, Statement,
}
use rsqlite_rsync.Gateway.Host.{Host, Steps, finished, failing, row, Call, continue_call}
use rsqlite_rsync.Gateway.Paths.{DatabaseEngine}
use rsqlite_rsync.Gateway.Engine.Binding.{open_connection, prepare_bound}

abbrev pub Row : Type 0
Row = List Value

pub record QueryResponse : Type 0 where
  pub columns : List ColumnHeader
  pub rows : List Row
  pub total_rows : ℕ
  pub execution_time_us : ℕ
  pub generation : ℕ
  pub is_replica_read : Bool

pub record QueryChunk : Type 0 where
  pub columns : List ColumnHeader
  pub rows : List Row
  pub is_last : Bool
  pub total_rows : ℕ
  pub execution_time_us : ℕ

abbrev or_default : Option (List Char) → List Char
or_default none = []
or_default (some d) = d

-- `max_rows > 0 && total_rows >= max_rows`.
abbrev pub enough : ℕ → ℕ → Bool
enough max_rows total_rows = ltb 0 max_rows && leb max_rows total_rows

module _ (h : Host) where
  open h use {World, Conn, Prepared, column_count, column_name, column_decltype, steps}

  abbrev header_at : Prepared → ℕ → ColumnHeader
  header_at prepared idx = record {
    name = column_name prepared idx;
    column_type = map_decltype_to_proto (or_default (column_decltype prepared idx));
    declared_type = or_default (column_decltype prepared idx);
  }

  unfoldable pub columns_of : Prepared → List ColumnHeader
  unfolding map_decltype_to_proto
  columns_of prepared = map (header_at prepared) (count_up 0 (column_count prepared))

  -- The loop of `query` over the steps, with the rows so far.
  unfoldable pub query_rows : ℕ → List Row → Steps World → World × Result (List Row)
  unfolding sql_value_to_proto
  query_rows max_rows rows (finished w) = (w, ok rows)
  query_rows max_rows rows (failing w e) = (w, err e)
  query_rows max_rows rows (row w vs rest) =
      let rows' = rows ++ map sql_value_to_proto vs ∷ [] in
      let later = query_rows max_rows rows' rest in
      if enough max_rows (length rows') then (w, ok rows') else later

  unfoldable pub query :
      DatabaseEngine → List Char → Statement → ℕ → ℕ → Bool → ℕ → Call World QueryResponse
  unfolding open_connection columns_of query_rows
  query engine db_name stmt max_rows generation is_replica_read elapsed w =
      continue_call (open_connection h engine db_name true w) (λ conn w1.
        continue_call (w1, prepare_bound h conn stmt w1)
          (λ prepared w2. continue_call (query_rows max_rows [] (steps prepared w2)) (λ rows w3. (
            w3,
            ok (record {
              columns = columns_of prepared;
              rows = rows;
              total_rows = length rows;
              execution_time_us = elapsed;
              generation = generation;
              is_replica_read = is_replica_read;
            }),
          ))))

  module _ (max_rows chunk_size : ℕ) (columns : List ColumnHeader) (elapsed : ℕ → ℕ) where
    -- The columns go with the first chunk.
    abbrev pub chunk_columns : List QueryChunk → List ColumnHeader
    chunk_columns [] = columns
    chunk_columns (c ∷ cs) = []

    abbrev pub push_chunk : List QueryChunk → List Row → Bool → ℕ → List QueryChunk
    push_chunk chunks rows is_last total_rows =
        chunks
        ++ record {
          columns = chunk_columns chunks;
          rows = rows;
          is_last = is_last;
          total_rows = total_rows;
          execution_time_us = elapsed (length chunks);
        }
          ∷ []

    -- A full chunk is pushed, and the next one is empty.
    abbrev pub flush_full : List QueryChunk → List Row → ℕ → List QueryChunk × List Row
    flush_full chunks current total_rows =
        if leb chunk_size (length current)
        then (push_chunk chunks current false total_rows, [])
        else (chunks, current)

    -- The loop over the steps: the chunks so far, the rows of the current one, and the number of rows.
    unfoldable pub stream_rows :
        List QueryChunk → List Row → ℕ → Steps World → World × Result (List QueryChunk)
    unfolding sql_value_to_proto
    stream_rows chunks current total_rows (finished w) =
        (w, ok (push_chunk chunks current true total_rows))
    stream_rows chunks current total_rows (failing w e) = (w, err e)
    stream_rows chunks current total_rows (row w vs rest) =
        let next = flush_full chunks (current ++ map sql_value_to_proto vs ∷ []) (suc total_rows) in
        let later = stream_rows next.0 next.1 (suc total_rows) rest in
        if enough max_rows (suc total_rows)
        then (w, ok (push_chunk next.0 next.1 true (suc total_rows)))
        else later

  unfoldable pub stream_query_chunks :
      DatabaseEngine → List Char → Statement → ℕ → ℕ → (ℕ → ℕ) → Call World (List QueryChunk)
  unfolding open_connection columns_of stream_rows
  stream_query_chunks engine db_name stmt max_rows chunk_size elapsed w =
      continue_call (open_connection h engine db_name true w) (λ conn w1.
        continue_call (w1, prepare_bound h conn stmt w1)
          (λ prepared w2.
            stream_rows max_rows chunk_size (columns_of prepared) elapsed [] [] 0
              (steps prepared w2)))
