-- ===== src/Gateway/Engine/Query/Chunks.antt =====
-- src/gateway/engine.rs: the chunks of a streamed query are the rows of the query.
use mathlib.Core.List.{append_assoc, append-nil}
use rsqlite_rsync.Base.{
  ℕ, suc, ◌<◌, ◌≡◌, refl, ap, sym, ◌∙◌, List, [], ◌∷◌, ◌++◌, map, Bool, true, false, leb, length,
  length-append, leb→le, if◌then◌else◌, arith,
}
use rsqlite_rsync.Error.{Result, ok, err, panic}
use rsqlite_rsync.Gateway.Values.{sql_value_to_proto, ColumnHeader, Statement}
use Prim.Native.Char.{Char}
use rsqlite_rsync.Gateway.Host.{Host, Steps, finished, failing, row, Call, continue_call}
use rsqlite_rsync.Gateway.Engine.Binding.{open_connection, prepare_bound}
use rsqlite_rsync.Gateway.Paths.{DatabaseEngine}
use rsqlite_rsync.Gateway.Engine.Query.{
  Row, QueryResponse, QueryChunk, enough, query_rows, query, chunk_columns, push_chunk, flush_full,
  stream_rows, stream_query_chunks, columns_of,
}

-- The rows of chunks, in order.
abbrev pub rows_of : List QueryChunk → List Row
rows_of [] = []
rows_of (c ∷ cs) = c.rows ++ rows_of cs

contradicted : true ≡ false → ⊥
contradicted e = cc

rows_of-append : (xs ys : List QueryChunk) → rows_of (xs ++ ys) ≡ rows_of xs ++ rows_of ys
rows_of-append [] ys = refl
rows_of-append (x ∷ xs) ys =
    ap (λ (l : List Row). x.rows ++ l) (rows_of-append xs ys)
    ∙ sym (append_assoc x.rows (rows_of xs) (rows_of ys))

module _ (chunk_size : ℕ) (columns : List ColumnHeader) where
  -- Full chunks, of which the first has the columns given.
  abbrev AllFull : List ColumnHeader → List QueryChunk → Type 0
  AllFull head [] = Unit
  AllFull head (c ∷ cs) =
      (c.columns ≡ head) × (c.is_last ≡ false) × (length c.rows ≡ chunk_size) × AllFull [] cs

  -- Full chunks and then the last one, which is not full and counts all rows; the first chunk has
  -- the columns, and no other.
  abbrev pub Chunked : List ColumnHeader → ℕ → List QueryChunk → Type 0
  Chunked head total [] = ⊥
  Chunked head total (c ∷ []) =
      (c.columns ≡ head)
      × (c.is_last ≡ true)
      × (length c.rows < chunk_size)
      × (c.total_rows ≡ total)
  Chunked head total (c ∷ d ∷ cs) =
      (c.columns ≡ head)
      × (c.is_last ≡ false)
      × (length c.rows ≡ chunk_size)
      × Chunked [] total (d ∷ cs)

  -- The columns of a chunk after `cs`.
  abbrev head_after : List ColumnHeader → List QueryChunk → List ColumnHeader
  head_after head [] = head
  head_after head (c ∷ cs) = []

  AllFull-push :
      (head : List ColumnHeader) (cs : List QueryChunk) (c : QueryChunk)
      → AllFull head cs
      → c.columns ≡ head_after head cs
      → c.is_last ≡ false
      → length c.rows ≡ chunk_size
      → AllFull head (cs ++ c ∷ [])
  AllFull-push head [] c full a b d = (a, b, d, tt)
  AllFull-push head (x ∷ []) c (p, q, r, full) a b d = (p, q, r, (a, b, d, tt))
  AllFull-push head (x ∷ y ∷ cs) c (p, q, r, full) a b d =
      (p, q, r, AllFull-push [] (y ∷ cs) c full a b d)

  Chunked-push :
      (head : List ColumnHeader) (total : ℕ) (cs : List QueryChunk) (c : QueryChunk)
      → AllFull head cs
      → c.columns ≡ head_after head cs
      → c.is_last ≡ true
      → length c.rows < chunk_size
      → c.total_rows ≡ total
      → Chunked head total (cs ++ c ∷ [])
  Chunked-push head total [] c full a b d e = (a, b, d, e)
  Chunked-push head total (x ∷ []) c (p, q, r, full) a b d e = (p, q, r, (a, b, d, e))
  Chunked-push head total (x ∷ y ∷ cs) c (p, q, r, full) a b d e =
      (p, q, r, Chunked-push [] total (y ∷ cs) c full a b d e)

  -- The outcome of a stream, beside that of the query: the same error, or chunks of the same rows.
  abbrev pub SameRows : Result (List QueryChunk) → Result (List Row) → Type 0
  SameRows (ok cs) (ok rows) = (rows_of cs ≡ rows) × Chunked columns (length rows) cs
  SameRows (err e) (err e') = e ≡ e'
  SameRows (err e) (ok rows) = ⊥
  SameRows (err e) panic = ⊥
  SameRows panic (ok rows) = ⊥
  SameRows panic (err e) = ⊥
  SameRows panic panic = ⊥
  SameRows (ok cs) (err e) = ⊥
  SameRows (ok cs) panic = ⊥

module _ (h : Host) (max_rows chunk_size : ℕ) (positive : 0 < chunk_size)
    (columns : List ColumnHeader) (elapsed : ℕ → ℕ) where
  open h use {World}

  -- What the loop keeps.
  abbrev Holds : List QueryChunk → List Row → ℕ → List Row → Type 0
  Holds chunks current total rows =
      (rows_of chunks ++ current ≡ rows)
      × (total ≡ length rows)
      × AllFull chunk_size columns columns chunks
      × (length current < chunk_size)

  columns_after :
      (cs : List QueryChunk)
      → chunk_columns h max_rows chunk_size columns elapsed cs
        ≡ head_after chunk_size columns columns cs
  columns_after [] = refl
  columns_after (c ∷ cs) = refl

  Holds-last :
      (chunks : List QueryChunk) (current : List Row) (total : ℕ) (rows : List Row)
      → Holds chunks current total rows
      → SameRows chunk_size columns
          (ok (push_chunk h max_rows chunk_size columns elapsed chunks current true total))
          (ok rows)
  Holds-last chunks current total rows (same, count, full, small) = (
    rows_of-append chunks _
        ∙ ap (λ (l : List Row). rows_of chunks ++ l) (append-nil current)
        ∙ same,
    Chunked-push chunk_size columns columns (length rows) chunks _ full (columns_after chunks) refl
        small count,
  )

  abbrev HoldsNext : ℕ → List Row → List QueryChunk × List Row → Type 0
  HoldsNext total rows next = Holds next.0 next.1 total rows

  Holds-row :
      (chunks : List QueryChunk) (current : List Row) (total : ℕ) (rows : List Row) (r : Row)
      → Holds chunks current total rows
      → HoldsNext
          (suc total)
          (rows ++ r ∷ [])
          (flush_full h max_rows chunk_size columns elapsed chunks (current ++ r ∷ []) (suc total))
  Holds-row chunks current total rows r (same, count, full, small) =
      by_size (leb chunk_size (length (current ++ r ∷ []))) refl
    where
      longer : rows_of chunks ++ (current ++ r ∷ []) ≡ rows ++ r ∷ []
      longer =
          sym (append_assoc (rows_of chunks) current (r ∷ []))
          ∙ ap (λ (l : List Row). l ++ r ∷ []) same

      by_size :
          (b : Bool)
          → leb chunk_size (length (current ++ r ∷ [])) ≡ b
          → HoldsNext (suc total) (rows ++ r ∷ []) (
              if b
              then (
                push_chunk h max_rows chunk_size columns elapsed chunks
                    (current ++ r ∷ [])
                    false
                    (suc total),
                [],
              )
              else (chunks, current ++ r ∷ []))
      by_size true e = (
        append-nil _
            ∙ rows_of-append chunks _
            ∙ ap (λ (l : List Row). rows_of chunks ++ l) (append-nil (current ++ r ∷ []))
            ∙ longer,
        omega (arith, length-append rows (r ∷ [])),
        AllFull-push chunk_size columns columns chunks _ full (columns_after chunks) refl
            (omega (arith, leb→le _ _ e, length-append current (r ∷ []))),
        positive,
      )
      by_size false e =
          (longer, omega (arith, length-append rows (r ∷ [])), full, ground (arith, e))

  -- A stream and a query that end in the same state.
  abbrev Agrees : World × Result (List QueryChunk) → World × Result (List Row) → Type 0
  Agrees s q = (s.0 ≡ q.0) × SameRows chunk_size columns s.1 q.1

  Agrees-if :
      (b c : Bool) (s t : World × Result (List QueryChunk)) (q r : World × Result (List Row))
      → b ≡ c
      → Agrees s q
      → Agrees t r
      → Agrees (if b then s else t) (if c then q else r)
  Agrees-if true true s t q r e p p' = p
  Agrees-if false false s t q r e p p' = p'
  Agrees-if true false s t q r e p p' = absurd (contradicted e)
  Agrees-if false true s t q r e p p' = absurd (contradicted (sym e))

  stream_rows-query_rows :
      (chunks : List QueryChunk) (current : List Row) (total : ℕ) (rows : List Row)
      (s : Steps World)
      → Holds chunks current total rows
      → Agrees
          (stream_rows h max_rows chunk_size columns elapsed chunks current total s)
          (query_rows h max_rows rows s)
  unfolding stream_rows query_rows
  stream_rows-query_rows chunks current total rows (finished w) ok' =
      (refl, Holds-last chunks current total rows ok')
  stream_rows-query_rows chunks current total rows (failing w e) ok' = (refl, refl)
  stream_rows-query_rows chunks current total rows (row w vs rest) ok' =
      let r = map sql_value_to_proto vs in
      let next =
        flush_full h max_rows chunk_size columns elapsed chunks (current ++ r ∷ []) (suc total) in
      let kept = Holds-row chunks current total rows r ok' in
      Agrees-if _ _ _ _ _ _ (ap (enough max_rows) kept.1)
        (refl, Holds-last next.0 next.1 (suc total) (rows ++ r ∷ []) kept)
        (stream_rows-query_rows next.0 next.1 (suc total) (rows ++ r ∷ []) rest kept)

-- The outcome of a stream, beside that of the query.
abbrev pub SameQuery : ℕ → Result (List QueryChunk) → Result QueryResponse → Type 0
SameQuery chunk_size (ok cs) (ok response) =
    (rows_of cs ≡ response.rows)
    × (response.total_rows ≡ length response.rows)
    × Chunked chunk_size response.columns response.columns response.total_rows cs
SameQuery chunk_size (err e) (err e') = e ≡ e'
SameQuery chunk_size panic panic = Unit
SameQuery chunk_size (ok cs) (err e) = ⊥
SameQuery chunk_size (ok cs) panic = ⊥
SameQuery chunk_size (err e) (ok response) = ⊥
SameQuery chunk_size (err e) panic = ⊥
SameQuery chunk_size panic (ok response) = ⊥
SameQuery chunk_size panic (err e) = ⊥

module _ (h : Host) (max_rows chunk_size : ℕ) (positive : 0 < chunk_size) (elapsed : ℕ → ℕ) where
  open h use {World, Conn, Prepared, steps}

  abbrev pub Ends : World × Result (List QueryChunk) → World × Result QueryResponse → Type 0
  Ends s q = (s.0 ≡ q.0) × SameQuery chunk_size s.1 q.1

  Ends-continue :
      {A : Type 0} (x : World × Result A) (f : A → Call World (List QueryChunk))
      (g : A → Call World QueryResponse)
      → ((a : A) (w : World) → Ends (f a w) (g a w))
      → Ends (continue_call x f) (continue_call x g)
  Ends-continue (w, ok a) f g same = same a w
  Ends-continue (w, err e) f g same = (refl, refl)
  Ends-continue (w, panic) f g same = (refl, tt)

  Ends-last :
      (columns : List ColumnHeader) (generation time : ℕ) (replica : Bool)
      (s : World × Result (List QueryChunk)) (q : World × Result (List Row))
      → Agrees h max_rows chunk_size positive columns elapsed s q
      → Ends s (
          continue_call q (λ rows w3. (
            w3,
            ok (record {
              columns = columns;
              rows = rows;
              total_rows = length rows;
              execution_time_us = time;
              generation = generation;
              is_replica_read = replica;
            }),
          )))
  Ends-last columns generation time replica (w, ok cs) (w', ok rows) (e, (r, c)) = (e, (r, refl, c))
  Ends-last columns generation time replica (w, err x) (w', err y) (e, p) = (e, p)
  Ends-last columns generation time replica (w, ok cs) (w', err y) (e, p) = absurd p
  Ends-last columns generation time replica (w, ok cs) (w', panic) (e, p) = absurd p
  Ends-last columns generation time replica (w, err x) (w', ok rows) (e, p) = absurd p
  Ends-last columns generation time replica (w, err x) (w', panic) (e, p) = absurd p
  Ends-last columns generation time replica (w, panic) (w', ok rows) (e, p) = absurd p
  Ends-last columns generation time replica (w, panic) (w', err y) (e, p) = absurd p
  Ends-last columns generation time replica (w, panic) (w', panic) (e, p) = absurd p

  -- With at least one row to a chunk, a streamed query ends in the state and with the error of the
  -- plain query, or its chunks together have the query's rows in order: all but the last are full,
  -- the last one alone is marked, is not full and has the number of all rows, and the first one alone
  -- has the columns.
  pub stream-query :
      (engine : DatabaseEngine) (db_name : List Char) (stmt : Statement) (generation time : ℕ)
      (replica : Bool) (w : World)
      → Ends
          (stream_query_chunks h engine db_name stmt max_rows chunk_size elapsed w)
          (query h engine db_name stmt max_rows generation replica time w)
  unfolding stream_query_chunks query
  stream-query engine db_name stmt generation time replica w =
      Ends-continue (open_connection h engine db_name true w) _ _ (λ conn w1.
        Ends-continue (w1, prepare_bound h conn stmt w1) _ _
          (λ prepared w2. Ends-last (columns_of h prepared) generation time replica _ _ (
            stream_rows-query_rows h max_rows chunk_size positive (columns_of h prepared) elapsed []
              [] 0 [] (steps prepared w2) (refl, refl, tt, positive))))
