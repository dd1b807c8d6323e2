-- ===== src/Gateway/Engine/Batch/Atomic.antt =====
-- src/gateway/engine.rs: a batch in a transaction that stops at its first error is all or nothing.
use Prim.Native.Char.{Char}
use rsqlite_rsync.Base.{
  ℕ, suc, ◌≡◌, refl, ap, ◌∙◌, ◌⊎◌, inl, inr, subst, List, [], ◌∷◌, ◌++◌, map, length, Bool, true,
  false, ◌&&◌, ◌||◌, Bool-cases, if◌then◌else◌,
}
use rsqlite_rsync.Error.{Result, ok, err, panic}
use rsqlite_rsync.Gateway.Values.{Statement, sql_value_to_proto}
use rsqlite_rsync.Gateway.Host.{Host, Steps, finished, failing, row, continue_call}
use rsqlite_rsync.Gateway.Engine.Binding.{bind_parameters, first_step}
use rsqlite_rsync.Gateway.Engine.Query.{Row}
use rsqlite_rsync.Gateway.Engine.Batch.{
  BatchTransactionMode, no_transaction, deferred, immediate, exclusive, use_tx, begin_sql,
  StatementResult, is_failed, BatchResponse, all_rows, read_result, write_result, run_bound,
  run_prepared, run_statement, Ran, push_result, after_statement, run_statements, is_ok, end_batch,
  batch_on,
}

-- SQLite's transactions: the content that other connections read, and whether a connection is in a
-- transaction.
pub record Transactions (h : Host) : Type 1 where
  pub Content : Type 0
  pub content : h.World → Content
  pub Active : h.Conn → h.World → Type 0
  -- SQL that neither begins nor ends a transaction.
  pub Plain : List Char → Type 0

module _ (h : Host) (t : Transactions h) where
  open h use {World, Conn, Prepared, exec, prepare, steps}
  open t use {Content, content, Active, Plain}

  -- The state after each step: in the transaction still, or after an error, and nothing is visible.
  abbrev pub Hidden : Conn → Content → Steps World → Type 0
  Hidden conn before (finished w) = Active conn w × (content w ≡ before)
  Hidden conn before (failing w e) = content w ≡ before
  Hidden conn before (row w vs rest) =
      Active conn w × (content w ≡ before) × Hidden conn before rest

  -- What SQLite documents of transactions: BEGIN starts one or fails and changes no content; a plain
  -- statement in it shows nothing; ROLLBACK and a failing COMMIT show nothing.
  pub record Isolated : Type 0 where
    pub begins :
        (conn : Conn) (mode : BatchTransactionMode) (w : World)
        → (content (exec conn (begin_sql mode) w).0 ≡ content w)
          × ((exec conn (begin_sql mode) w).1 ≡ ok tt
              → Active conn (exec conn (begin_sql mode) w).0)
    pub hides :
        (conn : Conn) (stmt : Statement) (w0 w : World) (p bound : Prepared)
        → Plain stmt.sql
        → prepare conn stmt.sql w0 ≡ ok p
        → bind_parameters h p stmt.parameters ≡ ok bound
        → Active conn w
        → Hidden conn (content w) (steps bound w)
    pub rolls_back : (conn : Conn) (w : World) → content (exec conn "ROLLBACK" w).0 ≡ content w
    pub commit_fails :
        (conn : Conn) (w : World)
        → is_ok (exec conn "COMMIT" w).1 ≡ false
        → content (exec conn "COMMIT" w).0 ≡ content w

  abbrev pub AllPlain : List Statement → Type 0
  AllPlain [] = Unit
  AllPlain (s ∷ ss) = Plain s.sql × AllPlain ss

  abbrev pub NoneFailed : List StatementResult → Type 0
  NoneFailed [] = Unit
  NoneFailed (r ∷ rs) = (is_failed r ≡ false) × NoneFailed rs

  module _ (isolated : Isolated) (generation : ℕ) (elapsed : ℕ → ℕ) (conn : Conn) where
    -- After a statement: in the transaction unless it failed, and nothing is visible.
    abbrev Quiet : Content → World × Result StatementResult → Type 0
    Quiet before (w, ok r) = (content w ≡ before) × (is_failed r ≡ false → Active conn w)
    Quiet before (w, err e) = ⊥
    Quiet before (w, panic) = Unit

    read-Quiet :
        (bound : Prepared) (index : ℕ) (before : Content) (rows : List Row) (s : Steps World)
        → Hidden conn before s
        → Quiet before
            (read_result h generation elapsed bound index (all_rows h generation elapsed rows s))
    unfolding all_rows
    read-Quiet bound index before rows (finished w) (a, c) = (c, λ _. a)
    read-Quiet bound index before rows (failing w e) c = (c, λ f. cc)
    read-Quiet bound index before rows (row w vs rest) (a, c, hidden) =
        read-Quiet bound index before (rows ++ map sql_value_to_proto vs ∷ []) rest hidden

    write-Quiet :
        (index : ℕ) (before : Content) (s : Steps World)
        → Hidden conn before s
        → Quiet before (write_result h generation elapsed conn index (first_step h s))
    write-Quiet index before (finished w) (a, c) = (c, λ _. a)
    write-Quiet index before (failing w e) c = (c, λ f. cc)
    write-Quiet index before (row w vs rest) (a, c, hidden) = (c, λ _. a)

    statement-Quiet :
        (index : ℕ) (stmt : Statement) (w : World)
        → Plain stmt.sql
        → Active conn w
        → Quiet (content w) (run_statement h generation elapsed conn index stmt w)
    unfolding run_statement
    statement-Quiet index stmt w plain active = prepared (prepare conn stmt.sql w) refl
      where
        bound :
            (p : Prepared) (b : Bool) (r : Result Prepared)
            → prepare conn stmt.sql w ≡ ok p
            → bind_parameters h p stmt.parameters ≡ r
            → Quiet (content w) (run_bound h generation elapsed conn index b r w)
        bound p true (ok q) e e' =
            read-Quiet q index (content w) [] (steps q w)
              (isolated.hides conn stmt w w p q plain e e' active)
        bound p false (ok q) e e' =
            write-Quiet index (content w) (steps q w)
              (isolated.hides conn stmt w w p q plain e e' active)
        bound p b (err x) e e' = (refl, λ _. active)
        bound p b panic e e' = tt

        prepared :
            (r : Result Prepared)
            → prepare conn stmt.sql w ≡ r
            → Quiet (content w) (run_prepared h generation elapsed conn index stmt r w)
        prepared (ok p) e = bound p (h.is_readonly p) (bind_parameters h p stmt.parameters) e refl
        prepared (err x) e = (refl, λ _. active)
        prepared panic e = tt

    -- After the loop: an error and nothing visible, or every statement done in the transaction.
    abbrev Looped : Content → ℕ → Ran h generation elapsed → Type 0
    Looped before n (w, ok (rs, e)) =
        (content w ≡ before)
        × ((e ≡ true) ⊎ ((e ≡ false) × Active conn w × NoneFailed rs × (length rs ≡ n)))
    Looped before n (w, err e) = ⊥
    Looped before n (w, panic) = Unit

    Looped-push :
        (before : Content) (n : ℕ) (r : StatementResult) (x : Ran h generation elapsed)
        → is_failed r ≡ false
        → Looped before n x
        → Looped before (suc n) (push_result h generation elapsed r x)
    Looped-push before n r (w, ok (rs, e)) good (c, inl bad) = (c, inl bad)
    Looped-push before n r (w, ok (rs, e)) good (c, inr (a, b, d, l)) =
        (c, inr (a, b, (good, d), ap suc l))
    Looped-push before n r (w, err e) good l = l
    Looped-push before n r (w, panic) good l = tt

    after-Looped :
        (before : Content) (n : ℕ) (x : World × Result StatementResult)
        (next : Bool → World → Ran h generation elapsed)
        → Quiet before x
        → ((w : World) → content w ≡ before → Active conn w → Looped before n (next false w))
        → Looped before (suc n) (after_statement h generation elapsed true false x next)
    after-Looped before n (w, ok r) next (c, a) later = by_failure (is_failed r) refl
      where
        by_failure :
            (b : Bool)
            → is_failed r ≡ b
            → Looped before (suc n) (
                if b && true
                then (w, ok (r ∷ [], true))
                else push_result h generation elapsed r (next (false || b) w))
        by_failure true e = (c, inl refl)
        by_failure false e = Looped-push before n r (next false w) e (later w c (a e))
    after-Looped before n (w, err e) next q later = absurd q
    after-Looped before n (w, panic) next q later = tt

    run-Looped :
        (before : Content) (index : ℕ) (stmts : List Statement) (w : World)
        → AllPlain stmts
        → content w ≡ before
        → Active conn w
        → Looped before
            (length stmts)
            (run_statements h generation elapsed conn true index false stmts w)
    unfolding run_statements
    run-Looped before index [] w plain c a = (c, inr (refl, a, tt, refl))
    run-Looped before index (s ∷ ss) w (p, plain) c a =
        after-Looped before (length ss) (run_statement h generation elapsed conn index s w) _
          (subst (λ x. Quiet x (run_statement h generation elapsed conn index s w)) c
            (statement-Quiet index s w p a))
          (λ v c' a'. run-Looped before (suc index) ss v plain c' a')

    -- Committed with every statement done, or not committed and nothing visible.
    abbrev pub AllOrNothing : Content → List Statement → World × Result BatchResponse → Type 0
    AllOrNothing before stmts (w, ok r) =
        ((r.committed ≡ true) × NoneFailed r.results × (length r.results ≡ length stmts))
        ⊎ ((r.committed ≡ false) × (content w ≡ before))
    AllOrNothing before stmts (w, err e) = content w ≡ before
    AllOrNothing before stmts (w, panic) = Unit

    end-AllOrNothing :
        (before : Content) (stmts : List Statement) (x : Ran h generation elapsed)
        → Looped before (length stmts) x
        → AllOrNothing before stmts (end_batch h generation elapsed conn true true x)
    end-AllOrNothing before stmts (w, ok (rs, true)) (c, l) =
        inr (refl, isolated.rolls_back conn w ∙ c)
    end-AllOrNothing before stmts (w, ok (rs, false)) (c, inl e) = cc
    end-AllOrNothing before stmts (w, ok (rs, false)) (c, inr (e, a, d, l)) =
        elim (Bool-cases (is_ok (exec conn "COMMIT" w).1)) [
          | inl done ↦ inl (done, d, l)
          | inr failed ↦ inr (failed, isolated.commit_fails conn w failed ∙ c)
        ]
    end-AllOrNothing before stmts (w, err e) l = absurd l
    end-AllOrNothing before stmts (w, panic) l = tt

    begun-AllOrNothing :
        (stmts : List Statement) (w : World) (x : World × Result (Unit {0}))
        → AllPlain stmts
        → content x.0 ≡ content w
        → (x.1 ≡ ok tt → Active conn x.0)
        → AllOrNothing (content w) stmts (
            continue_call x (λ _ w1.
              end_batch h generation elapsed conn true true
                (run_statements h generation elapsed conn true 0 false stmts w1)))
    begun-AllOrNothing stmts w (v, ok u) plain c a =
        end-AllOrNothing (content w) stmts _ (run-Looped (content w) 0 stmts v plain c (a refl))
    begun-AllOrNothing stmts w (v, err e) plain c a = c
    begun-AllOrNothing stmts w (v, panic) plain c a = tt

    -- A batch with a transaction mode that stops on errors, of statements that neither begin nor end
    -- a transaction, is all or nothing on an open connection: it is reported as committed, every
    -- statement has a result and none of them failed; or it is reported as not committed, or as an
    -- error, and what other connections read is as before.
    pub batch_atomic :
        (mode : BatchTransactionMode) (stmts : List Statement) (w : World)
        → use_tx mode ≡ true
        → AllPlain stmts
        → AllOrNothing (content w) stmts (batch_on h generation elapsed conn stmts mode true w)
    unfolding batch_on
    batch_atomic no_transaction stmts w tx plain = cc
    batch_atomic deferred stmts w tx plain =
        let b = isolated.begins conn deferred w in begun-AllOrNothing stmts w _ plain b.0 b.1
    batch_atomic immediate stmts w tx plain =
        let b = isolated.begins conn immediate w in begun-AllOrNothing stmts w _ plain b.0 b.1
    batch_atomic exclusive stmts w tx plain =
        let b = isolated.begins conn exclusive w in begun-AllOrNothing stmts w _ plain b.0 b.1
