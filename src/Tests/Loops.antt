-- ===== src/Tests/Loops.antt =====
-- Passes of the loop of an HA node: a promotion that is seen by the gateway, and one whose action fails.
use Prim.Native.Char.{Char}
use rsqlite_rsync.Base.{
  ℕ, String, ◌≡◌, ◌≢◌, refl, List, [], Option, none, some, true, false, zero, suc, ◌+◌, arith,
}
use rsqlite_rsync.KvText.Chars.{chars}
use rsqlite_rsync.Ha.Lease.{LeaseRecord, writer, replica}
use rsqlite_rsync.Ha.Fence.Rules.{MayWrite}
use rsqlite_rsync.Ha.Runtime.{new_shared}
use rsqlite_rsync.Ha.Controller.{
  Call, HaActionExecutor, HaController, LeaseRead, report, tick_with_reader,
}
use rsqlite_rsync.Error.{ok}
use rsqlite_rsync.Ha.Controller.{tick}
use rsqlite_rsync.Main.Node.{Shared, Node, tick_node, not_configured, require_writer, startup_fence}
use rsqlite_rsync.Main.Node.Startup.{Passes, Refreshed, startup_fence-Passes}
use rsqlite_rsync.Main.Node.Announced.{exec}
use rsqlite_rsync.Main.Node.Agrees.{InStep, Agrees, tick_node-Agrees}
use rsqlite_rsync.Main.Node.Stuck.{IsStuck, read_of, writer-IsStuck}

abbrev lease : LeaseRecord
lease = record { holder_node_id = "node-a"; generation = 3; renewed_at_secs = 100; ttl_secs = 10 }

abbrev waiting : HaController
waiting = record {
  runtime = record {
    node_id = "node-a";
    role = replica;
    local_generation = 0;
    lease = none;
    freshness =
        some (record { source_node_id = "node-b"; source_generation = 2; synced_at_secs = 99 });
  };
  promotion_config = record { max_freshness_age_secs = 10; max_future_skew_secs = 2 };
  min_source_generation = 0;
  stop_on_error = true;
}

-- An executor that counts its calls; the first may fail.
abbrev first_result : Option String → ℕ → Option String
first_result e zero = e
first_result e (suc n) = none

abbrev counted : Option String → Call ℕ String
counted e n = (n + 1, first_result e n)

abbrev counting : Option String → HaActionExecutor ℕ String
counting e = record {
  ensure_replica = counted e;
  enable_writer = λ generation. counted e;
  disable_writer = λ reason. counted e;
  keep_writer = counted e;
  record_promotion_denied = λ violation. counted e;
}

abbrev no_write : List Char → String → Call ℕ String
no_write path s n = (n, none)

abbrev before : Shared ℕ
before = record { inner = 0; readiness_state = false; ha_state = new_shared "node-a" true }

before-InStep : InStep waiting.runtime before
unfolding new_shared
before-InStep = record {
  same_node = refl;
  same_role = refl;
  readiness = refl;
  same_generation = λ w. cc;
}

no_failures :
    (report
      (tick_with_reader
        (exec (counting none) no_write none)
        waiting
        105
        (read_of String lease)
        before).2).failures
    ≡ []
unfolding tick_with_reader new_shared rsqlite_rsync.Main.Node.readiness_aware_executor
no_failures = refl

tick_node-Agrees_example : Agrees 105 (some lease) (
    tick_node
      (exec (counting none) no_write none)
      (chars "sqlite-ha")
      50051
      105
      (read_of String lease)
      waiting
      before)
tick_node-Agrees_example =
    tick_node-Agrees (counting none) no_write none (chars "sqlite-ha") 50051 105
      (LeaseRead.read (some lease)) waiting before before-InStep no_failures

-- The promotion whose first action fails.
abbrev after_failure : Node ℕ
after_failure =
    tick_node (exec (counting (some "disk full")) no_write none) (chars "sqlite-ha") 50051 105
      (read_of String lease) waiting before

after_failure_state :
    (after_failure.controller.runtime.role ≡ writer)
    × (after_failure.controller.runtime.local_generation ≡ 3)
    × (after_failure.shared.ha_state.generation ≡ 0)
    × (after_failure.shared.ha_state.role ≡ replica)
unfolding tick_node tick_with_reader new_shared rsqlite_rsync.Main.Node.readiness_aware_executor
after_failure_state = (refl, refl, refl, refl)

-- The next pass.
still_writes : MayWrite 106 "node-a" 3 lease
still_writes = record { in_time = ground arith; holder = refl; current = refl }

generations_differ : after_failure.shared.ha_state.generation ≢ 3
generations_differ e = let (role, generation, seen, shown) = after_failure_state in cc

writer-IsStuck_example :
    IsStuck after_failure.controller.runtime
      (tick_node
        (exec (counting (some "disk full")) no_write none)
        (chars "sqlite-ha")
        50051
        106
        (read_of String lease)
        after_failure.controller
        after_failure.shared)
      after_failure.shared.ha_state.generation
unfolding tick_node tick_with_reader
writer-IsStuck_example =
    writer-IsStuck (counting (some "disk full")) no_write none (chars "sqlite-ha") 50051 106 String
      lease after_failure.controller after_failure.shared refl still_writes generations_differ

-- The start of a node that must be the writer.
abbrev started : HaController × Shared ℕ
started = (
  (tick (exec (counting none) no_write none) waiting 105 (some lease) before).0,
  (tick (exec (counting none) no_write none) waiting 105 (some lease) before).1,
)

starts :
    startup_fence
      (exec (counting none) no_write none)
      require_writer
      not_configured
      (ok 105)
      (read_of String lease)
      waiting
      before
    ≡ ok started
unfolding startup_fence tick new_shared rsqlite_rsync.Main.Node.readiness_aware_executor
starts = refl

startup_fence-Passes_example :
    (now : ℕ) × (c : HaController) × (ok 105 ≡ ok now)
    × Refreshed not_configured waiting c
    × ((report
          (tick_with_reader
            (exec (counting none) no_write none)
            c
            now
            (read_of String lease)
            before).2).failures
        ≡ [])
    × Passes (counting none) no_write none waiting before now (some lease) started
startup_fence-Passes_example =
    startup_fence-Passes (counting none) no_write none not_configured (ok 105)
      (read_of String lease) waiting before started starts
