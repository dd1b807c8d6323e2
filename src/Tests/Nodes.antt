-- ===== src/Tests/Nodes.antt =====
-- Nodes, leases and plans of the high availability policy.
use text.Mathlib.TextEquality.{eq_iff}
use rsqlite_rsync.Base.{ℕ, String, ◌+◌, ◌≡◌, ◌≢◌, ◌↔◌, refl, List, [], ◌∷◌, some, none, true}
use rsqlite_rsync.Protocol.Messages.{Text, format}
use rsqlite_rsync.Ha.Lease.{
  LeaseRecord, FreshnessLedger, PromotionConfig, HaAction, ensure_replica, disable_writer, writer,
  replica, lease_missing,
}
use rsqlite_rsync.Ha.Fence.Rules.{MayWrite}
use rsqlite_rsync.Ha.Runtime.{
  HaRuntime, HaSharedState, new, new_shared, is_writer, observe_lease_change, by_role,
}
use rsqlite_rsync.Ha.Runtime.Safety.{next, Justified, writer_iff, writer_holds, single_writer}
use rsqlite_rsync.Ha.Runtime.Observation.{
  Event, ticks, freshens, run, HoldsLease, run-new-HoldsLease, Describes, observe-Describes,
  is_writer_iff,
}
use rsqlite_rsync.Ha.Controller.{
  HaActionExecutor, HaController, execute_controller_plan, plan_tick, tick, tick_with_reader,
  failed, lease_read_failed,
}
use rsqlite_rsync.Ha.Controller.Execution.{fail_safe}
use rsqlite_rsync.Ha.Controller.Files.{FileSystem, file_action_executor}
use rsqlite_rsync.Ha.Controller.Files.Mirror.{role_text, IsReliable, tick-mirrors}

abbrev name_a : String
name_a = "node-a"

abbrev name_b : String
name_b = "node-b"

names_differ : name_a ≢ name_b
names_differ e = let same = (eq_iff name_a name_b).1 e in cc

abbrev unreadable : String
unreadable = "unreadable"

abbrev lease_of_a : LeaseRecord
lease_of_a = record {
  holder_node_id = "node-a";
  generation = 3;
  renewed_at_secs = 100;
  ttl_secs = 10;
}

abbrev policy : PromotionConfig
policy = record { max_freshness_age_secs = 10; max_future_skew_secs = 2 }

abbrev ledger : FreshnessLedger
ledger = record { source_node_id = "node-b"; source_generation = 2; synced_at_secs = 99 }

-- A replica with a fresh ledger, and a writer.
abbrev node_a : HaRuntime
node_a = record {
  node_id = "node-a";
  role = replica;
  local_generation = 0;
  lease = none;
  freshness = some ledger;
}

abbrev node_b : HaRuntime
node_b = record {
  node_id = "node-b";
  role = writer;
  local_generation = 3;
  lease = none;
  freshness = none;
}

a_writes : (next node_a 105 (some lease_of_a) 0 policy).role ≡ writer
unfolding rsqlite_rsync.Ha.Runtime.reconcile_with_outcome
a_writes = refl

single_writer_example : (next node_b 106 (some lease_of_a) 0 policy).role ≢ writer
single_writer_example =
    single_writer node_a node_b 105 106 0 0 policy policy (some lease_of_a) names_differ a_writes

writer_iff_example :
    ((next node_a 105 (some lease_of_a) 0 policy).role ≡ writer)
    ↔ ((l : LeaseRecord) × (some lease_of_a ≡ some l) × Justified node_a 105 0 policy l)
writer_iff_example = writer_iff node_a 105 0 policy (some lease_of_a)

writer_holds_example :
    (l : LeaseRecord) × (some lease_of_a ≡ some l)
    × MayWrite 105 "node-a" (next node_a 105 (some lease_of_a) 0 policy).local_generation l
writer_holds_example = writer_holds node_a 105 0 policy (some lease_of_a) a_writes

-- A node gets a ledger and then sees its lease.
abbrev events : List Event
events = freshens ledger ∷ ticks 105 (some lease_of_a) 0 policy ∷ []

events_write : (run (new "node-a") events).role ≡ writer
unfolding run rsqlite_rsync.Ha.Runtime.Observation.handle
    rsqlite_rsync.Ha.Runtime.reconcile_with_outcome rsqlite_rsync.Ha.Runtime.update_freshness new
events_write = refl

run-new-HoldsLease_example : HoldsLease (run (new "node-a") events)
run-new-HoldsLease_example = run-new-HoldsLease "node-a" events events_write

abbrev shared : HaSharedState
shared = record {
  node_id = "node-a";
  role = writer;
  generation = 3;
  active_leader_id = none;
  active_leader_endpoint = none;
  lease_record = some lease_of_a;
  allow_replica_reads = true;
}

-- An executor that counts its calls and cannot disable a writer.
abbrev counting : HaActionExecutor ℕ String
counting = record {
  ensure_replica = λ n. (n + 1, none);
  enable_writer = λ generation n. (n + 1, none);
  disable_writer = λ reason n. (n + 1, some "stuck");
  keep_writer = λ n. (n + 1, none);
  record_promotion_denied = λ violation n. (n + 1, none);
}

abbrev demotion : List HaAction
demotion = disable_writer lease_missing ∷ ensure_replica ∷ []

abbrev controller_b : HaController
controller_b = record {
  runtime = node_b;
  promotion_config = policy;
  min_source_generation = 0;
  stop_on_error = true;
}

fail_safe_example :
    ((tick_with_reader counting controller_b 106 (failed unreadable) 0).0.runtime.role ≡ replica)
    × ((tick_with_reader counting controller_b 106 (failed unreadable) 0).2
        ≡ lease_read_failed unreadable
            (execute_controller_plan counting (plan_tick controller_b 106 none).1 true 0).1)
    × ((plan_tick controller_b 106 none).1.actions ≡ demotion)
fail_safe_example = fail_safe counting controller_b 106 unreadable 0

-- A file system that holds the role state file and cannot write the audit log.
abbrev disk : FileSystem Text String
disk = record { write = λ t f. (t, none); append = λ a f. (f, some "full") }

disk-IsReliable : IsReliable disk (λ f. f)
disk-IsReliable = record {
  write_ok = λ t f. refl;
  written = λ t f ok. refl;
  append_keeps = λ a f. refl;
}

tick-mirrors_example :
    (tick (file_action_executor disk) controller_b 106 none (format "writer:{}" (3 ∷ []))).1
    ≡ role_text
        (tick
          (file_action_executor disk)
          controller_b
          106
          none
          (format "writer:{}" (3 ∷ []))).0.runtime.role
        (tick
          (file_action_executor disk)
          controller_b
          106
          none
          (format "writer:{}" (3 ∷ []))).0.runtime.local_generation
tick-mirrors_example =
    tick-mirrors disk (λ f. f) disk-IsReliable controller_b 106 none (format "writer:{}" (3 ∷ []))
      refl
