-- ===== src/Tests/Replications.antt =====
-- A push of replication to a node that is not part of a cluster, and one to an active writer.
use rsqlite_rsync.Base.{◌≡◌, refl, [], Option, none, some, true}
use rsqlite_rsync.KvText.Chars.{chars}
use rsqlite_rsync.Ha.Lease.{writer}
use rsqlite_rsync.Ha.Runtime.{HaSharedState}
use rsqlite_rsync.Gateway.Status.{failed_precondition, status, says}
use rsqlite_rsync.Gateway.Server.{replied, rejected}
use rsqlite_rsync.Gateway.Replication.{
  ReplicationServer, SyncInit, init_message, Session, as_origin, sync,
}
use rsqlite_rsync.Gateway.Replication.Admitted.{Admits, sync-Admits}
use rsqlite_rsync.Tests.Gateways.{plain_tonic, counting}

abbrev server : Option HaSharedState → ReplicationServer
server state = record {
  engine = record { data_dir = chars "/data" };
  auth = record { token = some (chars "secret") };
  ha_state = state;
}

abbrev push : SyncInit
push = record { database = chars " a.db"; client_role = 2; auth_token = chars "secret" }

abbrev session : Session
session = record { client_role = as_origin; db_path = chars "/data/a.db"; db_name = chars " a.db" }

started :
    (sync plain_tonic counting (server none) [] 105 (init_message push) (7, none)).1
    ≡ replied session
unfolding sync chars
started = refl

sync-Admits_example : Admits plain_tonic counting (server none) [] 105 (init_message push) session
sync-Admits_example =
    sync-Admits plain_tonic counting (server none) [] 105 (init_message push) (7, none) session
      started

abbrev active : HaSharedState
active = record {
  node_id = "node-a";
  role = writer;
  generation = 3;
  active_leader_id = none;
  active_leader_endpoint = none;
  lease_record =
      some (record {
        holder_node_id = "node-a";
        generation = 3;
        renewed_at_secs = 100;
        ttl_secs = 10;
      });
  allow_replica_reads = true;
}

refused :
    (sync plain_tonic counting (server (some active)) [] 105 (init_message push) (7, none)).1
    ≡ rejected
        (status failed_precondition (says "cannot push replication to an active writer node"))
unfolding sync chars rsqlite_rsync.Ha.Fence.enforce_write_fence
refused = refl
