-- ===== src/Tests/Clients.antt =====
-- A client whose first node answers that it is not the leader and names the leader.
use Prim.Native.Char.{Char}
use rsqlite_rsync.Base.{ℕ, zero, suc, ◌≡◌, refl, max, List, [], ◌∷◌, none, some, true, false}
use rsqlite_rsync.KvText.Chars.{chars}
use rsqlite_rsync.Ha.Runtime.{HaSharedState}
use rsqlite_rsync.Ha.Lease.{replica}
use rsqlite_rsync.Gateway.Status.{Status}
use rsqlite_rsync.Gateway.Server.{Reply, replied, rejected, not_leader_status}
use rsqlite_rsync.Client.Discovery.{ClientConfig, direct, Net, success}
use rsqlite_rsync.Client.Retry.{
  SqlGatewayClient, turn, retries, new_client, process_leader_header, retry_loop,
}
use rsqlite_rsync.Client.Retry.Termination.{Returns, Within, retry_loop_returns}
use rsqlite_rsync.Client.Retry.Repeats.{Sent, retry_loop_safe}
use rsqlite_rsync.Tests.Gateways.{plain_tonic, counting}

abbrev follower : HaSharedState
follower = record {
  node_id = "n1";
  role = replica;
  generation = 4;
  active_leader_id = some "n2";
  active_leader_endpoint = some "http://n2:1";
  lease_record = none;
  allow_replica_reads = false;
}

abbrev config : ClientConfig
config = record {
  discovery = direct (chars "http://n1:1");
  max_retries = 3;
  initial_backoff_ms = 100;
  max_backoff_ms = 2000;
  auth_token = none;
}

abbrev net : ℕ → Net (List Char)
net n = record { probe = λ ep value. none; resolve = none; connects = λ ep. true }

-- The first attempt meets the follower.
abbrev op : ℕ → List Char → Reply (List Char) ℕ
op zero ep = replied 0
op (suc zero) ep = rejected (not_leader_status plain_tonic counting follower)
op (suc (suc n)) ep = replied 7

retry_loop_returns_example :
    Returns plain_tonic config net op false
      (retry_loop plain_tonic config net op false new_client)
      (Within plain_tonic config net op false (max 3 1) (max 100 2000))
retry_loop_returns_example = retry_loop_returns plain_tonic config net op false new_client

retry_loop_safe_example :
    Returns plain_tonic config net op false
      (retry_loop plain_tonic config net op false new_client)
      (Sent plain_tonic config net op false)
retry_loop_safe_example = retry_loop_safe plain_tonic config net op false refl new_client

-- The second attempt goes to the leader, and its answer is the result.
retry_follows :
    retry_loop plain_tonic config net op false new_client
    ≡ some (record {
      result = success 7;
      client = record {
        current_endpoint = some (chars "http://n2:1");
        tonic_client = some (chars "http://n2:1");
      };
      calls =
          (chars "http://n1:1", rejected (not_leader_status plain_tonic counting follower))
          ∷ (chars "http://n2:1", replied 7)
          ∷ [];
      pauses = 100 ∷ [];
    })
unfolding retry_loop new_client not_leader_status
retry_follows = refl

-- A client that is connected to the follower.
abbrev connected : SqlGatewayClient
connected = record {
  current_endpoint = some (chars "http://n1:1");
  tonic_client = some (chars "http://n1:1");
}

abbrev refusal : Status (List Char)
refusal = not_leader_status plain_tonic counting follower

-- The refused attempt, and the one that reaches the leader.
first_refused :
    turn plain_tonic config net op false 1 connected
    ≡ retries
        (process_leader_header plain_tonic connected refusal)
        ((chars "http://n1:1", rejected refusal) ∷ [])
unfolding turn not_leader_status
first_refused = refl
