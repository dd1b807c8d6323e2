-- ===== src/Lib.antt =====
-- Verification library of rsqlite-rsync: the synchronisation protocol, the high availability policy,
-- the SQL gateway with its client, and the command line.
--
-- rsqlite-rsync makes a replica database a copy of an origin's. Two handlers exchange messages: the
-- replica sends hashes of groups of 64 pages, the origin names the groups that differ, and for each of
-- them the replica lists the hashes of its pages and the origin sends the pages that the replica
-- lacks. Around it, a control loop on each node reads a lease and decides which node may write; the
-- gateway of the node serves requests by the role that the loop publishes, its client looks for the
-- writer, and the command line runs one sync, a batch of them or the loop.
--
-- Files and the code they are about:
--   Base          shared names, Boolean tests on numbers and bytes, lists measured in native numbers
--   Error         src/error.rs; a third outcome of `Result` stands for a panic
--   Hash          src/hash.rs; the digests of the crates sha2 and blake3 are the parameter `Digests`
--   Tuning        src/lib.rs, `SyncTuning`
--   Db            src/db.rs, `read_page` and `write_page` on the bytes of the file; what SQLite answers
--                 is the parameter `Sqlite`. Db/Pages and Db/Roundtrip: pages after a write
--   Snapshot      src/snapshot.rs
--   Protocol      src/protocol/mod.rs; rayon's parallel map is the parameter `Rayon`
--     Messages    src/protocol/messages.rs; a text is kept as its format string and values
--     Process     src/transport/mod.rs; a handler is a process whose effects are send, recv and the
--                 page write, each continued with the result of the call, errors included
--     Frames      src/protocol/messages.rs, `encode` and `decode`, src/transport/mod.rs,
--                 `try_take_framed_message`, and the loop of `recv` in src/transport/local.rs; the
--                 codec is the parameter `Bincode`
--     Origin      src/protocol/origin.rs: `Checks` has the validators, `Coarse` the group hashes,
--                 `Fine` the pages of a group and `run_with_tuning`; `Strategy`, `Acceptance` and
--                 `Acks` have the theorems about them
--     Replica     src/protocol/replica.rs, `run_with_tuning`
--     Chunks, Collect: lemmas on the loops
--   Sync          src/lib.rs, `sync_local_with_tuning` over src/transport/local.rs: a session is the two
--                 processes, the two queues and the replica's connection, and a step is one effect of
--                 one side. Its queues hold whole messages, as Frames delivers them. Steps has the
--                 runs, View what both sides compute, Listing, Groups, Asked, Sent, Apply, Exchange
--                 and Rounds the stages of a run, Correct the whole run, Orders and Schedules the
--                 interleavings, Exact, Handshake and Overrun single stages
--   KvText        src/kv_text.rs; Chars has texts as lists of characters and 64-bit numbers, Numbers and
--                 Lines the lemmas
--   Batch         src/batch.rs: the attempts of `run_one` and its delays, with Attempts and Delay the
--                 theorems; Manifest has `load_manifest`, with Valid and Accepted the theorems;
--                 Dispatch has `run_one_inner`, whose syncs are the parameter `Syncs`; Schedule has
--                 `run_batch_sync`, a run of it being a sequence of completions in any order, with
--                 Sorted and Report the theorems
--   Gateway       src/gateway: Status the metadata and `Status` of tonic, with the parameter `Tonic`;
--                 Auth auth.rs; Host the calls into SQLite and the file system, as the parameter `Host`;
--                 Values, Paths and Engine engine.rs, with Binding the connections, parameters and
--                 `execute`, Query the queries, Batch the batches and Drop the deletions; Server
--                 server.rs, whose handlers check the lease and call the engine; Replication
--                 replication.rs, the sessions that are started, with Admitted the theorem
--   Client        crates/rsqlite-rsync-client: Discovery the choice of the node, Retry the connection and
--                 the loop of attempts, with Attempts, Termination, Repeats, Next and Redirect the
--                 theorems
--   Endpoint      src/endpoint.rs; Address has the standard library's reader of IP addresses, Remote
--                 and Whole the theorems
--   Ha            src/ha.rs: Lease the records, LeaseFile the lease and ledger files, Fence the two
--                 checks, Runtime the role of a node and the plan of actions, Controller the ticks
--                 and the executors
--   Main          src/main.rs: `run`, with Same the comparison with `run_one_inner`; BatchMode has
--                 `run_batch_mode`, with the theorem in Outcome; Node has the executor, the startup
--                 fence and the body of the loop of `run_ha_mode`, with Announced, Agrees, Stuck and
--                 Startup the theorems
--   Tests         the theorems at concrete inputs
--
-- Numbers and bounds. Numbers are natural numbers. The 32-bit arithmetic on group and page numbers
-- wraps as in a release build (`u32`), and theorems on whole databases assume at most 2^32 - 128
-- pages; the 64-bit additions of the policy saturate. The loop over chunks runs on fuel: one round
-- for each item, which is enough since a chunk has at least one. A number is displayed on fuel
-- too: twenty digits are enough for 64 bits. The client's loop of attempts runs on as much fuel as there
-- may be attempts. All other loops are structural; the rows of a query are a finite list of steps.
--
-- Not modelled. I/O errors of a page write and of a transport, the timeout and the 8 MiB bound of the
-- local stream; SQLite beyond its answers; logging; the SSH, stdio and gRPC transports; waiting for a
-- lock and the listing of databases of the gateway; the blocking client, the unified client and the
-- pool crate; the parsing of the command line, the client's commands, the start of the servers and
-- the readiness endpoint of the HA mode, and the Kubernetes lease. The handlers of a sync hash before they write,
-- so the answers of SQLite are those for the connection as it was opened.
pub mod Base
pub mod Protocol
pub mod Error
pub mod Hash
pub mod Tuning
pub mod Db
pub mod Snapshot
pub mod Sync
pub mod KvText
pub mod Batch
pub mod Endpoint
pub mod Main
pub mod Gateway
pub mod Client
pub mod Ha
pub mod Tests
