-- ===== src/Tests/Commands.antt =====
-- The command line: a manifest, a batch of one entry, and plain syncs.
use Prim.Native.Char.{Char}
use rsqlite_rsync.Base.{ℕ, ◌≡◌, refl, ◌↔◌, List, [], ◌∷◌, none, some, Bool, true, false, ◌+◌}
use rsqlite_rsync.Error.{ok, err}
use rsqlite_rsync.KvText.Chars.{chars}
use rsqlite_rsync.Endpoint.{parse}
use rsqlite_rsync.Batch.{BatchRuntimeOptions, Attempt, succeeded}
use rsqlite_rsync.Batch.Manifest.{
  auto, BatchEntryWire, Parsed, parsed, malformed, manifest_text, Formats, parse_text,
  load_manifest, spec_of, extension, fault_error, zero_timeout,
}
use rsqlite_rsync.Batch.Manifest.Accepted.{Loads, load_manifest-Loads}
use rsqlite_rsync.Batch.Schedule.{
  Running, start, complete, Runs, begun, then_completes, completes, report,
}
use rsqlite_rsync.Batch.Schedule.Report.{in_order}
use rsqlite_rsync.Batch.Dispatch.{Syncs, run_one_inner}
use rsqlite_rsync.Main.{Args, Modes, run}
use rsqlite_rsync.Main.Same.{IsSync, run-run_one_inner, dry_run_keeps}
use rsqlite_rsync.Main.BatchMode.{check_args, options_of, run_batch_mode}
use rsqlite_rsync.Main.BatchMode.Outcome.{AllSucceed, batch_mode_iff}

abbrev wire : BatchEntryWire
wire = record {
  name = none;
  origin = chars "a.db";
  replica = chars "u@h:/b.db";
  dry_run = none;
  retries = none;
  timeout_secs = some 5;
  retry_backoff_ms = some 10;
  retry_backoff_max_ms = some 10;
  retry_jitter_pct = some 100;
  grpc_auth_token = none;
}

abbrev bad_wire : BatchEntryWire
bad_wire = record wire { timeout_secs = some 0 }

-- The first character of the text says which manifest it is.
abbrev read_as_toml : List Char → Parsed
read_as_toml [] = malformed (chars "empty")
read_as_toml (c ∷ []) = parsed (record { version = none; syncs = wire ∷ [] })
read_as_toml (c ∷ d ∷ s) = parsed (record { version = none; syncs = wire ∷ bad_wire ∷ [] })

abbrev formats_of : List Char → Formats
formats_of content = record {
  read_to_string = λ path. manifest_text content;
  from_json = λ s. malformed (chars "no json");
  from_yaml = λ s. malformed (chars "no yaml");
  from_toml = read_as_toml;
}

load_manifest-Loads_example :
    Loads
      (chars "m.txt")
      (parse_text (formats_of (chars "m")) auto (chars "m.txt") (manifest_text (chars "m")))
      (load_manifest (formats_of (chars "m")) (chars "m.txt") auto)
load_manifest-Loads_example = load_manifest-Loads (formats_of (chars "m")) (chars "m.txt") auto

extensions :
    (extension (chars "d.x/m.tar.gz") ≡ some (chars "gz"))
    × (extension (chars "d.x/.json") ≡ none)
    × (extension (chars "d.x/m") ≡ none)
    × (extension (chars "m.json/") ≡ some (chars "json"))
unfolding extension chars rsqlite_rsync.Gateway.Paths.components rsqlite_rsync.Endpoint.split_last
    rsqlite_rsync.Gateway.Paths.segments
extensions = (refl, refl, refl, refl)

loaded : load_manifest (formats_of (chars "m")) (chars "m.txt") auto ≡ ok (spec_of wire ∷ [])
unfolding load_manifest chars
loaded = refl

refused :
    load_manifest (formats_of (chars "mm")) (chars "m.txt") auto
    ≡ err (fault_error (chars "m.txt") 1 zero_timeout)
unfolding load_manifest chars
refused = refl

abbrev arguments : Args (Unit {0})
arguments = record {
  command = none;
  origin = none;
  replica = none;
  dry_run = false;
  grpc_auth_token = none;
  batch_manifest = some (chars "m.txt");
  batch_format = auto;
  batch_jobs = 2;
  batch_retries = 0;
  batch_timeout_secs = 0;
  batch_retry_backoff_ms = 0;
  batch_retry_backoff_max_ms = 0;
  batch_retry_jitter_pct = 0;
  server = false;
  server_origin = false;
  server_replica = false;
  ha = false;
  ha_grpc_auth_token = none;
}

abbrev works : ℕ → ℕ → Attempt
works index n = succeeded

abbrev clock : ℕ → ℕ → ℕ
clock index n = n

abbrev options : BatchRuntimeOptions
options = options_of arguments

abbrev done : Running
done = complete options works clock (start (spec_of wire ∷ []) options) (0, spec_of wire) []

done_runs : Runs options works clock (start (spec_of wire ∷ []) options) 1 done
unfolding start complete options_of
done_runs = then_completes begun (completes [] (0, spec_of wire) [] refl)

done_ended : done.in_flight ≡ []
unfolding start complete options_of
done_ended = refl

arguments_checked : check_args arguments ≡ ok (chars "m.txt")
unfolding check_args
arguments_checked = refl

batch_mode_iff_example :
    (run_batch_mode arguments (formats_of (chars "m")) (λ specs o. report done.results) ≡ ok tt)
    ↔ AllSucceed (in_order options works clock (spec_of wire ∷ []))
batch_mode_iff_example =
    batch_mode_iff arguments (formats_of (chars "m")) (chars "m.txt") (spec_of wire ∷ []) works
      clock (λ specs o. report done.results) arguments_checked loaded done_runs done_ended refl

-- Syncs that leave a number for what they do.
abbrev numbered : Syncs
numbered = record {
  World = ℕ;
  sync_local = λ o r w. (w + 1, ok tt);
  push_sync = λ o h p w. (w + 10, ok tt);
  pull_sync = λ h p r w. (w + 100, ok tt);
  grpc_push_sync = λ o u d t w. (w + 1000, ok tt);
  grpc_pull_sync = λ r u d t w. (w + 10000, ok tt);
  read_page_size = λ path w. ok 4096;
  read_page_count = λ path w. ok 3;
  exists = λ path w. true;
}

abbrev no_modes : Modes ℕ (Unit {0})
no_modes = record {
  run_command = λ c w. (w, ok tt);
  run_batch_mode = λ w. (w, ok tt);
  run_ha_mode = λ w. (w, ok tt);
  server_replica_mode = λ path w. (w, ok tt);
  server_origin_mode = λ path w. (w, ok tt);
}

abbrev plain_sync : Bool → Args (Unit {0})
plain_sync dry = record arguments {
  batch_manifest = none;
  dry_run = dry;
  origin = some (chars "a.db");
  replica = some (chars "u@h:/b.db");
}

plain_sync-IsSync : (dry : Bool) → IsSync (plain_sync dry) (chars "a.db") (chars "u@h:/b.db")
plain_sync-IsSync dry = record {
  no_command = refl;
  no_batch = refl;
  no_ha = refl;
  no_replica_server = refl;
  no_server = refl;
  no_origin_server = refl;
  origin = refl;
  replica = refl;
}

run-run_one_inner_example :
    run numbered no_modes (plain_sync false) 0
    ≡ run_one_inner numbered (spec_of wire) false options 0
unfolding options_of parse chars
run-run_one_inner_example =
    run-run_one_inner numbered no_modes (plain_sync false) 0 (spec_of wire) options
      (plain_sync-IsSync false) refl refl refl

pushed : run numbered no_modes (plain_sync false) 0 ≡ (10, ok tt)
unfolding run chars
pushed = refl

dry_run_keeps_example :
    ((run numbered no_modes (plain_sync true) 0).0 ≡ 0)
    × ((run_one_inner numbered (spec_of wire) true options 0).0 ≡ 0)
dry_run_keeps_example =
    dry_run_keeps numbered no_modes (plain_sync true) 0 (spec_of wire) options
      (plain_sync-IsSync true) refl
