-- ===== src/Ha/LeaseFile.antt =====
-- src/ha.rs: the lease file: `serialize_lease_record`, `parse_lease_record`, `parse_freshness_ledger` and
-- `FileLeaseReader`.
pub mod Keys
pub mod Roundtrip
use Prim.Native.Char.{Char}
use rsqlite_rsync.Base.{ℕ, String, List, [], ◌∷◌, ◌++◌, Option, none, some}
use rsqlite_rsync.KvText.{
  KvMap, KvResult, good, then_kv, FileRead, parse_kv_lines, require_u64, require_non_empty,
  read_optional_kv_text,
}
use rsqlite_rsync.KvText.Chars.{chars, text, display}
use rsqlite_rsync.Ha.Lease.{LeaseRecord, FreshnessLedger}

-- `{key}={value}\n`.
abbrev pub line_of : String → List Char → List Char
line_of key value = chars key ++ "=" ∷ value ++ chars "\n"

unfoldable pub serialize_lease_record : LeaseRecord → List Char
unfolding chars display
serialize_lease_record lease =
    line_of "holder_node_id" (chars lease.holder_node_id)
    ++ (line_of "generation" (display lease.generation)
        ++ (line_of "renewed_at_secs" (display lease.renewed_at_secs)
            ++ line_of "ttl_secs" (display lease.ttl_secs)))

-- The record of a map of lines.
unfoldable pub lease_of_map : KvMap → KvResult LeaseRecord
unfolding require_non_empty require_u64 chars
lease_of_map map = then_kv (require_non_empty map (chars "holder_node_id")) λ holder_node_id.
    then_kv (require_u64 map (chars "generation")) λ generation.
      then_kv (require_u64 map (chars "renewed_at_secs")) λ renewed_at_secs.
        then_kv (require_u64 map (chars "ttl_secs")) λ ttl_secs. good (record {
          holder_node_id = text holder_node_id;
          generation = generation;
          renewed_at_secs = renewed_at_secs;
          ttl_secs = ttl_secs;
        })

unfoldable pub parse_lease_record : List Char → KvResult LeaseRecord
unfolding parse_kv_lines lease_of_map chars
parse_lease_record input =
    then_kv
      (parse_kv_lines (chars "lease")
        (chars "holder_node_id"
          ∷ chars "generation"
          ∷ chars "renewed_at_secs"
          ∷ chars "ttl_secs"
          ∷ [])
        input)
      lease_of_map

unfoldable pub parse_freshness_ledger : List Char → KvResult FreshnessLedger
unfolding parse_kv_lines require_non_empty require_u64 chars
parse_freshness_ledger input =
    then_kv
      (parse_kv_lines (chars "freshness")
        (chars "source_node_id" ∷ chars "source_generation" ∷ chars "synced_at_secs" ∷ []) input)
      λ map. then_kv (require_non_empty map (chars "source_node_id")) λ source_node_id.
        then_kv (require_u64 map (chars "source_generation")) λ source_generation.
          then_kv (require_u64 map (chars "synced_at_secs")) λ synced_at_secs. good (record {
            source_node_id = text source_node_id;
            source_generation = source_generation;
            synced_at_secs = synced_at_secs;
          })

unfoldable pub parse_present : Option (List Char) → KvResult (Option LeaseRecord)
unfolding parse_lease_record
parse_present none = good none
parse_present (some input) = then_kv (parse_lease_record input) λ lease. good (some lease)

-- `FileLeaseReader::read_lease`, on what the read of the file gave.
unfoldable pub read_lease : FileRead → KvResult (Option LeaseRecord)
unfolding read_optional_kv_text parse_present
read_lease file = then_kv (read_optional_kv_text file) parse_present
