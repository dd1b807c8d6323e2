-- ===== src/Batch/Manifest.antt =====
-- src/batch.rs: `load_manifest`, the formats of a manifest and the checks of its entries. The crates serde_json,
-- serde_yaml and toml and the reading of the file are parameters.
pub mod Valid
pub mod Accepted
use Prim.Native.Char.{Char}
use rsqlite_rsync.Base.{
  ℕ, zero, suc, List, [], ◌∷◌, ◌++◌, Option, none, some, Bool, true, false, ◌&&◌, ltb, ◌==◌,
  if◌then◌else◌,
}
use rsqlite_rsync.Error.{SyncError, protocol, Result, ok, err, panic, and_then}
use rsqlite_rsync.Protocol.Messages.{format_text}
use rsqlite_rsync.KvText.Chars.{chars, display}
use rsqlite_rsync.KvText.{trim, same_word}
use rsqlite_rsync.Endpoint.{Split, split_last, is_empty}
use rsqlite_rsync.Gateway.Paths.{Component, root_dir, cur_dir, parent_dir, normal, components}
use rsqlite_rsync.Batch.{BatchSyncSpec}

pub data ManifestFormat : Type 0 where
  auto json yaml toml : ManifestFormat

pub record BatchEntryWire : Type 0 where
  pub name : Option (List Char)
  pub origin : List Char
  pub replica : List Char
  pub dry_run : Option Bool
  pub retries : Option ℕ
  pub timeout_secs : Option ℕ
  pub retry_backoff_ms : Option ℕ
  pub retry_backoff_max_ms : Option ℕ
  pub retry_jitter_pct : Option ℕ
  pub grpc_auth_token : Option (List Char)

pub record BatchManifest : Type 0 where
  pub version : Option ℕ
  pub syncs : List BatchEntryWire

-- `Result` with a text as its error.
pub data Parsed : Type 0 where
  parsed : BatchManifest → Parsed
  malformed : List Char → Parsed

-- What is read of the file.
pub data ManifestText : Type 0 where
  manifest_text : List Char → ManifestText
  unreadable : List Char → ManifestText

pub record Formats : Type 0 where
  pub read_to_string : List Char → ManifestText
  pub from_json : List Char → Parsed
  pub from_yaml : List Char → Parsed
  pub from_toml : List Char → Parsed

-- `Path::extension`: after the last dot of the file's name, unless that dot is in front.
abbrev after_dot : Split → Option (List Char)
after_dot none = none
after_dot (some ([], ext)) = none
after_dot (some (c ∷ stem, ext)) = some ext

abbrev file_name : List Component → Option (List Char)
file_name [] = none
file_name (root_dir ∷ []) = none
file_name (cur_dir ∷ []) = none
file_name (parent_dir ∷ []) = none
file_name (normal s ∷ []) = some s
file_name (c ∷ d ∷ rest) = file_name (d ∷ rest)

abbrev extension_of : Option (List Char) → Option (List Char)
extension_of none = none
extension_of (some name) = after_dot (split_last 46 name)

unfoldable pub extension : List Char → Option (List Char)
unfolding split_last components
extension path = extension_of (file_name (components path))

-- The format that the extension names.
abbrev named_format : List Char → ManifestFormat
named_format ext =
    if same_word ext (chars "json")
    then json
    else if same_word ext (chars "yaml")
    then yaml
    else if same_word ext (chars "yml")
    then yaml
    else if same_word ext (chars "toml")
    then toml
    else auto

abbrev format_by : Option (List Char) → ManifestFormat
format_by none = auto
format_by (some ext) = named_format ext

-- The error of a parse, as a text.
abbrev pub parse_error : List Char → List Char → Parsed → Parsed
parse_error path name (parsed m) = parsed m
parse_error path name (malformed error) = malformed (
    chars "failed parsing batch manifest "
    ++ (path ++ (chars " as " ++ (name ++ (chars ": " ++ error)))))

abbrev pub to_result : Parsed → Result BatchManifest
to_result (parsed m) = ok m
to_result (malformed error) = err (protocol (format_text "{error}" (error ∷ [])))

abbrev undetected : List Char → List Char → List Char → List Char → SyncError
undetected path json_error yaml_error toml_error = protocol (
    format_text
      "failed parsing batch manifest {} with auto format detection; json error: {}; yaml error: {}; toml error: {}"
      (path ∷ json_error ∷ yaml_error ∷ toml_error ∷ []))

-- One format after the other.
abbrev pub first_parsed : List Char → Parsed → Parsed → Parsed → Result BatchManifest
first_parsed path (parsed m) y t = ok m
first_parsed path (malformed json_error) (parsed m) t = ok m
first_parsed path (malformed json_error) (malformed yaml_error) (parsed m) = ok m
first_parsed path (malformed json_error) (malformed yaml_error) (malformed toml_error) =
    err (undetected path json_error yaml_error toml_error)

-- The checks of one entry, in order; the text of the first that it fails.
abbrev pub exceeds : Option ℕ → ℕ → Bool
exceeds none n = false
exceeds (some v) n = ltb n v

abbrev pub is_zero : Option ℕ → Bool
is_zero none = false
is_zero (some v) = v == 0

abbrev pub backoff_exceeds : Option ℕ → Option ℕ → Bool
backoff_exceeds none limit = false
backoff_exceeds (some base) none = false
backoff_exceeds (some base) (some limit) = ltb 0 limit && ltb limit base

pub data EntryFault : Type 0 where
  empty_origin empty_replica zero_timeout high_jitter low_backoff_limit : EntryFault

unfoldable pub check_entry : BatchEntryWire → Option EntryFault
check_entry entry =
    if is_empty (trim entry.origin)
    then some empty_origin
    else if is_empty (trim entry.replica)
    then some empty_replica
    else if is_zero entry.timeout_secs
    then some zero_timeout
    else if exceeds entry.retry_jitter_pct 100
    then some high_jitter
    else if backoff_exceeds entry.retry_backoff_ms entry.retry_backoff_max_ms
    then some low_backoff_limit
    else none

unfoldable pub fault_error : List Char → ℕ → EntryFault → SyncError
unfolding display
fault_error path idx empty_origin =
    protocol (format_text "batch manifest {} entry {} has empty origin" (path ∷ display idx ∷ []))
fault_error path idx empty_replica =
    protocol (format_text "batch manifest {} entry {} has empty replica" (path ∷ display idx ∷ []))
fault_error path idx zero_timeout = protocol (
    format_text "batch manifest {} entry {} timeout_secs must be greater than 0"
      (path ∷ display idx ∷ []))
fault_error path idx high_jitter = protocol (
    format_text "batch manifest {} entry {} retry_jitter_pct must be between 0 and 100"
      (path ∷ display idx ∷ []))
fault_error path idx low_backoff_limit = protocol (
    format_text "batch manifest {} entry {} retry_backoff_max_ms must be >= retry_backoff_ms"
      (path ∷ display idx ∷ []))

abbrev pub spec_of : BatchEntryWire → BatchSyncSpec
spec_of entry = record {
  name = entry.name;
  origin = entry.origin;
  replica = entry.replica;
  dry_run = entry.dry_run;
  retries = entry.retries;
  timeout_secs = entry.timeout_secs;
  retry_backoff_ms = entry.retry_backoff_ms;
  retry_backoff_max_ms = entry.retry_backoff_max_ms;
  retry_jitter_pct = entry.retry_jitter_pct;
  grpc_auth_token = entry.grpc_auth_token;
}

abbrev pub after_check :
    List Char
    → ℕ
    → BatchEntryWire
    → Option EntryFault
    → Result (List BatchSyncSpec)
    → Result (List BatchSyncSpec)
after_check path idx entry (some fault) rest = err (fault_error path idx fault)
after_check path idx entry none rest = and_then rest (λ specs. ok (spec_of entry ∷ specs))

-- The loop over the entries.
unfoldable pub entries_from : List Char → ℕ → List BatchEntryWire → Result (List BatchSyncSpec)
unfolding check_entry fault_error
entries_from path idx [] = ok []
entries_from path idx (entry ∷ rest) =
    after_check path idx entry (check_entry entry) (entries_from path (suc idx) rest)

abbrev pub checked_entries : List Char → List BatchEntryWire → Result (List BatchSyncSpec)
checked_entries path [] =
    err (protocol (format_text "batch manifest {} has no sync entries" (path ∷ [])))
checked_entries path (entry ∷ rest) = entries_from path 0 (entry ∷ rest)

module _ (f : Formats) where
  open f use {read_to_string, from_json, from_yaml, from_toml}

  abbrev pub parse_json : List Char → List Char → Parsed
  parse_json path s = parse_error path (chars "json") (from_json s)

  abbrev pub parse_yaml : List Char → List Char → Parsed
  parse_yaml path s = parse_error path (chars "yaml") (from_yaml s)

  abbrev pub parse_toml : List Char → List Char → Parsed
  parse_toml path s = parse_error path (chars "toml") (from_toml s)

  abbrev pub parse_as : ManifestFormat → List Char → List Char → Result BatchManifest
  parse_as json path s = to_result (parse_json path s)
  parse_as yaml path s = to_result (parse_yaml path s)
  parse_as toml path s = to_result (parse_toml path s)
  parse_as auto path s =
      first_parsed path (parse_json path s) (parse_yaml path s) (parse_toml path s)

  abbrev pub chosen_format : ManifestFormat → List Char → ManifestFormat
  chosen_format json path = json
  chosen_format yaml path = yaml
  chosen_format toml path = toml
  chosen_format auto path = format_by (extension path)

  abbrev pub parse_text : ManifestFormat → List Char → ManifestText → Result BatchManifest
  parse_text format path (unreadable error) =
      err (protocol (format_text "failed reading batch manifest {}: {error}" (path ∷ error ∷ [])))
  parse_text format path (manifest_text s) = parse_as (chosen_format format path) path s

  unfoldable pub load_manifest : List Char → ManifestFormat → Result (List BatchSyncSpec)
  unfolding extension entries_from chars
  load_manifest path format =
      and_then (parse_text format path (read_to_string path))
        (λ manifest. checked_entries path manifest.syncs)
