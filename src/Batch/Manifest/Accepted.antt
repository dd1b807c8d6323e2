-- ===== src/Batch/Manifest/Accepted.antt =====
-- src/batch.rs, `load_manifest`: which manifests are accepted, and what the error of another one names.
use Prim.Native.Char.{Char}
use rsqlite_rsync.Base.{
  ℕ, suc, ◌+◌, ◌≤◌, ◌≡◌, refl, ap, ◌∙◌, ◌⊎◌, inl, inr, List, [], ◌∷◌, ◌++◌, map, length, Option,
  none, some, arith,
}
use rsqlite_rsync.Error.{SyncError, protocol, Result, ok, err, panic, and_then}
use rsqlite_rsync.Protocol.Messages.{format_text}
use rsqlite_rsync.Batch.{BatchSyncSpec}
use rsqlite_rsync.Batch.Manifest.{
  ManifestFormat, BatchEntryWire, BatchManifest, Formats, EntryFault, check_entry, fault_error,
  spec_of, after_check, entries_from, checked_entries, Parsed, parsed, malformed, to_result,
  first_parsed, ManifestText, manifest_text, unreadable, json, yaml, toml, auto, chosen_format,
  parse_as, parse_text, load_manifest,
}
use rsqlite_rsync.Batch.Manifest.Valid.{AllValid, Has, CheckOf, check_entry-CheckOf}

-- The first entry that is not valid, and the error that names it.
abbrev pub Refuses : List Char → ℕ → List BatchEntryWire → Result (List BatchSyncSpec) → Type 0
Refuses path idx entries r =
    (before : List BatchEntryWire) × (entry : BatchEntryWire) × (rest : List BatchEntryWire)
    × (fault : EntryFault) × (entries ≡ before ++ (entry ∷ rest))
    × AllValid before
    × Has entry fault
    × (r ≡ err (fault_error path (idx + length before) fault))

abbrev pub Accepts : List BatchEntryWire → Result (List BatchSyncSpec) → Type 0
Accepts entries r = AllValid entries × (r ≡ ok (map spec_of entries))

abbrev pub Judges : List Char → ℕ → List BatchEntryWire → Result (List BatchSyncSpec) → Type 0
Judges path idx entries r = Accepts entries r ⊎ Refuses path idx entries r

err_at :
    (path : List Char) (fault : EntryFault) {a b : ℕ}
    → a ≡ b
    → ◌≡◌ {A = Result (List BatchSyncSpec)}
        (err (fault_error path a fault))
        (err (fault_error path b fault))
err_at path fault e = ap (λ (n : ℕ). err (fault_error path n fault)) e

after_check-Judges :
    (path : List Char) (idx : ℕ) (entry : BatchEntryWire) (rest : List BatchEntryWire)
    (o : Option EntryFault) (r : Result (List BatchSyncSpec))
    → CheckOf entry o
    → Judges path (suc idx) rest r
    → Judges path idx (entry ∷ rest) (after_check path idx entry o r)
after_check-Judges path idx entry rest (some fault) r h j =
    inr ([], entry, rest, fault, refl, tt, h, err_at path fault (omega arith))
after_check-Judges path idx entry rest none r h (inl a) = inl (
  (h, a.0),
  ap (λ (x : Result (List BatchSyncSpec)). and_then x (λ specs. ok (spec_of entry ∷ specs))) a.1,
)
after_check-Judges path idx entry rest none r h (inr (before, e, later, fault, p, v, f, q)) = inr (
  entry ∷ before,
  e,
  later,
  fault,
  ap (λ (l : List BatchEntryWire). entry ∷ l) p,
  (h, v),
  f,
  ap (λ (x : Result (List BatchSyncSpec)). and_then x (λ specs. ok (spec_of entry ∷ specs))) q
      ∙ err_at path fault (omega arith),
)

entries_from-Judges :
    (path : List Char) (idx : ℕ) (entries : List BatchEntryWire)
    → Judges path idx entries (entries_from path idx entries)
unfolding entries_from
entries_from-Judges path idx [] = inl (tt, refl)
entries_from-Judges path idx (entry ∷ rest) =
    after_check-Judges path idx entry rest (check_entry entry) (entries_from path (suc idx) rest)
      (check_entry-CheckOf entry) (entries_from-Judges path (suc idx) rest)

-- A value, or an error.
abbrev pub Returns : Result BatchManifest → Type 0
Returns r = ((e : SyncError) × (r ≡ err e)) ⊎ ((m : BatchManifest) × (r ≡ ok m))

to_result-Returns : (p : Parsed) → Returns (to_result p)
to_result-Returns (parsed m) = inr (m, refl)
to_result-Returns (malformed e) = inl (_, refl)

first_parsed-Returns : (path : List Char) (j y t : Parsed) → Returns (first_parsed path j y t)
first_parsed-Returns path (parsed m) y t = inr (m, refl)
first_parsed-Returns path (malformed e) (parsed m) t = inr (m, refl)
first_parsed-Returns path (malformed e) (malformed d) (parsed m) = inr (m, refl)
first_parsed-Returns path (malformed e) (malformed d) (malformed c) = inl (_, refl)

parse_as-Returns :
    (f : Formats) (format : ManifestFormat) (path s : List Char)
    → Returns (parse_as f format path s)
parse_as-Returns f json path s = to_result-Returns _
parse_as-Returns f yaml path s = to_result-Returns _
parse_as-Returns f toml path s = to_result-Returns _
parse_as-Returns f auto path s = first_parsed-Returns path _ _ _

parse_text-Returns :
    (f : Formats) (format : ManifestFormat) (path : List Char) (t : ManifestText)
    → Returns (parse_text f format path t)
parse_text-Returns f format path (unreadable e) = inl (_, refl)
parse_text-Returns f format path (manifest_text s) =
    parse_as-Returns f (chosen_format f format path) path s

-- What follows once there is a manifest.
abbrev pub Checked : List Char → List BatchEntryWire → Result (List BatchSyncSpec) → Type 0
Checked path entries r =
    ((entries ≡ [])
      × (r ≡ err (protocol (format_text "batch manifest {} has no sync entries" (path ∷ [])))))
    ⊎ ((1 ≤ length entries) × Judges path 0 entries r)

checked_entries-Checked :
    (path : List Char) (entries : List BatchEntryWire)
    → Checked path entries (checked_entries path entries)
checked_entries-Checked path [] = inl (refl, refl)
checked_entries-Checked path (entry ∷ rest) =
    inr (omega arith, entries_from-Judges path 0 (entry ∷ rest))

abbrev pub Loads : List Char → Result BatchManifest → Result (List BatchSyncSpec) → Type 0
Loads path p r =
    ((e : SyncError) × (p ≡ err e) × (r ≡ err e))
    ⊎ ((m : BatchManifest) × (p ≡ ok m) × Checked path m.syncs r)

parsed-Loads :
    (path : List Char) (p : Result BatchManifest)
    → Returns p
    → Loads path p (and_then p (λ manifest. checked_entries path manifest.syncs))
parsed-Loads path (ok m) h = inr (m, refl, checked_entries-Checked path m.syncs)
parsed-Loads path (err e) h = inl (e, refl, refl)
parsed-Loads path panic (inl h) = cc (h.1)
parsed-Loads path panic (inr h) = cc (h.1)

-- Loading a manifest has one of four outcomes. The file is not read or not parsed, and that is the error.
-- There are no entries, and the error says so. There are entries, each of them with an origin and a replica
-- that are not blank, a time limit above 0, a jitter of at most 100 and a maximal delay that is 0 or not
-- below the first delay; then the entries of the batch are they, in order. Or some entry is not like that,
-- and the error names the first such entry by its index and a fault that it has.
pub load_manifest-Loads :
    (f : Formats) (path : List Char) (format : ManifestFormat)
    → Loads path (parse_text f format path (f.read_to_string path)) (load_manifest f path format)
unfolding load_manifest
load_manifest-Loads f path format =
    parsed-Loads path (parse_text f format path (f.read_to_string path))
      (parse_text-Returns f format path (f.read_to_string path))
