-- ===== src/Tuning.antt =====
-- src/lib.rs: `SyncTuning`, the knobs of the hashing stages. The environment variables arrive as
-- parsed numbers, `none` where a variable is unset or does not parse.
use rsqlite_rsync.Base.{ℕ, Option, none, some, Bool, ltb, leb, if◌then◌else◌}

pub record SyncTuning : Type 0 where
  pub max_hash_threads : Option ℕ
  pub parallel_min_pages : ℕ
  pub hash_chunk_groups : ℕ

unfoldable pub default_tuning : SyncTuning
default_tuning = record {
  max_hash_threads = none;
  parallel_min_pages = 4096;
  hash_chunk_groups = 16;
}

-- `.filter(|v| *v > 0)`.
abbrev pub positive : Option ℕ → Option ℕ
positive none = none
positive (some v) = if ltb 0 v then some v else none

abbrev unwrap_or : Option ℕ → ℕ → ℕ
unwrap_or none d = d
unwrap_or (some v) d = v

-- `.or(default)`.
abbrev or_else : Option ℕ → Option ℕ → Option ℕ
or_else none d = d
or_else (some v) d = some v

unfoldable pub from_env : Option ℕ → Option ℕ → Option ℕ → SyncTuning
unfolding default_tuning
from_env threads min_pages chunk_groups = record {
  max_hash_threads = or_else (positive threads) default_tuning.max_hash_threads;
  parallel_min_pages = unwrap_or (positive min_pages) default_tuning.parallel_min_pages;
  hash_chunk_groups = unwrap_or (positive chunk_groups) default_tuning.hash_chunk_groups;
}

unfoldable pub should_parallelize : SyncTuning → ℕ → Bool
should_parallelize t pages = leb t.parallel_min_pages pages
