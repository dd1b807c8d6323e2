-- ===== src/Hash.antt =====
-- src/hash.rs: page and group hashes. The two digest functions are those of the crates `sha2` and
-- `blake3`, so they are parameters; feeding a hasher in pieces hashes their concatenation.
use mathlib.Core.List.{flatten}
use rsqlite_rsync.Base.{ℕ, List, Option, none, some, ◌==◌, if◌then◌else◌}

-- Number of pages per coarse hash group.
abbrev pub group_size : ℕ
group_size = 64

pub data HashAlgorithm : Type 0 where
  sha256_v1 blake3_v2 : HashAlgorithm

pub record Digests : Type 0 where
  pub sha256 : List ℕ → List ℕ
  pub blake3 : List ℕ → List ℕ

unfoldable pub from_protocol_version : ℕ → Option HashAlgorithm
from_protocol_version version =
    if version == 1 then some sha256_v1 else if version == 2 then some blake3_v2 else none

unfoldable pub hash_page_for : Digests → List ℕ → HashAlgorithm → List ℕ
hash_page_for d content sha256_v1 = d.sha256 content
hash_page_for d content blake3_v2 = d.blake3 content

-- Each hash of the group is fed to the hasher in turn.
unfoldable pub hash_group_for : Digests → List (List ℕ) → HashAlgorithm → List ℕ
hash_group_for d hashes sha256_v1 = d.sha256 (flatten hashes)
hash_group_for d hashes blake3_v2 = d.blake3 (flatten hashes)
