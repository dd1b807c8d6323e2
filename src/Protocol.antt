-- ===== src/Protocol.antt =====
-- src/protocol/mod.rs: the choice between parallel and serial work, and the loops over chunks that
-- both handlers share. `rayon`'s indexed `map(..).collect()` is a parameter.
pub mod Messages
pub mod Process
pub mod Frames
pub mod Chunks
pub mod Collect
pub mod Origin
pub mod Replica
use rsqlite_rsync.Base.{
  ℕ, zero, suc, ◌+◌, ◌≡◌, List, [], ◌∷◌, ◌++◌, map, take, drop, ◌%◌, if◌then◌else◌, max,
}
use rsqlite_rsync.Error.{Result, ok, and_then, collect}
use rsqlite_rsync.Tuning.{SyncTuning, should_parallelize}

-- The crate's parallel map keeps the order of the items, as its documentation says.
pub record Rayon : Type 1 where
  pub par_map : (A B : Type 0) → (A → B) → List A → List B
  pub par_map_lem : (A B : Type 0) (f : A → B) (xs : List A) → par_map A B f xs ≡ map f xs

-- Both thunks do the same work; only the strategy differs. A configured pool runs `par` as well.
unfoldable pub compute_with_parallelism {ℓ} :
    {A : Type ℓ} → SyncTuning → ℕ → (Unit {0} → A) → (Unit {0} → A) → A
unfolding should_parallelize
compute_with_parallelism tuning item_count par ser =
    if should_parallelize tuning item_count then par tt else ser tt

-- `items.map(f).collect()`, in parallel where the tuning asks for it.
unfoldable pub map_tuned :
    {A B : Type 0} → Rayon → SyncTuning → ℕ → (A → Result B) → List A → Result (List B)
unfolding compute_with_parallelism
map_tuned {A} {B} rayon tuning item_count f xs =
    compute_with_parallelism tuning item_count (λ _. collect (rayon.par_map A (Result B) f xs))
      (λ _. collect (map f xs))

-- `for chunk_start in (0..n).step_by(size)`, with the items from `start` on; a round for each item
-- is enough fuel.
unfoldable pub chunked :
    {A B : Type 0} → (ℕ → List A → Result (List B)) → ℕ → ℕ → ℕ → List A → Result (List B)
chunked f size zero start xs = ok []
chunked f size (suc fuel) start [] = ok []
chunked f size (suc fuel) start (x ∷ xs) =
    let later = chunked f size fuel (start + size) (drop size (x ∷ xs)) in
    and_then (f start (take size (x ∷ xs))) (λ now. and_then later (λ rest. ok (now ++ rest)))

-- `tuning.hash_chunk_groups.max(1)`.
abbrev pub groups_per_chunk : SyncTuning → ℕ
groups_per_chunk tuning = max tuning.hash_chunk_groups 1

-- 32-bit arithmetic wraps.
abbrev pub u32 : ℕ → ℕ
u32 n = n % 4294967296
