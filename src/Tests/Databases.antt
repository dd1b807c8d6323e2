-- ===== src/Tests/Databases.antt =====
-- Two small databases with pages of one byte, a toy digest, and a SQLite that reports them.
use rsqlite_rsync.Base.{
  ℕ, zero, suc, ◌/◌, ◌≡◌, refl, ap, subst, List, [], ◌∷◌, map, length, none, arith,
}
use rsqlite_rsync.Hash.{Digests, blake3_v2, hash_page_for, hash_group_for}
use rsqlite_rsync.Tuning.{SyncTuning}
use rsqlite_rsync.Error.{ok}
use rsqlite_rsync.Db.{Sqlite}
use rsqlite_rsync.Protocol.{Rayon}
use rsqlite_rsync.Sync.View.{
  Databases, IsSized, digest_of, origin_page, replica_page, origin_group_hash, replica_group_hash,
}
use rsqlite_rsync.Sync.Agreement.{NoCollision}
use rsqlite_rsync.Sync.Correct.{Answers}

-- The first 32 bytes, with zeros after a shorter content.
abbrev pad : ℕ → List ℕ → List ℕ
pad zero xs = []
pad (suc n) [] = 0 ∷ pad n []
pad (suc n) (x ∷ xs) = x ∷ pad n xs

length-pad : (n : ℕ) (xs : List ℕ) → length (pad n xs) ≡ n
length-pad zero xs = refl
length-pad (suc n) [] = ap suc (length-pad n [])
length-pad (suc n) (x ∷ xs) = ap suc (length-pad n xs)

abbrev pub toy : Digests
toy = record { sha256 = pad 32; blake3 = pad 32 }

abbrev pub serial : Rayon
serial = record { par_map = λ A B f xs. map f xs; par_map_lem = λ A B f xs. refl }

abbrev pub tuned : SyncTuning
tuned = record { max_hash_threads = none; parallel_min_pages = 2; hash_chunk_groups = 1 }

-- The origin has the pages 7 and 8, the replica the page 9.
abbrev pub two_pages : Databases
two_pages = record {
  digests = toy;
  algorithm = blake3_v2;
  page_size = 1;
  origin_pages = 2;
  replica_pages = 1;
  origin_bytes = 7 ∷ 8 ∷ [];
  replica_bytes = 9 ∷ [];
}

pub two_pages-IsSized : IsSized two_pages
two_pages-IsSized = record {
  origin_length = refl;
  replica_length = refl;
  not_larger = omega arith;
  not_empty = omega arith;
  in_range = omega arith;
}

abbrev head : List ℕ → ℕ
head [] = 0
head (x ∷ xs) = x

differ : (xs ys : List ℕ) → head xs ≡ 7 → head ys ≡ 9 → xs ≡ ys → ⊥
differ xs ys e f same = let h = ap head same in omega arith

pub two_pages-NoCollision : NoCollision two_pages
unfolding hash_page_for hash_group_for mathlib.Core.List.flatten
two_pages-NoCollision = record {
  digest_length = λ content. length-pad 32 content;
  page_apart = λ p low high same. absurd (
      differ (digest_of two_pages (origin_page two_pages 1))
        (digest_of two_pages (replica_page two_pages 1)) refl refl
        (subst
          (λ (q : ℕ).
            digest_of two_pages (origin_page two_pages q)
            ≡ digest_of two_pages (replica_page two_pages q))
          {x = p} {y = 1} (omega arith) same));
  group_apart = λ g inside same. absurd (
      differ (origin_group_hash two_pages 0) (replica_group_hash two_pages 0) refl refl (
        subst (λ (q : ℕ). origin_group_hash two_pages q ≡ replica_group_hash two_pages q) {x = g}
          {y = 0} (omega arith) same));
}

abbrev pub whole_file : Sqlite
whole_file = record {
  page_count = λ c. ok (length c.file / c.page_size);
  serialize = λ c. ok c.file;
}

pub two_pages-Answers : Answers two_pages whole_file
two_pages-Answers = record { page_count = refl; serialize = refl }
