-- ===== src/Sync/Correct.antt =====
-- src/lib.rs, src/protocol/origin.rs, src/protocol/replica.rs: a whole run of the two handlers.
use rsqlite_rsync.Base.{
  ℕ, ◌≡◌, refl, sym, ap, subst, ◌∙◌, inl, inr, List, [], ◌∷◌, length, true, Bool-cases, ◌==◌,
  ==_refl, if◌then◌else◌, arith,
}
use rsqlite_rsync.Hash.{blake3_v2, from_protocol_version}
use rsqlite_rsync.Tuning.{SyncTuning}
use rsqlite_rsync.Error.{ok}
use rsqlite_rsync.Db.{Connection, Sqlite}
use rsqlite_rsync.Protocol.{Rayon}
use rsqlite_rsync.Protocol.Process.{Process, finish}
use rsqlite_rsync.Protocol.Origin.Fine as OriginFine
use rsqlite_rsync.Protocol.Replica
use rsqlite_rsync.Sync.{step_origin, step_replica}
use rsqlite_rsync.Sync.Steps.{Steps, here, by_origin, by_replica, Steps-trans}
use rsqlite_rsync.Sync.View.{Databases, IsSized, sent_pages, refined_groups}
use rsqlite_rsync.Sync.Listing.{snapshot_of, replica_hashes, page_hash_list_lem}
use rsqlite_rsync.Sync.Groups.{group_hash_list_lem}
use rsqlite_rsync.Sync.Asked.{AllInside, groups_to_refine_view, refined-AllInside}
use rsqlite_rsync.Sync.Agreement.{NoCollision}
use rsqlite_rsync.Sync.Apply.{apply_pages}
use rsqlite_rsync.Sync.Exchange.{quiet, with_file, exchange}
use rsqlite_rsync.Sync.Rounds.{after_groups, after_refined}

-- The replica's connection as it is opened, read-write.
abbrev pub opened_replica : Databases → Connection
opened_replica v = record { page_size = v.page_size; file = v.replica_bytes; writable = true }

-- What the SQLite library answers for it: the number of pages and the bytes of the file.
pub record Answers (v : Databases) (api : Sqlite) : Type 0 where
  pub page_count : api.page_count (opened_replica v) ≡ ok v.replica_pages
  pub serialize : api.serialize (opened_replica v) ≡ ok v.replica_bytes

module _ (v : Databases) (sized : IsSized v) (rayon : Rayon) (tuning : SyncTuning) where
  abbrev pub origin_run : Process (Unit {0})
  origin_run = OriginFine.run_with_tuning v.digests rayon tuning (snapshot_of v)

  -- All the rounds, and `Done`.
  rounds :
      (gs : List ℕ) (c : Connection)
      → AllInside v.origin_pages gs
      → c.page_size ≡ v.page_size
      → c.writable ≡ true
      → Steps
          (quiet
            (OriginFine.fine_pass v.digests rayon tuning (snapshot_of v) v.algorithm gs)
            (Replica.fine_pass (replica_hashes v) v.replica_pages gs)
            c)
          (quiet (finish (ok tt)) (finish (ok tt)) (with_file c (after_groups v gs c.file)))
  unfolding OriginFine.fine_pass Replica.fine_pass step_origin step_replica after_groups
  rounds [] c inside e w = by_origin refl (by_replica refl here)
  rounds (g ∷ gs) c inside e w =
      Steps-trans (exchange v sized rayon tuning g gs c inside.0 e w)
        (rounds gs (with_file c (apply_pages v.page_size (sent_pages v g) c.file)) inside.1 e w)

  after_coarse_rounds :
      (gs : List ℕ) (c : Connection)
      → AllInside v.origin_pages gs
      → c.page_size ≡ v.page_size
      → c.writable ≡ true
      → Steps
          (quiet
            (OriginFine.fine_pass v.digests rayon tuning (snapshot_of v) v.algorithm gs)
            (Replica.after_coarse (replica_hashes v) v.replica_pages gs)
            c)
          (quiet (finish (ok tt)) (finish (ok tt)) (with_file c (after_groups v gs c.file)))
  unfolding OriginFine.fine_pass Replica.after_coarse step_origin step_replica after_groups
  after_coarse_rounds [] c inside e w = by_origin refl (by_replica refl here)
  after_coarse_rounds (g ∷ gs) c inside e w = rounds (g ∷ gs) c inside e w

  serialized :
      (api : Sqlite)
      → Answers v api
      → (if v.replica_pages == 0 then ok [] else api.serialize (opened_replica v))
        ≡ ok v.replica_bytes
  serialized api answers = elim (Bool-cases (v.replica_pages == 0)) [
    | inl none_yet ↦ rw none_yet (ap ok (sym (empty (ground arith))))
    | inr some_yet ↦ rw some_yet answers.serialize
  ]
    where
      nothing : (xs : List ℕ) → length xs ≡ 0 → xs ≡ []
      nothing [] h = refl
      nothing (x ∷ xs) h = absurd (omega arith)

      empty : v.replica_pages ≡ 0 → v.replica_bytes ≡ []
      empty h = nothing v.replica_bytes (sized.replica_length ∙ rw h (omega arith))

  module _ (api : Sqlite) (answers : Answers v api) (modern : v.algorithm ≡ blake3_v2) where
    abbrev pub replica_run : Process (Unit {0})
    replica_run = Replica.run_with_tuning v.digests rayon tuning api (opened_replica v)

    pub whole_run : Steps (quiet origin_run replica_run (opened_replica v)) (
        quiet
          (finish (ok tt))
          (finish (ok tt))
          (with_file (opened_replica v) (after_groups v (refined_groups v) v.replica_bytes)))
    unfolding OriginFine.run_with_tuning Replica.run_with_tuning step_origin step_replica
        from_protocol_version
    whole_run = rw answers.page_count (
        by_replica refl (
          by_origin refl (
            rw (==_refl v.page_size) (
              by_origin refl (
                by_replica refl (
                  rw
                    (
                      ← modern,
                      serialized api answers,
                      page_hash_list_lem v sized rayon tuning,
                      group_hash_list_lem v sized rayon tuning,
                    )
                    (by_replica refl (
                      by_origin refl (
                        rw (groups_to_refine_view v sized rayon tuning) (
                          by_origin refl (
                            by_replica refl (
                              after_coarse_rounds (refined_groups v) (opened_replica v)
                                (refined-AllInside v sized) refl refl))))))))))))

    -- A sync of a replica that is no larger than the origin ends on both sides without an error, and
    -- then the replica's file is the origin's snapshot, byte for byte. The origin is not empty, both
    -- databases consist of whole pages of one size, SQLite reports them as they are, and the digests
    -- compared in this run do not collide.
    pub sync_correct :
        NoCollision v
        → Steps
            (quiet origin_run replica_run (opened_replica v))
            (quiet (finish (ok tt)) (finish (ok tt)) (with_file (opened_replica v) v.origin_bytes))
    sync_correct apart =
        subst
          (λ (file : List ℕ).
            Steps (quiet origin_run replica_run (opened_replica v))
              (quiet (finish (ok tt)) (finish (ok tt)) (with_file (opened_replica v) file)))
          (after_refined v sized apart) whole_run
