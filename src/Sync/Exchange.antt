-- ===== src/Sync/Exchange.antt =====
-- src/protocol/origin.rs, src/protocol/replica.rs: the two handlers exchange the pages of one group.
use rsqlite_rsync.Base.{
  ℕ, ◌+◌, ◌*◌, ◌<◌, ◌≡◌, refl, sym, ap, ◌∙◌, List, [], ◌∷◌, map, length, count_up, true,
  length-count_up, arith,
}
use rsqlite_rsync.Tuning.{SyncTuning}
use rsqlite_rsync.Error.{ok}
use rsqlite_rsync.Db.{Connection}
use rsqlite_rsync.Protocol.{Rayon}
use rsqlite_rsync.Protocol.Messages.{Message, PageData}
use rsqlite_rsync.Protocol.Process.{Process, ◌>>=◌}
use rsqlite_rsync.Protocol.Collect.{length-map-count_up}
use rsqlite_rsync.Protocol.Origin.Acceptance.{validate_page_hashes_iff}
use rsqlite_rsync.Protocol.Origin.Checks.{validate_page_hashes_for_group}
use rsqlite_rsync.Protocol.Origin.Fine as OriginFine
use rsqlite_rsync.Protocol.Replica
use rsqlite_rsync.Protocol.Replica.{write_pages}
use rsqlite_rsync.Sync.{Session, step_origin, step_replica}
use rsqlite_rsync.Sync.Steps.{Steps, here, by_origin, by_replica, Steps-trans}
use rsqlite_rsync.Sync.View.{Databases, IsSized, pages_in, digest_of, replica_page, sent_pages}
use rsqlite_rsync.Sync.Listing.{snapshot_of, replica_hashes, group_listing_lem}
use rsqlite_rsync.Sync.Groups.{changed_pages_view}
use rsqlite_rsync.Sync.Sent.{AreSent, sent_pages-AreSent, sent_pages-acknowledged}
use rsqlite_rsync.Sync.Apply.{apply_pages, write_page_lem, length-origin_page}

-- Both sides wait for nothing that is under way.
abbrev pub quiet : Process (Unit {0}) → Process (Unit {0}) → Connection → Session
quiet o r c = record { origin = o; replica = r; to_origin = []; to_replica = []; conn = c }

abbrev pub with_file : Connection → List ℕ → Connection
with_file c file = record c { file = file }

module _ (v : Databases) (sized : IsSized v) where
  -- The replica writes a batch, one step for each page.
  writes :
      (xs : List PageData) (o : Process (Unit {0})) (f : Unit {0} → Process (Unit {0}))
      (to_origin to_replica : List Message) (c : Connection)
      → AreSent v xs
      → c.page_size ≡ v.page_size
      → c.writable ≡ true
      → Steps
          (record {
            origin = o;
            replica = write_pages xs >>= f;
            to_origin = to_origin;
            to_replica = to_replica;
            conn = c;
          })
          (record {
            origin = o;
            replica = f tt;
            to_origin = to_origin;
            to_replica = to_replica;
            conn = with_file c (apply_pages v.page_size xs c.file);
          })
  unfolding write_pages apply_pages step_replica
  writes [] o f qo qr c sent e w = here
  writes (x ∷ xs) o f qo qr c (low, high, content, rest) e w =
      by_replica
        (rw
          (write_page_lem c v.page_size x.page_no x.content low
            (ap length content ∙ length-origin_page v sized x.page_no low high) e w)
          refl)
        (writes xs o f qo qr _ rest e w)

  listing_accepted :
      (g : ℕ)
      → g * 64 < v.origin_pages
      → validate_page_hashes_for_group
          (count_up (g * 64 + 1) (pages_in v.replica_pages g))
          (map
            (λ p. digest_of v (replica_page v p))
            (count_up (g * 64 + 1) (pages_in v.replica_pages g)))
          g
        ≡ ok tt
  listing_accepted g inside = (validate_page_hashes_iff g _ _ (omega (arith, sized))).1 (
    ap (count_up (g * 64 + 1)) (sym (length-count_up _ _)),
    omega (arith, length-count_up (g * 64 + 1) (pages_in v.replica_pages g)),
    length-count_up _ _ ∙ sym (length-map-count_up _ _ _),
  )

  module _ (rayon : Rayon) (tuning : SyncTuning) where
    abbrev origin_fine : List ℕ → Process (Unit {0})
    origin_fine = OriginFine.fine_pass v.digests rayon tuning (snapshot_of v) v.algorithm

    abbrev replica_fine : List ℕ → Process (Unit {0})
    replica_fine = Replica.fine_pass (replica_hashes v) v.replica_pages

    -- One round of the fine pass.
    pub exchange :
        (g : ℕ) (rest : List ℕ) (c : Connection)
        → g * 64 < v.origin_pages
        → c.page_size ≡ v.page_size
        → c.writable ≡ true
        → Steps (quiet (origin_fine (g ∷ rest)) (replica_fine (g ∷ rest)) c) (
            quiet
              (origin_fine rest)
              (replica_fine rest)
              (with_file c (apply_pages v.page_size (sent_pages v g) c.file)))
    unfolding OriginFine.fine_pass Replica.fine_pass step_origin step_replica
    exchange g rest c inside e w = rw (group_listing_lem v sized g inside) (
        by_replica refl (
          by_origin refl (
            rw (listing_accepted g inside, changed_pages_view v sized rayon tuning g inside)
              (by_origin refl (
                by_replica refl (
                  Steps-trans
                    (writes (sent_pages v g) _ _ [] [] c (sent_pages-AreSent v sized g inside) e w)
                    (by_replica refl
                      (by_origin refl (rw (sent_pages-acknowledged v sized g inside) here)))))))))
