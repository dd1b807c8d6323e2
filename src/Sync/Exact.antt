-- ===== src/Sync/Exact.antt =====
-- src/protocol/origin.rs: the pages that the origin sends for a group.
use rsqlite_rsync.Base.{
  ℕ, zero, suc, ◌+◌, ◌*◌, ◌≤◌, ◌<◌, ◌≡◌, ◌≢◌, sym, subst, ap, ◌↔◌, ◌⊎◌, inl, inr, List, ◌∷◌, map,
  count_up, bytes_eq, bytes_eq_refl, false, arith,
}
use rsqlite_rsync.Tuning.{SyncTuning}
use rsqlite_rsync.Error.{ok}
use rsqlite_rsync.Protocol.{Rayon}
use rsqlite_rsync.Protocol.Messages.{PageData}
use rsqlite_rsync.Protocol.Origin.Fine.{changed_pages}
use rsqlite_rsync.Sync.View.{
  Databases, IsSized, pages_in, digest_of, origin_page, replica_page, page_data, sent_pages,
}
use rsqlite_rsync.Sync.Listing.{snapshot_of}
use rsqlite_rsync.Sync.Groups.{changed_pages_view}
use rsqlite_rsync.Sync.Sent.{
  AmongPages, AreSent, Rising, chosen, same_digest, chosen-cases, sent_pages-AreSent,
  sent_pages-Rising, sent_or_same,
}

module _ (v : Databases) where
  chosen_differs :
      (p a n : ℕ) (ys : List PageData)
      → AmongPages p (chosen v a n ys)
      → (same_digest v p ≡ false) ⊎ AmongPages p ys
  chosen_differs p a zero ys m = inr m
  chosen_differs p a (suc n) ys m =
      let later = chosen_differs p (suc a) n ys in
      chosen-cases v (λ xs. AmongPages p xs → (same_digest v p ≡ false) ⊎ AmongPages p ys) a n ys
        (λ e. later) (λ e. at_sent later e) m
    where
      at_sent :
          (AmongPages p (chosen v (suc a) n ys) → (same_digest v p ≡ false) ⊎ AmongPages p ys)
          → same_digest v a ≡ false
          → AmongPages p (page_data v a ∷ chosen v (suc a) n ys)
          → (same_digest v p ≡ false) ⊎ AmongPages p ys
      at_sent later e (inl here) = inl (subst (λ (q : ℕ). same_digest v q ≡ false) (sym here) e)
      at_sent later e (inr m') = later m'

  all_from : (p a n : ℕ) → AmongPages p (map (page_data v) (count_up a n)) → a ≤ p
  all_from p a zero m = absurd m
  all_from p a (suc n) (inl here) = omega arith
  all_from p a (suc n) (inr m) = omega (arith, all_from p (suc a) n m)

  -- The replica has no page `p`, or one with another digest.
  abbrev pub Lacks : ℕ → Type 0
  Lacks p = (v.replica_pages < p) ⊎ (digest_of v (origin_page v p) ≢ digest_of v (replica_page v p))

module _ (v : Databases) (sized : IsSized v) (g : ℕ) (inside : g * 64 < v.origin_pages) where
  sent-Lacks : (p : ℕ) → p ≤ g * 64 + 64 → AmongPages p (sent_pages v g) → Lacks v p
  unfolding sent_pages
  sent-Lacks p high m = elim (chosen_differs v p (g * 64 + 1) (pages_in v.replica_pages g) _ m) [
    | inl e ↦ inr (λ same.
        let t = ap (bytes_eq (digest_of v (origin_page v p))) same in
        let r = bytes_eq_refl (digest_of v (origin_page v p)) in cc)
    | inr m' ↦ inl (omega (arith, all_from v p (g * 64 + 1 + pages_in v.replica_pages g) _ m'))
  ]

  Lacks-sent :
      (p : ℕ)
      → g * 64 + 1 ≤ p
      → p ≤ g * 64 + 64
      → p ≤ v.origin_pages
      → Lacks v p
      → AmongPages p (sent_pages v g)
  Lacks-sent p low high within lacks = elim (sent_or_same v sized g inside p low high within) [
    | inl m ↦ m
    | inr (old, same) ↦ absurd (clash old same lacks)
  ]
    where
      clash :
          p ≤ v.replica_pages
          → digest_of v (origin_page v p) ≡ digest_of v (replica_page v p)
          → Lacks v p
          → ⊥
      clash old same (inl new) = omega arith
      clash old same (inr differs) = differs same

  -- For a listed group the origin replies with pages that have its own content and rising numbers,
  -- and a page of the group is among them exactly if the replica has no such page or one with
  -- another digest. The group starts inside the origin, the replica is no larger than the origin,
  -- and both consist of whole pages.
  pub exact_transfer :
      (rayon : Rayon) (tuning : SyncTuning) (p : ℕ)
      → g * 64 + 1 ≤ p
      → p ≤ g * 64 + 64
      → p ≤ v.origin_pages
      → (reply : List PageData) × (changed_pages v.digests rayon tuning
            (snapshot_of v)
            v.algorithm
            g
            (count_up (g * 64 + 1) (pages_in v.replica_pages g))
            (map
              (λ p. digest_of v (replica_page v p))
              (count_up (g * 64 + 1) (pages_in v.replica_pages g)))
          ≡ ok reply)
        × AreSent v reply
        × Rising (g * 64 + 1) reply
        × (AmongPages p reply ↔ Lacks v p)
  exact_transfer rayon tuning p low high within = (
    sent_pages v g,
    changed_pages_view v sized rayon tuning g inside,
    sent_pages-AreSent v sized g inside,
    sent_pages-Rising v sized g inside,
    (λ m. sent-Lacks p high m, λ l. Lacks-sent p low high within l),
  )
