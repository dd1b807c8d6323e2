-- ===== src/Ha/Runtime/Observation.antt =====
-- src/ha.rs: what a tick observes of the lease, runs of ticks, and the gateway's view of the role.
use text.Mathlib.TextEquality.{eq_iff}
use rsqlite_rsync.Base.{
  ℕ, String, Option, none, some, List, [], ◌∷◌, ◌≡◌, ◌≢◌, sym, ◌∙◌, ◌↔◌, inl, inr, true, false,
  Bool-cases, Option-cases, ◌==◌, ==_iff, arith,
}
use rsqlite_rsync.Ha.Lease.{
  LeaseRecord, FreshnessLedger, PromotionConfig, same_node, writer, LeaseObservation, missing,
  acquired, renewed, transferred, replaced, unchanged,
}
use rsqlite_rsync.Ha.Fence.{pass, enforce_write_fence}
use rsqlite_rsync.Ha.Fence.Rules.{MayWrite, enforce_write_fence_iff}
use rsqlite_rsync.Ha.Runtime.{
  HaRuntime, HaSharedState, new, update_freshness, clear_freshness, observe_lease_change, lease_eq,
  is_writer,
}
use rsqlite_rsync.Ha.Runtime.Safety.{next, next_keeps, writer_holds}

-- What each observation says of the lease before and now.
pub data Describes : Option LeaseRecord → Option LeaseRecord → LeaseObservation → Type 0 where
  gone : (p : Option LeaseRecord) → Describes p none missing
  first_seen : (c : LeaseRecord) → Describes none (some c) (acquired c)
  same : (p c : LeaseRecord) → p ≡ c → Describes (some p) (some c) (unchanged c)
  other_holder :
      (p c : LeaseRecord)
      → p.holder_node_id ≢ c.holder_node_id
      → Describes (some p) (some c) (transferred p c)
  same_term :
      (p c : LeaseRecord)
      → p ≢ c
      → p.holder_node_id ≡ c.holder_node_id
      → p.generation ≡ c.generation
      → Describes (some p) (some c) (renewed c)
  new_term :
      (p c : LeaseRecord)
      → p.holder_node_id ≡ c.holder_node_id
      → p.generation ≢ c.generation
      → Describes (some p) (some c) (replaced c)

lease_eq_sound : (p c : LeaseRecord) → lease_eq p c ≡ true → p ≡ c
lease_eq_sound p c h = ground (arith, eq_iff p.holder_node_id c.holder_node_id)

lease_eq_complete : (p c : LeaseRecord) → lease_eq p c ≡ false → p ≢ c
lease_eq_complete p c h e = ground (arith, eq_iff p.holder_node_id c.holder_node_id)

-- The observation describes the change: a lease that is gone, first seen, the same, moved to another
-- holder, renewed in its generation, or replaced by another generation of its holder.
pub observe-Describes :
    (previous current : Option LeaseRecord)
    → Describes previous current (observe_lease_change previous current)
unfolding observe_lease_change
observe-Describes none none = gone none
observe-Describes none (some c) = first_seen c
observe-Describes (some p) none = gone (some p)
observe-Describes (some p) (some c) = elim (Bool-cases (lease_eq p c)) [
  | inl e ↦ rw e (same p c (lease_eq_sound p c e))
  | inr e ↦
      let differs : p ≢ c = lease_eq_complete p c e in
      rw e (elim (Bool-cases (same_node p.holder_node_id c.holder_node_id)) [
        | inl h ↦
            let holder : p.holder_node_id ≡ c.holder_node_id = (eq_iff _ _).0 h in
            rw h (elim (Bool-cases (p.generation == c.generation)) [
              | inl g ↦ rw g (same_term p c differs holder ((==_iff _ _).0 g))
              | inr g ↦ rw g (new_term p c holder (λ same_g. let t = (==_iff _ _).1 same_g in cc))
            ])
        | inr h ↦ rw h (other_holder p c (λ same_h. let t = (eq_iff _ _).1 same_h in cc))
      ])
]

-- What can happen to a node: a tick, a new freshness ledger, or the loss of it.
pub data Event : Type 0 where
  ticks : ℕ → Option LeaseRecord → ℕ → PromotionConfig → Event
  freshens : FreshnessLedger → Event
  forgets : Event

unfoldable pub handle : HaRuntime → Event → HaRuntime
handle r (ticks now lease min_generation config) = next r now lease min_generation config
handle r (freshens ledger) = update_freshness r ledger
handle r forgets = clear_freshness r

unfoldable pub run : HaRuntime → List Event → HaRuntime
run r [] = r
run r (e ∷ es) = run (handle r e) es

-- The last lease that the node saw names it as the holder, at its own generation.
pub record HoldsLease (r : HaRuntime) : Type 0 where
  pub last : LeaseRecord
  pub seen : r.lease ≡ some last
  pub holder : last.holder_node_id ≡ r.node_id
  pub current : last.generation ≡ r.local_generation

abbrev Consistent : HaRuntime → Type 0
Consistent r = r.role ≡ writer → HoldsLease r

handle-Consistent : (r : HaRuntime) (e : Event) → Consistent r → Consistent (handle r e)
unfolding handle update_freshness clear_freshness
handle-Consistent r (ticks now lease min_generation config) inv is =
    let (l, e, held) = writer_holds r now min_generation config lease is in
    let (name, seen) = next_keeps r now min_generation config lease in
    record { last = l; seen = seen ∙ e; holder = held.holder ∙ sym name; current = held.current }
handle-Consistent r (freshens ledger) inv is = of_same (inv is)
  where
    of_same : HoldsLease r → HoldsLease (update_freshness r ledger)
    of_same h = record { last = h.last; seen = h.seen; holder = h.holder; current = h.current }
handle-Consistent r forgets inv is = of_same (inv is)
  where
    of_same : HoldsLease r → HoldsLease (clear_freshness r)
    of_same h = record { last = h.last; seen = h.seen; holder = h.holder; current = h.current }

run-Consistent : (r : HaRuntime) (es : List Event) → Consistent r → Consistent (run r es)
unfolding run
run-Consistent r [] inv = inv
run-Consistent r (e ∷ es) inv = run-Consistent (handle r e) es (handle-Consistent r e inv)

-- Whatever ticks, ledgers and losses of a ledger a node sees from its start, if it is then a writer
-- the lease that it saw last names it as the holder and has its generation.
pub run-new-HoldsLease :
    (node_id : String) (es : List Event)
    → (run (new node_id) es).role ≡ writer
    → HoldsLease (run (new node_id) es)
run-new-HoldsLease node_id es = run-Consistent (new node_id) es starts
  where
    starts : Consistent (new node_id)
    starts is = unfold new in cc

module _ (s : HaSharedState) (now : ℕ) where
  passes :
      (l : LeaseRecord)
      → s.lease_record ≡ some l
      → is_writer s now ≡ true
      → (s.role ≡ writer) × (enforce_write_fence now s.node_id s.generation l ≡ pass)
  unfolding is_writer
  passes l e h = ground arith

  no_lease : s.lease_record ≡ none → is_writer s now ≡ false
  unfolding is_writer
  no_lease e = ground arith

  writes :
      (l : LeaseRecord)
      → s.lease_record ≡ some l
      → s.role ≡ writer
      → enforce_write_fence now s.node_id s.generation l ≡ pass
      → is_writer s now ≡ true
  unfolding is_writer
  writes l e w p = ground arith

  -- The gateway takes a node for a writer exactly if its role is writer and it has a lease that
  -- passes the fence.
  pub is_writer_iff : (is_writer s now ≡ true) ↔ (
      (s.role ≡ writer)
      × ((l : LeaseRecord) × (s.lease_record ≡ some l) × MayWrite now s.node_id s.generation l))
  is_writer_iff = (
    λ h. elim (Option-cases s.lease_record) [
      | inl e ↦ let stopped = no_lease e in cc
      | inr (l, e) ↦
          let (w, p) = passes l e h in
          (w, (l, e, (enforce_write_fence_iff now s.node_id s.generation l).0 p))
    ],
    λ h.
        let (l, e, held) = h.1 in
        writes l e h.0 ((enforce_write_fence_iff now s.node_id s.generation l).1 held),
  )
