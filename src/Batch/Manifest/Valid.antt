-- ===== src/Batch/Manifest/Valid.antt =====
-- src/batch.rs, `load_manifest`: the checks of an entry.
use rsqlite_rsync.Base.{
  ℕ, zero, suc, ◌≤◌, ◌≡◌, refl, ◌⊎◌, inl, inr, List, [], ◌∷◌, Option, none, some, Bool, true, false,
  ◌&&◌, ltb, ltb→lt, if◌then◌else◌, arith,
}
use rsqlite_rsync.KvText.{trim}
use rsqlite_rsync.Endpoint.{is_empty}
use rsqlite_rsync.Batch.Manifest.{
  BatchEntryWire, EntryFault, empty_origin, empty_replica, zero_timeout, high_jitter,
  low_backoff_limit, check_entry, exceeds, is_zero, backoff_exceeds,
}

-- What an entry must be: an origin and a replica that are not blank, a time limit above 0, a jitter of at
-- most 100 percent, and delays whose first is at most their maximum, unless that is 0.
abbrev pub AtMost : Option ℕ → ℕ → Type 0
AtMost none n = Unit
AtMost (some v) n = v ≤ n

abbrev pub Positive : Option ℕ → Type 0
Positive none = Unit
Positive (some v) = 1 ≤ v

abbrev pub Ordered : Option ℕ → Option ℕ → Type 0
Ordered none limit = Unit
Ordered (some base) none = Unit
Ordered (some base) (some limit) = (limit ≡ 0) ⊎ (base ≤ limit)

abbrev pub Valid : BatchEntryWire → Type 0
Valid entry =
    (is_empty (trim entry.origin) ≡ false)
    × (is_empty (trim entry.replica) ≡ false)
    × Positive entry.timeout_secs
    × AtMost entry.retry_jitter_pct 100
    × Ordered entry.retry_backoff_ms entry.retry_backoff_max_ms

abbrev pub AllValid : List BatchEntryWire → Type 0
AllValid [] = Unit
AllValid (entry ∷ rest) = Valid entry × AllValid rest

-- What each fault says of an entry.
abbrev pub Has : BatchEntryWire → EntryFault → Type 0
Has entry empty_origin = is_empty (trim entry.origin) ≡ true
Has entry empty_replica = is_empty (trim entry.replica) ≡ true
Has entry zero_timeout = entry.timeout_secs ≡ some 0
Has entry high_jitter = (v : ℕ) × (entry.retry_jitter_pct ≡ some v) × (101 ≤ v)
Has entry low_backoff_limit =
    (base : ℕ) × (limit : ℕ) × (entry.retry_backoff_ms ≡ some base)
    × (entry.retry_backoff_max_ms ≡ some limit)
    × (1 ≤ limit)
    × (suc limit ≤ base)

ltb_or_le : (a b : ℕ) → ((ltb a b ≡ true) × (suc a ≤ b)) ⊎ ((ltb a b ≡ false) × (b ≤ a))
ltb_or_le a b = either (ltb a b) refl
  where
    either : (t : Bool) → ltb a b ≡ t → ((t ≡ true) × (suc a ≤ b)) ⊎ ((t ≡ false) × (b ≤ a))
    either true h = inl (refl, ltb→lt a b h)
    either false h = inr (refl, ground arith)

zero_or_Positive :
    (o : Option ℕ) → ((is_zero o ≡ true) × (o ≡ some 0)) ⊎ ((is_zero o ≡ false) × Positive o)
zero_or_Positive none = inr (refl, tt)
zero_or_Positive (some zero) = inl (refl, refl)
zero_or_Positive (some (suc v)) = inr (ground arith, omega arith)

exceeds_or_AtMost :
    (o : Option ℕ) (n : ℕ)
    → ((exceeds o n ≡ true) × ((v : ℕ) × (o ≡ some v) × (suc n ≤ v)))
      ⊎ ((exceeds o n ≡ false) × AtMost o n)
exceeds_or_AtMost none n = inr (refl, tt)
exceeds_or_AtMost (some v) n = elim (ltb_or_le n v) [
  | inl p ↦ inl (p.0, (v, refl, p.1))
  | inr p ↦ inr p
]

exceeds_or_Ordered :
    (b l : Option ℕ)
    → ((backoff_exceeds b l ≡ true)
        × ((base : ℕ) × (limit : ℕ) × (b ≡ some base)
            × (l ≡ some limit)
            × (1 ≤ limit)
            × (suc limit ≤ base)))
      ⊎ ((backoff_exceeds b l ≡ false) × Ordered b l)
exceeds_or_Ordered none l = inr (refl, tt)
exceeds_or_Ordered (some b) none = inr (refl, tt)
exceeds_or_Ordered (some b) (some l) = both (ltb 0 l) (ltb l b) (ltb_or_le 0 l) (ltb_or_le l b)
  where
    both :
        (p q : Bool)
        → ((p ≡ true) × (1 ≤ l)) ⊎ ((p ≡ false) × (l ≤ 0))
        → ((q ≡ true) × (suc l ≤ b)) ⊎ ((q ≡ false) × (b ≤ l))
        → (((p && q) ≡ true)
            × ((base : ℕ) × (limit : ℕ) × (some b ≡ some base)
                × (some l ≡ some limit)
                × (1 ≤ limit)
                × (suc limit ≤ base)))
          ⊎ (((p && q) ≡ false) × ((l ≡ 0) ⊎ (b ≤ l)))
    both true true (inl x) (inl y) = inl (refl, (b, l, refl, refl, x.1, y.1))
    both true q (inr x) y = cc (x.0)
    both false q (inl x) y = cc (x.0)
    both false q (inr x) y = inr (refl, inl (omega arith))
    both true true (inl x) (inr y) = cc (y.0)
    both true false (inl x) (inl y) = cc (y.0)
    both true false (inl x) (inr y) = inr (refl, inr y.1)

-- What a check says: the fault it gives, or that there is none.
abbrev pub CheckOf : BatchEntryWire → Option EntryFault → Type 0
CheckOf entry none = Valid entry
CheckOf entry (some fault) = Has entry fault

-- One test, and those after it.
test-CheckOf :
    (entry : BatchEntryWire) (P : Type 0) (b : Bool) (fault : EntryFault) (next : Option EntryFault)
    → ((b ≡ true) × Has entry fault) ⊎ ((b ≡ false) × P)
    → (P → CheckOf entry next)
    → CheckOf entry (if b then some fault else next)
test-CheckOf entry P true fault next (inl h) f = h.1
test-CheckOf entry P true fault next (inr h) f = cc (h.0)
test-CheckOf entry P false fault next (inl h) f = cc (h.0)
test-CheckOf entry P false fault next (inr h) f = f h.1

blank_or_text : (b : Bool) → ((b ≡ true) × (b ≡ true)) ⊎ ((b ≡ false) × (b ≡ false))
blank_or_text true = inl (refl, refl)
blank_or_text false = inr (refl, refl)

pub check_entry-CheckOf : (entry : BatchEntryWire) → CheckOf entry (check_entry entry)
unfolding check_entry
check_entry-CheckOf entry =
    test-CheckOf entry _ (is_empty (trim entry.origin)) empty_origin _ (blank_or_text _) (λ a.
      test-CheckOf entry _ (is_empty (trim entry.replica)) empty_replica _ (blank_or_text _) (λ b.
        test-CheckOf entry _ (is_zero entry.timeout_secs) zero_timeout _
          (zero_or_Positive entry.timeout_secs)
          (λ c.
            test-CheckOf entry _ (exceeds entry.retry_jitter_pct 100) high_jitter _
              (exceeds_or_AtMost entry.retry_jitter_pct 100)
              (λ d.
                test-CheckOf entry _
                  (backoff_exceeds entry.retry_backoff_ms entry.retry_backoff_max_ms)
                  low_backoff_limit none
                  (exceeds_or_Ordered entry.retry_backoff_ms entry.retry_backoff_max_ms)
                  (λ e. (a, b, c, d, e))))))
