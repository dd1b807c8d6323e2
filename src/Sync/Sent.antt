-- ===== src/Sync/Sent.antt =====
-- src/protocol/origin.rs: the pages that are sent for a group, their order and their content.
use rsqlite_rsync.Base.{
  ℕ, zero, suc, ◌+◌, ◌-◌, ◌*◌, ◌≤◌, ◌<◌, ◌≡◌, refl, sym, subst, ◌⊎◌, inl, inr, List, [], ◌∷◌, ◌++◌,
  map, count_up, flatten_options, bytes_eq, bytes_eq→eq, contains, Bool, true, false, Bool-cases,
  arith,
}
use native.Mathlib.Decide.{dec_lt, ℕ_discrete}
use rsqlite_rsync.Error.{ok}
use rsqlite_rsync.Protocol.Messages.{PageData}
use rsqlite_rsync.Protocol.Origin.Acks.{NoRepeat, validate_pages_ack_iff}
use rsqlite_rsync.Protocol.Origin.Checks.{validate_pages_ack}
use rsqlite_rsync.Protocol.Origin.Fine.{page_no_of}
use rsqlite_rsync.Sync.View.{
  Databases, IsSized, pages_in, digest_of, origin_page, replica_page, page_data, changed,
  sent_pages,
}

-- Page numbers rise from `low` on.
abbrev pub Rising : ℕ → List PageData → Type 0
Rising low [] = Unit {0}
Rising low (x ∷ xs) = (low ≤ x.page_no) × Rising (suc x.page_no) xs

abbrev pub AmongPages : ℕ → List PageData → Type 0
AmongPages p [] = ⊥
AmongPages p (x ∷ xs) = (p ≡ x.page_no) ⊎ AmongPages p xs

Rising-mono : (a b : ℕ) (xs : List PageData) → a ≤ b → Rising b xs → Rising a xs
Rising-mono a b [] h r = tt
Rising-mono a b (x ∷ xs) h r = (omega arith, r.1)

Rising-contains :
    (a low : ℕ) (xs : List PageData)
    → a < low
    → Rising low xs
    → contains (map page_no_of xs) a ≡ false
Rising-contains a low [] h r = refl
Rising-contains a low (x ∷ xs) h r = ground (arith, Rising-contains a (suc x.page_no) xs)

Rising-NoRepeat : (low : ℕ) (xs : List PageData) → Rising low xs → NoRepeat (map page_no_of xs)
Rising-NoRepeat low [] r = tt
Rising-NoRepeat low (x ∷ xs) r = (
  Rising-contains x.page_no (suc x.page_no) xs (omega arith) r.1,
  Rising-NoRepeat (suc x.page_no) xs r.1,
)

module _ (v : Databases) where
  -- Pages of the origin, with the origin's bytes.
  abbrev pub AreSent : List PageData → Type 0
  AreSent [] = Unit {0}
  AreSent (x ∷ xs) =
      (1 ≤ x.page_no)
      × (x.page_no ≤ v.origin_pages)
      × (x.content ≡ origin_page v x.page_no)
      × AreSent xs

  -- Of a range of pages, those that differ, and then `ys`.
  abbrev pub chosen : ℕ → ℕ → List PageData → List PageData
  chosen a n ys = flatten_options (map (changed v) (count_up a n)) ++ ys

  pub Rising-all : (a n : ℕ) → Rising a (map (page_data v) (count_up a n))
  Rising-all a zero = tt
  Rising-all a (suc n) = (omega arith, Rising-all (suc a) n)

  AreSent-all :
      (a n : ℕ) → 1 ≤ a → a + n ≤ suc v.origin_pages → AreSent (map (page_data v) (count_up a n))
  AreSent-all a zero h k = tt
  AreSent-all a (suc n) h k =
      (h, omega arith, refl, AreSent-all (suc a) n (omega arith) (omega arith))

  AmongPages-all : (p a n : ℕ) → a ≤ p → p < a + n → AmongPages p (map (page_data v) (count_up a n))
  AmongPages-all p a zero h k = absurd (omega arith)
  AmongPages-all p a (suc n) h k = elim (ℕ_discrete p a) [
    | yes e ↦ inl e
    | no e ↦ inr (AmongPages-all p (suc a) n (grind arith) (omega arith))
  ]

  abbrev pub same_digest : ℕ → Bool
  same_digest p = bytes_eq (digest_of v (origin_page v p)) (digest_of v (replica_page v p))

  -- One step of `chosen`.
  pub chosen-cases {ℓ} :
      (P : List PageData → Type ℓ) (a n : ℕ) (ys : List PageData)
      → (same_digest a ≡ true → P (chosen (suc a) n ys))
      → (same_digest a ≡ false → P (page_data v a ∷ chosen (suc a) n ys))
      → P (chosen a (suc n) ys)
  chosen-cases P a n ys kept sent = elim (Bool-cases (same_digest a)) [
    | inl e ↦ rw e (kept e)
    | inr e ↦ rw e (sent e)
  ]

  Rising-chosen : (a n : ℕ) (ys : List PageData) → Rising (a + n) ys → Rising a (chosen a n ys)
  Rising-chosen a zero ys r = Rising-mono a (a + 0) ys (omega arith) r
  Rising-chosen a (suc n) ys r =
      let rest : Rising (suc a) (chosen (suc a) n ys) =
        Rising-chosen (suc a) n ys (Rising-mono _ _ ys (omega arith) r) in
      chosen-cases (Rising a) a n ys
        (λ _. Rising-mono a (suc a) (chosen (suc a) n ys) (omega arith) rest)
        (λ _. (omega arith, rest))

  AreSent-chosen :
      (a n : ℕ) (ys : List PageData)
      → 1 ≤ a
      → a + n ≤ suc v.origin_pages
      → AreSent ys
      → AreSent (chosen a n ys)
  AreSent-chosen a zero ys h k s = s
  AreSent-chosen a (suc n) ys h k s =
      let rest : AreSent (chosen (suc a) n ys) =
        AreSent-chosen (suc a) n ys (omega arith) (omega arith) s in
      chosen-cases AreSent a n ys (λ _. rest) (λ _. (h, omega arith, refl, rest))

  AmongPages-after :
      (p a n : ℕ) (ys : List PageData) → AmongPages p ys → AmongPages p (chosen a n ys)
  AmongPages-after p a zero ys m = m
  AmongPages-after p a (suc n) ys m =
      let rest : AmongPages p (chosen (suc a) n ys) = AmongPages-after p (suc a) n ys m in
      chosen-cases (AmongPages p) a n ys (λ _. rest) (λ _. inr rest)

  AmongPages-chosen :
      (p a n : ℕ) (ys : List PageData)
      → a ≤ p
      → p < a + n
      → AmongPages p (chosen a n ys) ⊎ (same_digest p ≡ true)
  AmongPages-chosen p a zero ys h k = absurd (omega arith)
  AmongPages-chosen p a (suc n) ys h k = elim (ℕ_discrete a p) [
    | yes here ↦
        chosen-cases (λ xs. AmongPages p xs ⊎ (same_digest p ≡ true)) a n ys
          (λ e. inr (subst (λ (q : ℕ). same_digest q ≡ true) here e)) (λ _. inl (inl (sym here)))
    | no other ↦ elim (AmongPages-chosen p (suc a) n ys (grind arith) (omega arith)) [
      | inl m ↦
          chosen-cases (λ xs. AmongPages p xs ⊎ (same_digest p ≡ true)) a n ys (λ _. inl m)
            (λ _. inl (inr m))
      | inr e ↦ inr e
    ]
  ]

module _ (v : Databases) (sized : IsSized v) (g : ℕ) (inside : g * 64 < v.origin_pages) where
  pub sent_pages-Rising : Rising (g * 64 + 1) (sent_pages v g)
  unfolding sent_pages
  sent_pages-Rising =
      Rising-chosen v (g * 64 + 1) (pages_in v.replica_pages g) _
        (Rising-all v (g * 64 + 1 + pages_in v.replica_pages g) _)

  pub sent_pages-AreSent : AreSent v (sent_pages v g)
  unfolding sent_pages
  sent_pages-AreSent =
      AreSent-chosen v (g * 64 + 1) (pages_in v.replica_pages g) _ (omega arith)
        (omega (arith, sized)) (AreSent-all v _ _ (omega arith) (omega (arith, sized)))

  -- A page of the group is sent, or the replica has one with the same digest.
  pub sent_or_same :
      (p : ℕ)
      → g * 64 + 1 ≤ p
      → p ≤ g * 64 + 64
      → p ≤ v.origin_pages
      → AmongPages p (sent_pages v g)
        ⊎ ((p ≤ v.replica_pages) × (digest_of v (origin_page v p) ≡ digest_of v (replica_page v p)))
  unfolding sent_pages
  sent_or_same p low high within = elim (dec_lt v.replica_pages p) [
    | yes new ↦ inl (
        AmongPages-after v p (g * 64 + 1) (pages_in v.replica_pages g) _
          (AmongPages-all v p _ _ (omega (arith, new)) (omega (arith, new))))
    | no old ↦
        elim (AmongPages-chosen v p (g * 64 + 1) (pages_in v.replica_pages g)
          (map (page_data v) (
            count_up (g * 64 + 1 + pages_in v.replica_pages g)
              (pages_in v.origin_pages g - pages_in v.replica_pages g)))
          low (omega (arith, old))) [ inl m ↦ inl m | inr e ↦ inr (grind arith, bytes_eq→eq _ _ e) ]
  ]

  -- The origin accepts the acknowledgement of just these pages.
  pub sent_pages-acknowledged :
      validate_pages_ack (map page_no_of (sent_pages v g)) (map page_no_of (sent_pages v g)) ≡ ok tt
  sent_pages-acknowledged =
      (validate_pages_ack_iff _ _).1
        (Rising-NoRepeat (g * 64 + 1) (sent_pages v g) sent_pages-Rising, λ a. refl)
