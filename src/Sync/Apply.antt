-- ===== src/Sync/Apply.antt =====
-- src/protocol/replica.rs, src/db.rs: what the page writes of a run do to the replica's file.
use rsqlite_rsync.Base.{
  ℕ, zero, suc, ◌+◌, ◌-◌, ◌*◌, ◌≤◌, ◌≡◌, sym, ap, subst, ◌∙◌, ◌≢◌, ◌⊎◌, inl, inr, List, [], ◌∷◌,
  length, length-take, length-drop, drop, max, true, arith,
}
use native.Mathlib.Decide.{ℕ_discrete}
use rsqlite_rsync.Error.{ok}
use rsqlite_rsync.Protocol.Messages.{PageData}
use rsqlite_rsync.Db.{Connection, write_at, write_page}
use rsqlite_rsync.Db.Pages.{page, page-write_self, page-write_other, length-write_page, eq_of_pages}
use rsqlite_rsync.Sync.View.{Databases, IsSized, origin_page, replica_page}
use rsqlite_rsync.Sync.Sent.{AreSent, AmongPages}

-- The file after one page is written, and after a batch.
abbrev pub put_page : ℕ → List ℕ → PageData → List ℕ
put_page size file x = write_at ((x.page_no - 1) * size) x.content file

unfoldable pub apply_pages : ℕ → List PageData → List ℕ → List ℕ
apply_pages size [] file = file
apply_pages size (x ∷ xs) file = apply_pages size xs (put_page size file x)

module _ (v : Databases) (sized : IsSized v) where
  -- The file holds the origin's page.
  abbrev pub Holds : List ℕ → ℕ → Type 0
  Holds file p = (p * v.page_size ≤ length file) × (page v.page_size file p ≡ origin_page v p)

  -- The file holds the origin's page or still the replica's first one.
  abbrev pub Keeps : List ℕ → ℕ → Type 0
  Keeps file p =
      (p * v.page_size ≤ length file)
      × ((page v.page_size file p ≡ replica_page v p) ⊎ (page v.page_size file p ≡ origin_page v p))

  pub length-origin_page :
      (p : ℕ) → 1 ≤ p → p ≤ v.origin_pages → length (origin_page v p) ≡ v.page_size
  length-origin_page p h k = omega (
    arith,
    length-take v.page_size (drop ((p - 1) * v.page_size) v.origin_bytes),
    length-drop ((p - 1) * v.page_size) v.origin_bytes,
    sized.origin_length,
    reach p h k,
  )
    where
      reach :
          (q : ℕ)
          → 1 ≤ q
          → q ≤ v.origin_pages
          → (q - 1) * v.page_size + v.page_size ≤ v.origin_pages * v.page_size
      reach zero h k = elim h [ ]
      reach (suc q) h k = let e : suc q - 1 ≡ q = omega arith in rw e (grind arith)

  module _ (x : PageData) (file : List ℕ) (low : 1 ≤ x.page_no) (high : x.page_no ≤ v.origin_pages)
      (content : x.content ≡ origin_page v x.page_no) where
    sized_content : length x.content ≡ v.page_size
    sized_content = ap length content ∙ length-origin_page x.page_no low high

    grown : length (put_page v.page_size file x) ≡ max (x.page_no * v.page_size) (length file)
    grown = length-write_page v.page_size x.page_no x.content file sized_content low

    put_self : Holds (put_page v.page_size file x) x.page_no
    put_self = (
      omega (arith, grown),
      page-write_self v.page_size x.page_no x.content file sized_content ∙ content,
    )

    put-other :
        (p : ℕ)
        → 1 ≤ p
        → x.page_no ≢ p
        → p * v.page_size ≤ length file
        → page v.page_size (put_page v.page_size file x) p ≡ page v.page_size file p
    put-other p h ne k =
        page-write_other v.page_size x.page_no p x.content file sized_content low h ne k

    put-Holds : (p : ℕ) → 1 ≤ p → Holds file p → Holds (put_page v.page_size file x) p
    put-Holds p h (inside, same) = elim (ℕ_discrete x.page_no p) [
      | yes e ↦ subst (Holds (put_page v.page_size file x)) e put_self
      | no ne ↦ (omega (arith, grown, inside), put-other p h ne inside ∙ same)
    ]

    put-Keeps : (p : ℕ) → 1 ≤ p → Keeps file p → Keeps (put_page v.page_size file x) p
    put-Keeps p h (inside, either) = elim (ℕ_discrete x.page_no p) [
      | yes e ↦
          let now : Holds (put_page v.page_size file x) p =
            subst (Holds (put_page v.page_size file x)) e put_self in
          (now.0, inr now.1)
      | no ne ↦ (
        omega (arith, grown, inside),
        elim either [
          | inl same ↦ inl (put-other p h ne inside ∙ same)
          | inr same ↦ inr (put-other p h ne inside ∙ same)
        ],
      )
    ]

  pub apply-Holds :
      (xs : List PageData) (file : List ℕ) (p : ℕ)
      → AreSent v xs
      → 1 ≤ p
      → Holds file p
      → Holds (apply_pages v.page_size xs file) p
  unfolding apply_pages
  apply-Holds [] file p sent h k = k
  apply-Holds (x ∷ xs) file p (low, high, content, rest) h k =
      apply-Holds xs (put_page v.page_size file x) p rest h
        (put-Holds x file low high content p h k)

  pub apply-Keeps :
      (xs : List PageData) (file : List ℕ) (p : ℕ)
      → AreSent v xs
      → 1 ≤ p
      → Keeps file p
      → Keeps (apply_pages v.page_size xs file) p
  unfolding apply_pages
  apply-Keeps [] file p sent h k = k
  apply-Keeps (x ∷ xs) file p (low, high, content, rest) h k =
      apply-Keeps xs (put_page v.page_size file x) p rest h
        (put-Keeps x file low high content p h k)

  -- Every page of the batch is the origin's afterwards.
  pub apply-among :
      (xs : List PageData) (file : List ℕ) (p : ℕ)
      → AreSent v xs
      → 1 ≤ p
      → AmongPages p xs
      → Holds (apply_pages v.page_size xs file) p
  unfolding apply_pages
  apply-among [] file p sent h m = elim m [ ]
  apply-among (x ∷ xs) file p (low, high, content, rest) h (inl e) =
      apply-Holds xs (put_page v.page_size file x) p rest h
        (subst (Holds (put_page v.page_size file x)) (sym e) (put_self x file low high content))
  apply-among (x ∷ xs) file p (low, high, content, rest) h (inr m) =
      apply-among xs (put_page v.page_size file x) p rest h m

  pub apply-length :
      (xs : List PageData) (file : List ℕ)
      → AreSent v xs
      → length file ≤ v.origin_pages * v.page_size
      → length (apply_pages v.page_size xs file) ≤ v.origin_pages * v.page_size
  unfolding apply_pages
  apply-length [] file sent h = h
  apply-length (x ∷ xs) file (low, high, content, rest) h =
      apply-length xs (put_page v.page_size file x) rest
        (omega (arith, grown x file low high content, scaled))
    where
      scaled : x.page_no * v.page_size ≤ v.origin_pages * v.page_size
      scaled = grind arith

  -- A file with all the origin's pages and no more bytes is the origin's.
  pub all-Holds :
      (file : List ℕ)
      → length file ≤ v.origin_pages * v.page_size
      → ((p : ℕ) → 1 ≤ p → p ≤ v.origin_pages → Holds file p)
      → file ≡ v.origin_bytes
  all-Holds file h all =
      eq_of_pages v.page_size v.origin_pages file v.origin_bytes
        (omega (arith, h, all v.origin_pages sized.not_empty (omega arith))) sized.origin_length
        (λ p k. let e : suc p - 1 ≡ p = omega arith in rw e at (all (suc p) (omega arith) k).1)

-- A page of the origin is written without an error.
pub write_page_lem :
    (c : Connection) (size p : ℕ) (content : List ℕ)
    → 1 ≤ p
    → length content ≡ size
    → c.page_size ≡ size
    → c.writable ≡ true
    → write_page c p content ≡ ok (record c { file = write_at ((p - 1) * size) content c.file })
unfolding write_page
write_page_lem c size p content h e f w = rw (← f) (write_own (e ∙ sym f))
  where
    write_own :
        length content ≡ c.page_size
        → write_page c p content
          ≡ ok (record c { file = write_at ((p - 1) * c.page_size) content c.file })
    write_own g = ground arith
