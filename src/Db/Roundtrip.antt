-- ===== src/Db/Roundtrip.antt =====
-- src/db.rs: what a page write leaves for the reads after it.
use rsqlite_rsync.Base.{
  ℕ, ◌+◌, ◌-◌, ◌*◌, ◌≤◌, ◌≡◌, ◌≢◌, ◌↔◌, refl, sym, ap, subst, ◌∙◌, List, true, false, length, slice,
  leb, max, ◌==◌, arith,
}
use rsqlite_rsync.Error.{ok}
use rsqlite_rsync.Db.{Connection, write_at, write_page, read_page}
use rsqlite_rsync.Db.Pages.{page, page_span, page-write_self, page-write_other, length-write_page}

abbrev pub with_page : Connection → ℕ → List ℕ → Connection
with_page c p content = record c { file = write_at ((p - 1) * c.page_size) content c.file }

-- A page write succeeds exactly if the page number is not 0, the content is one page, and the
-- connection is writable; then the connection has the page in its file.
pub write_page_iff :
    (c c' : Connection) (p : ℕ) (content : List ℕ)
    → (write_page c p content ≡ ok c') ↔ (
        (1 ≤ p)
        × (length content ≡ c.page_size)
        × (c.writable ≡ true)
        × (with_page c p content ≡ c'))
unfolding write_page
write_page_iff c c' p content = (λ h. ground arith, λ h. ground arith)

not_zero : (p : ℕ) → 1 ≤ p → (p == 0) ≡ false
not_zero p h = ground arith

-- A read of a page inside the file gives that page.
pub read_page_inside :
    (c : Connection) (p : ℕ)
    → 1 ≤ p
    → p * c.page_size ≤ length c.file
    → read_page c p ≡ ok (page c.page_size c.file p)
unfolding read_page slice
read_page_inside c p h inside =
    let fits : (leb ((p - 1) * c.page_size + c.page_size) (length c.file)) ≡ true =
      ground (arith, page_span p c.page_size h) in
    rw ((not_zero p h), fits) refl

module _ (c : Connection) (p : ℕ) (content : List ℕ) (high : 1 ≤ p)
    (whole : length content ≡ c.page_size) where
  length_after : length (with_page c p content).file ≡ max (p * c.page_size) (length c.file)
  length_after = length-write_page c.page_size p content c.file whole high

  read_self : read_page (with_page c p content) p ≡ ok content
  read_self =
      read_page_inside (with_page c p content) p high (omega (arith, length_after))
      ∙ ap ok (page-write_self c.page_size p content c.file whole)

  read_other :
      (q : ℕ)
      → 1 ≤ q
      → q ≢ p
      → q * c.page_size ≤ length c.file
      → read_page (with_page c p content) q ≡ read_page c q
  read_other q low apart inside =
      read_page_inside (with_page c p content) q low (omega (arith, length_after))
      ∙ ap ok (
          page-write_other c.page_size p q content c.file whole high low (λ e. apart (sym e))
            inside)
      ∙ sym (read_page_inside c q low inside)

-- What a write of a page leaves: that page, every other page inside the old file, and the length.
abbrev pub Leaves : Connection → Connection → ℕ → List ℕ → Type 0
Leaves c c' p content =
    (read_page c' p ≡ ok content)
    × ((q : ℕ) → 1 ≤ q → q ≢ p → q * c.page_size ≤ length c.file → read_page c' q ≡ read_page c q)
    × (length c'.file ≡ max (p * c.page_size) (length c.file))

-- After a successful write the page that was written reads back as written, also in a file that was
-- empty or had no other page; every other page inside the old file reads as before; and the file is
-- as long as it was or reaches to the end of the page.
pub write_page-read_page :
    (c c' : Connection) (p : ℕ) (content : List ℕ)
    → write_page c p content ≡ ok c'
    → Leaves c c' p content
write_page-read_page c c' p content h =
    let (high, whole, can_write, after) = (write_page_iff c c' p content).0 h in
    subst (λ (x : Connection). Leaves c x p content) after
      (
        read_self c p content high whole,
        read_other c p content high whole,
        length_after c p content high whole,
      )
