-- ===== src/Db/Pages.antt =====
-- src/db.rs: what a page write does to the pages of the file, as slices of its bytes.
use mathlib.Core.Path.{ap₂}
use native.Mathlib.Decide.{dec_lt}
use rsqlite_rsync.Base.{
  ℕ, zero, suc, ◌+◌, ◌-◌, ◌*◌, ◌≤◌, ◌<◌, ◌≡◌, refl, sym, ap, ◌∙◌, ◌≢◌, ◌⊎◌, inl, inr, List, [], ◌∷◌,
  ◌++◌, length, take, drop, length-append, length-drop, take-append-drop, max, arith,
}
use rsqlite_rsync.Db.{write_at}

-- Page `p`, counted from 1, of bytes that hold pages of `page_size`.
abbrev pub page : ℕ → List ℕ → ℕ → List ℕ
page page_size bytes p = take page_size (drop ((p - 1) * page_size) bytes)

module _ {A : Type 0} where
  pub take-append_length : (xs ys : List A) → take (length xs) (xs ++ ys) ≡ xs
  take-append_length [] ys = refl
  take-append_length (x ∷ xs) ys = ap (◌∷◌ x) (take-append_length xs ys)

  pub drop_eq : (xs : List A) (m n : ℕ) → m ≡ n → drop m xs ≡ drop n xs
  drop_eq xs m n e = rw e refl

  drop-nil : (n : ℕ) → drop {A = A} n [] ≡ []
  drop-nil zero = refl
  drop-nil (suc n) = refl

  pub drop-drop : (m n : ℕ) (xs : List A) → drop m (drop n xs) ≡ drop (n + m) xs
  drop-drop m zero xs = drop_eq xs m (0 + m) (omega arith)
  drop-drop m (suc n) [] = drop-nil m ∙ sym (drop-nil (suc n + m))
  drop-drop m (suc n) (x ∷ xs) =
      drop-drop m n xs ∙ drop_eq (x ∷ xs) (suc (n + m)) (suc n + m) (omega arith)

  pub drop-append_beyond :
      (xs ys : List A) (n : ℕ) → length xs ≤ n → drop n (xs ++ ys) ≡ drop (n - length xs) ys
  drop-append_beyond [] ys n h = drop_eq ys n (n - 0) (omega arith)
  drop-append_beyond (x ∷ xs) ys zero h = elim h [ ]
  drop-append_beyond (x ∷ xs) ys (suc n) h =
      drop-append_beyond xs ys n (omega arith)
      ∙ drop_eq ys (n - length xs) (suc n - suc (length xs)) (omega arith)

pub length-write_at :
    (offset : ℕ) (content bytes : List ℕ)
    → length (write_at offset content bytes) ≡ max (offset + length content) (length bytes)
unfolding write_at
length-write_at zero content bytes =
    omega (
      arith,
      length-append content (drop (length content) bytes),
      length-drop (length content) bytes,
    )
length-write_at (suc offset) content [] = omega (arith, length-write_at offset content [])
length-write_at (suc offset) content (b ∷ bytes) =
    omega (arith, length-write_at offset content bytes)

-- The bytes just written are read back.
pub drop-write_at :
    (offset : ℕ) (content bytes : List ℕ)
    → take (length content) (drop offset (write_at offset content bytes)) ≡ content
unfolding write_at
drop-write_at zero content bytes = take-append_length content _
drop-write_at (suc offset) content [] = drop-write_at offset content []
drop-write_at (suc offset) content (b ∷ bytes) = drop-write_at offset content bytes

take-write_at_before :
    (offset n : ℕ) (content bytes : List ℕ)
    → n ≤ offset
    → n ≤ length bytes
    → take n (write_at offset content bytes) ≡ take n bytes
unfolding write_at
take-write_at_before offset zero content bytes h k = refl
take-write_at_before zero (suc n) content bytes h k = elim h [ ]
take-write_at_before (suc offset) (suc n) content [] h k = elim k [ ]
take-write_at_before (suc offset) (suc n) content (b ∷ bytes) h k =
    ap (◌∷◌ b) (take-write_at_before offset n content bytes (omega arith) (omega arith))

slice-overwrite :
    (from n : ℕ) (content bytes : List ℕ)
    → (n ≡ 0) ⊎ (length content ≤ from)
    → from + n ≤ length bytes
    → take n (drop from (content ++ drop (length content) bytes)) ≡ take n (drop from bytes)
slice-overwrite from n content bytes (inl e) h = rw e refl
slice-overwrite from n content bytes (inr away) h = ap (take n) (
    drop-append_beyond content (drop (length content) bytes) from away
    ∙ drop-drop (from - length content) (length content) bytes
    ∙ drop_eq bytes _ from (omega arith))

-- Bytes that lie inside the file and outside the write stay.
pub slice-write_at :
    (offset from n : ℕ) (content bytes : List ℕ)
    → from + n ≤ length bytes
    → (from + n ≤ offset) ⊎ (offset + length content ≤ from)
    → take n (drop from (write_at offset content bytes)) ≡ take n (drop from bytes)
unfolding write_at
slice-write_at zero from n content bytes h away =
    slice-overwrite from n content bytes (ground arith) h
slice-write_at (suc offset) zero n content bytes h away =
    take-write_at_before (suc offset) n content bytes (ground arith) (omega arith)
slice-write_at (suc offset) (suc from) n content [] h away = absurd (omega arith)
slice-write_at (suc offset) (suc from) n content (b ∷ bytes) h away =
    slice-write_at offset from n content bytes (omega arith) (ground arith)

-- `p * size` reaches from the start of page `p` to its end.
pub page_span : (p size : ℕ) → 1 ≤ p → (p - 1) * size + size ≡ p * size
page_span zero size h = elim h [ ]
page_span (suc p) size h = let e : suc p - 1 ≡ p = omega arith in rw e (omega arith)

pub scale : (a b size : ℕ) → a ≤ b → a * size ≤ b * size
scale a b size h = grind arith

pages_apart :
    (p q size : ℕ)
    → 1 ≤ p
    → p ≢ q
    → 1 ≤ q
    → (p * size ≤ (q - 1) * size) ⊎ (q * size ≤ (p - 1) * size)
pages_apart p q size hp ne hq = elim (dec_lt p q) [
  | yes h ↦ inl (scale p (q - 1) size (omega arith))
  | no h ↦ inr (scale q (p - 1) size (grind arith))
]

module _ (size : ℕ) where
  -- A page that was written holds what was written.
  pub page-write_self :
      (p : ℕ) (content bytes : List ℕ)
      → length content ≡ size
      → page size (write_at ((p - 1) * size) content bytes) p ≡ content
  page-write_self p content bytes e =
      ap (λ (n : ℕ). take n (drop ((p - 1) * size) (write_at ((p - 1) * size) content bytes)))
        (sym e)
      ∙ drop-write_at ((p - 1) * size) content bytes

  -- A page inside the file that was not written is as it was.
  pub page-write_other :
      (p q : ℕ) (content bytes : List ℕ)
      → length content ≡ size
      → 1 ≤ p
      → 1 ≤ q
      → p ≢ q
      → q * size ≤ length bytes
      → page size (write_at ((p - 1) * size) content bytes) q ≡ page size bytes q
  page-write_other p q content bytes e hp hq ne inside =
      slice-write_at ((p - 1) * size) ((q - 1) * size) size content bytes
        (omega (arith, page_span q size hq)) (apart (pages_apart p q size hp ne hq))
    where
      apart :
          (p * size ≤ (q - 1) * size) ⊎ (q * size ≤ (p - 1) * size)
          → ((q - 1) * size + size ≤ (p - 1) * size)
            ⊎ ((p - 1) * size + length content ≤ (q - 1) * size)
      apart (inl h) = inr (omega (arith, page_span p size hp))
      apart (inr h) = inl (omega (arith, page_span q size hq))

  pub length-write_page :
      (p : ℕ) (content bytes : List ℕ)
      → length content ≡ size
      → 1 ≤ p
      → length (write_at ((p - 1) * size) content bytes) ≡ max (p * size) (length bytes)
  length-write_page p content bytes e hp =
      omega (arith, length-write_at ((p - 1) * size) content bytes, page_span p size hp)

  -- Two files of `n` whole pages are equal if all their pages are.
  pub eq_of_pages :
      (n : ℕ) (xs ys : List ℕ)
      → length xs ≡ n * size
      → length ys ≡ n * size
      → ((p : ℕ) → p < n → take size (drop (p * size) xs) ≡ take size (drop (p * size) ys))
      → xs ≡ ys
  eq_of_pages zero [] [] hx hy same = refl
  eq_of_pages zero [] (y ∷ ys) hx hy same = absurd (omega arith)
  eq_of_pages zero (x ∷ xs) ys hx hy same = absurd (omega arith)
  eq_of_pages (suc n) xs ys hx hy same =
      sym (take-append-drop size xs)
      ∙ ap₂ ◌++◌ first (
          eq_of_pages n (drop size xs) (drop size ys) (omega (arith, length-drop size xs))
            (omega (arith, length-drop size ys))
            λ p h.
              ap (take size) (later xs p)
              ∙ same (suc p) (omega arith)
              ∙ ap (take size) (sym (later ys p)))
      ∙ take-append-drop size ys
    where
      first : take size xs ≡ take size ys
      first =
          ap (take size) (drop_eq xs 0 (0 * size) (omega arith))
          ∙ same 0 (omega arith)
          ∙ ap (take size) (drop_eq ys (0 * size) 0 (omega arith))

      later : (zs : List ℕ) (p : ℕ) → drop (p * size) (drop size zs) ≡ drop (suc p * size) zs
      later zs p =
          drop-drop (p * size) size zs ∙ drop_eq zs (size + p * size) (suc p * size) (omega arith)
