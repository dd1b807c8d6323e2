-- ===== src/Gateway/Paths/Safe.antt =====
-- src/gateway/engine.rs: a resolved path stays under the data directory.
use Prim.Native.Char.{Char, code}
use text.Mathlib.TextEquality.{Char-path}
use rsqlite_rsync.Base.{
  ◌≡◌, refl, ap, sym, ◌∙◌, ◌≢◌, ◌↔◌, ◌⊎◌, inl, inr, List, [], ◌∷◌, Bool, true, false, Bool-cases,
  ◌==◌, ◌||◌, if◌then◌else◌, arith,
}
use rsqlite_rsync.KvText.Chars.{chars}
use rsqlite_rsync.KvText.{same_chars}
use rsqlite_rsync.Gateway.Paths.{
  segments, after_first, from_first, components, all_normal, onto_segment, DatabaseEngine, join,
  checked_path, invalid_name, resolve_db_path,
}
use rsqlite_rsync.Error.{SyncError, Result, ok, err}
use rsqlite_rsync.KvText.{trim}
use rsqlite_rsync.Gateway.Host.{Host, continue_call, pure_call}

same_chars_eq : (s t : List Char) → same_chars s t ≡ true → s ≡ t
same_chars_eq [] [] e = refl
same_chars_eq [] (d ∷ t) e = cc
same_chars_eq (c ∷ s) [] e = cc
same_chars_eq (c ∷ s) (d ∷ t) e = ground (arith, Char-path c d, same_chars_eq s t)

same_chars_self : (s : List Char) → same_chars s s ≡ true
same_chars_self [] = refl
same_chars_self (c ∷ s) = ground (arith, same_chars_self s)

contradicted : false ≡ true → ⊥
contradicted e = cc

abbrev pub Contains : List (List Char) → List Char → Type 0
Contains [] x = ⊥
Contains (s ∷ ss) x = (s ≡ x) ⊎ Contains ss x

-- A segment is looked at as the code does, or compared with `..`.
parent_step :
    (s : List Char) (ss : List (List Char))
    → all_normal (after_first (s ∷ ss))
      ≡ (if same_chars s (chars "..") then false else all_normal (after_first ss))
unfolding chars
parent_step [] ss = refl
parent_step (a ∷ []) ss = ground arith
parent_step (a ∷ b ∷ []) ss = ground arith
parent_step (a ∷ b ∷ c ∷ s) ss = ground arith

if_false : (b c : Bool) → (if b then false else c) ≡ true → (b ≡ false) × (c ≡ true)
if_false true c e = cc
if_false false c e = (refl, e)

no_parents_iff :
    (ss : List (List Char)) → (all_normal (after_first ss) ≡ true) ↔ (Contains ss (chars "..") → ⊥)
no_parents_iff [] = (λ e m. m, λ n. refl)
no_parents_iff (s ∷ ss) = (into (no_parents_iff ss), back (no_parents_iff ss))
  where
    into :
        ((all_normal (after_first ss) ≡ true) ↔ (Contains ss (chars "..") → ⊥))
        → all_normal (after_first (s ∷ ss)) ≡ true
        → Contains (s ∷ ss) (chars "..")
        → ⊥
    into rest e m =
        let parts =
          if_false (same_chars s (chars "..")) (all_normal (after_first ss))
            (sym (parent_step s ss) ∙ e) in
        elim m [
          | inl same ↦ contradicted (
              sym parts.0
              ∙ ap (λ (l : List Char). same_chars l (chars "..")) same
              ∙ same_chars_self (chars ".."))
          | inr later ↦ rest.0 parts.1 later
        ]

    back :
        ((all_normal (after_first ss) ≡ true) ↔ (Contains ss (chars "..") → ⊥))
        → (Contains (s ∷ ss) (chars "..") → ⊥)
        → all_normal (after_first (s ∷ ss)) ≡ true
    back rest n = elim (Bool-cases (same_chars s (chars ".."))) [
      | inl e ↦ absurd (n (inl (same_chars_eq s (chars "..") e)))
      | inr e ↦ parent_step s ss ∙ rw e (rest.1 (λ m. n (inr m)))
    ]

-- The first segment, as the code looks at it.
first_step :
    (s : List Char) (ss : List (List Char))
    → all_normal (from_first (s ∷ ss)) ≡ (
        if same_chars s [] || same_chars s (chars ".")
        then false
        else all_normal (after_first (s ∷ ss)))
unfolding chars
first_step [] ss = refl
first_step (a ∷ []) ss = ground arith
first_step (a ∷ b ∷ []) ss = ground arith
first_step (a ∷ b ∷ c ∷ s) ss = ground arith

abbrev pub StartsInside : List (List Char) → Type 0
StartsInside [] = ⊥
StartsInside (s ∷ ss) = (s ≢ []) × (s ≢ chars ".")

-- A path that stays below the directory it is joined to: relative, and with no segment `..`.
abbrev pub Inside : List Char → Type 0
Inside p = (p ≢ []) × StartsInside (segments p) × (Contains (segments p) (chars "..") → ⊥)

starts_iff :
    (ss : List (List Char))
    → ss ≢ []
    → (all_normal (from_first ss) ≡ true) ↔ (StartsInside ss × (Contains ss (chars "..") → ⊥))
unfolding chars
starts_iff [] n = absurd (n refl)
starts_iff (s ∷ ss) n = (
  λ e.
      let parts =
        if_false (same_chars s [] || same_chars s (chars ".")) (all_normal (after_first (s ∷ ss)))
          (sym (first_step s ss) ∙ e) in
      (
        (
          λ same. contradicted (
              sym parts.0
              ∙ ap (λ (l : List Char). same_chars l [] || same_chars l (chars ".")) same),
          λ same. contradicted (
              sym parts.0
              ∙ ap (λ (l : List Char). same_chars l [] || same_chars l (chars ".")) same
              ∙ dot),
        ),
        (no_parents_iff (s ∷ ss)).0 parts.1,
      ),
  λ p.
      first_step s ss
      ∙ ap (λ (b : Bool). if b then false else all_normal (after_first (s ∷ ss))) (neither p.0)
      ∙ (no_parents_iff (s ∷ ss)).1 p.1,
)
  where
    dot : (same_chars (chars ".") [] || same_chars (chars ".") (chars ".")) ≡ true
    dot = refl

    neither : (s ≢ []) × (s ≢ chars ".") → (same_chars s [] || same_chars s (chars ".")) ≡ false
    neither p = ground (arith, same_chars_eq s [], same_chars_eq s (chars "."), p.0, p.1)

onto_some : (c : Char) (ss : List (List Char)) → onto_segment c ss ≢ []
onto_some c [] e = cc
onto_some c (s ∷ ss) e = cc

segments_some : (s : List Char) → segments s ≢ []
unfolding segments
segments_some [] e = cc
segments_some (c ∷ s) e = elim (Bool-cases (code c == 47)) [
  | inl t ↦ ground arith
  | inr f ↦
      onto_some c (segments s)
        (sym (ap (λ (b : Bool). if b then [] ∷ segments s else onto_segment c (segments s)) f) ∙ e)
]

Inside-iff : (c : Char) (s : List Char) → (all_normal (components (c ∷ s)) ≡ true) ↔ Inside (c ∷ s)
unfolding components
Inside-iff c s =
    let parts = starts_iff (segments (c ∷ s)) (segments_some (c ∷ s)) in
    (λ e. (λ n. cc, (parts.0 e).0, (parts.0 e).1), λ p. parts.1 (p.1, p.2))

module _ (h : Host) where
  open h use {World, create_parent}

  -- A name that is a relative path inside the data directory, once trimmed, gives the directory joined
  -- with it, after the parent directory is created. Any other name (empty, absolute, starting with `.`
  -- as a segment, or with a segment `..`) is an error, and nothing is created.
  pub resolve_db_path_cases :
      (engine : DatabaseEngine) (db_name : List Char) (w : World)
      → (Inside (trim db_name)
          × (resolve_db_path h engine db_name w
              ≡ continue_call
                  (create_parent (join engine.data_dir (trim db_name)) w)
                  (λ _. pure_call (ok (join engine.data_dir (trim db_name))))))
        ⊎ ((Inside (trim db_name) → ⊥)
            × ((e : SyncError) × (resolve_db_path h engine db_name w ≡ (w, err e))))
  unfolding resolve_db_path
  resolve_db_path_cases engine db_name w = by_name (trim db_name)
    where
      after : Result (List Char) → World × Result (List Char)
      after r =
          continue_call (w, r)
            (λ full_path w1.
              continue_call (create_parent full_path w1) (λ _. pure_call (ok full_path)))

      by_name :
          (p : List Char)
          → (Inside p
              × (after (checked_path engine p)
                  ≡ continue_call
                      (create_parent (join engine.data_dir p) w)
                      (λ _. pure_call (ok (join engine.data_dir p)))))
            ⊎ ((Inside p → ⊥) × ((e : SyncError) × (after (checked_path engine p) ≡ (w, err e))))
      by_name [] = inr (λ i. i.0 refl, (_, refl))
      by_name (c ∷ s) = elim (Bool-cases (all_normal (components (c ∷ s)))) [
        | inl t ↦ inl (
          (Inside-iff c s).0 t,
          ap
              (λ (b : Bool).
                after (if b then ok (join engine.data_dir (c ∷ s)) else err (invalid_name (c ∷ s))))
              t,
        )
        | inr f ↦ inr (
          λ i. contradicted (sym f ∙ (Inside-iff c s).1 i),
          (
            invalid_name (c ∷ s),
            ap
                (λ (b : Bool).
                  after
                    (if b then ok (join engine.data_dir (c ∷ s)) else err (invalid_name (c ∷ s))))
                f,
          ),
        )
      ]
