-- ===== src/Endpoint/Remote.antt =====
-- src/endpoint.rs, `parse_remote_parts`: what a remote endpoint keeps of its text.
use Prim.Native.Char.{Char, code}
use rsqlite_rsync.Base.{
  ℕ, ◌≡◌, refl, ap, sym, ◌⊎◌, inl, inr, List, [], ◌∷◌, ◌++◌, none, some, Bool, true, false, not,
  ◌&&◌, ◌==◌, ==_iff, if◌then◌else◌,
}
use rsqlite_rsync.Endpoint.Address.{is_ip_addr}
use rsqlite_rsync.Endpoint.{
  Split, onto_split, split_first, or_here, split_last, then_colon, rest_of, split_bracket,
  is_remote_candidate, looks_like_remote_host, is_windows_drive, is_empty, bracketed, bare_address,
  host_and_path, parse_remote_parts,
}

-- `a`, a character with the code, and `b`.
abbrev pub Joined : ℕ → List Char → List Char → List Char → Type 0
Joined n s a b = (c : Char) × (code c ≡ n) × (s ≡ a ++ (c ∷ b))

-- `a`, a closing bracket and a colon, and `b`.
abbrev pub Closed : List Char → List Char → List Char → Type 0
Closed s a b = (c : Char) × (d : Char) × (code c ≡ 93) × (code d ≡ 58) × (s ≡ a ++ (c ∷ d ∷ b))

-- What a split says about its text.
abbrev pub Splits : (List Char → List Char → Type 0) → Split → Type 0
Splits P none = Unit
Splits P (some (a, b)) = P a b

onto-Splits :
    (P Q : List Char → List Char → Type 0) (c : Char) (o : Split)
    → ((a b : List Char) → P a b → Q (c ∷ a) b)
    → Splits P o
    → Splits Q (onto_split c o)
onto-Splits P Q c none f p = tt
onto-Splits P Q c (some (a, b)) f p = f a b p

Joined-cons : (n : ℕ) (c : Char) (s a b : List Char) → Joined n s a b → Joined n (c ∷ s) (c ∷ a) b
Joined-cons n c s a b (d, e, p) = (d, e, ap (λ (l : List Char). c ∷ l) p)

if-Splits :
    (P : List Char → List Char → Type 0) (b : Bool) (x y : Split)
    → (b ≡ true → Splits P x)
    → Splits P y
    → Splits P (if b then x else y)
if-Splits P true x y p q = p refl
if-Splits P false x y p q = q

pub split_first-Joined : (n : ℕ) (s : List Char) → Splits (Joined n s) (split_first n s)
unfolding split_first
split_first-Joined n [] = tt
split_first-Joined n (c ∷ s) =
    if-Splits (Joined n (c ∷ s)) (code c == n) (some ([], s)) (onto_split c (split_first n s))
      (λ e. (c, (==_iff (code c) n).0 e, refl))
      (onto-Splits (Joined n s) (Joined n (c ∷ s)) c (split_first n s) (Joined-cons n c s)
        (split_first-Joined n s))

split_last-Joined : (n : ℕ) (s : List Char) → Splits (Joined n s) (split_last n s)
unfolding split_last
split_last-Joined n [] = tt
split_last-Joined n (c ∷ s) = later (code c == n) (split_last n s) refl (split_last-Joined n s)
  where
    later :
        (b : Bool) (o : Split)
        → (code c == n) ≡ b
        → Splits (Joined n s) o
        → Splits (Joined n (c ∷ s)) (or_here c s b o)
    later true none e p = (c, (==_iff (code c) n).0 e, refl)
    later false none e p = tt
    later true (some (x, y)) e p = Joined-cons n c s x y p
    later false (some (x, y)) e p = Joined-cons n c s x y p

and_true : (a b : Bool) → (a && b) ≡ true → (a ≡ true) × (b ≡ true)
and_true true b e = (refl, e)
and_true false b e = cc

split_bracket-Closed : (s : List Char) → Splits (Closed s) (split_bracket s)
unfolding split_bracket
split_bracket-Closed [] = tt
split_bracket-Closed (c ∷ s) =
    if-Splits (Closed (c ∷ s)) (code c == 93 && then_colon s) (some ([], rest_of s))
      (onto_split c (split_bracket s)) (λ e. here s (and_true (code c == 93) (then_colon s) e))
      (onto-Splits (Closed s) (Closed (c ∷ s)) c (split_bracket s)
        (λ a b p. (p.0, p.1, p.2, p.3, ap (λ (l : List Char). c ∷ l) p.4)) (split_bracket-Closed s))
  where
    here :
        (r : List Char)
        → ((code c == 93) ≡ true) × (then_colon r ≡ true)
        → Closed (c ∷ r) [] (rest_of r)
    here [] e = cc (e.1)
    here (d ∷ r) e = (c, d, (==_iff (code c) 93).0 e.0, (==_iff (code d) 58).0 e.1, refl)

-- A host and a path that make up the text: a colon stands between them, or brackets stand around the host.
abbrev pub RemoteOf : List Char → List Char → List Char → Type 0
RemoteOf s u p =
    (is_empty u ≡ false)
    × (is_empty p ≡ false)
    × (Joined 58 s u p ⊎ ((o : Char) × (code o ≡ 91) × Closed s (o ∷ u) p))

not-true : (b : Bool) → not b ≡ true → b ≡ false
not-true true e = cc e
not-true false e = refl

host_is_not_empty : (u : List Char) → looks_like_remote_host u ≡ true → is_empty u ≡ false
unfolding looks_like_remote_host
host_is_not_empty [] e = sym e
host_is_not_empty (c ∷ u) e = refl

candidate_parts :
    (u p : List Char) → is_remote_candidate u p ≡ true → (is_empty u ≡ false) × (is_empty p ≡ false)
unfolding is_remote_candidate
candidate_parts u p e =
    let parts =
      and_true (not (is_empty p)) (looks_like_remote_host u)
        (and_true (not (is_windows_drive u)) (not (is_empty p) && looks_like_remote_host u) e).1 in
    (host_is_not_empty u parts.1, not-true (is_empty p) parts.0)

host_and_path-RemoteOf :
    (s : List Char) (o : Split) → Splits (Joined 58 s) o → Splits (RemoteOf s) (host_and_path o)
host_and_path-RemoteOf s none j = tt
host_and_path-RemoteOf s (some (u, p)) j =
    if-Splits (RemoteOf s) (is_remote_candidate u p) (some (u, p)) none
      (λ e. ((candidate_parts u p e).0, (candidate_parts u p e).1, inl j)) tt

bare_address-RemoteOf :
    (s : List Char) (o next : Split)
    → Splits (Joined 58 s) o
    → Splits (RemoteOf s) next
    → Splits (RemoteOf s) (bare_address o next)
bare_address-RemoteOf s none next j r = r
bare_address-RemoteOf s (some (u, p)) next j r =
    if-Splits (RemoteOf s) (is_ip_addr u && is_remote_candidate u p) (some (u, p)) next
      (λ e.
        let parts = candidate_parts u p (and_true (is_ip_addr u) (is_remote_candidate u p) e).1 in
        (parts.0, parts.1, inl j))
      r

bracketed-RemoteOf :
    (s : List Char) (o next : Split)
    → Splits (Closed s) o
    → Splits (RemoteOf s) next
    → Splits (RemoteOf s) (bracketed s o next)
bracketed-RemoteOf s none next j r = r
bracketed-RemoteOf s (some ([], p)) next j r = r
bracketed-RemoteOf s (some (c ∷ [], p)) next j r = r
bracketed-RemoteOf s (some (c ∷ h ∷ u, [])) next j r = r
bracketed-RemoteOf s (some (c ∷ h ∷ u, d ∷ p)) next j r =
    if-Splits (RemoteOf s) (code c == 91) (some (h ∷ u, d ∷ p)) next
      (λ e. (refl, refl, inr (c, (==_iff (code c) 91).0 e, j))) r

pub parse_remote_parts-RemoteOf : (s : List Char) → Splits (RemoteOf s) (parse_remote_parts s)
unfolding parse_remote_parts
parse_remote_parts-RemoteOf s =
    bracketed-RemoteOf s (split_bracket s)
      (bare_address (split_last 58 s) (host_and_path (split_first 58 s))) (split_bracket-Closed s)
      (bare_address-RemoteOf s (split_last 58 s) (host_and_path (split_first 58 s))
        (split_last-Joined 58 s)
        (host_and_path-RemoteOf s (split_first 58 s) (split_first-Joined 58 s)))
