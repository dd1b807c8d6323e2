-- ===== src/Gateway/Auth/Accepted.antt =====
-- src/gateway/auth.rs: exactly the requests with the configured token pass the checks.
use Prim.Native.Char.{Char}
use mathlib.Core.Option.{some-injective}
use rsqlite_rsync.Base.{
  String, ◌≡◌, refl, ap, sym, subst, ◌∙◌, ◌≢◌, ◌↔◌, ◌⊎◌, inl, inr, ◌++◌, List, [], ◌∷◌, Option,
  none, some, Bool, true, false, arith, if◌then◌else◌,
}
use rsqlite_rsync.KvText.Chars.{chars, strip_prefix}
use rsqlite_rsync.KvText.Prefixes.{strip_prefix-append, append-strip_prefix}
use rsqlite_rsync.Gateway.Status.{Tonic, Status, get}
use rsqlite_rsync.Gateway.Auth.{
  AuthConfig, accepted, denied, check, check_token, check_request_or_token, compare_token,
  check_against, check_header, check_text, check_scheme, token_against, either_against, provides,
  payload_provides, bearer, text_of,
}
use rsqlite_rsync.Gateway.Auth.Checks.{tokens_iff}

module _ (t : Tonic) where
  open t use {Value, to_str}

  -- The metadata has `authorization: Bearer <token>`.
  abbrev pub Bears : List (String × Value) → List Char → Type 0
  Bears metadata token =
      (header : Value) × (get metadata "authorization" ≡ some header)
      × (to_str header ≡ some (chars "Bearer " ++ token))

  nothing_given : (x : List Char) → ◌≡◌ {A = Option (List Char)} none (some x) → ⊥
  nothing_given x n = cc

  -- Where the text with the token may stand.
  abbrev Text : Option Value → List Char → Type 0
  Text header token = (h : Value) × (header ≡ some h) × (to_str h ≡ some (chars "Bearer " ++ token))

  compare_iff :
      (provided expected : List Char) (message : String)
      → (compare_token t provided expected message ≡ accepted) ↔ (provided ≡ expected)
  compare_iff provided expected message = ground (arith, tokens_iff provided expected)

  scheme_iff :
      (expected value : List Char)
      → (check_scheme t expected (strip_prefix (chars "Bearer ") value) ≡ accepted)
        ↔ (value ≡ chars "Bearer " ++ expected)
  scheme_iff expected value = (
    into (strip_prefix (chars "Bearer ") value) refl,
    λ e.
        rw e
          (rw strip_prefix-append ((compare_iff expected expected "invalid bearer token").1 refl)),
  )
    where
      into :
          (o : Option (List Char))
          → strip_prefix (chars "Bearer ") value ≡ o
          → check_scheme t expected o ≡ accepted
          → value ≡ chars "Bearer " ++ expected
      into none s e = cc
      into (some r) s e =
          append-strip_prefix (chars "Bearer ") value r s
          ∙ ap (λ (l : List Char). chars "Bearer " ++ l)
              ((compare_iff r expected "invalid bearer token").0 e)

  header_iff :
      (expected : List Char) (header : Option Value)
      → (check_header t expected header ≡ accepted) ↔ Text header expected
  header_iff expected none = (λ e. cc, λ b. cc (b.1))
  header_iff expected (some h) = (
    into (to_str h) refl,
    λ b.
        rw (ap to_str (some-injective h b.0 b.1) ∙ b.2)
          ((scheme_iff expected (chars "Bearer " ++ expected)).1 refl),
  )
    where
      into :
          (o : Option (List Char))
          → to_str h ≡ o
          → check_text t expected o ≡ accepted
          → Text (some h) expected
      into none s e = cc
      into (some v) s e = (h, refl, s ∙ ap some ((scheme_iff expected v).0 e))

  -- The chain of tests in `check_request_or_token` is that of `check`.
  provides_check :
      (expected : List Char) (header : Option Value)
      → (provides t expected (bearer t (text_of t header)) ≡ true)
        ↔ (check_header t expected header ≡ accepted)
  provides_check expected none = (λ e. cc, λ e. cc)
  provides_check expected (some h) = of_text (to_str h)
    where
      of_provided :
          (o : Option (List Char))
          → (provides t expected o ≡ true) ↔ (check_scheme t expected o ≡ accepted)
      of_provided none = (λ e. cc, λ e. cc)
      of_provided (some r) = ground arith

      of_text :
          (o : Option (List Char))
          → (provides t expected (bearer t o) ≡ true) ↔ (check_text t expected o ≡ accepted)
      of_text none = (λ e. cc, λ e. cc)
      of_text (some v) = of_provided (strip_prefix (chars "Bearer ") v)

  payload_iff :
      (expected : List Char) (payload : Option (List Char))
      → (payload_provides t expected payload ≡ true) ↔ ((payload ≡ some expected) × (expected ≢ []))
  payload_iff expected none = (λ e. cc, λ e. cc (e.0))
  payload_iff expected (some []) =
      (λ e. cc, λ e. absurd (e.1 (sym (some-injective [] expected e.0))))
  payload_iff expected (some (c ∷ s)) = (
    λ e. let same = (tokens_iff (c ∷ s) expected).0 e in (ap some same, λ n. cc (same, n)),
    λ e. (tokens_iff (c ∷ s) expected).1 (some-injective (c ∷ s) expected e.0),
  )

  abbrev pub Presents : List (String × Value) → Option (List Char) → List Char → Type 0
  Presents metadata payload token = Bears metadata token ⊎ ((payload ≡ some token) × (token ≢ []))

  chain :
      (b c : Bool) (st : Status Value)
      → ((if b then accepted else if c then accepted else denied st) ≡ accepted)
        ↔ ((b ≡ true) ⊎ (c ≡ true))
  chain true c st = (λ e. inl refl, λ p. refl)
  chain false true st = (λ e. inr refl, λ p. refl)
  chain false false st = (λ e. cc, λ p. elim p [ inl e ↦ cc | inr e ↦ cc ])

  either_iff :
      (expected : List Char) (metadata : List (String × Value)) (payload : Option (List Char))
      → (either_against t (some expected) metadata payload ≡ accepted)
        ↔ Presents metadata payload expected
  either_iff expected metadata payload =
      let by_header = provides_check expected (get metadata "authorization") in
      let header = header_iff expected (get metadata "authorization") in
      let body = payload_iff expected payload in
      let both =
        chain (provides t expected (bearer t (text_of t (get metadata "authorization"))))
          (payload_provides t expected payload) _ in
      (
        λ e. elim (both.0 e) [ inl h ↦ inl (header.0 (by_header.0 h)) | inr b ↦ inr (body.0 b) ],
        λ p. both.1 (elim p [ inl h ↦ inl (by_header.1 (header.1 h)) | inr b ↦ inr (body.1 b) ]),
      )

  -- With no token configured every request is accepted. With one, `check` accepts exactly the
  -- metadata whose authorization header reads as `Bearer ` and the token, `check_token` exactly the
  -- token, and `check_request_or_token` exactly a request with such a header or with the token, when
  -- it is not empty, as the explicit one.
  pub accepted_iff :
      (auth : AuthConfig) (metadata : List (String × Value)) (payload : Option (List Char))
      (token : List Char)
      → ((check t auth metadata ≡ accepted)
          ↔ ((expected : List Char) → auth.token ≡ some expected → Bears metadata expected))
        × ((check_token t auth token ≡ accepted)
            ↔ ((expected : List Char) → auth.token ≡ some expected → token ≡ expected))
        × ((check_request_or_token t auth metadata payload ≡ accepted) ↔ (
            (expected : List Char)
            → auth.token ≡ some expected
            → Presents metadata payload expected))
  unfolding check check_token check_request_or_token
  accepted_iff auth metadata payload token = by_token auth.token
    where
      when :
          {A : Type 0} (P : List Char → Type 0) (expected : List Char)
          → A ↔ P expected
          → A ↔ ((e : List Char) → some expected ≡ some e → P e)
      when P expected h = (
        λ a. λ e same. subst P (some-injective expected e same) (h.0 a),
        λ f. h.1 (f expected refl),
      )

      by_token :
          (o : Option (List Char))
          → ((check_against t o metadata ≡ accepted)
              ↔ ((expected : List Char) → o ≡ some expected → Bears metadata expected))
            × ((token_against t o token ≡ accepted)
                ↔ ((expected : List Char) → o ≡ some expected → token ≡ expected))
            × ((either_against t o metadata payload ≡ accepted)
                ↔ ((expected : List Char) → o ≡ some expected → Presents metadata payload expected))
      by_token none = (
        (λ e. λ x n. absurd (nothing_given x n), λ f. refl),
        (λ e. λ x n. absurd (nothing_given x n), λ f. refl),
        (λ e. λ x n. absurd (nothing_given x n), λ f. refl),
      )
      by_token (some expected) = (
        when (Bears metadata) expected (header_iff expected (get metadata "authorization")),
        when (λ e. token ≡ e) expected (compare_iff token expected "invalid auth token"),
        when (Presents metadata payload) expected (either_iff expected metadata payload),
      )
