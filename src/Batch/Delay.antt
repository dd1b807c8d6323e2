-- ===== src/Batch/Delay.antt =====
-- src/batch.rs: the bounds of the delay between two attempts.
use native.Mathlib.Nat.{pow-suc, mod-lt}
use rsqlite_rsync.Base.{
  ℕ, zero, suc, ◌+◌, ◌-◌, ◌*◌, ◌/◌, ◌%◌, ◌^◌, ◌≤◌, ◌<◌, ◌≡◌, refl, sym, ap, subst, ◌⊎◌, inl, inr,
  Option, none, some, false, min, ltb, if◌then◌else◌, ◌==◌, Bool-cases, ==_iff, arith,
}
use rsqlite_rsync.Batch.{
  capped, limited, jittered, with_jitter, as_u64, retry_delay_for_attempt_core,
}

-- The delay without jitter, in unbounded numbers: it doubles with each attempt, 31 times at most.
abbrev pub backoff : ℕ → Option ℕ → ℕ → ℕ
backoff base max_ms attempt = limited (base * 2 ^ min (attempt - 1) 31) max_ms

scale : (a b c : ℕ) → a ≤ b → a * c ≤ b * c
scale a b c h = grind arith

power31 : (e left : ℕ) → e + left ≡ 31 → 2 ^ e ≤ 2147483648
power31 e zero h =
    subst (λ (k : ℕ). 2 ^ k ≤ 2147483648) {x = 31} {y = e} (omega arith) (omega arith)
power31 e (suc left) h = omega (arith, pow-suc 2 e, power31 (suc e) left (omega arith))

doubling_bound : (attempt : ℕ) → 2 ^ min (attempt - 1) 31 ≤ 2147483648
doubling_bound attempt = power31 (min (attempt - 1) 31) (31 - min (attempt - 1) 31) (omega arith)

product_bound :
    (base attempt : ℕ)
    → base ≤ 18446744073709551615
    → base * 2 ^ min (attempt - 1) 31 ≤ 18446744073709551615 * 2147483648
product_bound base attempt h =
    omega
      (arith, scale base 18446744073709551615 (2 ^ min (attempt - 1) 31) h, doubling_bound attempt)

-- No bound of 128 bits is reached.
backoff-capped :
    (base attempt : ℕ) (max_ms : Option ℕ)
    → base ≤ 18446744073709551615
    → limited (capped (base * 2 ^ min (attempt - 1) 31)) max_ms ≡ backoff base max_ms attempt
backoff-capped base attempt max_ms h =
    ap (λ (d : ℕ). limited d max_ms) (omega (arith, product_bound base attempt h))

backoff_bound :
    (base attempt : ℕ) (max_ms : Option ℕ)
    → base ≤ 18446744073709551615
    → backoff base max_ms attempt ≤ 18446744073709551615 * 2147483648
backoff_bound base attempt none h = product_bound base attempt h
backoff_bound base attempt (some m) h = omega (arith, product_bound base attempt h)

span_bounds :
    (delay span entropy : ℕ)
    → span * 2 + 1 ≤ 340282366920938463463374607431768211455
    → (delay - span ≤ jittered delay span entropy) × (jittered delay span entropy ≤ delay + span)
span_bounds delay span entropy h = elim (Bool-cases (ltb 0 span)) [
  | inl wide ↦
      let range : capped (capped (span * 2) + 1) ≡ span * 2 + 1 = omega arith in
      let offset : entropy % (span * 2 + 1) < span * 2 + 1 = mod-lt entropy (omega arith) in
      rw (wide, range) (omega arith, omega arith)
  | inr narrow ↦ rw narrow (omega arith, omega arith)
]

jittered_bounds :
    (delay share entropy : ℕ)
    → delay ≤ 18446744073709551615 * 2147483648
    → share ≤ delay * 255
    → (delay - share / 100 ≤ jittered delay (capped share / 100) entropy)
      × (jittered delay (capped share / 100) entropy ≤ delay + share / 100)
jittered_bounds delay share entropy h k =
    let exact : capped share ≡ share = omega arith in
    rw exact (span_bounds delay (share / 100) entropy (omega arith))

-- The jitter stays within its share of the delay.
jitter_bounds :
    (delay pct entropy : ℕ)
    → delay ≤ 18446744073709551615 * 2147483648
    → pct ≤ 255
    → (delay - delay * pct / 100 ≤ with_jitter delay pct entropy)
      × (with_jitter delay pct entropy ≤ delay + delay * pct / 100)
jitter_bounds delay pct entropy h k = elim (Bool-cases (ltb 0 pct)) [
  | inl some_jitter ↦
      rw some_jitter (jittered_bounds delay (delay * pct) entropy h (share_bound delay pct k))
  | inr no_jitter ↦ rw no_jitter (omega arith, omega arith)
]
  where
    share_bound : (d p : ℕ) → p ≤ 255 → d * p ≤ d * 255
    share_bound d p h = grind arith

-- The delay of a given backoff.
abbrev delay_of : ℕ → ℕ → ℕ → Option ℕ
delay_of delay pct entropy =
    if delay == 0 then none else some (as_u64 (with_jitter delay pct entropy))

abbrev pub Bounded : ℕ → ℕ → Option ℕ → Type 0
Bounded delay pct result =
    ((delay ≡ 0) × (result ≡ none))
    ⊎ ((1 ≤ delay)
        × ((ms : ℕ) × (result ≡ some ms)
            × (min (delay - delay * pct / 100) 18446744073709551615 ≤ ms)
            × (ms ≤ min (delay + delay * pct / 100) 18446744073709551615)))

positive : (delay : ℕ) → (delay == 0) ≡ false → 1 ≤ delay
positive delay h = ground arith

delay-Bounded :
    (delay pct entropy : ℕ)
    → delay ≤ 18446744073709551615 * 2147483648
    → pct ≤ 255
    → Bounded delay pct (delay_of delay pct entropy)
delay-Bounded delay pct entropy h k = elim (Bool-cases (delay == 0)) [
  | inl nothing ↦ rw nothing (inl ((==_iff delay 0).0 nothing, refl))
  | inr something ↦
      let (low, high) = jitter_bounds delay pct entropy h k in
      rw something (
        inr (
          positive delay something,
          (as_u64 (with_jitter delay pct entropy), refl, omega (arith, low), omega (arith, high)),
        ))
]

-- There is no delay exactly if the doubled and limited base is 0; otherwise the delay is that, up to
-- the share of the jitter more or less, with both bounds cut at the end of the 64-bit numbers. The base fits in 64
-- bits and the share in 8.
pub retry_delay_bounds :
    (base : ℕ) (max_ms : Option ℕ) (pct attempt entropy : ℕ)
    → base ≤ 18446744073709551615
    → pct ≤ 255
    → Bounded
        (backoff base max_ms attempt)
        pct
        (retry_delay_for_attempt_core base max_ms pct attempt entropy)
unfolding retry_delay_for_attempt_core
retry_delay_bounds base max_ms pct attempt entropy h k =
    subst (λ (d : ℕ). Bounded (backoff base max_ms attempt) pct (delay_of d pct entropy))
      (sym (backoff-capped base attempt max_ms h))
      (delay-Bounded (backoff base max_ms attempt) pct entropy (backoff_bound base attempt max_ms h)
        k)
