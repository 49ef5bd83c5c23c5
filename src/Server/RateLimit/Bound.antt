-- ===== src/Server/RateLimit/Bound.antt =====
-- How many requests of one address the limiter admits over time, without its rounds of cleanup.
use netvantage.Prelude.{
  ℕ, ◌+◌, ◌-◌, ◌*◌, ◌/◌, ◌^◌, ◌≤◌, ◌<◌, ◌≡◌, refl, ap, inl, inr, ◌⊎◌, Bool, true, false, none, some,
  List, [], ◌∷◌, pos, ◌-ℤ◌, wrap64, wrap64-pos, String, ◌==◌, nat_eq, string_eq, eq_iff, arith,
  Bool-cases, Option-cases, if◌then◌else◌,
}
use netvantage.Prelude.Dict.{lookup, insert, lookup-insert}
use netvantage.Server.RateLimit.{
  Bucket, RateLimiter, new_rate_limiter, refill, take_token, panics, visit, allow, run,
}
use netvantage.Server.RateLimit.Tokens.{bucket, -ℤ-one}
use netvantage.Server.RateLimit.Budget.{grows, growth, stepped}

-- The requests of an address that the answers admit.
abbrev pub admitted : String → List (ℕ × String) → List Bool → ℕ
admitted key ((now, addr) ∷ reqs) (ok ∷ oks) =
    (if addr == key then if ok then 1 else 0 else 0) + admitted key reqs oks
admitted key _ _ = 0

-- The times of the requests do not decrease, and stand between two times.
abbrev pub InOrder : ℕ → ℕ → List (ℕ × String) → Type 0
InOrder from end [] = from ≤ end
InOrder from end ((now, addr) ∷ reqs) = (from ≤ now) × InOrder now end reqs

InOrder-le : (from end : ℕ) (reqs : List (ℕ × String)) → InOrder from end reqs → from ≤ end
InOrder-le from end [] h = h
InOrder-le from end ((now, addr) ∷ reqs) h = omega (arith, h.0, InOrder-le now end reqs h.1)

no_panic : (rl : RateLimiter) (key : String) → 0 < rl.interval → panics rl key ≡ false
unfolding panics
no_panic rl key positive = ground arith

pub allow_known :
    (rl : RateLimiter) (now : ℕ) (key : String) (b b' : Bucket) (ok : Bool)
    → 0 < rl.interval
    → lookup key rl.visitors ≡ some b
    → take_token (refill rl now b) ≡ (b', ok)
    → allow rl now key ≡ some (record rl { visitors = insert key b' rl.visitors }, ok)
unfolding allow visit
allow_known rl now key b b' ok positive e taken =
    rw (no_panic rl key positive) (rw (e, visit) (rw taken refl))

abbrev pub first_bucket : RateLimiter → ℕ → Bucket
first_bucket rl now = record { tokens = wrap64 (rl.burst -ℤ pos 1); last_refill = now }

pub allow_new :
    (rl : RateLimiter) (now : ℕ) (key : String)
    → 0 < rl.interval
    → lookup key rl.visitors ≡ none
    → allow rl now key
      ≡ some (record rl { visitors = insert key (first_bucket rl now) rl.visitors }, true)
unfolding allow visit
allow_new rl now key positive e = rw (no_panic rl key positive) (rw (e, visit) refl)

-- A request is answered, and leaves the other addresses' buckets alone.
pub record Answered (rl : RateLimiter) (now : ℕ) (addr : String) : Type 0 where
  pub b : Bucket
  pub ok : Bool
  pub is : allow rl now addr ≡ some (record rl { visitors = insert addr b rl.visitors }, ok)

pub answered : (rl : RateLimiter) (now : ℕ) (addr : String) → 0 < rl.interval → Answered rl now addr
answered rl now addr positive = elim (Option-cases (lookup addr rl.visitors)) [
  | inl new ↦ record { b = first_bucket rl now; ok = true; is = allow_new rl now addr positive new }
  | inr (b, known) ↦
      let after = take_token (refill rl now b) in
      record {
        b = after.0;
        ok = after.1;
        is = allow_known rl now addr b after.0 after.1 positive known refl;
      }
]

-- The tokens that an address can still take up to `end` are at most `most`.
abbrev Has : RateLimiter → ℕ → ℕ → String → ℕ → ℕ → ℕ → Type 0
Has rl r n key from end most =
    ((lookup key rl.visitors ≡ none) × (n + grows rl r end from ≤ most))
    ⊎ ((t : ℕ) × (last : ℕ) × (lookup key rl.visitors ≡ some (bucket t last))
        × (last ≤ from)
        × (t + grows rl r end last ≤ most))

record Admits (rl : RateLimiter) (key : String) (reqs : List (ℕ × String)) (most : ℕ) : Type 0 where
  final : RateLimiter
  oks : List Bool
  ran : run rl reqs ≡ some (final, oks)
  bound : admitted key reqs oks ≤ most

Admits-of_first :
    (rl rl' : RateLimiter) (key addr : String) (now most rest_most : ℕ) (ok : Bool)
    (reqs : List (ℕ × String))
    → allow rl now addr ≡ some (rl', ok)
    → Admits rl' key reqs rest_most
    → (if addr == key then if ok then 1 else 0 else 0) + rest_most ≤ most
    → Admits rl key ((now, addr) ∷ reqs) most
unfolding run
Admits-of_first rl rl' key addr now most rest_most ok reqs e rest h = record {
  final = rest.final;
  oks = ok ∷ rest.oks;
  ran = rw (e, run) (rw (rest.ran, run) refl);
  bound = omega (arith, rest.bound);
}

pub first_bucket_is :
    (rl : RateLimiter) (n now : ℕ)
    → rl.burst ≡ pos n
    → 0 < n
    → n < 2 ^ 63
    → first_bucket rl now ≡ bucket (n - 1) now
first_bucket_is rl n now burst h small =
    rw (burst, -ℤ-one n h, wrap64-pos (n - 1) (omega arith)) refl

module _ (r n : ℕ) (key : String) (end : ℕ) (n_positive : 0 < n) where
  admits :
      (reqs : List (ℕ × String)) (rl : RateLimiter) (from most : ℕ)
      → most < 2 ^ 63
      → rl.rate ≡ pos r
      → rl.burst ≡ pos n
      → 0 < rl.interval
      → InOrder from end reqs
      → Has rl r n key from end most
      → Admits rl key reqs most
  admits [] rl from most small rate burst positive order has = record {
    final = rl;
    oks = [];
    ran = unfold run in refl;
    bound = omega arith;
  }
  admits ((now, addr) ∷ reqs) rl from most small rate burst positive order has =
      let in_time = InOrder-le now end reqs order.1 in
      let grown = growth rl r n rate burst positive from now end order.0 in_time in
      elim (Bool-cases (string_eq.beq addr key)) [
        | inr other ↦
            let a = answered rl now addr positive in
            let rl' : RateLimiter = record rl { visitors = insert addr a.b rl.visitors } in
            let same : lookup key rl'.visitors ≡ lookup key rl.visitors =
              rw (lookup-insert, other) refl in
            let has' : Has rl' r n key now end most = elim has [
              | inl (new, h) ↦ inl (rw same new, omega arith)
              | inr (t, last, known, past, h) ↦ inr (t, last, rw same known, omega arith, h)
            ] in
            Admits-of_first rl rl' key addr now most most a.ok reqs a.is
              (admits reqs rl' now most small rate burst positive order.1 has')
              (rw other (omega arith))
        | inl mine ↦ elim has [
          | inl (new, h) ↦
              let rl' : RateLimiter = record rl {
                visitors = insert addr (first_bucket rl now) rl.visitors;
              } in
              Admits-of_first rl rl' key addr now most (most - 1) true reqs
                (allow_new rl now addr positive (rw ((eq_iff _ _).0 mine) new))
                (admits reqs rl' now (most - 1) (omega arith) rate burst positive order.1 (
                  inr (
                    n - 1,
                    now,
                    rw (lookup-insert, mine)
                        (ap some (first_bucket_is rl n now burst (omega arith) (omega arith))),
                    omega arith,
                    omega arith,
                  )))
                (rw mine (omega arith))
          | inr (t, last, known, past, h) ↦
              let st =
                stepped rl r n rate burst positive end now t last (omega arith) in_time
                  (omega arith) in
              let b = bucket st.tokens st.filled in
              let rl' : RateLimiter = record rl { visitors = insert addr b rl.visitors } in
              let one = if st.ok then 1 else 0 in
              Admits-of_first rl rl' key addr now most (most - one) st.ok reqs
                (allow_known rl now addr (bucket t last) b st.ok positive
                  (rw ((eq_iff _ _).0 mine) known) st.taken)
                (admits reqs rl' now (most - one) (omega arith) rate burst positive order.1 (
                  inr (
                    st.tokens,
                    st.filled,
                    rw (lookup-insert, mine) refl,
                    st.past,
                    omega (arith, st.budget),
                  )))
                (rw mine (omega (arith, st.budget)))
        ]
      ]

-- Without rounds of cleanup: a limiter that adds `r` tokens per interval up to a burst of `n`, with `n` at least 1 and the
-- interval above 0, answers every series of requests whose times do not decrease, and of one address
-- it admits at most `n` of them and `r` more for each whole interval of the time that they span. The
-- number is one that an int64 can hold.
pub run-bound :
    (r n interval from end : ℕ) (key : String) (reqs : List (ℕ × String))
    → 0 < n
    → 0 < interval
    → n + (end - from) / interval * r < 2 ^ 63
    → InOrder from end reqs
    → (final : RateLimiter) × (oks : List Bool) × (run
          (new_rate_limiter (pos r) interval (pos n))
          reqs
        ≡ some (final, oks))
      × (admitted key reqs oks ≤ n + (end - from) / interval * r)
run-bound r n interval from end key reqs n_positive positive small order =
    let rl = new_rate_limiter (pos r) interval (pos n) in
    let a =
      admits r n key end n_positive reqs rl from (n + (end - from) / interval * r) small refl refl
        positive order (inl (unfold lookup in refl, omega arith)) in
    (a.final, a.oks, a.ran, a.bound)
