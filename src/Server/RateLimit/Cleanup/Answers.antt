-- ===== src/Server/RateLimit/Cleanup/Answers.antt =====
-- What the limiter answers with rounds of cleanup between the requests, and without them.
use netvantage.Prelude.{
  ℕ, zero, suc, ◌+◌, ◌-◌, ◌*◌, ◌/◌, ◌^◌, ◌≤◌, ◌<◌, ◌≡◌, refl, ◌∙◌, ap, inl, inr, min, Bool, true,
  false, none, some, List, [], ◌∷◌, pos, String, nat_eq, string_eq, arith, Bool-cases,
}
use native.Mathlib.Nat.{mul-le-mul_right}
use netvantage.Prelude.Dict.{lookup, insert, lookup-insert, IsDistinct, insert-IsDistinct}
use netvantage.Server.RateLimit.{
  Bucket, RateLimiter, new_rate_limiter, max_duration, stale_after, refills, refill, take_token,
  allow, run, keep_fresh, cleanup,
}
use netvantage.Server.RateLimit.Tokens.{
  bucket, refill_none, refill_some, take_token_some, take_token_none,
}
use netvantage.Server.RateLimit.Budget.{ℕ-cases}
use netvantage.Server.RateLimit.Bound.{first_bucket_is, allow_known, allow_new}
use netvantage.Server.RateLimit.Cleanup.{
  Event, request, cleaned, run_events, requests_of, InOrder, div_le_div, lookup-keep_fresh,
  keep_fresh-IsDistinct, Agree, unknown, same, dropped, later, Agree-drop_stale,
}

module _ (r n i : ℕ) (n_positive : 0 < n) (positive : 0 < i)
    (fits : n + max_duration / i * r < 2 ^ 63) (full : n ≤ stale_after / i * r) where
  abbrev limiter : List (String × Bucket) → RateLimiter
  limiter v = record { visitors = v; rate = pos r; interval = i; burst = pos n }

  taken_in_range :
      (v : List (String × Bucket)) (now t last t' last' : ℕ)
      → refill (limiter v) now (bucket t last) ≡ bucket t' last'
      → t' ≤ n
      → last' ≤ now
      → (t'' : ℕ) × (last'' : ℕ) × (ok : Bool) × (take_token
            (refill (limiter v) now (bucket t last))
          ≡ (bucket t'' last'', ok))
        × (t'' ≤ n)
        × (last'' ≤ now)
  taken_in_range v now t last zero last' e h q =
      (0, last', false, rw e (take_token_none last'), h, q)
  taken_in_range v now t last (suc k) last' e h q = (
    suc k - 1,
    last',
    true,
    rw e (take_token_some (suc k) last' (omega arith) (omega arith)),
    omega arith,
    q,
  )

  added_bound : (now last : ℕ) → min (now - last) max_duration / i * r ≤ max_duration / i * r
  added_bound now last =
      mul-le-mul_right r
        (div_le_div (min (now - last) max_duration) max_duration i positive (omega arith))

  served :
      (v : List (String × Bucket)) (now t last : ℕ)
      → t ≤ n
      → last ≤ now
      → (t'' : ℕ) × (last'' : ℕ) × (ok : Bool) × (take_token
            (refill (limiter v) now (bucket t last))
          ≡ (bucket t'' last'', ok))
        × (t'' ≤ n)
        × (last'' ≤ now)
  served v now t last h q = elim (ℕ-cases (refills (limiter v) now (bucket t last))) [
    | inl none_passed ↦
        taken_in_range v now t last t last
          (refill_none (limiter v) r n refl refl now last t none_passed) h q
    | inr (k, passed) ↦
        taken_in_range v now t last (min (t + min (now - last) max_duration / i * r) n) now
          (refill_some (limiter v) r n refl refl now last t (omega arith)
            (omega (arith, added_bound now last)))
          (omega arith) (omega arith)
  ]

  some_interval : 0 < stale_after / i
  some_interval = elim (ℕ-cases (stale_after / i)) [
    | inl e ↦ absurd (let small : n ≤ 0 * r = rw e at full in omega arith)
    | inr (k, e) ↦ omega arith
  ]

  refilled :
      (v : List (String × Bucket)) (now t last : ℕ)
      → t ≤ n
      → last + stale_after < now
      → take_token (refill (limiter v) now (bucket t last)) ≡ (bucket (n - 1) now, true)
  refilled v now t last h stale =
      let more : stale_after / i ≤ min (now - last) max_duration / i =
        div_le_div stale_after (min (now - last) max_duration) i positive (omega arith) in
      let added : stale_after / i * r ≤ min (now - last) max_duration / i * r =
        mul-le-mul_right r more in
      let topped : refill (limiter v) now (bucket t last) ≡ bucket n now =
        refill_some (limiter v) r n refl refl now last t (omega (arith, some_interval))
          (omega (arith, added_bound now last))
        ∙ ap (λ k. bucket k now) (omega arith) in
      rw topped (take_token_some n now n_positive (omega arith))

  served_new :
      (v : List (String × Bucket)) (now : ℕ) (key : String)
      → lookup key v ≡ none
      → allow (limiter v) now key ≡ some (limiter (insert key (bucket (n - 1) now) v), true)
  served_new v now key new =
      allow_new (limiter v) now key positive new
      ∙ ap (λ b. some (limiter (insert key b v), true))
          (first_bucket_is (limiter v) n now refl n_positive (omega arith))

  -- A request of an address on whose bucket the two limiters agree: one answer, and one bucket.
  abbrev Served : List (String × Bucket) → List (String × Bucket) → ℕ → String → Type 0
  Served all kept now key =
      (t : ℕ) × (last : ℕ) × (ok : Bool) × (allow (limiter all) now key
        ≡ some (limiter (insert key (bucket t last) all), ok))
      × (allow (limiter kept) now key ≡ some (limiter (insert key (bucket t last) kept), ok))
      × (t ≤ n)
      × (last ≤ now)

  Served-both :
      (all kept : List (String × Bucket)) (now : ℕ) (key : String)
      → Agree n now (lookup key all) (lookup key kept)
      → Served all kept now key
  Served-both all kept now key (unknown a k) = (
    n - 1,
    now,
    true,
    served_new all now key a,
    served_new kept now key k,
    omega arith,
    omega arith,
  )
  Served-both all kept now key (same t last h q a k) =
      let (t', last', ok, taken, h', q') = served all now t last h q in
      (
        t',
        last',
        ok,
        allow_known (limiter all) now key (bucket t last) (bucket t' last') ok positive a taken,
        allow_known (limiter kept) now key (bucket t last) (bucket t' last') ok positive k
            (unfold refill in taken),
        h',
        q',
      )
  Served-both all kept now key (dropped t last h q a k) = (
    n - 1,
    now,
    true,
    allow_known (limiter all) now key (bucket t last) (bucket (n - 1) now) true positive a
        (refilled all now t last h q),
    served_new kept now key k,
    omega arith,
    omega arith,
  )

  Agree-insert :
      (all kept : List (String × Bucket)) (now t last : ℕ) (key : String)
      → t ≤ n
      → last ≤ now
      → ((k : String) → Agree n now (lookup k all) (lookup k kept))
      → (k : String)
      → Agree n now
          (lookup k (insert key (bucket t last) all))
          (lookup k (insert key (bucket t last) kept))
  Agree-insert all kept now t last key h q agree k = elim (Bool-cases (string_eq.beq key k)) [
    | inl mine ↦ same t last h q (rw (lookup-insert, mine) refl) (rw (lookup-insert, mine) refl)
    | inr other ↦ rw (lookup-insert, lookup-insert, other) (agree k)
  ]

  Agree-cleaned :
      (all kept : List (String × Bucket)) (now : ℕ)
      → IsDistinct kept
      → ((k : String) → Agree n now (lookup k all) (lookup k kept))
      → (k : String) → Agree n now (lookup k all) (lookup k (keep_fresh now kept))
  Agree-cleaned all kept now d agree k =
      rw (lookup-keep_fresh now k kept d) (Agree-drop_stale (agree k))

  abbrev Answered : List (String × Bucket) → List (String × Bucket) → List Event → Type 0
  Answered all kept events =
      (oks : List Bool) × (final : RateLimiter) × (cleaned_final : RateLimiter) × (run (limiter all)
          (requests_of events)
        ≡ some (final, oks))
      × (run_events (limiter kept) events ≡ some (cleaned_final, oks))

  answers :
      (events : List Event) (all kept : List (String × Bucket)) (from : ℕ)
      → IsDistinct kept
      → ((k : String) → Agree n from (lookup k all) (lookup k kept))
      → InOrder from events
      → Answered all kept events
  unfolding run run_events cleanup
  answers [] all kept from d agree order = ([], limiter all, limiter kept, refl, refl)
  answers (request now key ∷ events) all kept from d agree order =
      let now_agree = λ (k : String). later order.0 (agree k) in
      let (t, last, ok, a, k, h, q) = Served-both all kept now key (now_agree key) in
      let (oks, final, cleaned_final, ran, ran') =
        answers events (insert key (bucket t last) all) (insert key (bucket t last) kept) now
          (insert-IsDistinct key (bucket t last) kept d)
          (Agree-insert all kept now t last key h q now_agree) order.1 in
      (
        ok ∷ oks,
        final,
        cleaned_final,
        rw (a, run) (rw (ran, run) refl),
        rw (k, run_events) (rw (ran', run_events) refl),
      )
  answers (cleaned now ∷ events) all kept from d agree order =
      answers events all (keep_fresh now kept) now (keep_fresh-IsDistinct now kept d)
        (Agree-cleaned all kept now d (λ k. later order.0 (agree k))) order.1

-- A limiter with a burst of `n`, at least 1, whose rate `r` refills it within ten minutes, and whose
-- longest refill an int64 can hold, gives with any rounds of cleanup between the requests the answers
-- that it gives without them, if the times do not decrease; and it answers every request.
pub run_events-cleanup :
    (r n interval from : ℕ) (events : List Event)
    → 0 < n
    → 0 < interval
    → n ≤ stale_after / interval * r
    → n + max_duration / interval * r < 2 ^ 63
    → InOrder from events
    → (oks : List Bool) × (final : RateLimiter) × (cleaned_final : RateLimiter) × (run
          (new_rate_limiter (pos r) interval (pos n))
          (requests_of events)
        ≡ some (final, oks))
      × (run_events (new_rate_limiter (pos r) interval (pos n)) events ≡ some (cleaned_final, oks))
run_events-cleanup r n interval from events n_positive positive full fits order =
    answers r n interval n_positive positive fits full events [] [] from tt
      (λ k. unfold lookup in unknown refl refl) order
