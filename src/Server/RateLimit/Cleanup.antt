-- ===== src/Server/RateLimit/Cleanup.antt =====
-- Rounds of cleanup between the requests. A bucket that a round drops would have been full at its next
-- request, as is the bucket that takes its place.
pub mod Answers
pub mod Budget
use netvantage.Prelude.{
  ℕ, zero, suc, ◌+◌, ◌-◌, ◌*◌, ◌/◌, ◌^◌, ◌≤◌, ◌<◌, ◌≡◌, refl, sym, ◌∙◌, ap, inl, inr, ◌⊎◌, min,
  Bool, true, false, Option, none, some, List, [], ◌∷◌, pos, String, ◌==◌, nat_eq, string_eq,
  eq_iff, arith, Bool-cases, Option-cases, if◌then◌else◌, ltb,
}
use native.Mathlib.Nat.{le-div_iff_mul-le, div-mul-le_self, mul-le-mul_right}
use netvantage.Prelude.Dict.{lookup, insert, lookup-insert, IsDistinct, insert-IsDistinct}
use netvantage.Server.RateLimit.{
  Bucket, RateLimiter, new_rate_limiter, max_duration, stale_after, refills, refill, take_token,
  allow, run, keep_fresh, cleanup,
}
use netvantage.Server.RateLimit.Tokens.{
  bucket, refill_none, refill_some, take_token_some, take_token_none,
}
use netvantage.Server.RateLimit.Budget.{ℕ-cases}
use netvantage.Server.RateLimit.Bound.{first_bucket, first_bucket_is, allow_known, allow_new}

-- A request of an address, or a round of cleanup, at a time.
pub data Event : Type 0 where
  request : ℕ → String → Event
  cleaned : ℕ → Event

-- The limiter with its rounds of cleanup.
unfoldable pub run_events : RateLimiter → List Event → Option (RateLimiter × List Bool)
run_events rl [] = some (rl, [])
run_events rl (request now key ∷ rest) = elim (allow rl now key) [
  | none ↦ none
  | some (rl', ok) ↦ elim (run_events rl' rest) [
    | none ↦ none
    | some (rl'', oks) ↦ some (rl'', ok ∷ oks)
  ]
]
run_events rl (cleaned now ∷ rest) = run_events (cleanup now rl) rest

abbrev pub requests_of : List Event → List (ℕ × String)
requests_of [] = []
requests_of (request now key ∷ rest) = (now, key) ∷ requests_of rest
requests_of (cleaned now ∷ rest) = requests_of rest

-- The times of the events do not decrease.
abbrev pub InOrder : ℕ → List Event → Type 0
InOrder from [] = Unit
InOrder from (request now key ∷ rest) = (from ≤ now) × InOrder now rest
InOrder from (cleaned now ∷ rest) = (from ≤ now) × InOrder now rest

div_le_div : (a b i : ℕ) → 0 < i → a ≤ b → a / i ≤ b / i
div_le_div a b i h le = (le-div_iff_mul-le {y = b} h).1 (omega (arith, div-mul-le_self a i))

-- What a round of cleanup leaves of an entry.
unfoldable pub drop_stale : ℕ → Option Bucket → Option Bucket
drop_stale now none = none
drop_stale now (some b) = if ltb (b.last_refill + stale_after) now then none else some b

lookup-keep_fresh :
    (now : ℕ) (key : String) (m : List (String × Bucket))
    → IsDistinct m
    → lookup key (keep_fresh now m) ≡ drop_stale now (lookup key m)
unfolding lookup keep_fresh drop_stale
lookup-keep_fresh now key [] d = refl
lookup-keep_fresh now key ((j, b) ∷ m) d =
    let ih = lookup-keep_fresh now key m d.1 in
    elim (Bool-cases (string_eq.beq j key)) [
      | inl mine ↦
          let gone : lookup key m ≡ none = rw (← (eq_iff j key).0 mine) d.0 in
          elim (Bool-cases (ltb (b.last_refill + stale_after) now)) [
            | inl stale ↦ rw stale (rw mine (rw stale (ih ∙ rw gone refl)))
            | inr fresh ↦ rw fresh (rw mine (rw fresh refl))
          ]
      | inr other ↦ elim (Bool-cases (ltb (b.last_refill + stale_after) now)) [
        | inl stale ↦ rw stale (rw other ih)
        | inr fresh ↦ rw fresh (rw other ih)
      ]
    ]

keep_fresh-IsDistinct :
    (now : ℕ) (m : List (String × Bucket)) → IsDistinct m → IsDistinct (keep_fresh now m)
unfolding keep_fresh drop_stale
keep_fresh-IsDistinct now [] d = tt
keep_fresh-IsDistinct now ((j, b) ∷ m) d =
    let ih = keep_fresh-IsDistinct now m d.1 in
    let gone : lookup j (keep_fresh now m) ≡ none = lookup-keep_fresh now j m d.1 ∙ rw d.0 refl in
    elim (Bool-cases (ltb (b.last_refill + stale_after) now)) [
      | inl stale ↦ rw stale ih
      | inr fresh ↦ rw fresh (gone, ih)
    ]

-- The two buckets of an address, without and with the rounds of cleanup.
data Agree (n now : ℕ) (all kept : Option Bucket) : Type 0 where
  unknown : all ≡ none → kept ≡ none → Agree n now all kept
  same :
      (t last : ℕ)
      → t ≤ n
      → last ≤ now
      → all ≡ some (bucket t last)
      → kept ≡ some (bucket t last)
      → Agree n now all kept
  dropped :
      (t last : ℕ)
      → t ≤ n
      → last + stale_after < now
      → all ≡ some (bucket t last)
      → kept ≡ none
      → Agree n now all kept

later :
    {n now now' : ℕ} {all kept : Option Bucket}
    → now ≤ now'
    → Agree n now all kept
    → Agree n now' all kept
later le (unknown a k) = unknown a k
later le (same t last h q a k) = same t last h (omega arith) a k
later le (dropped t last h q a k) = dropped t last h (omega arith) a k

Agree-drop_stale :
    {n now : ℕ} {all kept : Option Bucket}
    → Agree n now all kept
    → Agree n now all (drop_stale now kept)
unfolding drop_stale
Agree-drop_stale (unknown a k) = unknown a (rw k refl)
Agree-drop_stale {now} (same t last h q a k) = elim (Bool-cases (ltb (last + stale_after) now)) [
  | inl stale ↦ dropped t last h (ground arith) a (rw k (rw stale refl))
  | inr fresh ↦ same t last h q a (rw k (rw fresh refl))
]
Agree-drop_stale (dropped t last h q a k) = dropped t last h q a (rw k refl)
