-- ===== src/Server/RateLimit/Tokens.antt =====
-- One bucket: what a refill and the taking of a token do to its number of tokens.
use netvantage.Prelude.{
  ℕ, ◌+◌, ◌-◌, ◌*◌, ◌^◌, ◌<◌, ◌≡◌, refl, min, true, false, ℤ, pos, ◌+ℤ◌, ◌-ℤ◌, ◌*ℤ◌, +ℤ-pos, wrap64,
  wrap64-pos, lt→ltb, ltb_ℤ, arith, if◌then◌else◌,
}
use netvantage.Server.RateLimit.{Bucket, RateLimiter, refills, refill, take_token}

*ℤ-pos : (a b : ℕ) → pos a *ℤ pos b ≡ pos (a * b)
unfolding ◌*ℤ◌
*ℤ-pos a b = ground arith

pub -ℤ-one : (a : ℕ) → 0 < a → pos a -ℤ pos 1 ≡ pos (a - 1)
unfolding ◌-ℤ◌
-ℤ-one a h = ground arith

abbrev pub bucket : ℕ → ℕ → Bucket
bucket tokens last = record { tokens = pos tokens; last_refill = last }

sum_exact :
    (t k r : ℕ) (rate : ℤ)
    → rate ≡ pos r
    → t + k * r < 2 ^ 63
    → wrap64 (pos t +ℤ wrap64 (pos k *ℤ rate)) ≡ pos (t + k * r)
sum_exact t k r rate e h =
    rw (e, *ℤ-pos) (rw (wrap64-pos (k * r) (omega arith)) (rw +ℤ-pos (wrap64-pos (t + k * r) h)))

clamp_exact :
    (m n : ℕ) (burst : ℤ)
    → burst ≡ pos n
    → (if ltb_ℤ burst (pos m) then burst else pos m) ≡ pos (min m n)
clamp_exact m n burst e = rw e (ground arith)

-- With a rate and a burst that are not negative, and no overflow, a refill adds its tokens up to the
-- burst, and leaves the bucket alone if no interval has passed.
module _ (rl : RateLimiter) (r n : ℕ) (rate : rl.rate ≡ pos r) (burst : rl.burst ≡ pos n) where
  pub refill_none :
      (now last t : ℕ)
      → refills rl now (bucket t last) ≡ 0
      → refill rl now (bucket t last) ≡ bucket t last
  unfolding refill
  refill_none now last t e = simp e

  pub refill_some :
      (now last t : ℕ)
      → 0 < refills rl now (bucket t last)
      → t + refills rl now (bucket t last) * r < 2 ^ 63
      → refill rl now (bucket t last) ≡ bucket (min (t + refills rl now (bucket t last) * r) n) now
  unfolding refill
  refill_some now last t some_passed h = simp (
    lt→ltb 0 (refills rl now (bucket t last)) some_passed,
    sum_exact t (refills rl now (bucket t last)) r rl.rate rate h,
    clamp_exact (t + refills rl now (bucket t last) * r) n rl.burst burst,
  )

holds_token : (t : ℕ) → 0 < t → ltb_ℤ (pos 0) (pos t) ≡ true
holds_token t h = ground arith

pub take_token_some :
    (t last : ℕ) → 0 < t → t < 2 ^ 63 → take_token (bucket t last) ≡ (bucket (t - 1) last, true)
unfolding take_token
take_token_some t last h small =
    rw (holds_token t h) (rw (-ℤ-one t h) (rw (wrap64-pos (t - 1) (omega arith)) refl))

pub take_token_none : (last : ℕ) → take_token (bucket 0 last) ≡ (bucket 0 last, false)
unfolding take_token
take_token_none last = refl
