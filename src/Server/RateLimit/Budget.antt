-- ===== src/Server/RateLimit/Budget.antt =====
-- One request of an address that the limiter knows: what it leaves of the tokens to come.
use netvantage.Prelude.{
  ℕ, zero, suc, ◌+◌, ◌-◌, ◌*◌, ◌/◌, ◌^◌, ◌≤◌, ◌<◌, ◌≡◌, refl, inl, inr, ◌⊎◌, min, Bool, true, false,
  pos, nat_eq, string_eq, arith, if◌then◌else◌,
}
use native.Mathlib.Nat.{le-div_iff_mul-le, div-mul-le_self, mul-le-mul_right}
use netvantage.Server.RateLimit.{RateLimiter, max_duration, refills, refill, take_token}
use netvantage.Server.RateLimit.Tokens.{
  bucket, refill_none, refill_some, take_token_some, take_token_none,
}

pub ℕ-cases : (n : ℕ) → (n ≡ 0) ⊎ ((k : ℕ) × (n ≡ suc k))
ℕ-cases zero = inl refl
ℕ-cases (suc k) = inr (k, refl)

spans :
    (last now end i : ℕ)
    → 0 < i
    → last ≤ now
    → now ≤ end
    → min (now - last) max_duration / i + (end - now) / i ≤ (end - last) / i
spans last now end i h p q = (le-div_iff_mul-le {y = end - last} h).1 (
    omega (arith, div-mul-le_self (min (now - last) max_duration) i, div-mul-le_self (end - now) i))

-- What one request of a known address does to its bucket. The tokens left, the token taken, and those
-- that whole intervals up to `end` can still add are together no more than before.
pub record Stepped (rl : RateLimiter) (r end now t last : ℕ) : Type 0 where
  pub tokens : ℕ
  pub filled : ℕ
  pub ok : Bool
  pub taken : take_token (refill rl now (bucket t last)) ≡ (bucket tokens filled, ok)
  pub past : filled ≤ now
  pub budget :
      (if ok then 1 else 0) + tokens + (end - filled) / rl.interval * r
      ≤ t + (end - last) / rl.interval * r

abbrev pub grows : RateLimiter → ℕ → ℕ → ℕ → ℕ
grows rl r end last = (end - last) / rl.interval * r

Stepped-of_refill :
    (rl : RateLimiter) (r end now t last t' last' : ℕ)
    → refill rl now (bucket t last) ≡ bucket t' last'
    → t' < 2 ^ 63
    → last' ≤ now
    → t' + grows rl r end last' ≤ t + grows rl r end last
    → Stepped rl r end now t last
Stepped-of_refill rl r end now t last zero last' e small past h = record {
  tokens = 0;
  filled = last';
  ok = false;
  taken = rw e (take_token_none last');
  past = past;
  budget = omega arith;
}
Stepped-of_refill rl r end now t last (suc k) last' e small past h = record {
  tokens = suc k - 1;
  filled = last';
  ok = true;
  taken = rw e (take_token_some (suc k) last' (omega arith) small);
  past = past;
  budget = omega arith;
}

module _ (rl : RateLimiter) (r n : ℕ) (rate : rl.rate ≡ pos r) (burst : rl.burst ≡ pos n)
    (positive : 0 < rl.interval) where
  pub growth :
      (last now end : ℕ)
      → last ≤ now
      → now ≤ end
      → min (now - last) max_duration / rl.interval * r + grows rl r end now ≤ grows rl r end last
  growth last now end p q =
      let sum = spans last now end rl.interval positive p q in omega (arith, mul-le-mul_right r sum)

  pub stepped :
      (end now t last : ℕ)
      → last ≤ now
      → now ≤ end
      → t + grows rl r end last < 2 ^ 63
      → Stepped rl r end now t last
  stepped end now t last p q small = elim (ℕ-cases (refills rl now (bucket t last))) [
    | inl none_passed ↦
        Stepped-of_refill rl r end now t last t last
          (refill_none rl r n rate burst now last t none_passed) (omega arith) p (omega arith)
    | inr (k, passed) ↦
        let more = growth last now end p q in
        let sum = t + min (now - last) max_duration / rl.interval * r in
        Stepped-of_refill rl r end now t last (min sum n) now
          (refill_some rl r n rate burst now last t (omega arith) (omega arith)) (omega arith)
          (omega arith) (omega arith)
  ]
