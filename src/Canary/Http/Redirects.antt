-- ===== src/Canary/Http/Redirects.antt =====
-- The redirects of internal/agent/canary/http.
use netvantage.Prelude.{
  ℕ, zero, suc, ◌+◌, ◌≤◌, ◌≡◌, inl, inr, false, Option, none, some, List, [], ℤ, pos, negsuc,
  pos_part, String, ltb_ℤ, snoc, arith, Bool-cases, Option-cases,
}
use netvantage.Canary.Http.{
  Config, Fetched, fetch_failed, answered, redirected, Outcome, settle, client_do,
}

-- A number within the limit of the configuration.
within_limit : (limit : ℤ) (n : ℕ) → ltb_ℤ limit (pos n) ≡ false → n ≤ pos_part limit
within_limit (pos m) n h = ground arith
within_limit (negsuc m) n h = ground arith

-- An outcome whose count is within the bound.
abbrev IsBounded : ℕ → Option Outcome → Type 0
IsBounded bound none = ⊥
IsBounded bound (some outcome) = outcome.redirect_count ≤ bound

settle-IsBounded :
    (cfg : Config) (redirects : ℕ) (chain : List String) (go : String → Option Outcome)
    (fetched : Fetched)
    → redirects ≤ pos_part cfg.max_redirects
    → ((next : String)
        → suc redirects ≤ pos_part cfg.max_redirects
        → IsBounded (suc (pos_part cfg.max_redirects)) (go next))
    → IsBounded (suc (pos_part cfg.max_redirects)) (settle cfg redirects chain go fetched)
unfolding settle
settle-IsBounded cfg redirects chain go (fetch_failed e) h rest = omega arith
settle-IsBounded cfg redirects chain go (answered resp) h rest = omega arith
settle-IsBounded cfg redirects chain go (redirected next resp) h rest =
    elim (Bool-cases cfg.follow_redirects) [
      | inr stays ↦ rw stays (omega arith)
      | inl follows ↦ elim (Bool-cases (ltb_ℤ cfg.max_redirects (pos (suc redirects)))) [
        | inl over ↦ rw follows (rw over (omega arith))
        | inr within ↦
            rw follows
              (rw within (rest next (within_limit cfg.max_redirects (suc redirects) within)))
      ]
    ]

module _ (fetch : String → Fetched) where
  client_do-IsBounded :
      (fuel : ℕ) (cfg : Config) (url : String) (redirects : ℕ) (chain : List String)
      → suc (pos_part cfg.max_redirects) ≤ fuel + redirects
      → redirects ≤ pos_part cfg.max_redirects
      → IsBounded (suc (pos_part cfg.max_redirects)) (client_do fetch fuel cfg url redirects chain)
  unfolding client_do
  client_do-IsBounded zero cfg url redirects chain enough h = absurd (omega arith)
  client_do-IsBounded (suc fuel) cfg url redirects chain enough h =
      settle-IsBounded cfg redirects chain _ (fetch url) h (λ next within.
        client_do-IsBounded fuel cfg next (suc redirects) (snoc chain next) (omega arith) within)

  -- Whatever the servers answer, the request ends: with fuel for one URL more than the limit of
  -- redirects (0 if it is negative), there is an outcome, after at most one redirect more than the
  -- limit, the one that is refused.
  pub client_do-ends :
      (cfg : Config) (url : String)
      → (outcome : Outcome) × (client_do fetch (suc (pos_part cfg.max_redirects)) cfg url 0 []
          ≡ some outcome)
        × (outcome.redirect_count ≤ suc (pos_part cfg.max_redirects))
  client_do-ends cfg url =
      let bounded =
        client_do-IsBounded (suc (pos_part cfg.max_redirects)) cfg url 0 [] (omega arith)
          (omega arith) in
      elim (Option-cases (client_do fetch (suc (pos_part cfg.max_redirects)) cfg url 0 [])) [
        | inl stuck ↦ absurd (rw stuck at bounded)
        | inr (outcome, ended) ↦ (outcome, ended, rw ended at bounded)
      ]
