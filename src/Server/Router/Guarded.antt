-- ===== src/Server/Router/Guarded.antt =====
-- What a request without a key can do.
use mathlib.Core.Path.{subst}
use netvantage.Prelude.{ℕ, ◌≡◌, ◌⊎◌, refl, inl, inr, some, [], Bool-cases, Option-cases}
use netvantage.Server.RateLimit.{RateLimiter, allow}
use netvantage.Server.Auth.{ApiKey, Decision, unauthorized, forbidden, admitted, authenticate}
use netvantage.Server.Auth.Access.{
  Presents, NotExpired, authenticate-admitted_iff, authenticate-forbidden_iff,
}
use netvantage.Server.Database.Keys.{get_by_hash}
use netvantage.Server.Routes.{Target, healthz, api, api_miss, miss, Incoming}
use netvantage.Server.Router.{World, Server, guarded, routed, serve}

Decision-cases :
    (d : Decision) → (d ≡ unauthorized) ⊎ ((d ≡ forbidden) ⊎ ((key : ApiKey) × (d ≡ admitted key)))
Decision-cases unauthorized = inl refl
Decision-cases forbidden = inr (inl refl)
Decision-cases (admitted key) = inr (inr (key, refl))

module _ {F : Type 0} where
  -- The tables, the keys and the audit log are the same.
  abbrev pub IsUntouched : Server F → Server F → Type 0
  IsUntouched s s' = (s'.db ≡ s.db) × (s'.keys ≡ s.keys) × (s'.log ≡ s.log)

  -- The request is for a path under /api/v1.
  abbrev pub IsApi : Target F → Type 0
  IsApi healthz = ⊥
  IsApi (api call) = Unit
  IsApi (api_miss m) = Unit
  IsApi (miss m) = ⊥

module _ {F : Type 0} (w : World F) where
  -- A stored key that has not expired and whose token the request presents.
  abbrev pub HasKey : Server F → Incoming F → ApiKey → Type 0
  HasKey s r key =
      Presents w.hash_key (get_by_hash s.keys) r.authorization key × NotExpired r.now key.expires_at

  pub guarded-key :
      (s : Server F) (r : Incoming F) (next : ApiKey → Server F × ℕ)
      → (guarded w s r next ≡ (s, 401))
        ⊎ ((key : ApiKey) × HasKey s r key × (guarded w s r next ≡ next key))
  unfolding guarded
  guarded-key s r next =
      let auth = authenticate w.hash_key (get_by_hash s.keys) r.now [] r.authorization in
      elim (Decision-cases auth) [
        | inl denied ↦ inl (rw (denied, guarded) refl)
        | inr (inl refused) ↦
            let (key, shown, fresh, barred) =
              (authenticate-forbidden_iff w.hash_key (get_by_hash s.keys) r.now []
                  r.authorization).0
                refused in
            absurd (barred tt)
        | inr (inr (key, let_in)) ↦
            let (shown, fresh, free) =
              (authenticate-admitted_iff w.hash_key (get_by_hash s.keys) r.now [] r.authorization
                  key).0
                let_in in
            inr (key, (shown, fresh), rw (let_in, guarded) refl)
      ]

  abbrev Outcome : Server F → Incoming F → Target F → Server F × ℕ → Type 0
  Outcome s r t out =
      (IsUntouched s out.0 ⊎ (IsApi t × ((key : ApiKey) × HasKey s r key)))
      × (IsApi t → ((key : ApiKey) → ¬ HasKey s r key) → (out.1 ≡ 401) ⊎ (out.1 ≡ 429))

  guarded-Outcome :
      (s : Server F) (r : Incoming F) (t : Target F) (next : ApiKey → Server F × ℕ)
      → IsApi t
      → Outcome s r t (guarded w s r next)
  guarded-Outcome s r t next under_api = elim (guarded-key s r next) [
    | inl denied ↦ rw denied (inl (refl, refl, refl), λ _ _. inl refl)
    | inr (key, has, e) ↦ (inr (under_api, (key, has)), λ _ none_has. absurd (none_has key has))
  ]

  routed-Outcome : (s : Server F) (r : Incoming F) (t : Target F) → Outcome s r t (routed w s r t)
  unfolding routed
  routed-Outcome s r healthz = (inl (refl, refl, refl), λ under_api _. absurd under_api)
  routed-Outcome s r (api call) = guarded-Outcome s r (api call) _ tt
  routed-Outcome s r (api_miss m) = guarded-Outcome s r (api_miss m) _ tt
  routed-Outcome s r (miss m) = (inl (refl, refl, refl), λ under_api _. absurd under_api)

  -- How an answer comes about.
  pub serve_cases :
      (s s' : Server F) (r : Incoming F) (status : ℕ)
      → serve w s r ≡ some (s', status)
      → (limiter : RateLimiter) × ((routed w (record s { limiter = limiter }) r r.target
            ≡ (s', status))
          ⊎ ◌≡◌ {A = Server F × ℕ} (record s { limiter = limiter }, 429) (s', status))
  unfolding serve
  serve_cases s s' r status h = elim (Option-cases (allow s.limiter r.now r.remote_addr)) [
    | inl panic ↦ cc (rw (panic, serve) at h)
    | inr ((limiter, ok), known) ↦
        let h' = rw (known, serve) at h in
        elim (Bool-cases ok) [
          | inl taken ↦ (limiter, inl (cc (rw taken at h')))
          | inr refused ↦ (limiter, inr (cc (rw refused at h')))
        ]
  ]

  -- Whatever a request is, if the server answers it then the tables, the keys and the audit log stay as
  -- they are, or its path is under /api/v1 and it presents a stored key that has not expired. A request
  -- for a path under /api/v1 that presents no such key is answered with 401 or 429.
  pub serve-guarded :
      (s s' : Server F) (r : Incoming F) (status : ℕ)
      → serve w s r ≡ some (s', status)
      → (IsUntouched s s' ⊎ (IsApi r.target × ((key : ApiKey) × HasKey s r key)))
        × (IsApi r.target → ((key : ApiKey) → ¬ HasKey s r key) → (status ≡ 401) ⊎ (status ≡ 429))
  serve-guarded s s' r status h =
      let (limiter, answered) = serve_cases s s' r status h in
      elim answered [
        | inl e ↦
            subst (Outcome s r r.target) e
              (routed-Outcome (record s { limiter = limiter }) r r.target)
        | inr e ↦ subst (Outcome s r r.target) e (inl (refl, refl, refl), λ _ _. inr refl)
      ]
