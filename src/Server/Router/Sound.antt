-- ===== src/Server/Router/Sound.antt =====
-- The tables of the server after any requests.
pub mod Handlers
use mathlib.Core.Path.{subst}
use netvantage.Prelude.{
  ℕ, ◌<◌, length, ◌≡◌, ◌⊎◌, refl, sym, ap, inl, inr, some, List, [], ◌∷◌, Bool-cases, Option-cases,
  ◌||◌, ◌==◌, arith,
}
use netvantage.Prelude.Dict.{insert}
use netvantage.Server.RateLimit.{RateLimiter}
use netvantage.Server.RateLimit.Bound.{answered}
use netvantage.Server.Auth.{ApiKey}
use netvantage.Server.AuditLog.{AuditLog}
use netvantage.Server.Tests
use netvantage.Server.Pops
use netvantage.Server.Agents
use netvantage.Server.Database.Soundness.{IsSound}
use netvantage.Server.Database.Soundness.Reachable.{start, after, migrated, Reachable-IsSound}
use netvantage.Server.Routes.{Target, healthz, api, api_miss, miss, Incoming}
use netvantage.Server.Router.{World, Server, new, handled, routed, serve, serve_all}
use netvantage.Server.Router.Guarded.{guarded-key, serve_cases}
use netvantage.Server.Router.Sound.Handlers.{Reached, dispatch-Reached}

module _ {F : Type 0} (w : World F) where
  routed-Reached :
      (s : Server F) (r : Incoming F) (t : Target F)
      → Reached w s.db
      → Reached w (routed w s r t).0.db
  unfolding routed handled
  routed-Reached s r healthz h = h
  routed-Reached s r (api call) h = elim (guarded-key w s r (λ key. handled w s r key call)) [
    | inl denied ↦ subst (Reached w) (sym (ap (λ o. o.0.db) denied)) h
    | inr (key, has, e) ↦
        subst (Reached w) (sym (ap (λ o. o.0.db) e)) (dispatch-Reached w r.now s.log call s.db h)
  ]
  routed-Reached s r (api_miss m) h = elim (guarded-key w s r _) [
    | inl denied ↦ subst (Reached w) (sym (ap (λ o. o.0.db) denied)) h
    | inr (key, has, e) ↦ subst (Reached w) (sym (ap (λ o. o.0.db) e)) h
  ]
  routed-Reached s r (miss m) h = h

  serve-Reached :
      (s s' : Server F) (r : Incoming F) (status : ℕ)
      → serve w s r ≡ some (s', status)
      → Reached w s.db
      → Reached w s'.db
  serve-Reached s s' r status e h =
      let (limiter, answered) = serve_cases w s s' r status e in
      elim answered [
        | inl same ↦
            subst (λ o. Reached w o.0.db) same
              (routed-Reached (record s { limiter = limiter }) r r.target h)
        | inr same ↦ subst (λ o. Reached w o.0.db) same h
      ]

  serve_all-Reached :
      (rs : List (Incoming F)) (s s' : Server F) (statuses : List ℕ)
      → serve_all w s rs ≡ some (s', statuses)
      → Reached w s.db
      → Reached w s'.db
  unfolding serve_all
  serve_all-Reached [] s s' statuses e h =
      let same : s ≡ s' = cc in subst (λ t. Reached w t.db) same h
  serve_all-Reached (r ∷ rs) s s' statuses e h = elim (Option-cases (serve w s r)) [
    | inl panic ↦ cc (rw (panic, serve_all) at e)
    | inr ((next, status), one) ↦ elim (Option-cases (serve_all w next rs)) [
      | inl panic ↦ cc (rw (panic, serve_all) at (rw (one, serve_all) at e))
      | inr ((last, more), others) ↦
          let e' = rw (others, serve_all) at (rw (one, serve_all) at e) in
          let same : last ≡ s' = cc e' in
          subst (λ t. Reached w t.db) same
            (serve_all-Reached rs next last more others (serve-Reached s next r status one h))
    ]
  ]

  pub routed-limiter :
      (s : Server F) (r : Incoming F) (t : Target F) → (routed w s r t).0.limiter ≡ s.limiter
  unfolding routed handled
  routed-limiter s r healthz = refl
  routed-limiter s r (api call) = elim (guarded-key w s r (λ key. handled w s r key call)) [
    | inl denied ↦ ap (λ o. o.0.limiter) denied
    | inr (key, has, e) ↦ ap (λ o. o.0.limiter) e
  ]
  routed-limiter s r (api_miss m) = elim (guarded-key w s r _) [
    | inl denied ↦ ap (λ o. o.0.limiter) denied
    | inr (key, has, e) ↦ ap (λ o. o.0.limiter) e
  ]
  routed-limiter s r (miss m) = refl

  serve-answers :
      (s : Server F) (r : Incoming F)
      → 0 < s.limiter.interval
      → (s' : Server F) × (status : ℕ) × (serve w s r ≡ some (s', status))
        × (0 < s'.limiter.interval)
  unfolding serve
  serve-answers s r positive =
      let a = answered s.limiter r.now r.remote_addr positive in
      let limiter : RateLimiter = record s.limiter {
        visitors = insert r.remote_addr a.b s.limiter.visitors;
      } in
      let out = routed w (record s { limiter = limiter }) r r.target in
      elim (Bool-cases a.ok) [
        | inl taken ↦ (
          out.0,
          out.1,
          rw (a.is, serve) (rw taken refl),
          rw (routed-limiter (record s { limiter = limiter }) r r.target) positive,
        )
        | inr refused ↦
            (record s { limiter = limiter }, 429, rw (a.is, serve) (rw refused refl), positive)
      ]

  pub serve_all-answers :
      (rs : List (Incoming F)) (s : Server F)
      → 0 < s.limiter.interval
      → (s' : Server F) × (statuses : List ℕ) × (serve_all w s rs ≡ some (s', statuses))
        × (length statuses ≡ length rs)
  unfolding serve_all
  serve_all-answers [] s positive = (s, [], refl, refl)
  serve_all-answers (r ∷ rs) s positive =
      let (next, status, one, positive') = serve-answers s r positive in
      let (last, statuses, others, same) = serve_all-answers rs next positive' in
      (
        last,
        status ∷ statuses,
        rw (one, serve_all) (rw (others, serve_all) refl),
        omega (arith, same),
      )

  -- A new server on the migrated database, with any keys, answers every series of requests, one status
  -- for each, whatever they ask; and after them the keys and references of the tables hold.
  pub serve_all-IsSound :
      (keys : List ApiKey) (log : AuditLog) (rs : List (Incoming F))
      → (s' : Server F) × (statuses : List ℕ) × (serve_all w (new keys migrated log) rs
          ≡ some (s', statuses))
        × (length statuses ≡ length rs)
        × IsSound s'.db
  serve_all-IsSound keys log rs =
      let s = new keys migrated log in
      let (s', statuses, e, same) = serve_all-answers rs s (omega arith) in
      (
        s',
        statuses,
        e,
        same,
        Reachable-IsSound w.jsonb w.text w.sort_tests w.sort_assignments w.sort_pops w.sort_agents
            s'.db (serve_all-Reached rs s s' statuses e start),
      )
