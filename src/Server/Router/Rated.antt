-- ===== src/Server/Router/Rated.antt =====
-- How many requests of one address the server of internal/server/api/router/router.go lets past its
-- limiter.
use mathlib.Core.Path.{subst}
use netvantage.Prelude.{
  ℕ, ◌+◌, ◌-◌, ◌*◌, ◌/◌, ◌^◌, ◌≤◌, ◌<◌, ◌≡◌, refl, sym, ap, ◌∙◌, inl, inr, Bool, true, false, some,
  List, [], ◌∷◌, length, String, ◌==◌, nat_eq, string_eq, arith, Bool-cases, Option-cases,
  if◌then◌else◌,
}
use netvantage.Server.RateLimit.{allow, run}
use netvantage.Server.RateLimit.Bound.{admitted, InOrder, run-bound}
use netvantage.Server.Auth.{ApiKey}
use netvantage.Server.AuditLog.{AuditLog}
use netvantage.Server.Database.{Database}
use netvantage.Server.Routes.{Incoming}
use netvantage.Server.Router.{World, Server, new, routed, serve, serve_all}
use netvantage.Server.Router.Sound.{routed-limiter, serve_all-answers}

-- What the limiter sees of a series of requests.
abbrev pub arrivals : {F : Type 0} → List (Incoming F) → List (ℕ × String)
arrivals [] = []
arrivals (r ∷ rs) = (r.now, r.remote_addr) ∷ arrivals rs

-- The requests of an address whose answer is not 429.
abbrev pub passed : {F : Type 0} → String → List (Incoming F) → List ℕ → ℕ
passed key (r ∷ rs) (status ∷ statuses) =
    (if r.remote_addr == key then if status == 429 then 0 else 1 else 0) + passed key rs statuses
passed key _ _ = 0

module _ {F : Type 0} (w : World F) where
  -- What the limiter says of a request that is answered.
  serve-allow :
      (s s' : Server F) (r : Incoming F) (status : ℕ)
      → serve w s r ≡ some (s', status)
      → (ok : Bool) × (allow s.limiter r.now r.remote_addr ≡ some (s'.limiter, ok))
        × (ok ≡ false → status ≡ 429)
  unfolding serve
  serve-allow s s' r status h = elim (Option-cases (allow s.limiter r.now r.remote_addr)) [
    | inl panic ↦ cc (rw (panic, serve) at h)
    | inr ((limiter, ok), known) ↦
        let h' = rw (known, serve) at h in
        let s₁ : Server F = record s { limiter = limiter } in
        elim (Bool-cases ok) [
          | inl taken ↦
              let e : routed w s₁ r r.target ≡ (s', status) = cc (rw taken at h') in
              let same : limiter ≡ s'.limiter =
                sym (routed-limiter w s₁ r r.target) ∙ ap (λ o. o.0.limiter) e in
              (ok, rw same at known, λ refused. cc)
          | inr refused ↦
              let e : ◌≡◌ {A = Server F × ℕ} (s₁, 429) (s', status) = cc (rw refused at h') in
              let same : limiter ≡ s'.limiter = ap (λ o. o.0.limiter) e in
              (ok, rw same at known, λ _. sym (ap (λ o. o.1) e))
        ]
  ]

  passed-first :
      (key addr : String) (status : ℕ) (ok : Bool) (n m : ℕ)
      → (ok ≡ false → status ≡ 429)
      → n ≤ m
      → (if addr == key then if status == 429 then 0 else 1 else 0) + n
        ≤ (if addr == key then if ok then 1 else 0 else 0) + m
  passed-first key addr status true n m refusal h = ground arith
  passed-first key addr status false n m refusal h = rw (refusal refl) (ground arith)

  -- The limiter alone, on the same requests, admits all that pass.
  serve_all-run :
      (key : String) (rs : List (Incoming F)) (s s' : Server F) (statuses : List ℕ)
      → serve_all w s rs ≡ some (s', statuses)
      → (oks : List Bool) × (run s.limiter (arrivals rs) ≡ some (s'.limiter, oks))
        × (passed key rs statuses ≤ admitted key (arrivals rs) oks)
  unfolding serve_all run
  serve_all-run key [] s s' statuses e = let same : s ≡ s' = cc in ([], rw same refl, omega arith)
  serve_all-run key (r ∷ rs) s s' statuses e = elim (Option-cases (serve w s r)) [
    | inl panic ↦ cc (rw (panic, serve_all) at e)
    | inr ((next, status), one) ↦ elim (Option-cases (serve_all w next rs)) [
      | inl panic ↦ cc (rw (panic, serve_all) at (rw (one, serve_all) at e))
      | inr ((last, more), others) ↦
          let e' = rw (others, serve_all) at (rw (one, serve_all) at e) in
          let same : last ≡ s' = cc e' in
          let written : status ∷ more ≡ statuses = cc e' in
          let (ok, allowed, refusal) = serve-allow s next r status one in
          let (oks, ran, fewer) = serve_all-run key rs next last more others in
          (
            ok ∷ oks,
            rw (allowed, run) (rw (ran, run) (rw same refl)),
            subst (λ l. passed key (r ∷ rs) l ≤ admitted key (arrivals (r ∷ rs)) (ok ∷ oks)) written
                (passed-first key r.remote_addr status ok _ _ refusal fewer),
          )
    ]
  ]

  -- A new server answers every series of requests, one status for each, if their times in nanoseconds do
  -- not decrease; and of one address it answers at most 200, and 100 more for each whole second that
  -- the requests span, with anything but 429. The number is one that an int64 can hold.
  pub serve_all-bound :
      (keys : List ApiKey) (db : Database F) (log : AuditLog) (from end : ℕ) (addr : String)
      (rs : List (Incoming F))
      → 200 + (end - from) / 1_000_000_000 * 100 < 2 ^ 63
      → InOrder from end (arrivals rs)
      → (s' : Server F) × (statuses : List ℕ) × (serve_all w (new keys db log) rs
          ≡ some (s', statuses))
        × (length statuses ≡ length rs)
        × (passed addr rs statuses ≤ 200 + (end - from) / 1_000_000_000 * 100)
  serve_all-bound keys db log from end addr rs small order =
      let s = new keys db log in
      let (s', statuses, e, same) = serve_all-answers w rs s (omega arith) in
      let (oks, ran, fewer) = serve_all-run addr rs s s' statuses e in
      let (final, oks', ran', bound) =
        run-bound 100 200 1_000_000_000 from end addr (arrivals rs) (omega arith) (omega arith)
          small order in
      let agree : oks' ≡ oks = cc in
      (s', statuses, e, same, omega (arith, fewer, rw agree at bound))
