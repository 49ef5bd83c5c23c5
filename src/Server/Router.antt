-- ===== src/Server/Router.antt =====
-- internal/server/api/router/router.go: the server of a control plane as its requests come in, one at a
-- time. The limiter stands before everything, the check of API keys before every route under /api/v1,
-- and the audit log between that check and the handlers. The repositories are those of
-- internal/server/repository/postgres, as in cmd/server/main.go. Which route chi finds for a request is
-- part of the request, with the body as json.Decoder reads it. The goroutines that touch the key and
-- write the audit entry have ended before the next request; the request log and the rounds of the limiter's
-- cleanup, which Server/RateLimit/Cleanup has, are left out.
pub mod Guarded
pub mod Audited
pub mod Sound
pub mod Rated
use Prim.Native.String.{◌++◌}
use netvantage.Prelude.{
  ℕ, Bool, true, false, Option, none, some, List, [], ◌∷◌, pos, String, if◌then◌else◌,
}
use netvantage.Transport.{Payload}
use netvantage.Server.Response.{Response}
use netvantage.Server.RateLimit.{RateLimiter, new_rate_limiter, allow}
use netvantage.Server.Auth.{ApiKey, unauthorized, forbidden, admitted, authenticate}
use netvantage.Server.Audit.{AuditEntry, Request, WriterCall, write_header, audit}
use netvantage.Server.Tests.{TestDefinition}
use netvantage.Server.Tests
use netvantage.Server.Pops.{Pop}
use netvantage.Server.Pops
use netvantage.Server.Agents.{Agent}
use netvantage.Server.Agents
use netvantage.Server.AuditLog.{AuditLog, Row, record_entry, list_audit}
use netvantage.Server.Routes.{
  Call, Target, Incoming, route_of, miss_status, api, api_miss, assign_test, config_sync,
  create_pop, create_test, delete_agent, delete_pop, delete_test, get_agent, get_pop, get_test,
  healthz, heartbeat, list_agents, list_entries, list_pops, list_tests, miss, register_agent,
  update_test,
}
use netvantage.Server.Database.{Assignment, Database, Violation}
use netvantage.Server.Database.Delivery.{repositories}
use netvantage.Server.Database.Places.{pop_repository, agent_repository}
use netvantage.Server.Database.Keys.{get_by_hash, touch_last_used}
use netvantage.Server.Database.Soundness.Reachable.{migrated}

-- SHA-256, the verb %q, and what PostgreSQL does.
pub record World (F : Type 0) : Type 0 where
  pub hash_key : String → String
  pub quote : String → String
  pub jsonb : Payload → Option Payload
  pub is_text : String → Bool
  pub text : Violation → String
  pub sort_tests : List TestDefinition → List TestDefinition
  pub sort_assignments : List Assignment → List Assignment
  pub sort_pops : List (Pop F) → List (Pop F)
  pub sort_agents : List Agent → List Agent
  pub sort_rows : List Row → List Row
  pub refused : String

pub record Server (F : Type 0) : Type 0 where
  pub limiter : RateLimiter
  pub keys : List ApiKey
  pub db : Database F
  pub log : AuditLog

-- New: 100 requests per second and address, up to 200 at once.
abbrev pub new : {F : Type 0} → List ApiKey → Database F → AuditLog → Server F
new keys db log = record {
  limiter = new_rate_limiter (pos 100) 1_000_000_000 (pos 200);
  keys = keys;
  db = db;
  log = log;
}

abbrev status_only {ℓ κ} : {S : Type ℓ} {A : Type κ} → S × Response A → S × ℕ
status_only (s, r) = (s, r.status)

-- Record, if the audit middleware calls it; its error is only logged.
abbrev pub recorded :
    (Payload → Option Payload) → (String → Bool) → Option AuditEntry → AuditLog → AuditLog
recorded jsonb is_text none log = log
recorded jsonb is_text (some entry) log = elim (record_entry jsonb is_text entry log) [
  | none ↦ log
  | some log' ↦ log'
]

module _ {F : Type 0} (w : World F) where
  -- The handler of a call, with the status of its answer.
  unfoldable pub dispatch : ℕ → AuditLog → Call F → Database F → Database F × ℕ
  dispatch now log call db =
      let tests = repositories {F = F} now w.jsonb w.text w.sort_tests w.sort_assignments in
      let pops = pop_repository now w.text w.sort_pops w.sort_agents in
      let agents = agent_repository now w.text w.sort_pops w.sort_agents in
      elim call [
        | register_agent body ↦ status_only (Agents.register w.quote agents pops now body db)
        | list_agents ↦ (db, (Agents.list agents db).status)
        | get_agent id ↦ (db, (Agents.get agents id db).status)
        | delete_agent id ↦ status_only (Agents.delete agents id db)
        | heartbeat id body ↦ status_only (Agents.heartbeat agents now id body db)
        | config_sync id pop ↦ (db, (Tests.config_sync w.quote tests id pop db).status)
        | create_pop body ↦ status_only (Pops.create pops body db)
        | list_pops ↦ (db, (Pops.list pops db).status)
        | get_pop name ↦ (db, (Pops.get pops name db).status)
        | delete_pop name ↦ status_only (Pops.delete pops name db)
        | create_test body ↦ status_only (Tests.create w.quote tests body db)
        | list_tests ↦ (db, (Tests.list w.quote tests db).status)
        | get_test id ↦ (db, (Tests.get w.quote tests id db).status)
        | update_test id body ↦ status_only (Tests.update w.quote tests id body db)
        | delete_test id ↦ status_only (Tests.delete w.quote tests id db)
        | assign_test id body ↦ status_only (Tests.assign_test w.quote tests id body db)
        | list_entries limit offset resource resource_id ↦
            (db, (list_audit w.sort_rows w.refused limit offset resource resource_id log).status)
      ]

  -- What the audit middleware reads of a request that a key has let in.
  unfoldable pub request_of : Incoming F → ApiKey → Call F → Request
  request_of r key call = record {
    method = (route_of call).method;
    body = r.body;
    pattern = some ("/api/v1" ++ (route_of call).pattern);
    url_id = (route_of call).url_id;
    url_name = (route_of call).url_name;
    forwarded_for = r.forwarded_for;
    real_ip = r.real_ip;
    remote_addr = r.remote_addr;
    auth_id = some key.id;
    auth_role = some key.role;
  }

  -- A request behind the check of the key: the audit middleware around the handler.
  unfoldable pub handled : Server F → Incoming F → ApiKey → Call F → Server F × ℕ
  handled s r key call =
      let (db, status) = dispatch r.now s.log call s.db in
      let entry = audit r.now (request_of r key call) (write_header status ∷ []) in
      (
        record s {
          keys = touch_last_used r.now key.id s.keys;
          db = db;
          log = recorded w.jsonb w.is_text entry s.log;
        },
        status,
      )

  -- A route under /api/v1; where there is none, the middleware runs before chi's answer too.
  unfoldable pub guarded : Server F → Incoming F → (ApiKey → Server F × ℕ) → Server F × ℕ
  guarded s r next = elim (authenticate w.hash_key (get_by_hash s.keys) r.now [] r.authorization) [
    | unauthorized ↦ (s, 401)
    | forbidden ↦ (s, 403)
    | admitted key ↦ next key
  ]

  unfoldable pub routed : Server F → Incoming F → Target F → Server F × ℕ
  routed s r healthz = (s, 200)
  routed s r (api call) = guarded s r (λ key. handled s r key call)
  routed s r (api_miss m) =
      guarded s r (λ key. (record s { keys = touch_last_used r.now key.id s.keys }, miss_status m))
  routed s r (miss m) = (s, miss_status m)

  -- The server's answer to a request; `none` is a panic of the limiter.
  unfoldable pub serve : Server F → Incoming F → Option (Server F × ℕ)
  serve s r = elim (allow s.limiter r.now r.remote_addr) [
    | none ↦ none
    | some (limiter, ok) ↦ some (
        if ok
        then routed (record s { limiter = limiter }) r r.target
        else (record s { limiter = limiter }, 429))
  ]

  -- A series of requests, and the statuses of the answers.
  unfoldable pub serve_all : Server F → List (Incoming F) → Option (Server F × List ℕ)
  serve_all s [] = some (s, [])
  serve_all s (r ∷ rs) = elim (serve s r) [
    | none ↦ none
    | some (s', status) ↦ elim (serve_all s' rs) [
      | none ↦ none
      | some (s'', statuses) ↦ some (s'', status ∷ statuses)
    ]
  ]
