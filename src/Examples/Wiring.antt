-- ===== src/Examples/Wiring.antt =====
-- Requests to a server with one key, and the agent's binary.
use Prim.Native.String.{◌++◌}
use netvantage.Prelude.{
  ℕ, ◌+◌, ◌*◌, ◌-◌, ◌/◌, ◌≤◌, ◌≡◌, ◌⊎◌, refl, inr, Bool, true, not, Option, none, some, List, [],
  ◌∷◌, pos, String, count, length, arith, ◌==◌, string_eq,
}
use netvantage.Prelude.Dict.{lookup}
use netvantage.Server.RateLimit.{allow, panics, visit}
use netvantage.Transport.{Payload}
use netvantage.Transport.Nats.{Client, new as connect_nats, ensure_stream}
use netvantage.Canary.{Result}
use netvantage.Agent.{Identity, Heartbeat, send_heartbeat, start_loops, load_tests}
use netvantage.Agent.Buffer.{BufferedMessage, new_memory_buffer}
use netvantage.Agent.Config.{validate, default_config}
use netvantage.Agent.Delivery.{logging}
use netvantage.Agent.Lifecycle.{
  heartbeats, drains, Process, launch, pick, test_loops, opens, beats, Trace, done, stepped,
}
use netvantage.Commands.{agent_main}
use netvantage.Commands.Idle.{agent_main-idle}
use netvantage.Server.Auth.{ApiKey}
use netvantage.Server.Audit.{AuditEntry, entry_of}
use netvantage.Server.Database.Soundness.{IsSound}
use netvantage.Server.Database.Soundness.Reachable.{migrated}
use netvantage.Server.Routes.{Call, create_pop, api, Incoming}
use netvantage.Server.Router.{World, Server, new, request_of, serve, serve_all}
use netvantage.Server.Router.Guarded.{IsUntouched, HasKey, serve-guarded}
use netvantage.Server.Router.Audited.Trail.{IsKept, serve-audited}
use netvantage.Server.Router.Rated.{passed, serve_all-bound}
use netvantage.Server.Router.Sound.{serve_all-IsSound}

abbrev world : World ℕ
world = record {
  hash_key = λ token. "#" ++ token;
  quote = λ s. s;
  jsonb = λ json. some json;
  is_text = λ s. true;
  text = λ v. "violated";
  sort_tests = λ rows. rows;
  sort_assignments = λ rows. rows;
  sort_pops = λ rows. rows;
  sort_agents = λ rows. rows;
  sort_rows = λ rows. rows;
  refused = "negative";
}

abbrev operator : ApiKey
operator = record {
  id = "k2";
  name = "operator";
  key_hash = "#open";
  role = "operator";
  scopes = [];
  created_at = 0;
  expires_at = some 100;
  last_used = none;
}

abbrev fresh : Server ℕ
fresh = new (operator ∷ []) migrated (record { rows = []; last_id = 0 })

-- A request for a new POP, with a token.
abbrev incoming : String → Incoming ℕ
incoming authorization = record {
  now = 7;
  target = api (
      create_pop (
        inr (record {
          name = "fra";
          provider = "x";
          city = "Frankfurt";
          country = "DE";
          latitude = none;
          longitude = none;
          labels = none;
        })));
  body = none;
  remote_addr = "192.0.2.7:4000";
  authorization = authorization;
  forwarded_for = "";
  real_ip = "";
}

serve_all-IsSound_example :
    (s' : Server ℕ) × (statuses : List ℕ) × (serve_all world fresh
        (incoming "Bearer open" ∷ incoming "Bearer shut" ∷ [])
      ≡ some (s', statuses))
    × (length statuses ≡ 2)
    × IsSound s'.db
serve_all-IsSound_example =
    serve_all-IsSound world (operator ∷ []) (record { rows = []; last_id = 0 })
      (incoming "Bearer open" ∷ incoming "Bearer shut" ∷ [])

serve_all-bound_example :
    (s' : Server ℕ) × (statuses : List ℕ) × (serve_all world fresh
        (incoming "Bearer open" ∷ incoming "Bearer shut" ∷ [])
      ≡ some (s', statuses))
    × (length statuses ≡ 2)
    × (passed "192.0.2.7:4000" (incoming "Bearer open" ∷ incoming "Bearer shut" ∷ []) statuses
        ≤ 200 + (900 - 5) / 1_000_000_000 * 100)
serve_all-bound_example =
    serve_all-bound world (operator ∷ []) migrated (record { rows = []; last_id = 0 }) 5 900
      "192.0.2.7:4000" (incoming "Bearer open" ∷ incoming "Bearer shut" ∷ []) (omega arith)
      (omega arith, (omega arith, omega arith))

abbrev answer_or : Option (Server ℕ × ℕ) → Server ℕ × ℕ
answer_or none = (fresh, 0)
answer_or (some out) = out

abbrev out : Server ℕ × ℕ
out = answer_or (serve world fresh (incoming "Bearer open"))

answers_out : serve world fresh (incoming "Bearer open") ≡ some (out.0, out.1)
unfolding serve allow panics lookup visit
answers_out = refl

serve-guarded_example :
    (IsUntouched fresh out.0
      ⊎ (Unit {0} × ((key : ApiKey) × HasKey world fresh (incoming "Bearer open") key)))
    × (Unit {0}
        → ((key : ApiKey) → ¬ HasKey world fresh (incoming "Bearer open") key)
        → (out.1 ≡ 401) ⊎ (out.1 ≡ 429))
serve-guarded_example = serve-guarded world fresh out.0 (incoming "Bearer open") out.1 answers_out

serve-audited_example :
    (out.0.db ≡ fresh.db)
    ⊎ ((key : ApiKey) × (call : Call ℕ) × (entry : AuditEntry) × ((incoming "Bearer open").target
          ≡ api call)
        × HasKey world fresh (incoming "Bearer open") key
        × IsKept world entry fresh.log out.0.log
        × (entry ≡ entry_of 7 (request_of world (incoming "Bearer open") key call))
        × (entry.actor_id ≡ key.id)
        × (entry.actor_role ≡ key.role))
serve-audited_example = serve-audited world fresh out.0 (incoming "Bearer open") out.1 answers_out

-- A client whose connection, stream and subscriptions work, but for names with a dot.
abbrev client : Client
client = record {
  connect = λ url. none;
  jet_stream = none;
  stream_info = λ name. true;
  add_stream = λ name. none;
}

abbrev me : Identity
me = record { agent_id = ""; pop_name = "default" }

abbrev join : String → String → String
join a b = a ++ ("/" ++ b)

abbrev not_beat : BufferedMessage → Bool
not_beat m = not (m.topic == "netvantage.agent.heartbeat")

abbrev Logged : Type 0
Logged = Bool × List BufferedMessage

abbrev begun : Process Logged
begun = launch (heartbeats ∷ drains ∷ []) (new_memory_buffer (pos (100 * 1_024 * 1_024))) (true, [])

abbrev encode_beat : Heartbeat → Option Payload
encode_beat hb = some (hb.timestamp ∷ [])

abbrev takes_all : String → Payload → Bool → Bool × Bool
takes_all topic msg b = (b, true)

abbrev opened : Process Logged
opened = record begun { starting = drains ∷ []; active = heartbeats ∷ [] }

abbrev beaten : Process Logged
beaten = record opened { state = send_heartbeat encode_beat (logging takes_all) 9 me opened.state }

-- The heartbeat loop starts and sends a heartbeat.
one_beat :
    Trace 0
      (λ (r : Result ℕ). none)
      encode_beat
      (logging takes_all)
      me
      (pos 30_000_000_000)
      begun
      []
      []
      beaten
unfolding pick
one_beat =
    stepped (opens _ 0 heartbeats (drains ∷ []) tt refl (omega arith))
      (stepped (beats _ 0 9 [] tt refl) (done _))

agent_main-idle_example :
    (count not_beat beaten.state.1 ≡ 0) × (count not_beat beaten.buffer.messages ≡ 0)
unfolding agent_main validate default_config connect_nats ensure_stream test_loops start_loops
    load_tests
agent_main-idle_example =
    agent_main-idle 0 (λ (r : Result ℕ). none) encode_beat takes_all me (pos 30_000_000_000) join
      (λ s. s) "/root" client (heartbeats ∷ drains ∷ []) (pos (100 * 1_024 * 1_024)) not_beat true
      [] [] beaten refl (λ msg. refl) one_beat
