-- ===== src/Commands.antt =====
-- cmd/agent/main.go, cmd/processor/main.go and cmd/server/main.go: what the three programs do before and
-- after their main loop. os.Exit runs no deferred call. Log lines and the handlers of signals are left
-- out; the context that a signal ends is a Boolean, or an event.
pub mod Idle
pub mod Serving
use netvantage.Prelude.{
  ℕ, Bool, true, false, Option, none, some, List, [], ◌∷◌, ℤ, pos, String, not, ◌==◌, string_eq,
  if◌then◌else◌,
}
use netvantage.Agent.{register_canary}
use netvantage.Agent.Config.{default_config, validate as validate_agent}
use netvantage.Agent.Lifecycle.{Loop, loops_of}
use netvantage.Processor.Pipeline.{Kind, ping, dns, http, traceroute}
use netvantage.Processor.Run.{RunState, running, returned, run_of, over_nats}
use netvantage.Transport.Nats.{
  Client, Start, new as connect_nats, refused, refused_closing, started,
}
use netvantage.Server.Config.{Config, load, validate}

-- The canaries that the agent's binary registers, each under its Type.
pub canaries : List (String × Kind)
canaries =
    register_canary "traceroute" traceroute
      (register_canary "http" http (register_canary "dns" dns (register_canary "ping" ping [])))

-- The agent's start: an exit with status 1, or a run of the loops with a buffer of the given size.
pub data AgentStart : Type 0 where
  exits : AgentStart
  runs : List Loop → ℤ → ℤ → AgentStart

-- The configuration is the default one: no file and no variable of the environment is read. `join` is
-- filepath.Join, `home` the home directory, `quote` the verb %q.
unfoldable pub agent_main :
    (String → String → String) → (String → String) → String → Client → AgentStart
agent_main join quote home client =
    let cfg = default_config join home in
    elim (validate_agent quote cfg) [
      | some err ↦ exits
      | none ↦ elim (connect_nats client cfg.transport.nats.url) [
        | refused e ↦ exits
        | refused_closing e ↦ exits
        | started ↦
            runs (loops_of canaries cfg.static_tests) (pos cfg.buffer.max_size_bytes)
              cfg.heartbeat_interval
      ]
    ]

-- A program that has ended, and whether it closed its connection: the deferred call of main.
pub record Ended : Type 0 where
  pub status : ℕ
  pub closed : Bool

abbrev pub or_default : String → String → String
or_default v fallback = if v == "" then fallback else v

-- The processor's end, if it has one: `js_subscribe` and `is_closed` are the connection's, and
-- `shutdown` is the error of the metrics server's Shutdown. An error of Run is an exit too.
unfoldable pub processor_main :
    (String → String)
    → Client
    → Bool
    → (String → String → Option String)
    → Bool
    → Option String
    → Option Ended
processor_main getenv client is_closed js_subscribe cancelled shutdown =
    elim (connect_nats client (or_default (getenv "NETVANTAGE_NATS_URL") "nats://localhost:4222")) [
      | refused e ↦ some (record { status = 1; closed = false })
      | refused_closing e ↦ some (record { status = 1; closed = false })
      | started ↦ elim (run_of (over_nats is_closed js_subscribe) cancelled) [
        | running ↦ none
        | returned ↦ elim shutdown [
          | none ↦ some (record { status = 0; closed = true })
          | some e ↦ some (record { status = 1; closed = false })
        ]
      ]
    ]

-- What ends the server once it listens: an error of ListenAndServe, or a signal.
pub data Stop : Type 0 where
  listen_failed : Stop
  signalled : Stop

-- The server's end, and the configuration with which it served, if it did. `open_pool` and `ping_pool`
-- tell whether pgxpool.New and Ping succeed. An error of Shutdown is only logged.
unfoldable pub server_main :
    (String → String) → (String → Bool) → (String → Bool) → Stop → Option Config × Ended
server_main getenv open_pool ping_pool stop =
    let cfg = load getenv in
    elim (validate cfg) [
      | some err ↦ (none, record { status = 1; closed = false })
      | none ↦
          if not (open_pool cfg.database_url)
          then (none, record { status = 1; closed = false })
          else if not (ping_pool cfg.database_url)
          then (none, record { status = 1; closed = false })
          else elim stop [
            | listen_failed ↦ (some cfg, record { status = 1; closed = false })
            | signalled ↦ (some cfg, record { status = 0; closed = true })
          ]
    ]
