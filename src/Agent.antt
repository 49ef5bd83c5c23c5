-- ===== src/Agent.antt =====
-- internal/agent/agent.go: how an agent runs a test, publishes its result, and replays its buffer.
-- The publisher is the transport, a closure over the state `S`; it returns whether it took the message.
-- `marshal` is json.Marshal of a result, `none` its error. Log lines are left out.
pub mod Buffer
pub mod Delivery
pub mod Config
pub mod Lifecycle
use Prim.Native.String.{◌++◌}
use netvantage.Prelude.{
  ℕ, zero, suc, Bool, true, false, Option, none, some, List, [], ◌∷◌, ℤ, String, ◌==◌, string_eq,
  map, if◌then◌else◌,
}
use netvantage.Transport.{Payload}
use netvantage.Prelude.Dict.{lookup, insert}
use netvantage.Canary.{TestDefinition, Result}
use Buffer.{BufferedMessage, MemoryBuffer, push, len, drain}

-- The parts of the configuration that a run reads.
pub record Identity : Type 0 where
  pub agent_id : String
  pub pop_name : String

-- A test of the configuration file, and the loop of loadTests over them.
pub record StaticTest : Type 0 where
  pub id : String
  pub type : String
  pub target : String
  pub interval : ℤ
  pub timeout : ℤ
  pub config : Payload

unfoldable pub load_tests : List StaticTest → List TestDefinition
load_tests [] = []
load_tests (st ∷ rest) =
    record {
      id = st.id;
      type = st.type;
      target = st.target;
      interval = st.interval;
      timeout = st.timeout;
      config = st.config;
    }
    ∷ load_tests rest

module _ {ℓ} {C : Type ℓ} where
  -- RegisterCanary: a later canary of a type replaces an earlier one.
  pub register_canary : String → C → List (String × C) → List (String × C)
  register_canary type c canaries = insert type c canaries

  -- The loop of Run that starts a test loop for every test whose type has a canary.
  unfoldable pub start_loops : List (String × C) → List TestDefinition → List (C × TestDefinition)
  start_loops canaries [] = []
  start_loops canaries (test ∷ tests) =
      let rest = start_loops canaries tests in
      elim (lookup test.type canaries) [ none ↦ rest | some c ↦ (c, test) ∷ rest ]

-- How the call of Execute ends: with a result (which may be nil), an error, or a panic.
pub data Execution (F : Type 0) : Type 0 where
  returned : Option (Result F) → Execution F
  errored : String → Execution F
  panicked : Execution F

-- What publishResult does with a result, which the code only logs.
pub data Outcome : Type 0 where
  sent : Outcome
  buffered : Outcome
  dropped : Outcome
  unmarshalable : Outcome

abbrev pub results_topic : String → String
results_topic test_type = "netvantage." ++ (test_type ++ ".results")

-- The message of sendHeartbeat: the agent, the POP, the time and the status.
pub record Heartbeat : Type 0 where
  pub agent_id : String
  pub pop_name : String
  pub timestamp : ℕ
  pub status : String

-- A failed publish of a heartbeat is only logged, and `marshal` is json.Marshal of a heartbeat.
pub send_heartbeat {ℓ} :
    {S : Type ℓ}
    → (Heartbeat → Option Payload)
    → (String → Payload → S → S × Bool)
    → ℕ
    → Identity
    → S
    → S
send_heartbeat marshal publish now me s =
    let hb : Heartbeat = record {
      agent_id = me.agent_id;
      pop_name = me.pop_name;
      timestamp = now;
      status = "online";
    } in
    elim (marshal hb) [ none ↦ s | some msg ↦ (publish "netvantage.agent.heartbeat" msg s).0 ]

-- What the agent's loops do, one at a time: a test falls due and is executed, or a drain is due.
pub data Tick (F : Type 0) : Type 0 where
  test_due : ℕ → TestDefinition → Execution F → Tick F
  drain_due : Tick F

module _ {F : Type 0} (nought : F) where
  -- The failure result that stands in for an execution error.
  failure_result : ℕ → Identity → TestDefinition → String → Result F
  failure_result now me test message = record {
    test_id = test.id;
    agent_id = me.agent_id;
    pop_name = me.pop_name;
    test_type = test.type;
    target = test.target;
    timestamp = now;
    duration_ms = nought;
    success = false;
    metrics = [];
    error = message;
    metadata = [];
  }

  -- The result that executeTest publishes: none after a panic, be it the canary's or the one that the
  -- assignment to a nil result raises; `recover` ends the execution in both cases.
  pub result_of : ℕ → Identity → TestDefinition → Execution F → Option (Result F)
  result_of now me test (returned none) = none
  result_of now me test (returned (some r)) =
      some (record r { agent_id = me.agent_id; pop_name = me.pop_name })
  result_of now me test (errored message) = some (failure_result now me test message)
  result_of now me test panicked = none

-- The branch of publishResult after a failed publish.
pub keep : MemoryBuffer → String → Payload → MemoryBuffer × Outcome
keep b topic msg = let (b', stored) = push b topic msg in (b', if stored then buffered else dropped)

module _ {ℓ} {S : Type ℓ} (publish : String → Payload → S → S × Bool) where
  -- One tick of bufferDrainLoop.
  pub drain_tick : MemoryBuffer → S → MemoryBuffer × S
  drain_tick b s = elim (len b) [ zero ↦ (b, s) | suc n ↦ drain publish b s ]

module _ {ℓ} {F : Type 0} {S : Type ℓ} (nought : F) (marshal : Result F → Option Payload)
    (publish : String → Payload → S → S × Bool) where
  unfoldable pub publish_result : String → Result F → MemoryBuffer → S → MemoryBuffer × S × Outcome
  publish_result test_type r b s = elim (marshal r) [
    | none ↦ (b, s, unmarshalable)
    | some msg ↦
        let (s', taken) = publish (results_topic test_type) msg s in
        let (b', outcome) = keep b (results_topic test_type) msg in
        if taken then (b, s', sent) else (b', s', outcome)
  ]

  pub execute_test :
      ℕ
      → Identity
      → TestDefinition
      → Execution F
      → MemoryBuffer
      → S
      → MemoryBuffer × S × Option Outcome
  execute_test now me test execution b s = elim (result_of nought now me test execution) [
    | none ↦ (b, s, none)
    | some r ↦ let (b', s', outcome) = publish_result test.type r b s in (b', s', some outcome)
  ]

  pub tick : Identity → Tick F → MemoryBuffer → S → MemoryBuffer × S × Option Outcome
  tick me (test_due now test execution) b s = execute_test now me test execution b s
  tick me drain_due b s = let (b', s') = drain_tick publish b s in (b', s', none)

  -- A run of the agent, with the outcome of each tick.
  pub run : Identity → List (Tick F) → MemoryBuffer → S → MemoryBuffer × S × List (Option Outcome)
  run me [] b s = (b, s, [])
  run me (t ∷ ts) b s =
      let (b', s', outcome) = tick me t b s in
      let (b'', s'', outcomes) = run me ts b' s' in (b'', s'', outcome ∷ outcomes)
