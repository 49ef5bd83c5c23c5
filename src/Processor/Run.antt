-- ===== src/Processor/Run.antt =====
-- The end of Run in internal/processor/processor.go. Each subscription is a goroutine; only the one to
-- the ping results tells Run how it ended, the errors of the others are logged. The server of the metrics
-- is left out, and what the client of NATS answers is a parameter.
use netvantage.Prelude.{Bool, Option, none, some, String, if◌then◌else◌}
use netvantage.Transport.{TransportError, closed}
use netvantage.Transport.Nats.{subscribe}

-- A call of Subscribe: it consumes until the context is done, or has returned.
pub data Subscription : Type 0 where
  consuming : Subscription
  ended : Option TransportError → Subscription

pub data RunState : Type 0 where
  running : RunState
  returned : RunState

-- The select of Run, given the subscriptions by topic and whether the context is done.
unfoldable pub run_of : (String → Subscription) → Bool → RunState
run_of subscription cancelled =
    if cancelled then returned else elim (subscription "netvantage.ping.results") [
      | consuming ↦ running
      | ended err ↦ returned
    ]

-- NATS: without an error Subscribe blocks.
unfoldable pub over_nats : Bool → (String → String → Option String) → String → Subscription
over_nats is_closed js_subscribe topic = elim (subscribe is_closed js_subscribe topic) [
  | none ↦ consuming
  | some e ↦ ended (some e)
]

-- The in-memory transport: Subscribe returns at once, whatever the topic.
unfoldable pub over_memory : Bool → String → Subscription
over_memory is_closed topic = ended (if is_closed then some closed else none)
