-- ===== src/Examples/Lifecycle.antt =====
-- Runs of an agent with a transport that fails every second time, and of the rate limiter with rounds of
-- cleanup.
use netvantage.Prelude.{
  ℤ, negsuc, ℕ, ◌*◌, ◌-◌, ◌/◌, ◌≤◌, ◌+◌, ◌≡◌, ◌↔◌, refl, Bool, true, false, not, Option, some, List,
  [], ◌∷◌, pos, String, count, arith, ◌==◌, string_eq,
}
use netvantage.Transport.{Payload}
use netvantage.Canary.{TestDefinition, Result}
use netvantage.Agent.Buffer.{BufferedMessage, new_memory_buffer}
use netvantage.Agent.{Identity, StaticTest, Heartbeat, Outcome, errored, Tick, test_due, drain_due}
use netvantage.Agent.Delivery.{logging, produced_all, dropped_of}
use netvantage.Agent.Lifecycle.{
  drains, tests, loops_of, Process, launch, pick, opens, cancels, leaves, awaits, outcome_of,
  returns, executes, replays, after_tick, Trace, done, stepped, served, returned, crashed,
}
use netvantage.Agent.Lifecycle.Shutdown.{launch-returned}
use netvantage.Agent.Lifecycle.Shutdown.Ends.{launch-ends}
use netvantage.Agent.Lifecycle.Shutdown.Crash.{Stops, launch-crashes_iff}
use netvantage.Agent.Lifecycle.Conserved.{launch-conserves}
use netvantage.Server.RateLimit.{RateLimiter, new_rate_limiter, run}
use netvantage.Server.RateLimit.Cleanup.{Event, request, cleaned, run_events, requests_of}
use netvantage.Server.RateLimit.Bound.{admitted}
use netvantage.Server.RateLimit.Cleanup.Budget.{run_events-bound}
use netvantage.Server.RateLimit.Cleanup.Answers.{run_events-cleanup}

abbrev me : Identity
me = record { agent_id = "agent-1"; pop_name = "fra" }

abbrev every_second : String → Payload → Bool → Bool × Bool
every_second topic msg b = (not b, b)

abbrev encode : Result ℕ → Option Payload
encode r = some (r.timestamp ∷ [])

abbrev encode_beat : Heartbeat → Option Payload
encode_beat hb = some (hb.timestamp ∷ [])

abbrev ping : TestDefinition
ping = record {
  id = "t1";
  type = "ping";
  target = "192.0.2.1";
  interval = pos 30;
  timeout = pos 5;
  config = [];
}

abbrev RunOf : Process Bool → List (Tick ℕ) → List (Option Outcome) → Process Bool → Type 0
RunOf = Trace 0 encode encode_beat every_second me (pos 30)

abbrev begun : Process Bool
begun = launch (tests ping ∷ []) (new_memory_buffer (pos 4)) false

-- The test loop starts, the agent is stopped, the loop ends, and Run returns.
abbrev ended : Process Bool
ended = record begun { starting = []; cancelled = true; wg = 0; phase = returned }

to_end : RunOf begun [] [] ended
unfolding pick
to_end = stepped (opens _ 0 (tests ping) [] tt refl (omega arith)) (
    stepped (cancels _ tt) (
      stepped (leaves _ 0 (tests ping) [] tt refl refl)
        (stepped (awaits _ refl refl) (stepped (returns _ refl refl) (done _)))))

launch-returned_example : (ended.cancelled ≡ true) × (ended.starting ≡ []) × (ended.active ≡ [])
launch-returned_example =
    launch-returned 0 encode encode_beat every_second me (pos 30) (tests ping ∷ [])
      (new_memory_buffer (pos 4)) false [] [] ended to_end refl

abbrev stopped : Process Bool
stopped = record begun { cancelled = true }

launch-ends_example :
    (q : Process Bool) × RunOf stopped [] [] q
    × (q.phase ≡ returned)
    × (q.buffer ≡ stopped.buffer)
    × (q.state ≡ stopped.state)
launch-ends_example =
    launch-ends 0 encode encode_beat every_second me (pos 30) (tests ping ∷ [])
      (new_memory_buffer (pos 4)) false [] [] stopped (omega arith, tt)
      (stepped (cancels _ tt) (done _)) refl

-- A configuration whose second test has a negative interval.
abbrev static_ping : ℤ → StaticTest
static_ping interval = record {
  id = "t1";
  type = "ping";
  target = "192.0.2.1";
  interval = interval;
  timeout = pos 5;
  config = [];
}

abbrev canaries : List (String × ℕ)
canaries = ("ping", 7) ∷ []

launch-crashes_iff_example :
    ((ts : List (Tick ℕ)) × (os : List (Option Outcome)) × (p : Process Bool) × RunOf
        (launch
          (loops_of canaries (static_ping (pos 30) ∷ static_ping (negsuc 4) ∷ []))
          (new_memory_buffer (pos 4))
          false)
        ts
        os
        p
      × (p.phase ≡ crashed))
    ↔ Stops canaries (static_ping (pos 30) ∷ static_ping (negsuc 4) ∷ [])
launch-crashes_iff_example =
    launch-crashes_iff 0 encode encode_beat every_second me (pos 30) canaries
      (static_ping (pos 30) ∷ static_ping (negsuc 4) ∷ []) (new_memory_buffer (pos 4)) false
      (omega arith)

abbrev Logged : Type 0
Logged = Bool × List BufferedMessage

abbrev work : List (Tick ℕ)
work = test_due 5 ping (errored "timeout") ∷ drain_due ∷ []

abbrev not_beat : BufferedMessage → Bool
not_beat m = not (m.topic == "netvantage.agent.heartbeat")

abbrev begun_both : Process Logged
begun_both = launch (tests ping ∷ drains ∷ []) (new_memory_buffer (pos 4)) (false, [])

abbrev open_both : Process Logged
open_both = record begun_both { starting = []; active = drains ∷ tests ping ∷ [] }

abbrev next : Process Logged → Tick ℕ → Process Logged
next = after_tick 0 encode encode_beat (logging every_second) me (pos 30)

abbrev after_test : Process Logged
after_test = next open_both (test_due 5 ping (errored "timeout"))

abbrev after_replay : Process Logged
after_replay = next after_test drain_due

abbrev outcomes : List (Option Outcome)
outcomes =
    outcome_of 0 encode encode_beat (logging every_second) me (pos 30) open_both
      (test_due 5 ping (errored "timeout"))
    ∷ outcome_of 0 encode encode_beat (logging every_second) me (pos 30) after_test drain_due
    ∷ []

run_of_both :
    Trace 0 encode encode_beat
      (logging every_second)
      me
      (pos 30)
      begun_both
      work
      outcomes
      after_replay
unfolding pick
run_of_both = stepped (opens _ 0 (tests ping) (drains ∷ []) tt refl (omega arith)) (
    stepped (opens _ 0 drains [] tt refl (omega arith)) (
      served (executes _ 1 5 ping (errored "timeout") (drains ∷ []) tt refl)
        (served (replays _ 0 (tests ping ∷ []) tt refl) (done _))))

-- The transport refuses the result of the test, and takes it when the buffer is replayed.
launch-conserves_example :
    count not_beat after_replay.state.1
      + count not_beat after_replay.buffer.messages
      + count not_beat (dropped_of 0 encode me work outcomes)
    ≡ count not_beat (produced_all 0 encode me work)
launch-conserves_example =
    launch-conserves 0 encode encode_beat every_second me (pos 30) not_beat (λ msg. refl)
      (tests ping ∷ drains ∷ []) (pos 4) false work outcomes after_replay run_of_both

-- The router's limiter: two requests, a round of cleanup eleven minutes later, and one more request.
abbrev events : List Event
events =
    request 5 "192.0.2.7:4000"
    ∷ request 6 "192.0.2.8:4000"
    ∷ cleaned 660_000_000_000
    ∷ request 660_000_000_001 "192.0.2.7:4000"
    ∷ []

run_events-cleanup_example :
    (oks : List Bool) × (final : RateLimiter) × (cleaned_final : RateLimiter) × (run
        (new_rate_limiter (pos 100) 1_000_000_000 (pos 200))
        (requests_of events)
      ≡ some (final, oks))
    × (run_events (new_rate_limiter (pos 100) 1_000_000_000 (pos 200)) events
        ≡ some (cleaned_final, oks))
run_events-cleanup_example =
    run_events-cleanup 100 200 1_000_000_000 5 events (omega arith) (omega arith) (omega arith)
      (omega arith) (omega arith)

run_events-bound_example :
    (final : RateLimiter) × (oks : List Bool) × (run_events
        (new_rate_limiter (pos 100) 1_000_000_000 (pos 200))
        events
      ≡ some (final, oks))
    × (admitted "192.0.2.7:4000" (requests_of events) oks
        ≤ 200 + (700_000_000_000 - 5) / 1_000_000_000 * 100)
run_events-bound_example =
    run_events-bound 100 200 1_000_000_000 5 700_000_000_000 "192.0.2.7:4000" events (omega arith)
      (omega arith) (omega arith) (omega arith) (omega arith) (omega arith) (omega arith)
