-- ===== src/Commands/Idle.antt =====
-- What the agent of cmd/agent/main.go does with the tests of its configuration.
use mathlib.Core.Path.{subst}
use netvantage.Prelude.{
  ◌≡◌, refl, sym, ap, ◌⊎◌, inl, inr, Bool, false, Option, List, [], ◌∷◌, ℤ, String, All, count,
  arith,
}
use netvantage.Transport.{Payload}
use netvantage.Transport.Nats.{Client, Start, new, refused, refused_closing, started}
use netvantage.Canary.{Result}
use netvantage.Agent.{start_loops, load_tests, Identity, Heartbeat, Outcome, Tick, drain_due}
use netvantage.Agent.Buffer.{BufferedMessage, new_memory_buffer}
use netvantage.Agent.Config.{default_config, validate}
use netvantage.Agent.Delivery.{logging, produced, produced_all}
use netvantage.Agent.Lifecycle.{
  Loop, heartbeats, drains, tests, test_loops, Process, launch, Step, opens, panics, beats, cancels,
  leaves, awaits, returns, Serves, executes, replays, Trace, done, stepped, served,
}
use netvantage.Agent.Lifecycle.Shutdown.Ends.{pick-All}
use netvantage.Agent.Lifecycle.Conserved.{heartbeat_message, launch-conserves}
use netvantage.Commands.{agent_main, runs}

abbrev RunsNoTest : Loop → Type 0
RunsNoTest heartbeats = Unit
RunsNoTest drains = Unit
RunsNoTest (tests test) = ⊥

abbrev NoTests : {S : Type 0} → Process S → Type 0
NoTests p = All RunsNoTest p.starting × All RunsNoTest p.active

Start-cases :
    (s : Start)
    → ((e : String) × (s ≡ refused e)) ⊎ (((e : String) × (s ≡ refused_closing e)) ⊎ (s ≡ started))
Start-cases (refused e) = inl (e, refl)
Start-cases (refused_closing e) = inr (inl (e, refl))
Start-cases started = inr (inr refl)

-- No code gives the default configuration a test.
agent_main-loops :
    (join : String → String → String) (quote : String → String) (home : String) (client : Client)
    (loops : List Loop) (limit : ℤ) (beat : ℤ)
    → agent_main join quote home client ≡ runs loops limit beat
    → loops ≡ heartbeats ∷ drains ∷ []
unfolding agent_main validate default_config test_loops start_loops load_tests
agent_main-loops join quote home client loops limit beat h =
    elim (Start-cases (new client "nats://localhost:4222")) [
      | inl (e, bad) ↦ cc (rw (bad, agent_main) at h)
      | inr (inl (e, bad)) ↦ cc (rw (bad, agent_main) at h)
      | inr (inr good) ↦ cc (rw (good, agent_main) at h)
    ]

module _ {F S : Type 0} (nought : F) (marshal : Result F → Option Payload)
    (marshal_beat : Heartbeat → Option Payload) (publish : String → Payload → S → S × Bool)
    (me : Identity) (beat : ℤ) where
  Step-NoTests :
      {p q : Process S}
      → Step nought marshal marshal_beat publish me beat p q
      → NoTests p
      → NoTests q
  Step-NoTests (opens p i l rest alive found positive) (h, k) =
      let (first, others) = pick-All RunsNoTest i p.starting l rest found h in (others, (first, k))
  Step-NoTests (panics p i l rest alive found stops) h = h
  Step-NoTests (beats p i now rest alive found) h = h
  Step-NoTests (cancels p alive) h = h
  Step-NoTests (leaves p i l rest alive cancelled found) (h, k) =
      (h, (pick-All RunsNoTest i p.active l rest found k).1)
  Step-NoTests (awaits p at_done cancelled) h = h
  Step-NoTests (returns p at_wait none_left) h = h

  Serves-drain :
      {p : Process S} {t : Tick F}
      → Serves nought marshal marshal_beat publish me beat p t
      → NoTests p
      → t ≡ drain_due
  Serves-drain (executes p i now test execution rest alive found) (h, k) =
      absurd (pick-All RunsNoTest i p.active (tests test) rest found k).0
  Serves-drain (replays p i rest alive found) h = refl

  Trace-produces :
      {p q : Process S} {ts : List (Tick F)} {os : List (Option Outcome)}
      → Trace nought marshal marshal_beat publish me beat p ts os q
      → NoTests p
      → produced_all nought marshal me ts ≡ []
  unfolding produced_all produced
  Trace-produces (done p) h = refl
  Trace-produces (stepped st rest) h = Trace-produces rest (Step-NoTests st h)
  Trace-produces (served sv rest) h = rw (Serves-drain sv h) (Trace-produces rest h)

module _ {F S : Type 0} (nought : F) (marshal : Result F → Option Payload)
    (marshal_beat : Heartbeat → Option Payload) (publish : String → Payload → S → S × Bool)
    (me : Identity) (beat : ℤ) where
  -- The agent's binary runs no test, whichever canaries it registers: in every run of the loops that it
  -- starts, over any behaviour of the transport, a message that reaches the transport or waits in the
  -- buffer is a heartbeat: every test that no heartbeat passes counts none.
  pub agent_main-idle :
      (join : String → String → String) (quote : String → String) (home : String) (client : Client)
      (loops : List Loop) (limit : ℤ) (p : BufferedMessage → Bool) (s : S) (ts : List (Tick F))
      (os : List (Option Outcome)) (q : Process (S × List BufferedMessage))
      → agent_main join quote home client ≡ runs loops limit beat
      → ((msg : Payload) → p (heartbeat_message msg) ≡ false)
      → Trace nought marshal marshal_beat
          (logging publish)
          me
          beat
          (launch loops (new_memory_buffer limit) (s, []))
          ts
          os
          q
      → (count p q.state.1 ≡ 0) × (count p q.buffer.messages ≡ 0)
  agent_main-idle join quote home client loops limit p s ts os q starts no_beats run =
      let none_made : produced_all nought marshal me ts ≡ [] =
        Trace-produces nought marshal marshal_beat (logging publish) me beat run (
          subst (All RunsNoTest)
              (sym (agent_main-loops join quote home client loops limit beat starts))
              (tt, (tt, tt)),
          tt,
        ) in
      let conserved =
        launch-conserves nought marshal marshal_beat publish me beat p no_beats loops limit s ts os
          q run in
      (
        omega (arith, conserved, ap (count p) none_made),
        omega (arith, conserved, ap (count p) none_made),
      )
