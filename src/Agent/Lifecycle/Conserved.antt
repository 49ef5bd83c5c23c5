-- ===== src/Agent/Lifecycle/Conserved.antt =====
-- Where the results of a run of the process go, its heartbeats among the messages of the transport.
use netvantage.Prelude.{
  ℕ, ◌+◌, ◌≡◌, refl, ap, inl, inr, Bool, false, Option, List, [], ◌∷◌, ℤ, String, count,
  count-append, arith, Bool-cases, Option-cases, if◌then◌else◌,
}
use netvantage.Transport.{Payload}
use netvantage.Canary.{Result}
use netvantage.Agent.Buffer.{BufferedMessage, new_memory_buffer}
use netvantage.Agent.{Identity, Heartbeat, send_heartbeat, Outcome, Tick}
use netvantage.Agent.Delivery.{logging, gone, produced, produced_all, dropped_of, tick-count}
use netvantage.Agent.Lifecycle.{
  Loop, Process, launch, Step, opens, panics, beats, cancels, leaves, awaits, returns, outcome_of,
  Trace, done, stepped, served,
}

abbrev pub heartbeat_message : Payload → BufferedMessage
heartbeat_message msg = record { topic = "netvantage.agent.heartbeat"; payload = msg }

module _ {F S : Type 0} (nought : F) (marshal : Result F → Option Payload)
    (marshal_beat : Heartbeat → Option Payload) (publish : String → Payload → S → S × Bool)
    (me : Identity) (beat : ℤ) (p : BufferedMessage → Bool)
    (no_beats : (msg : Payload) → p (heartbeat_message msg) ≡ false) where
  abbrev held : Process (S × List BufferedMessage) → ℕ
  held q = count p q.state.1 + count p q.buffer.messages

  send_heartbeat-count :
      (now : ℕ) (s : S) (log : List BufferedMessage)
      → count p (send_heartbeat marshal_beat (logging publish) now me (s, log)).1 ≡ count p log
  unfolding send_heartbeat
  send_heartbeat-count now s log =
      elim (Option-cases (
        marshal_beat (record {
          agent_id = me.agent_id;
          pop_name = me.pop_name;
          timestamp = now;
          status = "online";
        }))) [
          | inl bad ↦ rw (bad, send_heartbeat) refl
          | inr (msg, good) ↦
              rw (good, send_heartbeat)
                (elim (Bool-cases (publish "netvantage.agent.heartbeat" msg s).1) [
                  | inl taken ↦ rw taken (
                      omega (
                        arith,
                        count-append p log (heartbeat_message msg ∷ []),
                        ap {B = ℕ} (λ (c : Bool). if c then 1 else 0) (no_beats msg),
                      ))
                  | inr refused ↦ rw refused refl
                ])
        ]

  Step-count :
      {q r : Process (S × List BufferedMessage)}
      → Step nought marshal marshal_beat (logging publish) me beat q r
      → held r ≡ held q
  Step-count (opens q i l rest alive found positive) = refl
  Step-count (panics q i l rest alive found stops) = refl
  Step-count (beats q i now rest alive found) =
      omega (arith, send_heartbeat-count now q.state.0 q.state.1)
  Step-count (cancels q alive) = refl
  Step-count (leaves q i l rest alive cancelled found) = refl
  Step-count (awaits q at_done cancelled) = refl
  Step-count (returns q at_wait none_left) = refl

  Trace-count :
      {q r : Process (S × List BufferedMessage)} {ts : List (Tick F)} {os : List (Option Outcome)}
      → Trace nought marshal marshal_beat (logging publish) me beat q ts os r
      → held r + count p (dropped_of nought marshal me ts os)
        ≡ held q + count p (produced_all nought marshal me ts)
  unfolding produced_all dropped_of
  Trace-count (done q) = refl
  Trace-count (stepped st rest) = omega (arith, Step-count st, Trace-count rest)
  Trace-count (served {p = q} {t} {ts} {os} sv rest) = omega (
    arith,
    Trace-count rest,
    tick-count nought marshal publish me p t q.buffer q.state.0 q.state.1,
    count-append p
        (gone (produced nought marshal me t)
          (outcome_of nought marshal marshal_beat (logging publish) me beat q t))
        (dropped_of nought marshal me ts os),
    count-append p (produced nought marshal me t) (produced_all nought marshal me ts),
  )

  -- At every point of every run of the process, however its loops interleave and whenever it is
  -- cancelled, the messages that the transport took, those that wait in the buffer and those reported as
  -- dropped are together exactly the messages that the tests produced, counted by any test on messages
  -- that no heartbeat passes.
  pub launch-conserves :
      (loops : List Loop) (limit : ℤ) (s : S) (ts : List (Tick F)) (os : List (Option Outcome))
      (q : Process (S × List BufferedMessage))
      → Trace nought marshal marshal_beat
          (logging publish)
          me
          beat
          (launch loops (new_memory_buffer limit) (s, []))
          ts
          os
          q
      → count p q.state.1 + count p q.buffer.messages + count p (dropped_of nought marshal me ts os)
        ≡ count p (produced_all nought marshal me ts)
  launch-conserves loops limit s ts os q run = omega (arith, Trace-count run)
