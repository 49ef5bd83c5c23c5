-- ===== src/Agent/Lifecycle.antt =====
-- internal/agent/agent.go: Run and the loops that it starts, as steps that the scheduler interleaves. A
-- loop is a goroutine: it makes its ticker, which panics at an interval that is not positive and with it
-- the process, then it serves ticks until it sees the cancellation. Where both are ready, select may
-- choose either. Run has started all its loops before the first of them takes a step.
pub mod Shutdown
pub mod Conserved
use netvantage.Prelude.{
  ℕ, zero, suc, ◌-◌, ◌≡◌, ◌<◌, Bool, true, false, Option, none, some, List, [], ◌∷◌, ℤ, pos,
  pos_part, String, length,
}
use netvantage.Transport.{Payload}
use netvantage.Canary.{TestDefinition, Result}
use netvantage.Agent.Buffer.{MemoryBuffer}
use netvantage.Agent.{
  Identity, StaticTest, load_tests, start_loops, Heartbeat, send_heartbeat, Execution, Outcome,
  Tick, test_due, drain_due, tick,
}

pub data Loop : Type 0 where
  heartbeats : Loop
  drains : Loop
  tests : TestDefinition → Loop

-- A duration, in nanoseconds, at which time.NewTicker does not panic.
abbrev pub IsPositive : ℤ → Type 0
IsPositive d = 0 < pos_part d

-- The interval of a loop's ticker, given HeartbeatInterval.
abbrev pub interval_of : ℤ → Loop → ℤ
interval_of beat heartbeats = beat
interval_of beat drains = pos 10_000_000_000
interval_of beat (tests test) = test.interval

unfoldable pub test_loops {ℓ} : {C : Type ℓ} → List (C × TestDefinition) → List Loop
test_loops [] = []
test_loops ((c, test) ∷ rest) = tests test ∷ test_loops rest

-- Where Run is: before `<-ctx.Done()`, at `a.wg.Wait()`, or at its end; or the process has panicked.
pub data Phase : Type 0 where
  blocked : Phase
  waiting : Phase
  returned : Phase
  crashed : Phase

-- The loops are those that have no ticker yet and those that serve theirs.
pub record Process (S : Type 0) : Type 0 where
  pub cancelled : Bool
  pub starting : List Loop
  pub active : List Loop
  pub wg : ℕ
  pub phase : Phase
  pub buffer : MemoryBuffer
  pub state : S

-- The loops that Run starts, and the agent behind them.
abbrev pub loops_of {ℓ} : {C : Type ℓ} → List (String × C) → List StaticTest → List Loop
loops_of canaries static =
    heartbeats ∷ drains ∷ test_loops (start_loops canaries (load_tests static))

abbrev pub launch : {S : Type 0} → List Loop → MemoryBuffer → S → Process S
launch loops b s = record {
  cancelled = false;
  starting = loops;
  active = [];
  wg = length loops;
  phase = blocked;
  buffer = b;
  state = s;
}

-- The process has neither panicked nor left Run.
abbrev pub IsAlive : Phase → Type 0
IsAlive blocked = Unit
IsAlive waiting = Unit
IsAlive returned = ⊥
IsAlive crashed = ⊥

-- The element at an index and the others.
unfoldable pub pick {ℓ} : {A : Type ℓ} → ℕ → List A → Option (A × List A)
pick i [] = none
pick zero (x ∷ xs) = some (x, xs)
pick (suc i) (x ∷ xs) = elim (pick i xs) [ none ↦ none | some (y, ys) ↦ some (y, x ∷ ys) ]

module _ {F S : Type 0} (nought : F) (marshal : Result F → Option Payload)
    (marshal_beat : Heartbeat → Option Payload) (publish : String → Payload → S → S × Bool)
    (me : Identity) (beat : ℤ) where
  -- The steps that execute no test and drain no buffer.
  pub data Step : Process S → Process S → Type 0 where
    opens :
        (p : Process S) (i : ℕ) (l : Loop) (rest : List Loop)
        → IsAlive p.phase
        → pick i p.starting ≡ some (l, rest)
        → IsPositive (interval_of beat l)
        → Step p (record p { starting = rest; active = l ∷ p.active })
    panics :
        (p : Process S) (i : ℕ) (l : Loop) (rest : List Loop)
        → IsAlive p.phase
        → pick i p.starting ≡ some (l, rest)
        → ¬ IsPositive (interval_of beat l)
        → Step p (record p { phase = crashed })
    beats :
        (p : Process S) (i now : ℕ) (rest : List Loop)
        → IsAlive p.phase
        → pick i p.active ≡ some (heartbeats, rest)
        → Step p (record p { state = send_heartbeat marshal_beat publish now me p.state })
    cancels : (p : Process S) → IsAlive p.phase → Step p (record p { cancelled = true })
    leaves :
        (p : Process S) (i : ℕ) (l : Loop) (rest : List Loop)
        → IsAlive p.phase
        → p.cancelled ≡ true
        → pick i p.active ≡ some (l, rest)
        → Step p (record p { active = rest; wg = p.wg - 1 })
    awaits :
        (p : Process S)
        → p.phase ≡ blocked
        → p.cancelled ≡ true
        → Step p (record p { phase = waiting })
    returns :
        (p : Process S) → p.phase ≡ waiting → p.wg ≡ 0 → Step p (record p { phase = returned })

  abbrev pub after_tick : Process S → Tick F → Process S
  after_tick p t =
      let (b, s, o) = tick nought marshal publish me t p.buffer p.state in
      record p { buffer = b; state = s }

  abbrev pub outcome_of : Process S → Tick F → Option Outcome
  outcome_of p t = (tick nought marshal publish me t p.buffer p.state).2

  -- A tick of a test loop, whatever the execution comes to, or of the drain loop.
  pub data Serves : Process S → Tick F → Type 0 where
    executes :
        (p : Process S) (i now : ℕ) (test : TestDefinition) (execution : Execution F)
        (rest : List Loop)
        → IsAlive p.phase
        → pick i p.active ≡ some (tests test, rest)
        → Serves p (test_due now test execution)
    replays :
        (p : Process S) (i : ℕ) (rest : List Loop)
        → IsAlive p.phase
        → pick i p.active ≡ some (drains, rest)
        → Serves p drain_due

  -- A run of the process, with the ticks that it serves and their outcomes.
  pub data Trace : Process S → List (Tick F) → List (Option Outcome) → Process S → Type 0 where
    done : (p : Process S) → Trace p [] [] p
    stepped :
        {p q r : Process S} {ts : List (Tick F)} {os : List (Option Outcome)}
        → Step p q
        → Trace q ts os r
        → Trace p ts os r
    served :
        {p r : Process S} {t : Tick F} {ts : List (Tick F)} {os : List (Option Outcome)}
        → Serves p t
        → Trace (after_tick p t) ts os r
        → Trace p (t ∷ ts) (outcome_of p t ∷ os) r
