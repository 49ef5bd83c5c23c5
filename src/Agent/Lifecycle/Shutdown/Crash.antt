-- ===== src/Agent/Lifecycle/Shutdown/Crash.antt =====
-- Tests of the configuration whose ticker panics: executeTest recovers from panics, testLoop does not.
use netvantage.Prelude.{
  ℕ, zero, suc, ◌≡◌, ◌⊎◌, ◌↔◌, refl, inl, inr, Bool, Option, none, some, List, [], ◌∷◌, ℤ, pos,
  negsuc, String, arith, Option-cases,
}
use netvantage.Prelude.Dict.{lookup}
use netvantage.Transport.{Payload}
use netvantage.Canary.{Result}
use netvantage.Agent.Buffer.{MemoryBuffer}
use netvantage.Agent.{Identity, Heartbeat, Outcome, Tick, StaticTest, load_tests, start_loops}
use netvantage.Agent.Lifecycle.{
  IsPositive, Loop, heartbeats, drains, test_loops, loops_of, interval_of, crashed, Process, launch,
  pick, panics, Trace, done, stepped,
}
use netvantage.Agent.Lifecycle.Shutdown.Ends.{Starts, Trace-Holds}

module _ {C : Type 0} where
  -- One of the tests has an interval that is not above 0, and a type with a canary.
  abbrev pub Stops : List (String × C) → List StaticTest → Type 0
  Stops canaries [] = ⊥
  Stops canaries (st ∷ static) =
      ((¬ IsPositive st.interval) × ((c : C) × (lookup st.type canaries ≡ some c)))
      ⊎ Stops canaries static

-- A ticker that panics, by its place.
Stopping : ℤ → List Loop → Type 0
Stopping beat loops =
    (i : ℕ) × (l : Loop) × (rest : List Loop) × (pick i loops ≡ some (l, rest))
    × (¬ IsPositive (interval_of beat l))

Stopping-next : (beat : ℤ) (l : Loop) (ls : List Loop) → Stopping beat ls → Stopping beat (l ∷ ls)
unfolding Stopping pick
Stopping-next beat l ls (i, k, rest, found, e) = (suc i, k, l ∷ rest, rw (found, pick) refl, e)

module _ {C : Type 0} (canaries : List (String × C)) (beat : ℤ) where
  abbrev from_config : List StaticTest → List Loop
  from_config static = test_loops (start_loops canaries (load_tests static))

  Stopping-of_config :
      (static : List StaticTest) → Stops canaries static → Stopping beat (from_config static)
  unfolding test_loops start_loops load_tests
  Stopping-of_config [] h = absurd h
  Stopping-of_config (st ∷ static) (inl (stops, (c, known))) =
      rw (known, start_loops) (unfold Stopping pick in (0, _, _, refl, stops))
  Stopping-of_config (st ∷ static) (inr later) = elim (Option-cases (lookup st.type canaries)) [
    | inl unknown ↦ rw (unknown, start_loops) (Stopping-of_config static later)
    | inr (c, known) ↦
        rw (known, start_loops) (Stopping-next beat _ _ (Stopping-of_config static later))
  ]

  interval_cases : (d : ℤ) → (¬ IsPositive d) ⊎ IsPositive d
  interval_cases (pos zero) = inl (λ h. omega (arith, h))
  interval_cases (pos (suc n)) = inr (omega arith)
  interval_cases (negsuc n) = inl (λ h. omega (arith, h))

  Starts-first :
      (st : StaticTest) (static : List StaticTest)
      → Stops canaries static ⊎ Starts beat (from_config static)
      → (lookup st.type canaries ≡ none) ⊎ ((c : C) × (lookup st.type canaries ≡ some c))
      → (¬ IsPositive st.interval) ⊎ IsPositive st.interval
      → Stops canaries (st ∷ static) ⊎ Starts beat (from_config (st ∷ static))
  unfolding test_loops start_loops load_tests
  Starts-first st static (inl stops) known interval = inl (inr stops)
  Starts-first st static (inr starts) (inl unknown) interval =
      inr (rw (unknown, start_loops) starts)
  Starts-first st static (inr starts) (inr (c, known)) (inl stops) = inl (inl (stops, (c, known)))
  Starts-first st static (inr starts) (inr (c, known)) (inr positive) =
      inr (rw (known, start_loops) (positive, starts))

  Starts-of_config :
      (static : List StaticTest) → Stops canaries static ⊎ Starts beat (from_config static)
  unfolding test_loops start_loops load_tests
  Starts-of_config [] = inr tt
  Starts-of_config (st ∷ static) =
      Starts-first st static (Starts-of_config static) (Option-cases (lookup st.type canaries))
        (interval_cases st.interval)

module _ {C F S : Type 0} (nought : F) (marshal : Result F → Option Payload)
    (marshal_beat : Heartbeat → Option Payload) (publish : String → Payload → S → S × Bool)
    (me : Identity) (beat : ℤ) where
  -- With a heartbeat interval above 0, a run of the agent can panic as a whole exactly if the
  -- configuration has a test whose interval is 0 or negative and whose type has a canary.
  pub launch-crashes_iff :
      (canaries : List (String × C)) (static : List StaticTest) (b : MemoryBuffer) (s : S)
      → IsPositive beat
      → ((ts : List (Tick F)) × (os : List (Option Outcome)) × (p : Process S) × Trace nought
            marshal marshal_beat publish me beat
            (launch (loops_of canaries static) b s)
            ts
            os
            p
          × (p.phase ≡ crashed))
        ↔ Stops canaries static
  unfolding Stopping
  launch-crashes_iff canaries static b s positive = (
    λ (ts, os, p, run, at_end). elim (Starts-of_config canaries beat static) [
      | inl stops ↦ stops
      | inr starts ↦ absurd (
          (Trace-Holds nought marshal marshal_beat publish me beat run
              ((positive, (omega arith, starts)), λ e. cc)).1
            at_end)
    ],
    λ stops.
        let (i, l, rest, found, e) =
          Stopping-next beat heartbeats _
            (Stopping-next beat drains _ (Stopping-of_config canaries beat static stops)) in
        (
          [],
          [],
          record (launch (loops_of canaries static) b s) { phase = crashed },
          stepped (panics _ i l rest tt found e) (done _),
          refl,
        ),
  )
