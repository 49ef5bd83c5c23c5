-- ===== src/Agent/Lifecycle/Shutdown.antt =====
-- How a run of the agent ends.
pub mod Ends
pub mod Crash
use mathlib.Core.Path.{subst}
use netvantage.Prelude.{
  ℕ, zero, suc, ◌+◌, ◌-◌, ◌≡◌, ◌≢◌, ◌<◌, refl, sym, ◌∙◌, ap, inl, inr, Bool, true, false, Option,
  none, some, List, [], ◌∷◌, ℤ, String, length, All, arith, Option-cases,
}
use netvantage.Transport.{Payload}
use netvantage.Canary.{Result}
use netvantage.Agent.Buffer.{MemoryBuffer}
use netvantage.Agent.{Identity, Heartbeat, Outcome, Tick}
use netvantage.Agent.Lifecycle.{
  Loop, interval_of, Phase, blocked, waiting, returned, crashed, Process, launch, IsAlive, pick,
  Step, opens, panics, beats, cancels, leaves, awaits, returns, after_tick, outcome_of, Serves,
  executes, replays, Trace, done, stepped, served,
}

module _ {ℓ} {A : Type ℓ} where
  pub pick-length :
      (i : ℕ) (xs : List A) {x : A} {ys : List A}
      → pick i xs ≡ some (x, ys)
      → length xs ≡ suc (length ys)
  unfolding pick
  pick-length i [] h = cc
  pick-length zero (x ∷ xs) h = ground arith
  pick-length (suc i) (x ∷ xs) h = elim (Option-cases (pick i xs)) [
    | inl out ↦ cc (rw (out, pick) at h)
    | inr ((y, rest), found) ↦
        let ih = pick-length i xs found in let h' = rw (found, pick) at h in ground arith
  ]

-- What a phase says of the process: Run waits only once it is cancelled, and returns at no loop.
abbrev Settled : Phase → Bool → ℕ → Type 0
Settled blocked c n = Unit
Settled waiting c n = c ≡ true
Settled returned c n = (c ≡ true) × (n ≡ 0)
Settled crashed c n = Unit

Settled-cancelled : (ph : Phase) (c : Bool) (n : ℕ) → Settled ph c n → Settled ph true n
Settled-cancelled blocked c n h = tt
Settled-cancelled waiting c n h = refl
Settled-cancelled returned c n h = (refl, h.1)
Settled-cancelled crashed c n h = tt

Settled-alive : (ph : Phase) (c : Bool) (n m : ℕ) → IsAlive ph → Settled ph c n → Settled ph c m
Settled-alive blocked c n m a h = tt
Settled-alive waiting c n m a h = h
Settled-alive returned c n m a h = elim a [ ]
Settled-alive crashed c n m a h = elim a [ ]

-- The wait group counts the loops that have not ended.
pub record IsConsistent {S : Type 0} (p : Process S) : Type 0 where
  pub counted : p.wg ≡ length p.starting + length p.active
  pub settled : Settled p.phase p.cancelled p.wg

module _ {F S : Type 0} (nought : F) (marshal : Result F → Option Payload)
    (marshal_beat : Heartbeat → Option Payload) (publish : String → Payload → S → S × Bool)
    (me : Identity) (beat : ℤ) where
  abbrev Runs : Process S → List (Tick F) → List (Option Outcome) → Process S → Type 0
  Runs = Trace nought marshal marshal_beat publish me beat

  Step-IsConsistent :
      {p q : Process S}
      → Step nought marshal marshal_beat publish me beat p q
      → IsConsistent p
      → IsConsistent q
  Step-IsConsistent (opens p i l rest alive found positive) h = record {
    counted = omega (arith, h.counted, pick-length i p.starting found);
    settled = h.settled;
  }
  Step-IsConsistent (panics p i l rest alive found stops) h = record {
    counted = h.counted;
    settled = tt;
  }
  Step-IsConsistent (beats p i now rest alive found) h = record {
    counted = h.counted;
    settled = h.settled;
  }
  Step-IsConsistent (cancels p alive) h = record {
    counted = h.counted;
    settled = Settled-cancelled p.phase p.cancelled p.wg h.settled;
  }
  Step-IsConsistent (leaves p i l rest alive cancelled found) h = record {
    counted = omega (arith, h.counted, pick-length i p.active found);
    settled = Settled-alive p.phase p.cancelled p.wg (p.wg - 1) alive h.settled;
  }
  Step-IsConsistent (awaits p at_done cancelled) h = record {
    counted = h.counted;
    settled = cancelled;
  }
  Step-IsConsistent (returns p at_wait none_left) h = record {
    counted = h.counted;
    settled = (subst (λ ph. Settled ph p.cancelled p.wg) at_wait h.settled, none_left);
  }

  pub Trace-IsConsistent :
      {p q : Process S} {ts : List (Tick F)} {os : List (Option Outcome)}
      → Runs p ts os q
      → IsConsistent p
      → IsConsistent q
  Trace-IsConsistent (done p) h = h
  Trace-IsConsistent (stepped st rest) h = Trace-IsConsistent rest (Step-IsConsistent st h)
  Trace-IsConsistent (served sv rest) h =
      Trace-IsConsistent rest (record { counted = h.counted; settled = h.settled })

length-zero {ℓ} : {A : Type ℓ} (xs : List A) → length xs ≡ 0 → xs ≡ []
length-zero [] h = refl
length-zero (x ∷ xs) h = absurd (omega arith)

launch-IsConsistent :
    {S : Type 0} (loops : List Loop) (b : MemoryBuffer) (s : S) → IsConsistent (launch loops b s)
launch-IsConsistent loops b s = record { counted = omega arith; settled = tt }

module _ {F S : Type 0} (nought : F) (marshal : Result F → Option Payload)
    (marshal_beat : Heartbeat → Option Payload) (publish : String → Payload → S → S × Bool)
    (me : Identity) (beat : ℤ) where
  -- Run returns only after a cancellation, and when none of the loops that it started is left.
  pub launch-returned :
      (loops : List Loop) (b : MemoryBuffer) (s : S) (ts : List (Tick F))
      (os : List (Option Outcome)) (q : Process S)
      → Trace nought marshal marshal_beat publish me beat (launch loops b s) ts os q
      → q.phase ≡ returned
      → (q.cancelled ≡ true) × (q.starting ≡ []) × (q.active ≡ [])
  launch-returned loops b s ts os q run at_end =
      let h =
        Trace-IsConsistent nought marshal marshal_beat publish me beat run
          (launch-IsConsistent loops b s) in
      let settled = subst (λ ph. Settled ph q.cancelled q.wg) at_end h.settled in
      (
        settled.0,
        length-zero q.starting (omega (arith, h.counted, settled.1)),
        length-zero q.active (omega (arith, h.counted, settled.1)),
      )
