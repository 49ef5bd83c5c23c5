-- ===== src/Agent/Lifecycle/Shutdown/Ends.antt =====
-- A cancelled process can return, if no ticker panics.
use mathlib.Core.Path.{subst}
use netvantage.Prelude.{
  ℕ, zero, suc, ◌+◌, ◌-◌, ◌≡◌, ◌≢◌, refl, sym, ◌∙◌, inl, inr, Bool, true, Option, some, List, [],
  ◌∷◌, ℤ, String, length, All, arith, Option-cases,
}
use netvantage.Transport.{Payload}
use netvantage.Canary.{Result}
use netvantage.Agent.Buffer.{MemoryBuffer}
use netvantage.Agent.{Identity, Heartbeat, Outcome, Tick}
use netvantage.Agent.Lifecycle.{
  IsPositive, Loop, interval_of, Phase, blocked, waiting, returned, crashed, Process, launch,
  IsAlive, pick, Step, opens, panics, beats, cancels, leaves, awaits, returns, Trace, done, stepped,
  served,
}
use netvantage.Agent.Lifecycle.Shutdown.{IsConsistent, Trace-IsConsistent, launch-IsConsistent}

-- Every ticker of the loops can be made.
abbrev pub Starts : ℤ → List Loop → Type 0
Starts beat loops = All (λ l. IsPositive (interval_of beat l)) loops

pub pick-All {ℓ κ} :
    {A : Type ℓ} (P : A → Type κ) (i : ℕ) (xs : List A) (x : A) (ys : List A)
    → pick i xs ≡ some (x, ys)
    → All P xs
    → P x × All P ys
unfolding pick
pick-All P i [] y ys h all = cc
pick-All P zero (x ∷ xs) y ys h all =
    let first : x ≡ y = cc in
    let others : xs ≡ ys = cc in (subst P first all.0, subst (All P) others all.1)
pick-All P (suc i) (x ∷ xs) y ys h all = elim (Option-cases (pick i xs)) [
  | inl out ↦ cc (rw (out, pick) at h)
  | inr ((z, rest), found) ↦
      let ih = pick-All P i xs z rest found all.1 in
      let h' = rw (found, pick) at h in
      let first : z ≡ y = cc h' in
      let others : x ∷ rest ≡ ys = cc h' in (subst P first ih.0, subst (All P) others (all.0, ih.1))
]

module _ {F S : Type 0} (nought : F) (marshal : Result F → Option Payload)
    (marshal_beat : Heartbeat → Option Payload) (publish : String → Payload → S → S × Bool)
    (me : Identity) (beat : ℤ) where
  abbrev Runs : Process S → List (Tick F) → List (Option Outcome) → Process S → Type 0
  Runs = Trace nought marshal marshal_beat publish me beat

  -- What keeps a process from panicking: every ticker still to be made has a positive interval.
  abbrev pub Holds : Process S → Type 0
  Holds p = Starts beat p.starting × (p.phase ≢ crashed)

  Step-Holds :
      {p q : Process S} → Step nought marshal marshal_beat publish me beat p q → Holds p → Holds q
  Step-Holds (opens p i l rest alive found positive) (h, k) =
      ((pick-All (λ l. IsPositive (interval_of beat l)) i p.starting l rest found h).1, k)
  Step-Holds (panics p i l rest alive found stops) (h, k) =
      absurd (stops (pick-All (λ l. IsPositive (interval_of beat l)) i p.starting l rest found h).0)
  Step-Holds (beats p i now rest alive found) h = h
  Step-Holds (cancels p alive) h = h
  Step-Holds (leaves p i l rest alive cancelled found) h = h
  Step-Holds (awaits p at_done cancelled) h = (h.0, λ e. cc)
  Step-Holds (returns p at_wait none_left) h = (h.0, λ e. cc)

  pub Trace-Holds :
      {p q : Process S} {ts : List (Tick F)} {os : List (Option Outcome)}
      → Runs p ts os q
      → Holds p
      → Holds q
  Trace-Holds (done p) h = h
  Trace-Holds (stepped st rest) h = Trace-Holds rest (Step-Holds st h)
  Trace-Holds (served sv rest) h = Trace-Holds rest h

  -- A process by its fields.
  abbrev at : List Loop → List Loop → ℕ → Phase → MemoryBuffer → S → Process S
  at starting active wg phase b s = record {
    cancelled = true;
    starting = starting;
    active = active;
    wg = wg;
    phase = phase;
    buffer = b;
    state = s;
  }

  Ends : Process S → Type 0
  Ends p =
      (q : Process S) × Runs p [] [] q
      × (q.phase ≡ returned)
      × (q.buffer ≡ p.buffer)
      × (q.state ≡ p.state)

  Ends-of_step :
      {p q : Process S}
      → Step nought marshal marshal_beat publish me beat p q
      → q.buffer ≡ p.buffer
      → q.state ≡ p.state
      → Ends q
      → Ends p
  unfolding Ends
  Ends-of_step st same_b same_s (r, run, at_end, e, e') =
      (r, stepped st run, at_end, e ∙ same_b, e' ∙ same_s)

  Ends-waiting : (b : MemoryBuffer) (s : S) → Ends (at [] [] 0 waiting b s)
  unfolding Ends
  Ends-waiting b s =
      (at [] [] 0 returned b s, stepped (returns _ refl refl) (done _), refl, refl, refl)

  Ends-idle :
      (phase : Phase) (b : MemoryBuffer) (s : S) → IsAlive phase → Ends (at [] [] 0 phase b s)
  Ends-idle blocked b s alive =
      Ends-of_step (awaits (at [] [] 0 blocked b s) refl refl) refl refl (Ends-waiting b s)
  Ends-idle waiting b s alive = Ends-waiting b s
  Ends-idle returned b s alive = elim alive [ ]
  Ends-idle crashed b s alive = elim alive [ ]

  Ends-active :
      (active : List Loop) (phase : Phase) (b : MemoryBuffer) (s : S)
      → IsAlive phase
      → Ends (at [] active (length active) phase b s)
  unfolding pick
  Ends-active [] phase b s alive = Ends-idle phase b s alive
  Ends-active (l ∷ ls) phase b s alive =
      let rest = Ends-active ls phase b s alive in
      let one_less : length (l ∷ ls) - 1 ≡ length ls = omega arith in
      Ends-of_step (leaves (at [] (l ∷ ls) (length (l ∷ ls)) phase b s) 0 l ls alive refl refl) refl
        refl (subst (λ n. Ends (at [] ls n phase b s)) (sym one_less) rest)

  Ends-starting :
      (starting active : List Loop) (phase : Phase) (b : MemoryBuffer) (s : S)
      → IsAlive phase
      → Starts beat starting
      → Ends (at starting active (length starting + length active) phase b s)
  unfolding pick
  Ends-starting [] active phase b s alive h =
      let none_new : 0 + length active ≡ length active = omega arith in
      subst (λ n. Ends (at [] active n phase b s)) (sym none_new)
        (Ends-active active phase b s alive)
  Ends-starting (l ∷ ls) active phase b s alive h =
      let rest = Ends-starting ls (l ∷ active) phase b s alive h.1 in
      let same_sum : length ls + length (l ∷ active) ≡ length (l ∷ ls) + length active =
        omega arith in
      Ends-of_step
        (opens (at (l ∷ ls) active (length (l ∷ ls) + length active) phase b s) 0 l ls alive refl
          h.0)
        refl refl (subst (λ n. Ends (at ls (l ∷ active) n phase b s)) same_sum rest)

  Ends-counted :
      (phase : Phase) (starting active : List Loop) (b : MemoryBuffer) (s : S)
      → Starts beat starting
      → phase ≢ crashed
      → Ends (at starting active (length starting + length active) phase b s)
  unfolding Ends
  Ends-counted blocked starting active b s h k = Ends-starting starting active blocked b s tt h
  Ends-counted waiting starting active b s h k = Ends-starting starting active waiting b s tt h
  Ends-counted returned starting active b s h k =
      (at starting active (length starting + length active) returned b s, done _, refl, refl, refl)
  Ends-counted crashed starting active b s h k = absurd (k refl)

  Ends-cancelled : (p : Process S) → p.cancelled ≡ true → IsConsistent p → Holds p → Ends p
  Ends-cancelled p cancelled h k =
      let ends = Ends-counted p.phase p.starting p.active p.buffer p.state k.0 k.1 in
      subst (λ c. Ends (record p { cancelled = c })) (sym cancelled)
        (subst (λ n. Ends (record p { cancelled = true; wg = n })) (sym h.counted) ends)

  -- If every interval is positive, a cancelled process can always return: at any point of any run there
  -- are steps, none of which serves a tick, after which Run has returned. They leave the transport alone,
  -- and the buffer as it is: what it holds is not sent.
  pub launch-ends :
      (loops : List Loop) (b : MemoryBuffer) (s : S) (ts : List (Tick F))
      (os : List (Option Outcome)) (p : Process S)
      → Starts beat loops
      → Trace nought marshal marshal_beat publish me beat (launch loops b s) ts os p
      → p.cancelled ≡ true
      → (q : Process S) × Trace nought marshal marshal_beat publish me beat p [] [] q
        × (q.phase ≡ returned)
        × (q.buffer ≡ p.buffer)
        × (q.state ≡ p.state)
  unfolding Ends
  launch-ends loops b s ts os p starts run cancelled =
      Ends-cancelled p cancelled
        (Trace-IsConsistent nought marshal marshal_beat publish me beat run
          (launch-IsConsistent loops b s))
        (Trace-Holds run (starts, λ e. cc))
