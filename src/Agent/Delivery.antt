-- ===== src/Agent/Delivery.antt =====
-- Where the results of an agent go: to the transport, into the buffer, or away.
use netvantage.Prelude.{
  ℕ, zero, suc, ◌+◌, ◌≡◌, refl, ap, inl, inr, ◌⊎◌, Bool, true, false, Option, none, some, List, [],
  ◌∷◌, ◌++◌, ℤ, pos, ◌+ℤ◌, wrap64, String, count, count-append, snoc, arith, Bool-cases,
  Option-cases, if◌then◌else◌,
}
use netvantage.Transport.{Payload}
use netvantage.Canary.{Result}
use netvantage.Agent.Buffer.{
  BufferedMessage, MemoryBuffer, new_memory_buffer, msg_size, push, len, drain_loop, drain,
}
use netvantage.Agent.{
  Identity, Outcome, dropped, unmarshalable, results_topic, result_of, keep, publish_result,
  execute_test, drain_tick, Tick, test_due, drain_due, tick, run,
}

abbrev M : Type 0
M = BufferedMessage

abbrev message : String → Payload → M
message topic msg = record { topic = topic; payload = msg }

ℕ-cases : (n : ℕ) → (n ≡ 0) ⊎ ((k : ℕ) × (n ≡ suc k))
ℕ-cases zero = inl refl
ℕ-cases (suc k) = inr (k, refl)

module _ {ℓ} {S : Type ℓ} (publish : String → Payload → S → S × Bool) where
  -- The publisher, with a list of the messages that it took.
  abbrev pub logging : String → Payload → S × List M → (S × List M) × Bool
  logging topic msg (s, log) =
      let (s', taken) = publish topic msg s in
      ((s', if taken then snoc log (message topic msg) else log), taken)

  -- One message of the loop of Drain, under the publisher with its list.
  drain_loop_taken :
      (m : M) (ms kept : List M) (size : ℤ) (s : S) (log : List M)
      → (publish m.topic m.payload s).1 ≡ true
      → drain_loop logging (m ∷ ms) kept size (s, log)
        ≡ drain_loop logging ms kept size ((publish m.topic m.payload s).0, snoc log m)
  unfolding drain_loop
  drain_loop_taken m ms kept size s log e =
      rw (e, drain_loop)
        (ap
          (λ t.
            drain_loop logging ms kept size
              ((publish m.topic m.payload s).0, if t then snoc log m else log))
          e)

  drain_loop_refused :
      (m : M) (ms kept : List M) (size : ℤ) (s : S) (log : List M)
      → (publish m.topic m.payload s).1 ≡ false
      → drain_loop logging (m ∷ ms) kept size (s, log)
        ≡ drain_loop logging ms
            (snoc kept m)
            (wrap64 (size +ℤ msg_size m.payload))
            ((publish m.topic m.payload s).0, log)
  unfolding drain_loop
  drain_loop_refused m ms kept size s log e =
      rw (e, drain_loop)
        (ap
          (λ t.
            drain_loop logging ms (snoc kept m) (wrap64 (size +ℤ msg_size m.payload))
              ((publish m.topic m.payload s).0, if t then snoc log m else log))
          e)

  module _ (p : M → Bool) where
    drain_loop-count :
        (ms kept : List M) (size : ℤ) (s : S) (log : List M)
        → let (kept', size', s') = drain_loop logging ms kept size (s, log) in
          count p s'.1 + count p kept' ≡ count p log + count p kept + count p ms
    drain_loop-count [] kept size s log = unfold drain_loop in omega arith
    drain_loop-count (m ∷ ms) kept size s log = elim (Bool-cases (publish m.topic m.payload s).1) [
      | inl taken ↦ rw (drain_loop_taken m ms kept size s log taken) (
          omega (
            arith,
            drain_loop-count ms kept size (publish m.topic m.payload s).0 (snoc log m),
            count-append p log (m ∷ []),
          ))
      | inr refused ↦ rw (drain_loop_refused m ms kept size s log refused) (
          omega (
            arith,
            drain_loop-count ms (snoc kept m) (wrap64 (size +ℤ msg_size m.payload))
                (publish m.topic m.payload s).0 log,
            count-append p kept (m ∷ []),
          ))
    ]

    drain_tick-count :
        (b : MemoryBuffer) (s : S) (log : List M)
        → let (b', s') = drain_tick logging b (s, log) in
          count p s'.1 + count p b'.messages ≡ count p log + count p b.messages
    unfolding drain_tick drain
    drain_tick-count b s log = elim (ℕ-cases (len b)) [
      | inl none_left ↦ rw (none_left, drain_tick) refl
      | inr (n, some_left) ↦
          rw (some_left, drain_tick) (omega (arith, drain_loop-count b.messages [] (pos 0) s log))
    ]

    push-count :
        (b : MemoryBuffer) (topic : String) (msg : Payload)
        → let (b', stored) = push b topic msg in
          count p b'.messages ≡ (
            if stored
            then count p b.messages + count p (message topic msg ∷ [])
            else count p b.messages)
    unfolding push
    push-count b topic msg = ground (arith, count-append p b.messages (message topic msg ∷ []))

-- The messages of a tick, if its outcome is `dropped`.
abbrev pub gone : List M → Option Outcome → List M
gone ms (some dropped) = ms
gone ms _ = []

module _ {F : Type 0} (nought : F) (marshal : Result F → Option Payload) (me : Identity) where
  -- The message that a tick produces, if it produces one.
  unfoldable pub produced : Tick F → List M
  produced drain_due = []
  produced (test_due now test execution) = elim (result_of nought now me test execution) [
    | none ↦ []
    | some r ↦ elim (marshal r) [
      | none ↦ []
      | some msg ↦ message (results_topic test.type) msg ∷ []
    ]
  ]

  unfoldable pub produced_all : List (Tick F) → List M
  produced_all [] = []
  produced_all (t ∷ ts) = produced t ++ produced_all ts

  -- The messages of the ticks whose outcome is `dropped`.
  unfoldable pub dropped_of : List (Tick F) → List (Option Outcome) → List M
  dropped_of (t ∷ ts) (o ∷ os) = gone (produced t) o ++ dropped_of ts os
  dropped_of _ _ = []

module _ {ℓ} {F : Type 0} {S : Type ℓ} (nought : F) (marshal : Result F → Option Payload)
    (publish : String → Payload → S → S × Bool) (me : Identity) where
  publish_result_bad :
      (test_type : String) (r : Result F) (b : MemoryBuffer) (s : S × List M)
      → marshal r ≡ none
      → publish_result nought marshal (logging publish) test_type r b s ≡ (b, s, unmarshalable)
  unfolding publish_result
  publish_result_bad test_type r b s e = rw (e, publish_result)

  module _ (p : M → Bool) where
    publish_result-count :
        (test_type : String) (r : Result F) (msg : Payload) (b : MemoryBuffer) (s : S)
        (log : List M)
        → marshal r ≡ some msg
        → let (b', s', o) =
            publish_result nought marshal (logging publish) test_type r b (s, log) in
          let sent_msg = message (results_topic test_type) msg ∷ [] in
          count p s'.1 + count p b'.messages + count p (gone sent_msg (some o))
          ≡ count p log + count p b.messages + count p sent_msg
    unfolding publish_result keep
    publish_result-count test_type r msg b s log e =
        let topic = results_topic test_type in
        rw (e, publish_result)
          (elim (Bool-cases (publish topic msg s).1) [
            | inl taken ↦ rw taken (omega (arith, count-append p log (message topic msg ∷ [])))
            | inr refused ↦ elim (Bool-cases (push b topic msg).1) [
              | inl stored ↦
                  rw (refused, stored)
                    (omega (arith, rw stored at (push-count publish p b topic msg)))
              | inr full ↦
                  rw (refused, full) (omega (arith, rw full at (push-count publish p b topic msg)))
            ]
          ])

    pub tick-count :
        (t : Tick F) (b : MemoryBuffer) (s : S) (log : List M)
        → let (b', s', o) = tick nought marshal (logging publish) me t b (s, log) in
          count p s'.1 + count p b'.messages + count p (gone (produced nought marshal me t) o)
          ≡ count p log + count p b.messages + count p (produced nought marshal me t)
    unfolding tick execute_test produced
    tick-count drain_due b s log = omega (arith, drain_tick-count publish p b s log)
    tick-count (test_due now test execution) b s log =
        elim (Option-cases (result_of nought now me test execution)) [
          | inl panic ↦ rw (panic, execute_test, produced) refl
          | inr (r, made) ↦ elim (Option-cases (marshal r)) [
            | inl bad ↦
                rw (made, execute_test, produced)
                  (rw (publish_result_bad test.type r b (s, log) bad) (rw (bad, produced) refl))
            | inr (msg, good) ↦
                rw (made, execute_test, produced)
                  (rw (good, produced) (publish_result-count test.type r msg b s log good))
          ]
        ]

    run-count :
        (ts : List (Tick F)) (b : MemoryBuffer) (s : S) (log : List M)
        → let (b', s', outs) = run nought marshal (logging publish) me ts b (s, log) in
          count p s'.1 + count p b'.messages + count p (dropped_of nought marshal me ts outs)
          ≡ count p log + count p b.messages + count p (produced_all nought marshal me ts)
    unfolding run produced_all dropped_of
    run-count [] b s log = refl
    run-count (t ∷ ts) b s log =
        let (b', s', o) = tick nought marshal (logging publish) me t b (s, log) in
        let outs = (run nought marshal (logging publish) me ts b' s').2 in
        omega (
          arith,
          tick-count t b s log,
          run-count ts b' s'.0 s'.1,
          count-append p (gone (produced nought marshal me t) o)
              (dropped_of nought marshal me ts outs),
          count-append p (produced nought marshal me t) (produced_all nought marshal me ts),
        )

  -- No message is lost silently and none is made twice: in any run of the agent from an empty buffer,
  -- over any behaviour of the transport, the messages that the transport took, those that wait in the
  -- buffer and those reported as dropped are together exactly the messages that the tests produced,
  -- counted by any test on messages. (A panic, or a result that does not encode, gives no message.)
  pub run-conserves :
      (p : M → Bool) (ts : List (Tick F)) (limit : ℤ) (s : S)
      → let (b', s', outs) =
          run nought marshal (logging publish) me ts (new_memory_buffer limit) (s, []) in
        count p s'.1 + count p b'.messages + count p (dropped_of nought marshal me ts outs)
        ≡ count p (produced_all nought marshal me ts)
  run-conserves p ts limit s = omega (arith, run-count p ts (new_memory_buffer limit) s [])
