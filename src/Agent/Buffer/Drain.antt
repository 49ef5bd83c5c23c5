-- ===== src/Agent/Buffer/Drain.antt =====
-- What Drain offers to its handler, what it keeps, and its size accounting.
use netvantage.Prelude.{
  ◌+◌, ◌^◌, ◌≤◌, ◌<◌, ◌≡◌, refl, ◌∙◌, inl, inr, ◌⊎◌, Bool, List, [], ◌∷◌, ◌++◌, ℤ, pos, ◌+ℤ◌, ◌≤ℤ◌,
  +ℤ-pos, wrap64, wrap64-pos, String, length, snoc, arith, append_assoc, append-nil, Bool-cases,
  if◌then◌else◌,
}
use netvantage.Transport.{Payload}
use netvantage.Agent.Buffer.{BufferedMessage, MemoryBuffer, msg_size, drain_loop, drain}
use netvantage.Agent.Buffer.Push.{total, total-snoc, IsValid}

module _ {ℓ} {S : Type ℓ} (handler : String → Payload → S → S × Bool) where
  -- The messages that the handler refuses, when all are offered in order, and its state after them.
  pub refused_of : List BufferedMessage → S → List BufferedMessage
  refused_of [] s = []
  refused_of (m ∷ ms) s =
      let (s', taken) = handler m.topic m.payload s in
      if taken then refused_of ms s' else m ∷ refused_of ms s'

  pub final_of : List BufferedMessage → S → S
  final_of [] s = s
  final_of (m ∷ ms) s = final_of ms (handler m.topic m.payload s).0

  size_of_snoc :
      (kept : List BufferedMessage) (m : BufferedMessage)
      → total kept + length m.payload < 2 ^ 63
      → wrap64 (pos (total kept) +ℤ msg_size m.payload) ≡ pos (total (snoc kept m))
  size_of_snoc kept m h = rw (+ℤ-pos, total-snoc) (wrap64-pos (total kept + length m.payload) h)

  drain_loop_lem :
      (ms kept : List BufferedMessage) (s : S)
      → total kept + total ms < 2 ^ 63
      → drain_loop handler ms kept (pos (total kept)) s
        ≡ (kept ++ refused_of ms s, pos (total (kept ++ refused_of ms s)), final_of ms s)
  unfolding drain_loop refused_of final_of
  drain_loop_lem [] kept s h = rw (append-nil kept)
  drain_loop_lem (m ∷ ms) kept s h = elim (Bool-cases (handler m.topic m.payload s).1) [
    | inl taken ↦
        rw (taken, drain_loop)
          (drain_loop_lem ms kept (handler m.topic m.payload s).0 (omega arith))
    | inr refused ↦
        rw (refused, drain_loop)
          (rw (size_of_snoc kept m (omega arith)) (
            rw (← append_assoc kept (m ∷ []) (refused_of ms (handler m.topic m.payload s).0)) (
              drain_loop_lem ms (snoc kept m) (handler m.topic m.payload s).0
                (rw (total-snoc kept m) (omega arith)))))
  ]

  total-refused_of : (ms : List BufferedMessage) (s : S) → total (refused_of ms s) ≤ total ms
  unfolding refused_of
  total-refused_of [] s = omega arith
  total-refused_of (m ∷ ms) s = ground (arith, total-refused_of ms (handler m.topic m.payload s).0)

  kept_within :
      (b : MemoryBuffer) (s : S)
      → IsValid b
      → (refused_of b.messages s ≡ []) ⊎ (pos (total (refused_of b.messages s)) ≤ℤ b.max_size)
  unfolding refused_of
  kept_within b s v = elim v.within [
    | inl empty ↦ inl (rw empty)
    | inr small ↦ inr (omega (arith, total-refused_of b.messages s))
  ]

  -- Draining a valid buffer, whose sizes fit an int64 together, keeps exactly the messages that the
  -- handler refuses, in order, leaves the handler in the state that offering every message in order
  -- gives, and leaves a valid buffer.
  pub drain_lem :
      (b : MemoryBuffer) (s : S)
      → IsValid b
      → total b.messages < 2 ^ 63
      → ((drain handler b s).0.messages ≡ refused_of b.messages s)
        × ((drain handler b s).1 ≡ final_of b.messages s)
        × IsValid (drain handler b s).0
  unfolding drain
  drain_lem b s v h =
      rw (drain_loop_lem b.messages [] s (omega arith))
        (refl, refl, record { accounted = refl; within = kept_within b s v })

module _ {ℓ} {S : Type ℓ} (handler : String → Payload → S → S × Bool) where
  -- The handler, with a list of the messages that it was called for.
  abbrev recording : String → Payload → S × List BufferedMessage → (S × List BufferedMessage) × Bool
  recording topic msg (s, calls) =
      let (s', taken) = handler topic msg s in
      ((s', snoc calls (record { topic = topic; payload = msg })), taken)

  drain_loop_offers :
      (ms kept : List BufferedMessage) (size : ℤ) (s : S) (calls : List BufferedMessage)
      → (drain_loop recording ms kept size (s, calls)).2.1 ≡ calls ++ ms
  unfolding drain_loop
  drain_loop_offers [] kept size s calls = rw (append-nil calls)
  drain_loop_offers (m ∷ ms) kept size s calls = elim (Bool-cases (handler m.topic m.payload s).1) [
    | inl taken ↦
        rw (taken, drain_loop)
          (drain_loop_offers ms kept size (handler m.topic m.payload s).0 (snoc calls m)
            ∙ append_assoc calls (m ∷ []) ms)
    | inr refused ↦
        rw (refused, drain_loop)
          (drain_loop_offers ms (snoc kept m) (wrap64 (size +ℤ msg_size m.payload))
              (handler m.topic m.payload s).0 (snoc calls m)
            ∙ append_assoc calls (m ∷ []) ms)
  ]

  -- Draining offers every stored message to the handler, once and in order, whatever the handler
  -- answers.
  drain-offers_all : (b : MemoryBuffer) (s : S) → (drain recording b (s, [])).1.1 ≡ b.messages
  unfolding drain
  drain-offers_all b s = drain_loop_offers b.messages [] (pos 0) s []
