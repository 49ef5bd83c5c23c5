-- ===== src/Transport/Kafka/Claims.antt =====
-- Which messages ConsumeClaim of internal/transport/kafka/kafka.go leaves to be delivered again.
use netvantage.Prelude.{
  ℤ, ◌∙◌, sym, ℕ, ◌<◌, ◌≤◌, ◌≡◌, refl, Option, none, some, List, [], ◌∷◌, ◌++◌, arith,
}
use netvantage.Transport.Types.{Payload, TransportError}
use netvantage.Transport.Kafka.{Message, consume_claim, mark_handled}

-- The messages that a handler takes, in their order, for any handler and state.
module _ {ℓ} {S : Type ℓ} (handler : Payload → S → S × Option TransportError) where
  abbrev handled_first : Option TransportError → Message → List Message → List Message
  handled_first none msg rest = msg ∷ rest
  handled_first (some err) msg rest = rest

  unfoldable pub handled : List Message → S → List Message
  handled [] s = []
  handled (msg ∷ msgs) s =
      let (s', err) = handler msg.value s in handled_first err msg (handled msgs s')

module _ {ℓ κ} {S : Type ℓ} {G : Type κ} (handler : Payload → S → S × Option TransportError)
    (mark : Message → G → G) where
  unfoldable pub mark_all : List Message → G → G
  mark_all [] session = session
  mark_all (msg ∷ msgs) session = mark_all msgs (mark msg session)

  marks_first :
      (err : Option TransportError) (msg : Message) (rest : List Message) (session : G)
      → mark_all (handled_first handler err msg rest) session
        ≡ mark_all rest (mark_handled handler mark err msg session)
  unfolding mark_all
  marks_first none msg rest session = refl
  marks_first (some err) msg rest session = refl

  -- The session is left with the marks of the messages that the handler took, in order.
  pub consume_claim-marks :
      (msgs : List Message) (s : S) (session : G)
      → (consume_claim handler mark msgs s session).1 ≡ mark_all (handled handler msgs s) session
  unfolding consume_claim handled mark_all
  consume_claim-marks [] s session = refl
  consume_claim-marks (msg ∷ msgs) s session =
      let (s', err) = handler msg.value s in
      consume_claim-marks msgs s' (mark_handled handler mark err msg session)
      ∙ sym (marks_first err msg (handled handler msgs s') session)

  -- What the client library says of marks: the offset to commit for a partition is above that of every
  -- message marked, and no mark lowers it.
  module _ (next : ℤ → G → ℕ)
      (mark-raises : (msg : Message) (session : G)
        → msg.offset < next msg.partition (mark msg session))
      (mark-keeps : (partition : ℤ) (msg : Message) (session : G)
        → next partition session ≤ next partition (mark msg session)) where
    mark_all-keeps :
        (partition : ℤ) (msgs : List Message) (session : G)
        → next partition session ≤ next partition (mark_all msgs session)
    unfolding mark_all
    mark_all-keeps partition [] session = omega arith
    mark_all-keeps partition (msg ∷ msgs) session =
        omega (
          arith,
          mark-keeps partition msg session,
          mark_all-keeps partition msgs (mark msg session),
        )

    -- The messages before a taken one, and those after it.
    consume_claim-taken :
        (before after : List Message) (taken : Message) (s : S) (session : G)
        → (handler taken.value (consume_claim handler mark before s session).0).1 ≡ none
        → taken.offset
          < next taken.partition
              (consume_claim handler mark (before ++ (taken ∷ after)) s session).1
    unfolding consume_claim
    consume_claim-taken [] after taken s session h =
        rw (h, consume_claim)
          (let s' = (handler taken.value s).0 in
            rw (consume_claim-marks after s' (mark taken session)) (
              omega (
                arith,
                mark-raises taken session,
                mark_all-keeps taken.partition (handled handler after s') (mark taken session),
              )))
    consume_claim-taken (msg ∷ before) after taken s session h =
        let (s', err) = handler msg.value s in
        consume_claim-taken before after taken s' (mark_handled handler mark err msg session) h

    -- If the offset to commit for a partition is above that of every message marked, and no mark lowers
    -- it, then once the handler takes a message, the offset that the session would commit for the
    -- partition is above that of every message of the claim before it, a refused one too: that one is
    -- not delivered again after a rebalance.
    pub consume_claim-skips :
        (before between after : List Message) (refused taken : Message) (s : S) (session : G)
        → refused.partition ≡ taken.partition
        → refused.offset < taken.offset
        → let earlier = before ++ (refused ∷ between) in
          ((handler taken.value (consume_claim handler mark earlier s session).0).1 ≡ none)
          → (refused.offset
              < next refused.partition
                  (consume_claim handler mark (earlier ++ (taken ∷ after)) s session).1)
    consume_claim-skips before between after refused taken s session same order h =
        let above = consume_claim-taken (before ++ (refused ∷ between)) after taken s session h in
        simp (same) (omega arith)
