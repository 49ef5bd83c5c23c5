-- ===== src/Transport/Kafka.antt =====
-- internal/transport/kafka/kafka.go: the Kafka transport. The client library, crypto/tls and os are
-- parameters: `K` is the producer's world, `S` the handler's and the session's. A topic's text is
-- changed byte for byte, which on UTF-8 is character for character. Locks, log lines and the SCRAM
-- client, whose methods do nothing, are left out; nothing sets cancelFn.
pub mod Config
pub mod Topics
pub mod Claims
use Prim.Native.Char.{Char, code}
use Prim.Native.String.{◌++◌}
use netvantage.Prelude.{
  ℕ, Bool, true, false, Option, none, some, List, [], ◌∷◌, ◌++◌ as append, ℤ, String, is_empty,
  nat_beq, if◌then◌else◌,
}
use netvantage.Transport.Types.{Payload, TransportError, closed, failed}

to_hyphen : Char → Char
to_hyphen c = if nat_beq (code c) b'.' then "-" else c

-- The topic with a hyphen for every dot.
unfoldable pub full_topic : String → String
unfolding to_hyphen
full_topic String.[] = String.[]
full_topic (String.◌∷◌ c s) = String.◌∷◌ (to_hyphen c) (full_topic s)

pub record Transport : Type 0 where
  pub closed : Bool

module _ {κ} {K : Type κ} (send : String → Payload → K → K × Option String) where
  unfoldable pub publish : Transport → String → Payload → K → K × Option TransportError
  publish t topic msg k =
      if t.closed
      then (k, some TransportError.closed)
      else (let (k', err) = send (full_topic topic) msg k in
          (
            k',
            elim err [
              | none ↦ none
              | some e ↦ some (failed ("kafka: publish to " ++ (full_topic topic ++ (": " ++ e))))
            ],
          ))

-- The errors of closing the producer and the client, `none` for one that closes.
abbrev pub close_error : String → Option String → List String
close_error what none = []
close_error what (some e) = (what ++ e) ∷ []

-- Close, with the errors that it joins.
unfoldable pub close : Option String → Option String → Transport → Transport × List String
close producer client t = if t.closed then (t, []) else (
  record t { closed = true },
  append (close_error "kafka: close producer: " producer)
      (close_error "kafka: close client: " client),
)

-- A message of a claim.
pub record Message : Type 0 where
  pub partition : ℤ
  pub offset : ℕ
  pub value : Payload

module _ {ℓ κ} {S : Type ℓ} {G : Type κ} (handler : Payload → S → S × Option TransportError)
    (mark : Message → G → G) where
  -- The session after a message that the handler took, and after one that it refused.
  abbrev pub mark_handled : Option TransportError → Message → G → G
  mark_handled none msg session = mark msg session
  mark_handled (some err) msg session = session

  -- ConsumeClaim, on the messages of the claim.
  unfoldable pub consume_claim : List Message → S → G → S × G
  consume_claim [] s session = (s, session)
  consume_claim (msg ∷ msgs) s session =
      let (s', err) = handler msg.value s in consume_claim msgs s' (mark_handled err msg session)

-- What one turn of Subscribe's loop meets: a context that is done, or a call of Consume that ends, with
-- an error or not; `stops` is whether the error is ErrClosedConsumerGroup or context.Canceled.
pub data Turn : Type 0 where
  done : Turn
  consumed : Turn
  consume_failed : Bool → Turn

-- The loop: whether it has returned, nil, within these turns.
unfoldable pub subscribe_loop : List Turn → Bool
subscribe_loop [] = false
subscribe_loop (done ∷ turns) = true
subscribe_loop (consumed ∷ turns) = subscribe_loop turns
subscribe_loop (consume_failed stops ∷ turns) =
    let rest = subscribe_loop turns in if stops then true else rest
