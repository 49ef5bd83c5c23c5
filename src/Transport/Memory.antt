-- ===== src/Transport/Memory.antt =====
-- internal/transport/memory/memory.go: the in-memory transport. A handler is a closure over the state
-- of the process; `H` names the closures and `call` runs one, returning its error if any.
pub mod Delivery
use netvantage.Prelude.{
  Bool, true, false, Option, none, some, List, [], ◌∷◌, String, if◌then◌else◌, snoc,
}
use netvantage.Prelude.Dict.{lookup, insert}
use netvantage.Transport.Types.{Payload, TransportError, closed}

pub record Transport {ℓ} (H : Type ℓ) : Type ℓ where
  pub handlers : List (String × List H)
  pub closed : Bool

module _ {ℓ} {H : Type ℓ} where
  abbrev pub new : Transport H
  new = record { handlers = []; closed = false }

  abbrev pub or_nil : Option (List H) → List H
  or_nil none = []
  or_nil (some hs) = hs

  -- `t.handlers[topic]`, which is nil for a topic that nobody subscribed to.
  abbrev pub handlers_of : Transport H → String → List H
  handlers_of t topic = or_nil (lookup topic t.handlers)

  -- `t.handlers[topic] = append(t.handlers[topic], handler)`
  pub add_handler : Transport H → String → H → Transport H
  add_handler t topic h = record t {
    handlers = insert topic (snoc (handlers_of t topic) h) t.handlers;
  }

  pub subscribe : Transport H → String → H → Transport H × Option TransportError
  subscribe t topic h =
      if t.closed then (t, some TransportError.closed) else (add_handler t topic h, none)

  pub close : Transport H → Transport H
  close t = record t { closed = true }

module _ {ℓ κ} {H : Type ℓ} {S : Type κ} (call : H → Payload → S → S × Option TransportError) where
  -- The loop over the handlers: it stops at the first error.
  unfoldable pub deliver : List H → Payload → S → S × Option TransportError
  deliver [] msg s = (s, none)
  deliver (h ∷ hs) msg s =
      let (s', err) = call h msg s in elim err [ none ↦ deliver hs msg s' | some e ↦ (s', some e) ]

  pub publish : Transport H → String → Payload → S → S × Option TransportError
  publish t topic msg s =
      if t.closed
      then (s, some TransportError.closed)
      else (elim (lookup topic t.handlers) [ none ↦ (s, none) | some hs ↦ deliver hs msg s ])
