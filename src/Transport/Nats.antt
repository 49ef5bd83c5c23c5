-- ===== src/Transport/Nats.antt =====
-- internal/transport/nats/nats.go: the NATS transport. The client library is a parameter: `K` is its
-- world, and an error is its text. Log lines and the connection's options, which are constants, are
-- left out; the TLS files of the configuration are never read.
use Prim.Native.String.{◌++◌}
use netvantage.Prelude.{Bool, Option, none, some, String, if◌then◌else◌}
use netvantage.Transport.Types.{Payload, TransportError, closed, failed}

-- How New ends: with an error, after which the connection is closed again or never was open, or with
-- the transport.
pub data Start : Type 0 where
  refused : String → Start
  refused_closing : String → Start
  started : Start

pub record Client : Type 0 where
  pub connect : String → Option String
  pub jet_stream : Option String
  pub stream_info : String → Bool
  pub add_stream : String → Option String

abbrev stream_name : String
stream_name = "NETVANTAGE"

unfoldable pub ensure_stream : Client → Option String
ensure_stream client =
    if client.stream_info stream_name then none else elim (client.add_stream stream_name) [
      | none ↦ none
      | some e ↦ some ("nats: create stream " ++ (stream_name ++ (": " ++ e)))
    ]

unfoldable pub new : Client → String → Start
new client url = elim (client.connect url) [
  | some e ↦ refused ("nats: connect to " ++ (url ++ (": " ++ e)))
  | none ↦ elim client.jet_stream [
    | some e ↦ refused_closing ("nats: jetstream context: " ++ e)
    | none ↦ elim (ensure_stream client) [ some e ↦ refused_closing e | none ↦ started ]
  ]
]

module _ {κ} {K : Type κ} (is_closed : K → Bool)
    (js_publish : String → Payload → K → K × Option String) where
  unfoldable pub publish : String → Payload → K → K × Option TransportError
  publish topic msg k =
      if is_closed k
      then (k, some closed)
      else (let (k', err) = js_publish topic msg k in
          (
            k',
            elim err [
              | none ↦ none
              | some e ↦ some (failed ("nats: publish to " ++ (topic ++ (": " ++ e))))
            ],
          ))

-- What is told of a delivered message.
pub data Acknowledgement : Type 0 where
  ack : Acknowledgement
  nak : Acknowledgement

-- The callback of Subscribe.
unfoldable pub on_message :
    {S : Type 0} → (Payload → S → S × Option TransportError) → Payload → S → S × Acknowledgement
on_message handler msg s =
    let (s', err) = handler msg s in (s', elim err [ none ↦ ack | some e ↦ nak ])

abbrev pub consumer_name : String → String
consumer_name topic = "netvantage-" ++ topic

-- Subscribe: `js_subscribe` takes the topic and the durable consumer's name; without an error it
-- blocks until the context is done and then returns nil.
unfoldable pub subscribe : Bool → (String → String → Option String) → String → Option TransportError
subscribe is_closed js_subscribe topic =
    if is_closed then some closed else elim (js_subscribe topic (consumer_name topic)) [
      | some e ↦ some (failed ("nats: subscribe to " ++ (topic ++ (": " ++ e))))
      | none ↦ none
    ]

unfoldable pub close : Bool → Option String → Option String
close is_closed drain = if is_closed then none else drain
