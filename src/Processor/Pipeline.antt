-- ===== src/Processor/Pipeline.antt =====
-- The subscriptions of Run in internal/processor/processor.go, over the in-memory transport of
-- internal/transport/memory, fed by publishResult of internal/agent/agent.go.
use netvantage.Prelude.{
  ℕ, ◌≡◌, ◌∙◌, refl, ap, Bool, true, false, Option, none, some, List, [], ◌∷◌, ◌++◌ as append,
  String, string_eq,
}
use netvantage.Transport.{Payload, TransportError}
use netvantage.Transport.Memory.{Transport, new, deliver, publish}
use netvantage.Transport.Memory.Delivery.{subscribe_all, subscribed, publish-subscribe_all}
use netvantage.Canary.{Result}
use netvantage.Canary.Float.{Float}
use netvantage.Correlation.Engine.{BgpUpdate, handle_bgp_update}
use netvantage.Agent.{sent, results_topic, publish_result}
use netvantage.Agent.Buffer.{MemoryBuffer}
use netvantage.Processor.{
  Call, Message, PingMetrics, DnsMetrics, HttpMetrics, TracerouteMetrics, Processor, correlations,
  handle_ping_result, handle_dns_result, handle_http_result, handle_traceroute_message,
}

-- The types of tests whose results the processor handles.
pub data Kind : Type 0 where
  ping : Kind
  dns : Kind
  http : Kind
  traceroute : Kind

abbrev pub name_of : Kind → String
name_of ping = "ping"
name_of dns = "dns"
name_of http = "http"
name_of traceroute = "traceroute"

-- The handlers that are subscribed.
pub data Handler : Type 0 where
  results : Kind → Handler
  bgp_paths : Handler

abbrev pub subscriptions : List (String × Handler)
subscriptions =
    ("netvantage.ping.results", results ping)
    ∷ ("netvantage.dns.results", results dns)
    ∷ ("netvantage.http.results", results http)
    ∷ ("netvantage.traceroute.results", results traceroute)
    ∷ ("netvantage.bgp.paths", bgp_paths)
    ∷ []

-- json.Unmarshal on the messages of each topic.
pub record Decoder (F : Type 0) : Type 0 where
  pub decode_ping : Payload → Message F (PingMetrics F)
  pub decode_dns : Payload → Message F (DnsMetrics F)
  pub decode_http : Payload → Message F (HttpMetrics F)
  pub decode_traceroute : Payload → Message F (TracerouteMetrics F)
  pub decode_bgp : Payload → Option BgpUpdate

-- The processor, and the calls that it has made on its metrics.
abbrev pub State : Type 0 → Type 0
State F = Processor × List (Call F)

module _ {F : Type 0} (float : Float F) (decoder : Decoder F) (now : ℕ) where
  -- The handler of a type of test.
  unfoldable pub handle : Kind → Payload → State F → State F
  handle ping msg (p, calls) =
      (p, append calls (handle_ping_result float (decoder.decode_ping msg)))
  handle dns msg (p, calls) = (p, append calls (handle_dns_result float (decoder.decode_dns msg)))
  handle http msg (p, calls) =
      (p, append calls (handle_http_result float (decoder.decode_http msg)))
  handle traceroute msg (p, calls) =
      let (p', more) = handle_traceroute_message float now p (decoder.decode_traceroute msg) in
      (p', append calls more)

  -- Every handler returns nil.
  unfoldable pub call : Handler → Payload → State F → State F × Option TransportError
  call (results kind) msg s = (handle kind msg s, none)
  call bgp_paths msg (p, calls) =
      let (engine, out) = handle_bgp_update now p.correlator (decoder.decode_bgp msg) in
      ((record p { correlator = engine }, append calls (correlations out)), none)

  -- The transport after the subscriptions.
  abbrev pub started : Transport Handler
  started = subscribe_all new subscriptions

  -- The agent's publisher over it: whether the message was taken.
  unfoldable pub publish_to : String → Payload → State F → State F × Bool
  publish_to topic msg s =
      let (s', err) = publish call started topic msg s in
      (s', elim err [ none ↦ true | some e ↦ false ])

  subscribed_once :
      (kind : Kind) → subscribed (results_topic (name_of kind)) subscriptions ≡ results kind ∷ []
  subscribed_once ping = refl
  subscribed_once dns = refl
  subscribed_once http = refl
  subscribed_once traceroute = refl

  published :
      (kind : Kind) (msg : Payload) (s : State F)
      → publish call started (results_topic (name_of kind)) msg s ≡ (handle kind msg s, none)
  unfolding deliver call
  published kind msg s =
      publish-subscribe_all call subscriptions (results_topic (name_of kind)) msg s
      ∙ ap (λ hs. deliver call hs msg s) (subscribed_once kind)

  -- Once the processor has subscribed, a ping, DNS, HTTP or traceroute result that an agent publishes on
  -- the in-memory transport, if it encodes, reaches the handler of its type, that one alone and once;
  -- the agent reports it as sent and leaves its buffer as it is.
  pub publish_result-handled :
      (nought : F) (marshal : Result F → Option Payload) (kind : Kind) (r : Result F)
      (msg : Payload) (b : MemoryBuffer) (s : State F)
      → marshal r ≡ some msg
      → publish_result nought marshal publish_to (name_of kind) r b s ≡ (b, handle kind msg s, sent)
  unfolding publish_result publish_to
  publish_result-handled nought marshal kind r msg b s encoded =
      rw (encoded, publish_result) (rw (published kind msg s, publish_to) refl)
