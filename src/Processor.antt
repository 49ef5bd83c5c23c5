-- ===== src/Processor.antt =====
-- internal/processor/processor.go: the handlers that turn results into Prometheus metrics. A handler
-- returns the processor's new state and the calls that it makes on its metrics, in order; the error
-- that it returns to the transport is always nil. `F` stands for float64. Log lines are left out.
pub mod PathChange
pub mod AsPathText
pub mod AsPathChange
pub mod Pipeline
pub mod Metrics
pub mod Run
use Prim.Native.String.{◌++◌}
use netvantage.Prelude.{
  ℕ, Bool, true, false, Option, none, some, List, [], ◌∷◌, ◌++◌ as append, ℤ, pos, String, ◌&&◌,
  not, ◌==◌, string_eq, snoc, map, if◌then◌else◌,
}
use netvantage.Prelude.Dict.{lookup, insert}
use netvantage.Prelude.Decimal.{itoa}
use netvantage.Canary.{Result}
use netvantage.Canary.Float.{Float}
use netvantage.Correlation.Engine.{Engine, Metric, path_key, handle_traceroute_result}

-- A gauge set, or a counter incremented, by its name and labels; or a call of the correlation engine.
pub data Call (F : Type 0) : Type 0 where
  set : String → List String → F → Call F
  inc : String → List String → Call F
  correlation : Metric → Call F

-- What json.Unmarshal makes of a message: nothing, a result whose metrics do not decode, or both.
pub data Message (F M : Type 0) : Type 0 where
  malformed : Message F M
  bad_metrics : Result F → Message F M
  readable : Result F → M → Message F M

pub record PingMetrics (F : Type 0) : Type 0 where
  pub rtt_min : F
  pub rtt_avg : F
  pub rtt_max : F
  pub rtt_std_dev : F
  pub packet_loss : F
  pub jitter : F
  pub packets_sent : ℤ
  pub packets_recv : ℤ

pub record DnsResolverResult (F : Type 0) : Type 0 where
  pub resolver : String
  pub resolution_time_ms : F
  pub response_code : String
  pub resolved_values : List String
  pub success : Bool
  pub error : String

pub record DnsMetrics (F : Type 0) : Type 0 where
  pub record_type : String
  pub avg_resolution_time_ms : F
  pub resolvers : List (DnsResolverResult F)

pub record HttpMetrics (F : Type 0) : Type 0 where
  pub dns_ms : F
  pub tcp_ms : F
  pub tls_ms : F
  pub ttfb_ms : F
  pub total_ms : F
  pub transfer_ms : F
  pub status_code : ℤ
  pub content_length : ℤ
  pub cert_expiry_days : F
  pub redirect_count : ℤ
  pub content_matched : Bool

pub record TracerouteHop (F : Type 0) : Type 0 where
  pub hop_number : ℤ
  pub ip : String
  pub hostname : String
  pub asn : ℤ
  pub rtt_min : F
  pub rtt_avg : F
  pub rtt_max : F
  pub packet_loss : F
  pub sent : ℤ
  pub received : ℤ

pub record TracerouteMetrics (F : Type 0) : Type 0 where
  pub backend : String
  pub hops : List (TracerouteHop F)
  pub hop_count : ℤ
  pub reached_target : Bool
  pub as_path : List ℤ
  pub total_ms : F

pub record Processor : Type 0 where
  pub last_as_paths : List (String × String)
  pub correlator : Engine

-- strings.Join of the numbers, with a space.
unfoldable pub as_path_string : List ℤ → String
as_path_string [] = ""
as_path_string (n ∷ []) = itoa n
as_path_string (n ∷ m ∷ ns) = itoa n ++ (" " ++ as_path_string (m ∷ ns))

abbrev pub base_labels : {F : Type 0} → Result F → List String
base_labels r = r.target ∷ r.pop_name ∷ r.agent_id ∷ []

abbrev pub results_total : String
results_total = "netvantage_processor_results_total"

abbrev pub errors_total : String
errors_total = "netvantage_processor_errors_total"

abbrev pub path_change_total : String
path_change_total = "netvantage_traceroute_path_change_total"

-- The start of every handler: the two counters, then the calls for metrics that decode.
unfoldable pub counted :
    {F M : Type 0} → String → Message F M → (Result F → M → List (Call F)) → List (Call F)
counted test_type malformed calls = inc errors_total (test_type ∷ "unmarshal" ∷ []) ∷ []
counted test_type (bad_metrics r) calls =
    inc results_total (test_type ∷ r.pop_name ∷ [])
    ∷ inc errors_total (test_type ∷ "metrics_unmarshal" ∷ [])
    ∷ []
counted test_type (readable r m) calls = inc results_total (test_type ∷ r.pop_name ∷ []) ∷ calls r m

-- The calls of the correlation engine among the processor's.
unfoldable pub correlations : {F : Type 0} → List Metric → List (Call F)
correlations [] = []
correlations (m ∷ ms) = correlation m ∷ correlations ms

module _ {F : Type 0} where
  -- The branch that counts a change of path.
  unfoldable pub path_change_calls : Processor → Result F → TracerouteMetrics F → List (Call F)
  path_change_calls p r m = elim (lookup (path_key r.target r.pop_name) p.last_as_paths) [
    | none ↦ []
    | some last_path ↦
        let current_path = as_path_string m.as_path in
        if not (last_path == current_path) && not (current_path == "")
        then inc path_change_total (r.target ∷ r.pop_name ∷ []) ∷ []
        else []
  ]

  -- The path kept for the next result. The key is written as the engine writes its own.
  unfoldable pub keep_path : Processor → Result F → TracerouteMetrics F → Processor
  keep_path p r m =
      let current_path = as_path_string m.as_path in
      if current_path == "" then p else record p {
        last_as_paths = insert (path_key r.target r.pop_name) current_path p.last_as_paths;
      }

module _ {F : Type 0} (float : Float F) where
  abbrev pub seconds : F → F
  seconds ms = float.div ms (float.of_int (pos 1_000))

  ping_calls : Result F → PingMetrics F → List (Call F)
  ping_calls r m =
      let rtt : String → F → Call F =
        λ stat ms. set "netvantage_ping_rtt_seconds" (snoc (base_labels r) stat) (seconds ms) in
      rtt "min" m.rtt_min
      ∷ rtt "avg" m.rtt_avg
      ∷ rtt "max" m.rtt_max
      ∷ rtt "stddev" m.rtt_std_dev
      ∷ set "netvantage_ping_packet_loss_ratio" (base_labels r) m.packet_loss
      ∷ set "netvantage_ping_jitter_seconds" (base_labels r) (seconds m.jitter)
      ∷ []

  pub handle_ping_result : Message F (PingMetrics F) → List (Call F)
  unfolding ping_calls
  handle_ping_result msg = counted "ping" msg ping_calls

  -- The loop over the resolvers.
  dns_calls : Result F → String → List (DnsResolverResult F) → List (Call F)
  dns_calls r record_type [] = []
  dns_calls r record_type (rr ∷ rrs) =
      set "netvantage_dns_resolution_seconds"
        (append (base_labels r) (rr.resolver ∷ record_type ∷ [])) (seconds rr.resolution_time_ms)
      ∷ set "netvantage_dns_response_code"
          (append (base_labels r) (rr.resolver ∷ rr.response_code ∷ [])) (float.of_int (pos 1))
      ∷ dns_calls r record_type rrs

  pub handle_dns_result : Message F (DnsMetrics F) → List (Call F)
  unfolding dns_calls
  handle_dns_result msg = counted "dns" msg (λ r m. dns_calls r m.record_type m.resolvers)

  http_calls : Result F → HttpMetrics F → List (Call F)
  http_calls r m =
      let phase : String → F → Call F = λ name ms.
        set "netvantage_http_duration_seconds" (snoc (base_labels r) name) (seconds ms) in
      phase "dns" m.dns_ms
      ∷ phase "tcp" m.tcp_ms
      ∷ phase "tls" m.tls_ms
      ∷ phase "ttfb" m.ttfb_ms
      ∷ phase "total" m.total_ms
      ∷ phase "transfer" m.transfer_ms
      ∷ set "netvantage_http_status_code" (base_labels r) (float.of_int m.status_code)
      ∷ (if float.lt (float.of_int (pos 0)) m.cert_expiry_days
          then set "netvantage_http_cert_expiry_days" (base_labels r) m.cert_expiry_days ∷ []
          else [])

  pub handle_http_result : Message F (HttpMetrics F) → List (Call F)
  unfolding http_calls
  handle_http_result msg = counted "http" msg http_calls

  -- The loop over the hops.
  unfoldable pub hop_calls : Result F → List (TracerouteHop F) → List (Call F)
  hop_calls r [] = []
  hop_calls r (hop ∷ hops) =
      let hop_ip = if hop.ip == "" then "*" else hop.ip in
      set "netvantage_traceroute_hop_rtt_seconds"
        (append (base_labels r) (itoa hop.hop_number ∷ hop_ip ∷ itoa hop.asn ∷ []))
        (seconds hop.rtt_avg)
      ∷ set "netvantage_traceroute_hop_loss_ratio"
          (append (base_labels r) (itoa hop.hop_number ∷ hop_ip ∷ [])) hop.packet_loss
      ∷ hop_calls r hops

  -- The calls of a traceroute result, less those of the engine.
  unfoldable pub traceroute_calls : Processor → Result F → TracerouteMetrics F → List (Call F)
  traceroute_calls p r m =
      set "netvantage_traceroute_hop_count" (base_labels r) (float.of_int m.hop_count)
      ∷ set "netvantage_traceroute_reachable" (base_labels r)
          (float.of_int (pos (if m.reached_target then 1 else 0)))
      ∷ append (hop_calls r m.hops) (path_change_calls p r m)

  -- What follows the decoding: the calls, the path kept, and the engine's handler.
  unfoldable pub trace_path :
      ℕ → Processor → Result F → TracerouteMetrics F → Processor × List (Call F)
  trace_path now p r m =
      let (engine, out) =
        handle_traceroute_result now p.correlator r.target r.pop_name r.agent_id m.as_path
          m.hop_count m.reached_target in
      (
        record (keep_path p r m) { correlator = engine },
        append (traceroute_calls p r m) (correlations out),
      )

  unfoldable pub handle_traceroute_message :
      ℕ → Processor → Message F (TracerouteMetrics F) → Processor × List (Call F)
  handle_traceroute_message now p malformed =
      (p, counted {M = TracerouteMetrics F} "traceroute" malformed (λ r m. []))
  handle_traceroute_message now p (bad_metrics r) =
      (p, counted {M = TracerouteMetrics F} "traceroute" (bad_metrics r) (λ r m. []))
  handle_traceroute_message now p (readable r m) =
      let (p', calls) = trace_path now p r m in
      (p', counted "traceroute" (readable r m) (λ r m. calls))

  -- A series of traceroute messages, each with the time at which it is handled.
  unfoldable pub run_traceroutes :
      Processor → List (ℕ × Message F (TracerouteMetrics F)) → Processor × List (Call F)
  run_traceroutes p [] = (p, [])
  run_traceroutes p ((now, msg) ∷ msgs) =
      let (p', calls) = handle_traceroute_message now p msg in
      let (p'', later) = run_traceroutes p' msgs in (p'', append calls later)
