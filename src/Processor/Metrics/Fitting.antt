-- ===== src/Processor/Metrics/Fitting.antt =====
-- The processor's calls against the vectors that it registers.
use netvantage.Prelude.{
  ℕ, ◌≡◌, refl, true, List, [], pos, ◌∷◌, ◌++◌ as append, String, ◌==◌, not, ◌&&◌, string_eq, All,
  Bool-cases, Option-cases, inl, inr,
}
use netvantage.Prelude.Dict.{lookup}
use netvantage.Transport.{Payload}
use netvantage.Canary.{Result}
use netvantage.Canary.Float.{Float}
use netvantage.Correlation.Engine.{
  Metric, correlations_run, correlation_age_zero, mismatch_total, match_status, path_key,
}
use netvantage.Processor.{
  Call, as_path_string, trace_path, Message, malformed, bad_metrics, readable, Processor,
  PingMetrics, DnsMetrics, DnsResolverResult, HttpMetrics, TracerouteHop, TracerouteMetrics,
  counted, correlations, dns_calls, http_calls, path_change_calls, hop_calls, traceroute_calls,
  handle_ping_result, handle_dns_result, handle_http_result, handle_traceroute_message,
}
use netvantage.Processor.Pipeline.{
  State, Kind, ping, dns, http, traceroute, Handler, results, bgp_paths, Decoder, handle, call,
}
use netvantage.Processor.Metrics.{
  use_of_metric, use_of_call, fits, registered, registers, is_registered,
}

abbrev pub Fits : {F : Type 0} → Call F → Type 0
Fits c = fits registered (use_of_call c) ≡ true

metric-Fits : (m : Metric) → fits registered (use_of_metric m) ≡ true
unfolding fits use_of_metric
metric-Fits (correlations_run p pop) = refl
metric-Fits (correlation_age_zero p pop) = refl
metric-Fits (mismatch_total p pop match) = refl
metric-Fits (match_status p pop target halves) = refl

correlations-Fits : (F : Type 0) (ms : List Metric) → All (Fits {F = F}) (correlations ms)
unfolding correlations use_of_call
correlations-Fits F [] = tt
correlations-Fits F (m ∷ ms) = (metric-Fits m, correlations-Fits F ms)

module _ {F : Type 0} where
  append-Fits : (cs ds : List (Call F)) → All Fits cs → All Fits ds → All Fits (append cs ds)
  append-Fits [] ds h k = k
  append-Fits (c ∷ cs) ds h k = (h.0, append-Fits cs ds h.1 k)

  counted-Fits :
      {M : Type 0} (test_type : String) (msg : Message F M) (calls : Result F → M → List (Call F))
      → ((r : Result F) (m : M) → All Fits (calls r m))
      → All Fits (counted test_type msg calls)
  unfolding counted fits use_of_call
  counted-Fits test_type malformed calls h = (refl, tt)
  counted-Fits test_type (bad_metrics r) calls h = (refl, (refl, tt))
  counted-Fits test_type (readable r m) calls h = (refl, h r m)

  path_change_calls-Fits :
      (p : Processor) (r : Result F) (m : TracerouteMetrics F) → All Fits (path_change_calls p r m)
  unfolding path_change_calls fits use_of_call
  path_change_calls-Fits p r m =
      elim (Option-cases (lookup (path_key r.target r.pop_name) p.last_as_paths)) [
        | inl new ↦ rw (new, path_change_calls) tt
        | inr (last_path, known) ↦
            rw (known, path_change_calls)
              (elim (Bool-cases (
                not (last_path == as_path_string m.as_path)
                && not (as_path_string m.as_path == ""))) [
                  | inl changed ↦ rw changed (refl, tt)
                  | inr same ↦ rw same tt
                ])
      ]

module _ {F : Type 0} (float : Float F) where
  handle_ping_result-Fits :
      (msg : Message F (PingMetrics F)) → All Fits (handle_ping_result float msg)
  unfolding handle_ping_result fits use_of_call
  handle_ping_result-Fits msg =
      counted-Fits "ping" msg _ (λ r m. (refl, (refl, (refl, (refl, (refl, (refl, tt)))))))

  hop_calls-Fits :
      (r : Result F) (hops : List (TracerouteHop F)) → All Fits (hop_calls float r hops)
  unfolding hop_calls fits use_of_call
  hop_calls-Fits r [] = tt
  hop_calls-Fits r (hop ∷ hops) = (refl, (refl, hop_calls-Fits r hops))

  dns_calls-Fits :
      (r : Result F) (record_type : String) (rrs : List (DnsResolverResult F))
      → All Fits (dns_calls float r record_type rrs)
  unfolding dns_calls fits use_of_call
  dns_calls-Fits r record_type [] = tt
  dns_calls-Fits r record_type (rr ∷ rrs) = (refl, (refl, dns_calls-Fits r record_type rrs))

  handle_dns_result-Fits : (msg : Message F (DnsMetrics F)) → All Fits (handle_dns_result float msg)
  unfolding handle_dns_result
  handle_dns_result-Fits msg =
      counted-Fits "dns" msg _ (λ r m. dns_calls-Fits r m.record_type m.resolvers)

  http_calls-Fits : (r : Result F) (m : HttpMetrics F) → All Fits (http_calls float r m)
  unfolding http_calls fits use_of_call
  http_calls-Fits r m = elim (Bool-cases (float.lt (float.of_int (pos 0)) m.cert_expiry_days)) [
    | inl known ↦ rw known (refl, (refl, (refl, (refl, (refl, (refl, (refl, (refl, tt))))))))
    | inr unknown ↦ rw unknown (refl, (refl, (refl, (refl, (refl, (refl, (refl, tt)))))))
  ]

  handle_http_result-Fits :
      (msg : Message F (HttpMetrics F)) → All Fits (handle_http_result float msg)
  unfolding handle_http_result
  handle_http_result-Fits msg = counted-Fits "http" msg _ http_calls-Fits

  traceroute_calls-Fits :
      (p : Processor) (r : Result F) (m : TracerouteMetrics F)
      → All Fits (traceroute_calls float p r m)
  unfolding traceroute_calls fits use_of_call
  traceroute_calls-Fits p r m = (
    refl,
    (
      refl,
      append-Fits (hop_calls float r m.hops) (path_change_calls p r m) (hop_calls-Fits r m.hops)
          (path_change_calls-Fits p r m),
    ),
  )

  traced :
      (now : ℕ) (p : Processor) (r : Result F) (m : TracerouteMetrics F)
      → All Fits (trace_path float now p r m).1
  unfolding trace_path
  traced now p r m =
      append-Fits (traceroute_calls float p r m) _ (traceroute_calls-Fits p r m)
        (correlations-Fits F _)

  handle_traceroute_message-Fits :
      (now : ℕ) (p : Processor) (msg : Message F (TracerouteMetrics F))
      → All Fits (handle_traceroute_message float now p msg).1
  unfolding handle_traceroute_message
  handle_traceroute_message-Fits now p malformed = counted-Fits "traceroute" malformed _ (λ r m. tt)
  handle_traceroute_message-Fits now p (bad_metrics r) =
      counted-Fits "traceroute" (bad_metrics r) _ (λ r m. tt)
  handle_traceroute_message-Fits now p (readable r m) =
      counted-Fits "traceroute" (readable r m) _ (λ r' m'. traced now p r m)

module _ {F : Type 0} (float : Float F) (decoder : Decoder F) where
  handle-Fits :
      (now : ℕ) (kind : Kind) (msg : Payload) (s : State F)
      → All Fits s.1
      → All Fits (handle float decoder now kind msg s).1
  unfolding handle
  handle-Fits now ping msg (p, calls) h =
      append-Fits calls _ h (handle_ping_result-Fits float (decoder.decode_ping msg))
  handle-Fits now dns msg (p, calls) h =
      append-Fits calls _ h (handle_dns_result-Fits float (decoder.decode_dns msg))
  handle-Fits now http msg (p, calls) h =
      append-Fits calls _ h (handle_http_result-Fits float (decoder.decode_http msg))
  handle-Fits now traceroute msg (p, calls) h =
      append-Fits calls _ h
        (handle_traceroute_message-Fits float now p (decoder.decode_traceroute msg))

  call-Fits :
      (now : ℕ) (handler : Handler) (msg : Payload) (s : State F)
      → All Fits s.1
      → All Fits (call float decoder now handler msg s).0.1
  unfolding call
  call-Fits now (results kind) msg s h = handle-Fits now kind msg s h
  call-Fits now bgp_paths msg (p, calls) h = append-Fits calls _ h (correlations-Fits F _)

  -- The messages that the processor's subscriptions handle, each with the time and the handler.
  abbrev pub process : List (ℕ × Handler × Payload) → State F → State F
  process [] s = s
  process ((now, handler, msg) ∷ rest) s = process rest (call float decoder now handler msg s).0

  process-keeps_fit :
      (messages : List (ℕ × Handler × Payload)) (s : State F)
      → All Fits s.1
      → All Fits (process messages s).1
  process-keeps_fit [] s h = h
  process-keeps_fit ((now, handler, msg) ∷ rest) s h =
      process-keeps_fit rest _ (call-Fits now handler msg s h)

  -- The registrations of a new processor do not panic, and whatever messages its subscriptions then
  -- handle, decodable or not, every call that it makes on a metric is on a registered vector, of its
  -- kind and with as many values as the vector has labels.
  pub process-Fits :
      (messages : List (ℕ × Handler × Payload)) (p : Processor)
      → (registers registered ≡ true) × All Fits (process messages (p, [])).1
  unfolding registers is_registered
  process-Fits messages p = (refl, process-keeps_fit messages (p, []) tt)
