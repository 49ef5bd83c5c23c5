-- ===== src/Canary/Dns/Run.antt =====
-- internal/agent/canary/dns/dns.go: the results of the resolvers, and the result of a test.
use Prim.Native.String.{◌++◌}
use netvantage.Prelude.{
  ℕ, Bool, true, false, Option, none, some, List, [], ◌∷◌, pos, String, ◌⊎◌, inl, inr, ◌||◌,
  is_empty, length, ◌==◌, string_eq, if◌then◌else◌,
}
use netvantage.Prelude.Text.{to_upper}
use netvantage.Transport.{Payload}
use netvantage.Canary.{TestDefinition, Result}
use netvantage.Canary.Float.{Float}
use netvantage.Canary.Traceroute.{Raw, absent, undecodable, decoded}
use netvantage.Canary.Dns.{Config, Fields, ResolverResult, Metrics, decode_onto, default_config}
use netvantage.Canary.Dns.Query.{
  Net, dial_address, query, classify_dns_error, validate_content, queried_type,
}

-- The resolvers that are queried; "" is the system's.
unfoldable pub resolvers_of : Config → List String
resolvers_of cfg = if is_empty cfg.resolvers then "" ∷ [] else cfg.resolvers

module _ {F : Type 0} (float : Float F) (net : Net) (show : List String → String)
    (took : String → ℕ) where
  -- What follows a query. `show` is the verb %v, `took` a resolver's time in microseconds.
  unfoldable pub conclude : String → List String → String ⊎ List String → ResolverResult F
  conclude resolver expected outcome =
      let name = if resolver == "" then "system" else resolver in
      let ms = float.div (float.of_int (pos (took resolver))) (float.of_int (pos 1_000)) in
      elim outcome [
        | inl e ↦ record {
          resolver = name;
          resolution_time_ms = ms;
          response_code = classify_dns_error e;
          resolved_values = [];
          success = false;
          error = e;
        }
        | inr resolved ↦
            let good = is_empty expected || validate_content resolved expected in
            record {
              resolver = name;
              resolution_time_ms = ms;
              response_code = "NOERROR";
              resolved_values = resolved;
              success = good;
              error =
                  if good
                  then ""
                  else "content validation failed: expected "
                    ++ (show expected ++ (", got " ++ show resolved));
            }
      ]

  unfoldable pub query_resolver : String → Config → String → ResolverResult F
  query_resolver domain cfg resolver =
      conclude resolver cfg.expected_values
        (query net (dial_address resolver) domain (queried_type cfg))

  unfoldable pub query_all : String → Config → List String → List (ResolverResult F)
  query_all domain cfg [] = []
  query_all domain cfg (resolver ∷ resolvers) =
      query_resolver domain cfg resolver ∷ query_all domain cfg resolvers

  -- The loop that looks for a resolver without success.
  unfoldable pub all_succeed : List (ResolverResult F) → Bool
  all_succeed [] = true
  all_succeed (rr ∷ rrs) = let rest = all_succeed rrs in if rr.success then rest else false

  pub sum_times : F → List (ResolverResult F) → F
  sum_times total [] = total
  sum_times total (rr ∷ rrs) = sum_times (float.add total rr.resolution_time_ms) rrs

  unfoldable pub join_errors : String → List (ResolverResult F) → String
  join_errors message [] = message
  join_errors message (rr ∷ rrs) =
      let next =
        (if message == "" then "" else message ++ "; ") ++ (rr.resolver ++ (": " ++ rr.error)) in
      join_errors (if rr.error == "" then message else next) rrs

  pub configured : Raw Fields → Option Config
  configured absent = some default_config
  configured undecodable = none
  configured (decoded fields) = some (decode_onto fields default_config)

  -- The result of the queries, once the metrics are encoded. `elapsed` is in milliseconds.
  unfoldable pub finish :
      ℕ → ℕ → TestDefinition → List (ResolverResult F) → Option Payload → String ⊎ Result F
  finish now elapsed test results none = inl "dns: marshal metrics"
  finish now elapsed test results (some bytes) = inr (record {
    test_id = test.id;
    agent_id = "";
    pop_name = "";
    test_type = "dns";
    target = test.target;
    timestamp = now;
    duration_ms = float.of_int (pos elapsed);
    success = all_succeed results;
    metrics = bytes;
    error = join_errors "" results;
    metadata = [];
  })

  -- `marshal` encodes the metrics, if they encode.
  unfoldable pub report :
      (Metrics F → Option Payload) → ℕ → ℕ → TestDefinition → Config → String ⊎ Result F
  report marshal now elapsed test cfg =
      let results = query_all test.target cfg (resolvers_of cfg) in
      let average =
        float.div (sum_times (float.of_int (pos 0)) results)
          (float.of_int (pos (length results))) in
      let metrics : Metrics F = record {
        record_type = to_upper cfg.record_type;
        avg_resolution_time_ms = average;
        resolvers = results;
      } in
      finish now elapsed test results (marshal metrics)

  pub execute :
      (Metrics F → Option Payload) → ℕ → ℕ → TestDefinition → Raw Fields → String ⊎ Result F
  execute marshal now elapsed test raw = elim (configured raw) [
    | none ↦ inl "dns: parse config"
    | some cfg ↦ report marshal now elapsed test cfg
  ]
