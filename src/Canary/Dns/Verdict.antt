-- ===== src/Canary/Dns/Verdict.antt =====
-- When the DNS canary of internal/agent/canary/dns reports success.
use netvantage.Prelude.{
  All, ℕ, ◌≡◌, ◌↔◌, ◌⊎◌, refl, inl, inr, true, false, Option, none, some, List, [], ◌∷◌, String,
  string_eq, eq_iff, arith,
}
use netvantage.Prelude.Dict.{lookup, lookup-insert}
use netvantage.Transport.{Payload}
use netvantage.Canary.{TestDefinition, Result}
use netvantage.Canary.Float.{Float}
use netvantage.Canary.Dns.{Config, Metrics, ResolverResult}
use netvantage.Canary.Dns.Query.{
  Net, dial_address, queried_type, query, resolved_set, is_set, all_set, validate_content,
}
use netvantage.Canary.Dns.Run.{
  conclude, query_resolver, query_all, resolvers_of, all_succeed, finish, report,
}

abbrev pub Occurs : String → List String → Type 0
Occurs v [] = ⊥
Occurs v (w ∷ ws) = (w ≡ v) ⊎ Occurs v ws

resolved_set_iff :
    (v : String) (resolved : List String)
    → (is_set (lookup v (resolved_set resolved)) ≡ true) ↔ Occurs v resolved
unfolding resolved_set
resolved_set_iff v [] = (λ h. let unset : false ≡ true = unfold lookup in h in cc, λ h. absurd h)
resolved_set_iff v (w ∷ ws) =
    ground (arith, lookup-insert w v true (resolved_set ws), eq_iff w v, resolved_set_iff v ws)

validate_content_iff :
    (resolved expected : List String)
    → (validate_content resolved expected ≡ true) ↔ All (λ e. Occurs e resolved) expected
unfolding validate_content all_set
validate_content_iff resolved [] = (λ h. tt, λ h. refl)
validate_content_iff resolved (e ∷ es) =
    ground (arith, resolved_set_iff e resolved, validate_content_iff resolved es)

-- A lookup gives values, among them every expected one.
abbrev pub IsAnswered : List String → String ⊎ List String → Type 0
IsAnswered expected (inl e) = ⊥
IsAnswered expected (inr resolved) = All (λ e. Occurs e resolved) expected

module _ {F : Type 0} (float : Float F) (net : Net) (show : List String → String)
    (took : String → ℕ) where
  conclude_iff :
      (resolver : String) (expected : List String) (outcome : String ⊎ List String)
      → ((conclude float net show took resolver expected outcome).success ≡ true)
        ↔ IsAnswered expected outcome
  unfolding conclude
  conclude_iff resolver expected (inl e) = (λ h. cc, λ h. absurd h)
  conclude_iff resolver [] (inr resolved) = (λ h. tt, λ h. refl)
  conclude_iff resolver (e ∷ es) (inr resolved) = validate_content_iff resolved (e ∷ es)

  all_succeed_iff :
      (domain : String) (cfg : Config) (resolvers : List String)
      → (all_succeed float net show took (query_all float net show took domain cfg resolvers)
          ≡ true)
        ↔ All
            (λ resolver.
              IsAnswered cfg.expected_values
                (query net (dial_address resolver) domain (queried_type cfg)))
            resolvers
  unfolding all_succeed query_all query_resolver
  all_succeed_iff domain cfg [] = (λ h. tt, λ h. refl)
  all_succeed_iff domain cfg (resolver ∷ resolvers) =
      let first =
        conclude_iff resolver cfg.expected_values
          (query net (dial_address resolver) domain (queried_type cfg)) in
      ground (arith, first, all_succeed_iff domain cfg resolvers)

  finish-success :
      (now elapsed : ℕ) (test : TestDefinition) (results : List (ResolverResult F))
      (encoded : Option Payload) (result : Result F)
      → finish float net show took now elapsed test results encoded ≡ inr result
      → result.success ≡ all_succeed float net show took results
  unfolding finish
  finish-success now elapsed test results none result h = cc
  finish-success now elapsed test results (some bytes) result h = cc

  -- A result of the canary is a success exactly if the lookup of the queried type answers at every
  -- resolver (the system's, if none is configured), with every expected value among its values.
  pub report-success_iff :
      (marshal : Metrics F → Option Payload) (now elapsed : ℕ) (test : TestDefinition)
      (cfg : Config) (result : Result F)
      → report float net show took marshal now elapsed test cfg ≡ inr result
      → (result.success ≡ true)
        ↔ All
            (λ resolver.
              IsAnswered cfg.expected_values
                (query net (dial_address resolver) test.target (queried_type cfg)))
            (resolvers_of cfg)
  unfolding report
  report-success_iff marshal now elapsed test cfg result h =
      let results = query_all float net show took test.target cfg (resolvers_of cfg) in
      let same = finish-success now elapsed test results _ result h in
      ground (arith, same, all_succeed_iff test.target cfg (resolvers_of cfg))
