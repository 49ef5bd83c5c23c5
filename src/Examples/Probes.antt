-- ===== src/Examples/Probes.antt =====
-- The DNS, HTTP and ping canaries, and a claim of Kafka messages.
use netvantage.Prelude.{
  All, ℕ, suc, ◌+◌, ◌<◌, ◌≤◌, ◌≡◌, ◌↔◌, refl, inl, inr, true, Option, none, some, List, [], ◌∷◌, ℤ,
  pos, String, arith, ◌+ℤ◌, ◌-ℤ◌, ◌*ℤ◌, ltb_ℤ, ◌==◌, int_eq, string_eq,
}
use netvantage.Prelude.Text.{to_upper}
use netvantage.Prelude.Dict.{lookup, insert}
use netvantage.Transport.{Payload, TransportError, failed}
use netvantage.Transport.Kafka.{Message, consume_claim}
use netvantage.Transport.Kafka.Claims.{consume_claim-skips}
use netvantage.Canary.{TestDefinition, Result}
use netvantage.Canary.Float.{Float}
use netvantage.Canary.Traceroute.{absent}
use netvantage.Canary.Dns.{Config}
use netvantage.Canary.Dns.Query.{
  Net, dial_address, queried_type, query, of_family, validate_content, all_set, resolved_set,
}
use netvantage.Canary.Dns.Run.{
  resolvers_of, report, finish, all_succeed, join_errors, query_all, query_resolver, conclude,
}
use netvantage.Canary.Dns.Verdict.{IsAnswered, report-success_iff}
use netvantage.Canary.Http.{
  Response, Fetched, answered, redirected, Outcome, client_do, configured,
  default_config as http_default,
}
use netvantage.Canary.Http.Redirects.{client_do-ends}
use netvantage.Canary.Http.Run.{World, execute}
use netvantage.Canary.Http.Timing.{connect_start_hook, connect_done_hook, got_first_response_byte}
use netvantage.Canary.Http.Verdict.{IsGood, execute-success_iff}

-- Whole numbers: a division leaves its first operand.
abbrev whole : Float ℤ
whole = record {
  of_int = λ n. n;
  of_ratio = λ n d. n;
  to_int = λ n. n;
  add = ◌+ℤ◌;
  sub = ◌-ℤ◌;
  mul = ◌*ℤ◌;
  div = λ a b. a;
  lt = ltb_ℤ;
  eq = λ a b. a == b;
  two_decimals = λ a. "1.00";
}

abbrev test : TestDefinition
test = record {
  id = "t1";
  type = "dns";
  target = "example.com";
  interval = pos 1_000;
  timeout = pos 500;
  config = [];
}

-- A resolver that knows one address.
abbrev net : Net
net = record {
  lookup_ip = λ address domain. inr (("192.0.2.4", true) ∷ []);
  lookup_cname = λ address domain. inl "no such host";
  lookup_mx = λ address domain. inl "no such host";
  lookup_ns = λ address domain. inl "no such host";
  lookup_txt = λ address domain. inl "no such host";
  lookup_srv = λ address domain. inl "no such host";
}

abbrev dns_config : Config
dns_config = record { record_type = "A"; resolvers = []; expected_values = "192.0.2.4" ∷ [] }

abbrev show : List String → String
show vs = "[]"

abbrev dns_result : Result ℤ
dns_result = record {
  test_id = "t1";
  agent_id = "";
  pop_name = "";
  test_type = "dns";
  target = "example.com";
  timestamp = 1;
  duration_ms = pos 3;
  success = true;
  metrics = [];
  error = "";
  metadata = [];
}

reported : report whole net show (λ r. 3) (λ m. some []) 1 3 test dns_config ≡ inr dns_result
unfolding report finish all_succeed join_errors query_all query_resolver conclude query of_family
    queried_type to_upper resolvers_of validate_content all_set resolved_set lookup insert
reported = refl

report-success_iff_example :
    (dns_result.success ≡ true)
    ↔ All
        (λ resolver.
          IsAnswered dns_config.expected_values
            (query net (dial_address resolver) test.target (queried_type dns_config)))
        (resolvers_of dns_config)
report-success_iff_example =
    report-success_iff whole net show (λ r. 3) (λ m. some []) 1 3 test dns_config dns_result
      reported

abbrev page : Response
page = record {
  status_code = pos 200;
  content_length = pos 2;
  proto = "HTTP/1.1";
  tls = none;
  body = inr "ok";
}

-- A server that redirects every URL to one, which it redirects to itself.
abbrev fetch : String → Fetched
fetch url = redirected "http://192.0.2.4/" page

client_do-ends_example :
    (outcome : Outcome) × (client_do fetch 11 http_default "http://example.com/" 0 []
      ≡ some outcome)
    × (outcome.redirect_count ≤ 11)
client_do-ends_example = client_do-ends fetch http_default "http://example.com/"

abbrev http_world : World ℤ
http_world = record {
  build_error = none;
  fetch = λ url. answered page;
  request_start = pos 1;
  calls =
      (connect_start_hook, pos 1)
      ∷ (connect_done_hook, pos 2)
      ∷ (got_first_response_byte, pos 3)
      ∷ [];
  request_done = pos 4;
  micros = λ d. d;
  hours = λ d. d;
  floor = λ d. d;
  cipher_suite_name = λ n. "";
  hex = λ n. "";
  compile = λ regex. none;
}

execute-success_iff_example :
    (outcome : Outcome) × (result : Result ℤ) × (client_do http_world.fetch 11 http_default
        test.target 0 []
      ≡ some outcome)
    × (execute whole http_world (λ m. some []) 1 3 test absent ≡ some (inr result))
    × ((result.success ≡ true) ↔ IsGood whole http_world http_default outcome)
execute-success_iff_example =
    execute-success_iff whole http_world (λ m. some []) 1 3 test absent http_default
      (unfold configured in refl) refl

-- A handler that refuses an empty message, and a session that is the offset to commit.
abbrev handler : Payload → ℕ → ℕ × Option TransportError
handler [] s = (s, some (failed "empty"))
handler (b ∷ bs) s = (suc s, none)

abbrev mark : Message → ℕ → ℕ
mark msg session = session + suc msg.offset

abbrev message : ℕ → Payload → Message
message offset value = record { partition = pos 0; offset = offset; value = value }

consume_claim-skips_example :
    4 < (consume_claim handler mark (message 4 [] ∷ message 5 (1 ∷ []) ∷ []) 0 0).1
consume_claim-skips_example =
    consume_claim-skips handler mark (λ partition session. session) (λ msg session. omega arith)
      (λ partition msg session. omega arith) [] [] [] (message 4 []) (message 5 (1 ∷ [])) 0 0 refl
      (omega arith) (unfold consume_claim in refl)
