-- ===== src/Examples/Canary.antt =====
-- Traceroutes with whole numbers for the fractions, and the processor's counter of path changes.
use netvantage.Prelude.{
  ℕ, ◌≡◌, refl, inl, inr, true, none, some, List, [], ◌∷◌, ℤ, pos, ◌+ℤ◌, ◌-ℤ◌, ◌*ℤ◌, ltb_ℤ, String,
  count, All, ◌==◌, int_eq,
}
use netvantage.Prelude.Dict.{lookup}
use netvantage.Canary.{Result}
use netvantage.Canary.Float.{Float}
use netvantage.Canary.Traceroute.{Config, Hop, build_as_path}
use netvantage.Canary.Traceroute.Parse.{MtrHop, parse_mtr}
use netvantage.Canary.Traceroute.Run.{
  World, Metrics, run_backend, found_metrics, is_ip, measure, run_mtr,
}
use netvantage.Canary.Traceroute.AsPath.{build_as_path-collapse, measure-no_as_path}
use netvantage.Correlation.Engine.{new}
use netvantage.Processor.{
  Message, malformed, readable, TracerouteMetrics, Processor, as_path_string, run_traceroutes,
}
use netvantage.Agent.{sent, publish_result}
use netvantage.Agent.Buffer.{new_memory_buffer}
use netvantage.Processor.Pipeline.{
  results, bgp_paths, Kind, Decoder, handle, publish_to, publish_result-handled,
}
use netvantage.Processor.Metrics.{registered, registers}
use netvantage.Processor.Metrics.Fitting.{Fits, process, process-Fits}
use netvantage.Processor.AsPathText.{read_as_path, read_as_path-as_path_string}
use netvantage.Processor.PathChange.{is_change}
use netvantage.Processor.AsPathChange.{as_paths_of, run_traceroutes-as_path_changes}

-- Whole numbers: a division leaves its first operand.
abbrev whole : Float ℤ
whole = record {
  of_int = λ n. n;
  of_ratio = λ n d. n;
  to_int = λ n. n;
  add = ◌+ℤ◌;
  sub = ◌-ℤ◌;
  mul = ◌*ℤ◌;
  div = λ a b. a;
  lt = ltb_ℤ;
  eq = λ a b. a == b;
  two_decimals = λ a. "1.00";
}

abbrev hop : ℤ → String → Hop ℤ
hop asn ip = record {
  hop_number = pos 1;
  ip = ip;
  hostname = "";
  asn = asn;
  as_name = "";
  rtt_min = pos 1;
  rtt_avg = pos 2;
  rtt_max = pos 3;
  rtt_std_dev = pos 0;
  packet_loss = pos 0;
  sent = pos 10;
  received = pos 10;
}

abbrev hops : List (Hop ℤ)
hops =
    hop (pos 64500) "192.0.2.1"
    ∷ hop (pos 64500) "192.0.2.2"
    ∷ hop (pos 0) ""
    ∷ hop (pos 64500) "192.0.2.3"
    ∷ hop (pos 64505) "192.0.2.4"
    ∷ []

build_as_path-collapse_example : build_as_path hops ≡ pos 64500 ∷ pos 64505 ∷ []
build_as_path-collapse_example = build_as_path-collapse hops

abbrev mtr_hops : List (MtrHop ℤ)
mtr_hops =
    record {
      count = pos 1;
      host = "192.0.2.4";
      loss = pos 0;
      sent = pos 10;
      last = pos 2;
      avg = pos 2;
      best = pos 1;
      worst = pos 3;
      st_dev = pos 0;
    }
    ∷ []

-- A network in which every text is an address, and mtr reports one hop.
abbrev world : World ℤ
world = record {
  parse_ip = λ s. some s;
  lookup_host = λ s. none;
  mtr = λ args. inr (inr mtr_hops);
  scamper = λ args. inl "not installed";
}

abbrev config : Config ℤ
config = record {
  backend = "";
  cycles = pos 0;
  max_hops = pos 20;
  packet_size = pos 0;
  protocol = "ICMP";
  port = pos 0;
  interval_sec = pos 0;
  resolve_asn = none;
  resolve_hostnames = none;
}

abbrev mtr_config : Config ℤ
mtr_config = record config { backend = "mtr" }

abbrev reported : Metrics ℤ
reported =
    found_metrics whole world "192.0.2.4" mtr_config 30
      (parse_mtr whole (is_ip world) world.lookup_host 0 mtr_hops)

measure-no_as_path_example : reported.as_path ≡ []
unfolding measure run_backend run_mtr
measure-no_as_path_example =
    measure-no_as_path whole world 30 "192.0.2.4" mtr_config reported "" refl

abbrev result : Result ℤ
result = record {
  test_id = "t1";
  agent_id = "agent-1";
  pop_name = "fra";
  test_type = "traceroute";
  target = "192.0.2.4";
  timestamp = 1;
  duration_ms = pos 30;
  success = true;
  metrics = [];
  error = "";
  metadata = [];
}

abbrev path_metrics : List ℤ → TracerouteMetrics ℤ
path_metrics path = record {
  backend = "mtr";
  hops = [];
  hop_count = pos 0;
  reached_target = true;
  as_path = path;
  total_ms = pos 30;
}

abbrev messages : List (ℕ × Message ℤ (TracerouteMetrics ℤ))
messages =
    (1, readable result (path_metrics (pos 64500 ∷ [])))
    ∷ (2, readable result (path_metrics []))
    ∷ (3, malformed)
    ∷ (4, readable result (path_metrics (pos 64505 ∷ [])))
    ∷ []

abbrev started : Processor
started = record { last_as_paths = []; correlator = new }

run_traceroutes-as_path_changes_example :
    count (is_change "192.0.2.4@fra") (run_traceroutes whole started messages).1 ≡ 1
unfolding lookup as_paths_of
run_traceroutes-as_path_changes_example =
    run_traceroutes-as_path_changes whole "192.0.2.4@fra" messages started none refl

read_as_path-as_path_string_example :
    read_as_path (as_path_string (pos 64500 ∷ pos 7 ∷ [])) ≡ some (pos 64500 ∷ pos 7 ∷ [])
read_as_path-as_path_string_example = read_as_path-as_path_string (pos 64500 ∷ pos 7 ∷ [])

-- A decoder that reads every message as malformed, and an empty buffer.
abbrev decoder : Decoder ℤ
decoder = record {
  decode_ping = λ msg. malformed;
  decode_dns = λ msg. malformed;
  decode_http = λ msg. malformed;
  decode_traceroute = λ msg. readable result (path_metrics (pos 64500 ∷ []));
  decode_bgp = λ msg. none;
}

publish_result-handled_example :
    publish_result
      (pos 0)
      (λ r. some (1 ∷ []))
      (publish_to whole decoder 5)
      "traceroute"
      result
      (new_memory_buffer (pos 4))
      (started, [])
    ≡ (
      new_memory_buffer (pos 4),
      handle whole decoder 5 Kind.traceroute (1 ∷ []) (started, []),
      sent,
    )
publish_result-handled_example =
    publish_result-handled whole decoder 5 (pos 0) (λ r. some (1 ∷ [])) Kind.traceroute result
      (1 ∷ []) (new_memory_buffer (pos 4)) (started, []) refl

process-Fits_example :
    (registers registered ≡ true)
    × All Fits
        (process whole decoder
          ((5, results Kind.traceroute, 1 ∷ [])
            ∷ (6, results Kind.dns, [])
            ∷ (7, bgp_paths, [])
            ∷ [])
          (started, [])).1
process-Fits_example =
    process-Fits whole decoder
      ((5, results Kind.traceroute, 1 ∷ []) ∷ (6, results Kind.dns, []) ∷ (7, bgp_paths, []) ∷ [])
      started
