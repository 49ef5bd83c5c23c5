-- ===== src/Correlation/Engine.antt =====
-- The engine of internal/processor/correlation/correlation.go: its three maps, the handlers that
-- write them, and the metrics that a correlation publishes. A handler returns the new engine and
-- the calls that it makes on Prometheus, in order. Log lines are left out.
pub mod Silence
pub mod Publish
pub mod Snapshot
use Prim.Native.String.{◌++◌}
use netvantage.Prelude.{
  ℕ, Bool, true, false, Option, none, some, List, [], ◌∷◌, ℤ, pos, negsuc, ◌==◌, string_eq, String,
  if◌then◌else◌,
}
use mathlib.Core.List.{◌++◌ as append}
use netvantage.Prelude.Dict.{lookup, insert, delete}
use netvantage.Prelude.Text.{strip_prefix, trim_prefix}
use netvantage.Correlation.{
  BgpPathInfo, TraceroutePathInfo, MatchType, exact, partial, mismatch, insufficient,
  CorrelationResult, evaluate,
}

pub record Engine : Type 0 where
  pub bgp_paths : List (String × BgpPathInfo)
  pub traceroute_paths : List (String × TraceroutePathInfo)
  pub prefix_target_map : List (String × String)

-- One call on a metric: which one, with its labels. The status is in halves, as 0.5 is a value.
pub data Metric : Type 0 where
  correlations_run : String → String → Metric
  correlation_age_zero : String → String → Metric
  mismatch_total : String → String → String → Metric
  match_status : String → String → String → ℤ → Metric

abbrev pub new : Engine
new = record { bgp_paths = []; traceroute_paths = []; prefix_target_map = [] }

pub record BgpUpdate : Type 0 where
  pub prefix : String
  pub origin_asn : ℤ
  pub as_path : List ℤ
  pub peer_asn : ℤ
  pub collector : String
  pub event_type : String
  pub timestamp : String

abbrev pub path_key : String → String → String
path_key target pop = target ++ ("@" ++ pop)

-- The switch of recordResult.
pub status_calls : MatchType → String → String → String → List Metric
status_calls exact p pop target = match_status p pop target (pos 2) ∷ []
status_calls partial p pop target =
    mismatch_total p pop "partial" ∷ match_status p pop target (pos 1) ∷ []
status_calls mismatch p pop target =
    mismatch_total p pop "mismatch" ∷ match_status p pop target (pos 0) ∷ []
status_calls insufficient p pop target = match_status p pop target (negsuc 1) ∷ []

pub record_result : CorrelationResult → List Metric
record_result r =
    correlations_run r.prefix r.pop_name
    ∷ correlation_age_zero r.prefix r.pop_name
    ∷ status_calls r.match r.prefix r.pop_name r.target

-- What correlateTarget does once both lookups are made.
correlate_found : ℕ → Option BgpPathInfo → Option TraceroutePathInfo → List Metric
correlate_found now none tr = []
correlate_found now (some bgp) none = []
correlate_found now (some bgp) (some tr) = record_result (evaluate now bgp tr)

pub correlate_target : ℕ → Engine → String → String → List Metric
correlate_target now e target pop = elim (lookup target e.prefix_target_map) [
  | none ↦ []
  | some prefix ↦
      correlate_found now (lookup prefix e.bgp_paths)
        (lookup (path_key target pop) e.traceroute_paths)
]

-- The first loop of correlatePrefix: the targets that are mapped to the prefix.
targets_of : String → List (String × String) → List String
targets_of prefix [] = []
targets_of prefix ((target, p) ∷ m) =
    let rest = targets_of prefix m in if p == prefix then target ∷ rest else rest

-- The inner loop: a correlation for every stored traceroute to the target.
correlate_stored : ℕ → Engine → String → List (String × TraceroutePathInfo) → List Metric
correlate_stored now e target [] = []
correlate_stored now e target ((key, tr) ∷ m) =
    let rest = correlate_stored now e target m in
    if tr.target == target
    then append (correlate_target now e target (trim_prefix key (target ++ "@"))) rest
    else rest

correlate_targets : ℕ → Engine → List String → List Metric
correlate_targets now e [] = []
correlate_targets now e (target ∷ targets) =
    append (correlate_stored now e target e.traceroute_paths) (correlate_targets now e targets)

pub correlate_prefix : ℕ → Engine → String → List Metric
correlate_prefix now e prefix = correlate_targets now e (targets_of prefix e.prefix_target_map)

pub stored_bgp : ℕ → BgpUpdate → BgpPathInfo
stored_bgp now u = record {
  prefix = u.prefix;
  origin_asn = u.origin_asn;
  as_path = u.as_path;
  peer_asn = u.peer_asn;
  collector = u.collector;
  updated_at = now;
}

abbrev pub is_withdrawal : BgpUpdate → Bool
is_withdrawal u = u.event_type == "withdrawal"

-- The argument is what json.Unmarshal makes of the message; `none` is its error.
pub handle_bgp_update : ℕ → Engine → Option BgpUpdate → Engine × List Metric
handle_bgp_update now e none = (e, [])
handle_bgp_update now e (some u) =
    if is_withdrawal u
    then (record e { bgp_paths = delete u.prefix e.bgp_paths }, [])
    else (let e' : Engine = record e {
      bgp_paths = insert u.prefix (stored_bgp now u) e.bgp_paths;
    } in
        (e', correlate_prefix now e' u.prefix))

pub handle_traceroute_result :
    ℕ → Engine → String → String → String → List ℤ → ℤ → Bool → Engine × List Metric
handle_traceroute_result now e target pop agent as_path hop_count reached =
    let info : TraceroutePathInfo = record {
      target = target;
      pop_name = pop;
      agent_id = agent;
      as_path = as_path;
      hop_count = hop_count;
      reached = reached;
      updated_at = now;
    } in
    let e' : Engine = record e {
      traceroute_paths = insert (path_key target pop) info e.traceroute_paths;
    } in
    (e', correlate_target now e' target pop)

pub register_prefix : Engine → String → String → Engine
register_prefix e target prefix = record e {
  prefix_target_map = insert target prefix e.prefix_target_map;
}

-- The loop of GetCorrelationState over the stored traceroutes.
state_of : ℕ → Engine → List (String × TraceroutePathInfo) → List (String × CorrelationResult)
state_of now e [] = []
state_of now e ((key, tr) ∷ m) = elim (lookup tr.target e.prefix_target_map) [
  | none ↦ state_of now e m
  | some prefix ↦ elim (lookup prefix e.bgp_paths) [
    | none ↦ state_of now e m
    | some bgp ↦ insert key (evaluate now bgp tr) (state_of now e m)
  ]
]

pub get_correlation_state : ℕ → Engine → List (String × CorrelationResult)
unfolding state_of
get_correlation_state now e = state_of now e e.traceroute_paths

-- What reaches the engine, each with the time at which it does.
pub data Event : Type 0 where
  bgp_message : Option BgpUpdate → Event
  traceroute : String → String → String → List ℤ → ℤ → Bool → Event
  register : String → String → Event

pub step : ℕ → Engine → Event → Engine × List Metric
step now e (bgp_message m) = handle_bgp_update now e m
step now e (traceroute target pop agent as_path hop_count reached) =
    handle_traceroute_result now e target pop agent as_path hop_count reached
step now e (register target prefix) = (register_prefix e target prefix, [])

pub run : Engine → List (ℕ × Event) → Engine × List Metric
run e [] = (e, [])
run e ((now, ev) ∷ evs) =
    let (e', out) = step now e ev in let (e'', outs) = run e' evs in (e'', append out outs)
