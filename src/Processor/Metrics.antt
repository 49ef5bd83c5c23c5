-- ===== src/Processor/Metrics.antt =====
-- The metrics that New of internal/processor/processor.go and New of
-- internal/processor/correlation/correlation.go register, and whether a call fits them: Prometheus
-- panics when WithLabelValues gets another number of values than the vector has labels, and when two
-- registered vectors have one name.
pub mod Fitting
use netvantage.Prelude.{
  ℕ, Bool, true, false, List, [], ◌∷◌, ◌++◌ as append, String, ◌&&◌, ◌||◌, not, ◌==◌, nat_eq,
  string_eq, length,
}
use netvantage.Correlation.Engine.{
  Metric, correlations_run, correlation_age_zero, mismatch_total, match_status,
}
use netvantage.Processor.{Call, set, inc, correlation}

pub data VectorKind : Type 0 where
  gauge : VectorKind
  counter : VectorKind

pub record Vector : Type 0 where
  pub kind : VectorKind
  pub name : String
  pub labels : List String

abbrev gauge_vec : String → List String → Vector
gauge_vec name labels = record { kind = gauge; name = name; labels = labels }

abbrev counter_vec : String → List String → Vector
counter_vec name labels = record { kind = counter; name = name; labels = labels }

-- The vectors of the processor, in the order of their registration.
abbrev pub vectors : List Vector
vectors =
    gauge_vec "netvantage_ping_rtt_seconds" ("target" ∷ "pop" ∷ "agent_id" ∷ "stat" ∷ [])
    ∷ gauge_vec "netvantage_ping_packet_loss_ratio" ("target" ∷ "pop" ∷ "agent_id" ∷ [])
    ∷ gauge_vec "netvantage_ping_jitter_seconds" ("target" ∷ "pop" ∷ "agent_id" ∷ [])
    ∷ gauge_vec "netvantage_dns_resolution_seconds"
        ("target" ∷ "pop" ∷ "agent_id" ∷ "resolver" ∷ "record_type" ∷ [])
    ∷ gauge_vec "netvantage_dns_response_code"
        ("target" ∷ "pop" ∷ "agent_id" ∷ "resolver" ∷ "response_code" ∷ [])
    ∷ gauge_vec "netvantage_http_duration_seconds" ("target" ∷ "pop" ∷ "agent_id" ∷ "phase" ∷ [])
    ∷ gauge_vec "netvantage_http_status_code" ("target" ∷ "pop" ∷ "agent_id" ∷ [])
    ∷ gauge_vec "netvantage_http_cert_expiry_days" ("target" ∷ "pop" ∷ "agent_id" ∷ [])
    ∷ gauge_vec "netvantage_traceroute_hop_rtt_seconds"
        ("target" ∷ "pop" ∷ "agent_id" ∷ "hop" ∷ "hop_ip" ∷ "hop_asn" ∷ [])
    ∷ gauge_vec "netvantage_traceroute_hop_loss_ratio"
        ("target" ∷ "pop" ∷ "agent_id" ∷ "hop" ∷ "hop_ip" ∷ [])
    ∷ gauge_vec "netvantage_traceroute_hop_count" ("target" ∷ "pop" ∷ "agent_id" ∷ [])
    ∷ counter_vec "netvantage_traceroute_path_change_total" ("target" ∷ "pop" ∷ [])
    ∷ gauge_vec "netvantage_traceroute_reachable" ("target" ∷ "pop" ∷ "agent_id" ∷ [])
    ∷ counter_vec "netvantage_processor_results_total" ("test_type" ∷ "pop" ∷ [])
    ∷ counter_vec "netvantage_processor_errors_total" ("test_type" ∷ "error_type" ∷ [])
    ∷ []

-- The vectors that the correlation engine adds to the same registry.
abbrev pub correlation_vectors : List Vector
correlation_vectors =
    counter_vec "netvantage_path_correlation_mismatch_total" ("prefix" ∷ "pop" ∷ "match_type" ∷ [])
    ∷ gauge_vec "netvantage_path_correlation_age_seconds" ("prefix" ∷ "pop" ∷ [])
    ∷ gauge_vec "netvantage_path_correlation_status" ("prefix" ∷ "pop" ∷ "target" ∷ [])
    ∷ counter_vec "netvantage_path_correlation_evaluations_total" ("prefix" ∷ "pop" ∷ [])
    ∷ []

-- A call on a vector: its kind, its name and the values of the labels.
pub record Use : Type 0 where
  pub kind : VectorKind
  pub name : String
  pub values : List String

abbrev use_of : VectorKind → String → List String → Use
use_of kind name values = record { kind = kind; name = name; values = values }

-- The vector that a call of the engine is on, as recordResult writes it.
unfoldable pub use_of_metric : Metric → Use
use_of_metric (correlations_run p pop) =
    use_of counter "netvantage_path_correlation_evaluations_total" (p ∷ pop ∷ [])
use_of_metric (correlation_age_zero p pop) =
    use_of gauge "netvantage_path_correlation_age_seconds" (p ∷ pop ∷ [])
use_of_metric (mismatch_total p pop match) =
    use_of counter "netvantage_path_correlation_mismatch_total" (p ∷ pop ∷ match ∷ [])
use_of_metric (match_status p pop target halves) =
    use_of gauge "netvantage_path_correlation_status" (p ∷ pop ∷ target ∷ [])

unfoldable pub use_of_call : {F : Type 0} → Call F → Use
use_of_call (set name values v) = use_of gauge name values
use_of_call (inc name values) = use_of counter name values
use_of_call (correlation m) = use_of_metric m

same_kind : VectorKind → VectorKind → Bool
same_kind gauge gauge = true
same_kind counter counter = true
same_kind gauge counter = false
same_kind counter gauge = false

-- Whether one of the vectors has the call's kind and name, and as many labels as the call has values.
unfoldable pub fits : List Vector → Use → Bool
unfolding same_kind
fits [] u = false
fits (v ∷ vs) u =
    (same_kind v.kind u.kind && v.name == u.name && length v.labels == length u.values) || fits vs u

-- The registry that New leaves: the engine registers its vectors last.
abbrev pub registered : List Vector
registered = append vectors correlation_vectors

-- Whether a vector of the name is among some.
unfoldable pub is_registered : String → List Vector → Bool
is_registered name [] = false
is_registered name (v ∷ vs) = v.name == name || is_registered name vs

-- Whether no two of them have one name, so that none of the registrations panics.
unfoldable pub registers : List Vector → Bool
registers [] = true
registers (v ∷ vs) = not (is_registered v.name vs) && registers vs
