-- ===== src/Correlation.antt =====
-- internal/processor/correlation/correlation.go: the comparison of one announced AS path with one
-- observed AS path. Times are numbers of nanoseconds, passed in where the code asks for the time.
pub mod Path
pub mod Verdict
pub mod Engine
use netvantage.Prelude.{
  ℕ, suc, Bool, true, false, not, ◌||◌, List, [], ◌∷◌, ℤ, pos, ◌==◌, int_eq, String, ltb, length,
  is_empty, last_or, if◌then◌else◌,
}
use Path.{is_subsequence, path_overlap}

pub record BgpPathInfo : Type 0 where
  pub prefix : String
  pub origin_asn : ℤ
  pub as_path : List ℤ
  pub peer_asn : ℤ
  pub collector : String
  pub updated_at : ℕ

pub record TraceroutePathInfo : Type 0 where
  pub target : String
  pub pop_name : String
  pub agent_id : String
  pub as_path : List ℤ
  pub hop_count : ℤ
  pub reached : Bool
  pub updated_at : ℕ

pub data MatchType : Type 0 where
  exact partial mismatch insufficient : MatchType

-- The texts of the field Details, one constructor for each that `evaluate` writes.
pub data Details : Type 0 where
  not_reached empty_bgp_path consistent : Details
  origin_differs : ℤ → ℤ → Details
  transit_diverges : ℤ → ℕ → Details
  no_transit_overlap : ℤ → Details

pub record CorrelationResult : Type 0 where
  pub prefix : String
  pub target : String
  pub pop_name : String
  pub bgp_path : List ℤ
  pub traceroute_path : List ℤ
  pub match : MatchType
  pub details : Details
  pub timestamp : ℕ

-- path[len(path)-1]; `evaluate` reads it only of paths that are not empty.
abbrev pub origin : List ℤ → ℤ
origin path = last_or path (pos 0)

-- The ladder of tests of `evaluate`, on the two paths.
unfoldable pub verdict : List ℤ → List ℤ → Bool → MatchType × Details
verdict bgp tr reached =
    if not reached || ltb (length tr) 2
    then (insufficient, not_reached)
    else if is_empty bgp
    then (insufficient, empty_bgp_path)
    else if not (origin bgp == origin tr)
    then (mismatch, origin_differs (origin bgp) (origin tr))
    else if is_subsequence tr bgp
    then (exact, consistent)
    else if ltb 0 (path_overlap bgp tr)
    then (partial, transit_diverges (origin bgp) (path_overlap bgp tr))
    else (mismatch, no_transit_overlap (origin bgp))

unfoldable pub evaluate : ℕ → BgpPathInfo → TraceroutePathInfo → CorrelationResult
evaluate now bgp tr =
    let (match, details) = verdict bgp.as_path tr.as_path tr.reached in
    record {
      prefix = bgp.prefix;
      target = tr.target;
      pop_name = tr.pop_name;
      bgp_path = bgp.as_path;
      traceroute_path = tr.as_path;
      match = match;
      details = details;
      timestamp = now;
    }
