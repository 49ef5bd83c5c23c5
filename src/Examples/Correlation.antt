-- ===== src/Examples/Correlation.antt =====
-- Announced and observed paths, and an engine that correlates them.
use netvantage.Prelude.{
  ℕ, ◌≡◌, ◌≢◌, refl, true, false, some, List, [], ◌∷◌, ℤ, pos, length, ◌≤◌, arith,
}
use netvantage.Prelude.Dict.{lookup}
use netvantage.Correlation.{
  BgpPathInfo, TraceroutePathInfo, exact, no_transit_overlap, evaluate, origin,
}
use netvantage.Correlation.Path.{is_subsequence}
use netvantage.Correlation.Path.Laws.{IsSegment, is_subsequence_iff}
use netvantage.Correlation.Verdict.{IsComparable, evaluate-exact_iff, evaluate-details-ne}
use netvantage.Correlation.Engine.{
  Engine, BgpUpdate, new, path_key, record_result, stored_bgp, handle_bgp_update,
  handle_traceroute_result, get_correlation_state, Event, bgp_message, traceroute, register, run,
}
use netvantage.Correlation.Engine.Publish.{
  Publishes, handle_traceroute_result-correlates, handle_bgp_update-correlates,
}
use netvantage.Correlation.Engine.Silence.{unregistered-silent}
use netvantage.Correlation.Engine.Snapshot.{shown, get_correlation_state_lem}

abbrev announced : BgpPathInfo
announced = record {
  prefix = "192.0.2.0/24";
  origin_asn = pos 64500;
  as_path = pos 64510 ∷ pos 64505 ∷ pos 64500 ∷ [];
  peer_asn = pos 64510;
  collector = "rrc00";
  updated_at = 5;
}

abbrev observed : List ℤ → TraceroutePathInfo
observed path = record {
  target = "192.0.2.1";
  pop_name = "fra";
  agent_id = "agent-1";
  as_path = path;
  hop_count = pos 9;
  reached = true;
  updated_at = 6;
}

abbrev along : List ℤ
along = pos 64505 ∷ pos 64500 ∷ []

abbrev around : List ℤ
around = pos 64511 ∷ pos 64500 ∷ []

abbrev astray : List ℤ
astray = pos 64505 ∷ pos 64666 ∷ []

is_subsequence_iff_example : is_subsequence along announced.as_path ≡ true
is_subsequence_iff_example =
    (is_subsequence_iff along announced.as_path).1 (pos 64510 ∷ [], [], refl)

comparable : (path : List ℤ) → 2 ≤ length path → IsComparable announced.as_path path true
comparable path h = record { arrived = refl; two_networks = h; announced = omega arith }

evaluate-exact_iff_example : (evaluate 7 announced (observed along)).match ≡ exact
evaluate-exact_iff_example =
    (evaluate-exact_iff 7 announced (observed along)).1
      (comparable along (omega arith), refl, (pos 64510 ∷ [], [], refl))

around-apart : is_subsequence around announced.as_path ≡ false
unfolding is_subsequence
around-apart = refl

around-not-IsSegment : ¬ IsSegment around announced.as_path
around-not-IsSegment s =
    let inside = (is_subsequence_iff around announced.as_path).1 s in cc (around-apart, inside)

origins_differ : origin announced.as_path ≢ origin astray
origins_differ e = ground arith

evaluate-details-ne_example :
    (evaluate 7 announced (observed around)).details ≢ no_transit_overlap (pos 64500)
evaluate-details-ne_example = evaluate-details-ne 7 announced (observed around) (pos 64500)

abbrev update : BgpUpdate
update = record {
  prefix = "192.0.2.0/24";
  origin_asn = pos 64500;
  as_path = pos 64510 ∷ pos 64505 ∷ pos 64500 ∷ [];
  peer_asn = pos 64510;
  collector = "rrc00";
  event_type = "announcement";
  timestamp = "";
}

-- A registered target with a stored path and a stored traceroute.
abbrev ready : Engine
ready = record {
  bgp_paths = ("192.0.2.0/24", announced) ∷ [];
  traceroute_paths = (path_key "192.0.2.1" "fra", observed along) ∷ [];
  prefix_target_map = ("192.0.2.1", "192.0.2.0/24") ∷ [];
}

handle_traceroute_result-correlates_example :
    (handle_traceroute_result 6 ready "192.0.2.1" "fra" "agent-1" along (pos 9) true).1
    ≡ record_result (evaluate 6 announced (observed along))
handle_traceroute_result-correlates_example =
    handle_traceroute_result-correlates 6 ready "192.0.2.1" "fra" "agent-1" "192.0.2.0/24" along
      (pos 9) true announced (unfold lookup in refl) (unfold lookup in refl)

handle_bgp_update-correlates_example :
    Publishes
      (handle_bgp_update 8 ready (some update)).1
      (record_result (evaluate 8 (stored_bgp 8 update) (observed along)))
handle_bgp_update-correlates_example =
    handle_bgp_update-correlates 8 ready update "192.0.2.1" "fra" (observed along) refl
      (unfold lookup in refl) (unfold lookup in refl) refl

abbrev reports : List (ℕ × Event)
reports =
    (1, bgp_message (some update))
    ∷ (2, traceroute "192.0.2.1" "fra" "agent-1" along (pos 9) true)
    ∷ []

unregistered-silent_example :
    ((run new reports).1 ≡ []) × (get_correlation_state 3 (run new reports).0 ≡ [])
unregistered-silent_example = unregistered-silent reports 3 (tt, (tt, tt))

get_correlation_state_lem_example :
    lookup "192.0.2.1@fra"
      (get_correlation_state 3 (run new ((0, register "192.0.2.1" "192.0.2.0/24") ∷ reports)).0)
    ≡ shown 3 (run new ((0, register "192.0.2.1" "192.0.2.0/24") ∷ reports)).0 (
        lookup "192.0.2.1@fra"
          (run new ((0, register "192.0.2.1" "192.0.2.0/24") ∷ reports)).0.traceroute_paths)
get_correlation_state_lem_example =
    get_correlation_state_lem ((0, register "192.0.2.1" "192.0.2.0/24") ∷ reports) 3 "192.0.2.1@fra"
