-- ===== src/Canary/Traceroute/Run.antt =====
-- internal/agent/canary/traceroute/traceroute.go: Execute. Running a program is a parameter: its error,
-- or its output, decoded. `elapsed` is the time it took, in whole milliseconds.
use Prim.Native.String.{◌++◌}
use netvantage.Prelude.{
  ℕ, Bool, true, false, Option, none, some, List, [], ℤ, pos, String, ◌⊎◌, inl, inr, length, ◌==◌,
  string_eq, if◌then◌else◌,
}
use netvantage.Transport.{Payload}
use netvantage.Canary.{TestDefinition, Result}
use netvantage.Canary.Float.{Float}
use netvantage.Canary.Traceroute.{
  Config, Raw, absent, undecodable, decoded, Hop, default_config, merge_defaults, build_mtr_args,
  build_scamper_args, build_as_path, did_reach_target,
}
use netvantage.Canary.Traceroute.Parse.{MtrHop, Line, parse_mtr, parse_scamper}

pub record Metrics (F : Type 0) : Type 0 where
  pub backend : String
  pub hops : List (Hop F)
  pub hop_count : ℤ
  pub reached_target : Bool
  pub as_path : List ℤ
  pub total_ms : F

-- What the code uses of the network, and of the programs mtr and scamper: the error of running one of
-- them, or its output. The report of mtr is `inl` where it does not decode.
pub record World (F : Type 0) : Type 0 where
  pub parse_ip : String → Option String
  pub lookup_host : String → Option (List String)
  pub mtr : List String → String ⊎ (String ⊎ List (MtrHop F))
  pub scamper : List String → String ⊎ List (Line F)

module _ {F : Type 0} where
  abbrev pub is_ip : World F → String → Bool
  is_ip world s = elim (world.parse_ip s) [ none ↦ false | some t ↦ true ]

module _ {F : Type 0} (float : Float F) (world : World F) where
  unfoldable pub run_mtr : String → Config F → String ⊎ List (Hop F)
  run_mtr target cfg = elim (world.mtr (build_mtr_args float target cfg)) [
    | inl failure ↦ inl ("mtr execution failed: " ++ failure)
    | inr (inl bad) ↦ inl ("parse mtr json: " ++ bad)
    | inr (inr hops) ↦ inr (parse_mtr float (is_ip world) world.lookup_host 0 hops)
  ]

  unfoldable pub run_scamper : String → Config F → String ⊎ List (Hop F)
  run_scamper target cfg = elim (world.scamper (build_scamper_args target cfg)) [
    | inl failure ↦ inl ("scamper execution failed: " ++ failure)
    | inr lines ↦ parse_scamper float lines
  ]

  -- The switch on the backend, `none` for one that is not supported.
  unfoldable pub run_backend : String → Config F → Option (String ⊎ List (Hop F))
  run_backend target cfg =
      if cfg.backend == "mtr"
      then some (run_mtr target cfg)
      else if cfg.backend == "scamper"
      then some (run_scamper target cfg)
      else none

  abbrev pub failed_metrics : Config F → ℕ → Metrics F
  failed_metrics cfg elapsed = record {
    backend = cfg.backend;
    hops = [];
    hop_count = pos 0;
    reached_target = false;
    as_path = [];
    total_ms = float.of_int (pos elapsed);
  }

  abbrev pub found_metrics : String → Config F → ℕ → List (Hop F) → Metrics F
  found_metrics target cfg elapsed hops = record {
    backend = cfg.backend;
    hops = hops;
    hop_count = pos (length hops);
    reached_target = did_reach_target world.parse_ip world.lookup_host hops target;
    as_path = build_as_path hops;
    total_ms = float.of_int (pos elapsed);
  }

  -- The metrics that Execute fills for a configuration, and the text of the result's error; the
  -- error of Execute itself for a backend that is not supported.
  unfoldable pub measure : ℕ → String → Config F → String ⊎ (Metrics F × String)
  measure elapsed target cfg = elim (run_backend target cfg) [
    | none ↦ inl "traceroute: unsupported backend"
    | some (inl failure) ↦ inr (failed_metrics cfg elapsed, failure)
    | some (inr hops) ↦ inr (found_metrics target cfg elapsed hops, "")
  ]

  -- The configuration that Execute runs with: `decoded` is what json.Unmarshal writes over the default
  -- one.
  unfoldable pub configured : Raw (Config F) → Option (Config F)
  configured absent = some (merge_defaults float (default_config float))
  configured undecodable = none
  configured (decoded cfg) = some (merge_defaults float cfg)

  -- The result of a run; a failed run leaves out metrics that do not encode, a successful one is an
  -- error then. The texts of Execute's errors are shortened to what is wrong.
  unfoldable pub execute :
      (Metrics F → Option Payload) → ℕ → ℕ → TestDefinition → Raw (Config F) → String ⊎ Result F
  execute marshal now elapsed test raw = elim (configured raw) [
    | none ↦ inl "traceroute: parse config"
    | some cfg ↦ elim (measure elapsed test.target cfg) [
      | inl err ↦ inl err
      | inr (metrics, failure) ↦
          let result : Payload → Result F = λ bytes. record {
            test_id = test.id;
            agent_id = "";
            pop_name = "";
            test_type = "traceroute";
            target = test.target;
            timestamp = now;
            duration_ms = float.of_int (pos elapsed);
            success = metrics.reached_target;
            metrics = bytes;
            error = failure;
            metadata = [];
          } in
          elim (marshal metrics) [
            | some bytes ↦ inr (result bytes)
            | none ↦ if failure == "" then inl "traceroute: marshal metrics" else inr (result [])
          ]
    ]
  ]
