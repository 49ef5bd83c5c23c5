-- ===== src/Processor/PathChange.antt =====
-- What the counter of path changes counts.
use netvantage.Prelude.{
  Eq, ℕ, ◌+◌, ◌≡◌, refl, inl, inr, Bool, true, false, Option, none, some, List, [], ◌∷◌, ◌++◌,
  String, ◌&&◌, not, count, count-append, ◌==◌, string_eq, eq_iff, arith, Option-cases,
  if◌then◌else◌,
}
use netvantage.Prelude.Dict.{lookup, lookup-insert}
use netvantage.Canary.{Result}
use netvantage.Canary.Float.{Float}
use netvantage.Correlation.Engine.{Metric, path_key, handle_traceroute_result}
use netvantage.Processor.{
  Call, inc, Message, malformed, bad_metrics, readable, TracerouteHop, TracerouteMetrics, Processor,
  as_path_string, path_change_total, counted, correlations, path_change_calls, keep_path, hop_calls,
  traceroute_calls, trace_path, handle_traceroute_message, run_traceroutes,
}

module _ {F : Type 0} where
  -- An increment of the counter of path changes, under a target's and a POP's labels that give the key.
  abbrev pub is_change : String → Call F → Bool
  is_change key (inc name (target ∷ pop ∷ [])) =
      name == path_change_total && path_key target pop == key
  is_change key _ = false

  -- The AS paths of the results for a key, as texts, less the empty ones.
  unfoldable pub paths_of : String → List (ℕ × Message F (TracerouteMetrics F)) → List String
  paths_of key [] = []
  paths_of key ((now, readable r m) ∷ msgs) =
      let rest = paths_of key msgs in
      let path = as_path_string m.as_path in
      if path_key r.target r.pop_name == key && not (path == "") then path ∷ rest else rest
  paths_of key ((now, msg) ∷ msgs) = paths_of key msgs

-- How often a path in a list differs from the one before it; the first, from the one given, if any.
abbrev pub changes : {A : Type 0} ⦃known : Eq A⦄ → Option A → List A → ℕ
changes prev [] = 0
changes none (p ∷ ps) = changes (some p) ps
changes (some q) (p ∷ ps) = (if q == p then 0 else 1) + changes (some p) ps

module _ {F : Type 0} (float : Float F) (key : String) where
  hop_calls-silent :
      (r : Result F) (hops : List (TracerouteHop F))
      → count (is_change key) (hop_calls float r hops) ≡ 0
  unfolding hop_calls
  hop_calls-silent r [] = refl
  hop_calls-silent r (h ∷ hops) = omega (arith, hop_calls-silent r hops)

  correlations-silent :
      (ms : List Metric) → count {A = Call F} (is_change key) (correlations ms) ≡ 0
  unfolding correlations
  correlations-silent [] = refl
  correlations-silent (m ∷ ms) = omega (arith, correlations-silent ms)

  traceroute_calls-count :
      (p : Processor) (r : Result F) (m : TracerouteMetrics F)
      → count (is_change key) (traceroute_calls float p r m)
        ≡ count (is_change key) (path_change_calls p r m)
  unfolding traceroute_calls
  traceroute_calls-count p r m = omega (
    arith,
    hop_calls-silent r m.hops,
    count-append (is_change key) (hop_calls float r m.hops) (path_change_calls p r m),
  )

  -- The step of `changes` for a path with the key `k`.
  change_by : String → String → Option String → ℕ
  change_by k path none = 0
  change_by k path (some q) =
      if k == key then if not (q == path) && not (path == "") then 1 else 0 else 0

  path_change_calls-count :
      (p : Processor) (r : Result F) (m : TracerouteMetrics F)
      → count (is_change key) (path_change_calls p r m)
        ≡ change_by
            (path_key r.target r.pop_name)
            (as_path_string m.as_path)
            (lookup (path_key r.target r.pop_name) p.last_as_paths)
  unfolding path_change_calls change_by
  path_change_calls-count p r m =
      let k = path_key r.target r.pop_name in
      let path = as_path_string m.as_path in
      elim (Option-cases (lookup k p.last_as_paths)) [
        | inl new ↦ rw (new, path_change_calls, change_by) refl
        | inr (q, known) ↦ rw (known, path_change_calls, change_by) (ground arith)
      ]

  keep_path-is :
      (p : Processor) (r : Result F) (m : TracerouteMetrics F)
      → let path = as_path_string m.as_path in
        lookup key (keep_path p r m).last_as_paths ≡ (
          if path == ""
          then lookup key p.last_as_paths
          else if path_key r.target r.pop_name == key
          then some path
          else lookup key p.last_as_paths)
  unfolding keep_path
  keep_path-is p r m = ground (
    arith,
    lookup-insert (path_key r.target r.pop_name) key (as_path_string m.as_path) p.last_as_paths,
  )

  -- `here` is whether the key of the path is `key`, `o` the path kept for it, `prev` that for `key`.
  change_step :
      (k path : String) (o prev : Option String) (rest : List String)
      → (string_eq.beq k key ≡ true → o ≡ prev)
      → change_by k path o
          + changes (if path == "" then prev else if k == key then some path else prev) rest
        ≡ changes prev (if k == key && not (path == "") then path ∷ rest else rest)
  unfolding change_by
  change_step k path none none rest h = ground arith
  change_step k path none (some q) rest h = ground (arith, h)
  change_step k path (some q) none rest h = ground (arith, h)
  change_step k path (some q) (some q') rest h = ground (arith, h)

  change_by-changes :
      (k path : String) (m : List (String × String)) (rest : List String)
      → change_by k path (lookup k m)
          + changes
              (if path == "" then lookup key m else if k == key then some path else lookup key m)
              rest
        ≡ changes (lookup key m) (if k == key && not (path == "") then path ∷ rest else rest)
  change_by-changes k path m rest =
      change_step k path (lookup k m) (lookup key m) rest (λ e. rw ((eq_iff _ _).0 e) refl)

  kept_changes :
      (p : Processor) (r : Result F) (m : TracerouteMetrics F) (rest : List String)
      → let path = as_path_string m.as_path in
        let k = path_key r.target r.pop_name in
        change_by k path (lookup k p.last_as_paths)
          + changes (lookup key (keep_path p r m).last_as_paths) rest
        ≡ changes
            (lookup key p.last_as_paths)
            (if k == key && not (path == "") then path ∷ rest else rest)
  kept_changes p r m rest = rw (keep_path-is p r m) (
      change_by-changes (path_key r.target r.pop_name) (as_path_string m.as_path) p.last_as_paths
        rest)

  -- The count for the texts of the paths.
  pub run_traceroutes-text_changes :
      (msgs : List (ℕ × Message F (TracerouteMetrics F))) (p : Processor)
      → count (is_change key) (run_traceroutes float p msgs).1
        ≡ changes (lookup key p.last_as_paths) (paths_of key msgs)
  unfolding run_traceroutes handle_traceroute_message counted trace_path paths_of
  run_traceroutes-text_changes [] p = refl
  run_traceroutes-text_changes ((now, malformed) ∷ msgs) p =
      omega (arith, run_traceroutes-text_changes msgs p)
  run_traceroutes-text_changes ((now, bad_metrics r) ∷ msgs) p =
      omega (arith, run_traceroutes-text_changes msgs p)
  run_traceroutes-text_changes ((now, readable r m) ∷ msgs) p =
      let p' = (trace_path float now p r m).0 in
      let out =
        (handle_traceroute_result now p.correlator r.target r.pop_name r.agent_id m.as_path
          m.hop_count m.reached_target).1 in
      omega (
        arith,
        run_traceroutes-text_changes msgs p',
        kept_changes p r m (paths_of key msgs),
        path_change_calls-count p r m,
        traceroute_calls-count p r m,
        correlations-silent out,
        count-append (is_change key) (traceroute_calls float p r m) (correlations out),
        count-append (is_change key) (traceroute_calls float p r m ++ correlations out)
            (run_traceroutes float p' msgs).1,
      )
