-- ===== src/Canary/Traceroute/AsPath.antt =====
-- The AS path that a traceroute reports.
use netvantage.Prelude.{
  ℕ, suc, string_eq, Option-cases, ◌≡◌, ◌⊎◌, refl, sym, inl, inr, Bool, false, Option, some, List,
  [], ◌∷◌, ◌++◌, ℤ, pos, String, is_empty, last_or-snoc, snoc, append-nil, append_assoc, ◌∙◌, ◌==◌,
  int_eq, int_beq_iff, Bool-cases, Sum-cases, if◌then◌else◌,
}
use netvantage.Canary.Float.{Float}
use netvantage.Canary.Traceroute.{
  Config, Hop, build_mtr_args, build_scamper_args, as_path_loop, build_as_path,
}
use netvantage.Canary.Traceroute.Parse.{
  MtrHop, ScamperHop, Line, skipped, other_object, bad_trace, trace, ScamperProbe, mtr_hop,
  parse_mtr, add_probes, scamper_hop, scamper_hops, parse_scamper,
}
use netvantage.Canary.Traceroute.Run.{
  World, Metrics, run_mtr, run_scamper, run_backend, failed_metrics, found_metrics, measure,
}

-- The numbers of the hops less the unknown ones, 0.
module _ {F : Type 0} where
  abbrev pub known_asns : List (Hop F) → List ℤ
  known_asns [] = []
  known_asns (h ∷ hs) = let rest = known_asns hs in if h.asn == pos 0 then rest else h.asn ∷ rest

-- A list less each element that follows one equal to it.
abbrev pub without_repeats : ℤ → List ℤ → List ℤ
without_repeats prev [] = []
without_repeats prev (n ∷ ns) =
    let rest = without_repeats n ns in if prev == n then rest else n ∷ rest

-- A list less the repeats.
abbrev pub collapse : List ℤ → List ℤ
collapse [] = []
collapse (n ∷ ns) = n ∷ without_repeats n ns

snoc-not_empty : (path : List ℤ) (x : ℤ) → is_empty (snoc path x) ≡ false
snoc-not_empty [] x = refl
snoc-not_empty (y ∷ path) x = refl

module _ {F : Type 0} where
  as_path_loop-snoc :
      (hops : List (Hop F)) (path : List ℤ) (x : ℤ)
      → as_path_loop hops (snoc path x) ≡ snoc path x ++ without_repeats x (known_asns hops)
  unfolding as_path_loop
  as_path_loop-snoc [] path x = sym (append-nil (snoc path x))
  as_path_loop-snoc (h ∷ hops) path x = elim (Bool-cases (int_eq.beq h.asn (pos 0))) [
    | inl unknown ↦ rw unknown (as_path_loop-snoc hops path x)
    | inr known ↦ elim (Bool-cases (int_eq.beq x h.asn)) [
      | inl same ↦
          rw (known, snoc-not_empty path x, last_or-snoc path x (pos 0), same)
            (rw (← (int_beq_iff x h.asn).0 same) (as_path_loop-snoc hops path x))
      | inr fresh ↦
          rw (known, snoc-not_empty path x, last_or-snoc path x (pos 0), fresh)
            (as_path_loop-snoc hops (snoc path x) h.asn ∙ append_assoc (snoc path x) (h.asn ∷ []) _)
    ]
  ]

  -- The AS path of a list of hops is the list of their known numbers, each run of equal neighbours
  -- written once; a number that comes back after another one is written again.
  pub build_as_path-collapse :
      (hops : List (Hop F)) → build_as_path hops ≡ collapse (known_asns hops)
  unfolding build_as_path as_path_loop
  build_as_path-collapse [] = refl
  build_as_path-collapse (h ∷ hops) = elim (Bool-cases (int_eq.beq h.asn (pos 0))) [
    | inl unknown ↦ rw unknown (build_as_path-collapse hops)
    | inr known ↦ rw known (as_path_loop-snoc hops [] h.asn)
  ]

module _ {F : Type 0} (float : Float F) where
  parse_mtr-unknown :
      (is_ip : String → Bool) (lookup_host : String → Option (List String)) (i : ℕ)
      (hs : List (MtrHop F))
      → known_asns (parse_mtr float is_ip lookup_host i hs) ≡ []
  unfolding parse_mtr mtr_hop
  parse_mtr-unknown is_ip lookup_host i [] = refl
  parse_mtr-unknown is_ip lookup_host i (h ∷ hs) = parse_mtr-unknown is_ip lookup_host (suc i) hs

  add_probes-asn : (ps : List (ScamperProbe F)) (h : Hop F) → (add_probes float ps h).asn ≡ h.asn
  unfolding add_probes
  add_probes-asn [] h = refl
  add_probes-asn (p ∷ ps) h = refl

  scamper_hops-unknown : (hs : List (ScamperHop F)) → known_asns (scamper_hops float hs) ≡ []
  unfolding scamper_hops scamper_hop
  scamper_hops-unknown [] = refl
  scamper_hops-unknown (h ∷ hs) = rw (add_probes-asn h.probes _) (scamper_hops-unknown hs)

  -- No hops, or hops without a known number.
  abbrev HasNoAsn : String ⊎ List (Hop F) → Type 0
  HasNoAsn (inl failure) = Unit
  HasNoAsn (inr hops) = known_asns hops ≡ []

  parse_scamper-unknown : (ls : List (Line F)) → HasNoAsn (parse_scamper float ls)
  unfolding parse_scamper
  parse_scamper-unknown [] = tt
  parse_scamper-unknown (skipped ∷ ls) = parse_scamper-unknown ls
  parse_scamper-unknown (other_object ∷ ls) = parse_scamper-unknown ls
  parse_scamper-unknown (bad_trace text ∷ ls) = tt
  parse_scamper-unknown (trace hops ∷ ls) = scamper_hops-unknown hops

  module _ (world : World F) where
    run_mtr-unknown : (target : String) (cfg : Config F) → HasNoAsn (run_mtr float world target cfg)
    unfolding run_mtr
    run_mtr-unknown target cfg = elim (Sum-cases (world.mtr (build_mtr_args float target cfg))) [
      | inl (failure, e) ↦ rw (e, run_mtr) tt
      | inr (out, e) ↦ elim (Sum-cases out) [
        | inl (bad, e') ↦ rw (e, run_mtr) (rw (e', run_mtr) tt)
        | inr (hops, e') ↦
            rw (e, run_mtr) (rw (e', run_mtr) (parse_mtr-unknown _ world.lookup_host 0 hops))
      ]
    ]

    run_scamper-unknown :
        (target : String) (cfg : Config F) → HasNoAsn (run_scamper float world target cfg)
    unfolding run_scamper
    run_scamper-unknown target cfg =
        elim (Sum-cases (world.scamper (build_scamper_args target cfg))) [
          | inl (failure, e) ↦ rw (e, run_scamper) tt
          | inr (lines, e) ↦ rw (e, run_scamper) (parse_scamper-unknown lines)
        ]

    run_backend-unknown :
        (target : String) (cfg : Config F) (ran : String ⊎ List (Hop F))
        → run_backend float world target cfg ≡ some ran
        → HasNoAsn ran
    unfolding run_backend
    run_backend-unknown target cfg ran e = elim (Bool-cases (string_eq.beq cfg.backend "mtr")) [
      | inl mtr ↦
          let same : run_mtr float world target cfg ≡ ran = cc (rw mtr at e) in
          rw (← same) (run_mtr-unknown target cfg)
      | inr other ↦ elim (Bool-cases (string_eq.beq cfg.backend "scamper")) [
        | inl scamper ↦
            let same : run_scamper float world target cfg ≡ ran =
              cc (rw scamper at (rw other at e)) in
            rw (← same) (run_scamper-unknown target cfg)
        | inr neither ↦ cc (rw neither at (rw other at e))
      ]
    ]

    -- Whatever mtr and scamper print and whatever the configuration says, the AS path that a
    -- traceroute reports is empty.
    pub measure-no_as_path :
        (elapsed : ℕ) (target : String) (cfg : Config F) (m : Metrics F) (failure : String)
        → measure float world elapsed target cfg ≡ inr (m, failure)
        → m.as_path ≡ []
    unfolding measure
    measure-no_as_path elapsed target cfg m failure e =
        elim (Option-cases (run_backend float world target cfg)) [
          | inl unsupported ↦ cc (rw (unsupported, measure) at e)
          | inr (ran, is) ↦ elim (Sum-cases ran) [
            | inl (text, failed) ↦
                let same : failed_metrics float world cfg elapsed ≡ m =
                  cc (rw (failed, measure) at (rw (is, measure) at e)) in
                rw (← same) refl
            | inr (hops, found) ↦
                let same : found_metrics float world target cfg elapsed hops ≡ m =
                  cc (rw (found, measure) at (rw (is, measure) at e)) in
                let none_known = rw found at (run_backend-unknown target cfg ran is) in
                rw (← same) (rw (build_as_path-collapse hops) (rw none_known refl))
          ]
        ]
