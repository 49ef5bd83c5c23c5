-- ===== src/Processor/AsPathChange.antt =====
-- What the counter of path changes counts, for the AS paths themselves: the texts that the processor
-- compares lose nothing.
use netvantage.Prelude.{
  Eq, ℕ, ◌≡◌, refl, ap, ◌∙◌, inl, inr, Option, none, some, List, [], ◌∷◌, String, ℤ, map, ◌&&◌, not,
  count, ◌==◌, string_eq, int_eq, list_eq, beq-injective, Bool-cases, if◌then◌else◌,
}
use netvantage.Prelude.Dict.{lookup}
use netvantage.Canary.Float.{Float}
use netvantage.Correlation.Engine.{path_key}
use netvantage.Processor.{
  Message, malformed, bad_metrics, readable, TracerouteMetrics, Processor, as_path_string,
  run_traceroutes,
}
use netvantage.Processor.AsPathText.{as_path_string-injective}
use netvantage.Processor.PathChange.{is_change, paths_of, changes, run_traceroutes-text_changes}

changes-map :
    {A B : Type 0} ⦃eq_a : Eq A⦄ ⦃eq_b : Eq B⦄ (f : A → B)
    → ((x y : A) → f x ≡ f y → x ≡ y)
    → (q : A) (ps : List A) → changes (some (f q)) (map f ps) ≡ changes (some q) ps
changes-map f injective q [] = refl
changes-map f injective q (p ∷ ps) =
    rw (changes-map f injective p ps) (rw (beq-injective f injective q p) refl)

-- The text kept for the last AS path, if there is one.
abbrev pub kept_text : Option (List ℤ) → Option String
kept_text none = none
kept_text (some path) = some (as_path_string path)

changes-texts :
    (prev : Option (List ℤ)) (paths : List (List ℤ))
    → changes (kept_text prev) (map as_path_string paths) ≡ changes prev paths
changes-texts none [] = refl
changes-texts none (path ∷ paths) = changes-map as_path_string as_path_string-injective path paths
changes-texts (some q) paths = changes-map as_path_string as_path_string-injective q paths

empty_text : (path : List ℤ) → (as_path_string path == "") ≡ (path == [])
unfolding as_path_string
empty_text path = beq-injective as_path_string as_path_string-injective path []

module _ {F : Type 0} (key : String) where
  -- The AS paths of the results for a key, less the empty ones.
  unfoldable pub as_paths_of : List (ℕ × Message F (TracerouteMetrics F)) → List (List ℤ)
  as_paths_of [] = []
  as_paths_of ((now, readable r m) ∷ msgs) =
      let rest = as_paths_of msgs in
      if path_key r.target r.pop_name == key && not (m.as_path == [])
      then m.as_path ∷ rest
      else rest
  as_paths_of ((now, msg) ∷ msgs) = as_paths_of msgs

  paths_of-as_paths_of :
      (msgs : List (ℕ × Message F (TracerouteMetrics F)))
      → paths_of key msgs ≡ map as_path_string (as_paths_of msgs)
  unfolding paths_of as_paths_of
  paths_of-as_paths_of [] = refl
  paths_of-as_paths_of ((now, malformed) ∷ msgs) = paths_of-as_paths_of msgs
  paths_of-as_paths_of ((now, bad_metrics r) ∷ msgs) = paths_of-as_paths_of msgs
  paths_of-as_paths_of ((now, readable r m) ∷ msgs) =
      elim (Bool-cases (path_key r.target r.pop_name == key && not (m.as_path == []))) [
        | inl here ↦ rw here (
            rw (empty_text m.as_path)
              (rw here (ap (λ rest. as_path_string m.as_path ∷ rest) (paths_of-as_paths_of msgs))))
        | inr elsewhere ↦
            rw elsewhere (rw (empty_text m.as_path) (rw elsewhere (paths_of-as_paths_of msgs)))
      ]

module _ {F : Type 0} (float : Float F) (key : String) where
  -- In any series of traceroute messages, the counter of path changes is incremented for the targets
  -- and POPs of a key (the target, @ and the POP) exactly as often as the AS path of a result with
  -- that key differs from the one before it, empty paths left out, as lists of numbers and not only
  -- as the texts that the processor compares. The path kept for the key from before the series,
  -- `prev`, counts as the first.
  pub run_traceroutes-as_path_changes :
      (msgs : List (ℕ × Message F (TracerouteMetrics F))) (p : Processor) (prev : Option (List ℤ))
      → lookup key p.last_as_paths ≡ kept_text prev
      → count (is_change key) (run_traceroutes float p msgs).1 ≡ changes prev (as_paths_of key msgs)
  run_traceroutes-as_path_changes msgs p prev h =
      run_traceroutes-text_changes float key msgs p
      ∙ rw h (rw (paths_of-as_paths_of key msgs) (changes-texts prev (as_paths_of key msgs)))
