-- ===== src/Correlation/Engine/Snapshot.antt =====
-- GetCorrelationState, and the engine's well-formedness: no map has a key twice.
use netvantage.Prelude.{
  ℕ, ◌≡◌, refl, inl, inr, Option, none, some, List, [], ◌∷◌, String, Bool-cases, Option-cases,
  eq_iff, string_eq,
}
use netvantage.Prelude.Dict.{
  lookup, insert, lookup-insert, IsDistinct, insert-IsDistinct, delete-IsDistinct,
}
use netvantage.Correlation.{TraceroutePathInfo, CorrelationResult, evaluate}
use netvantage.Correlation.Engine.{
  Engine, BgpUpdate, is_withdrawal, path_key, stored_bgp, handle_bgp_update,
  handle_traceroute_result, register_prefix, new, Event, bgp_message, traceroute, register, step,
  run, state_of, get_correlation_state,
}

pub record IsValid (e : Engine) : Type 0 where
  pub bgp_distinct : IsDistinct e.bgp_paths
  pub traceroutes_distinct : IsDistinct e.traceroute_paths
  pub targets_distinct : IsDistinct e.prefix_target_map

handle_bgp_update-IsValid :
    (now : ℕ) (e : Engine) (m : Option BgpUpdate)
    → IsValid e
    → IsValid (handle_bgp_update now e m).0
unfolding handle_bgp_update
handle_bgp_update-IsValid now e none v = v
handle_bgp_update-IsValid now e (some u) v = elim (Bool-cases (is_withdrawal u)) [
  | inl gone ↦ rw gone (record {
    bgp_distinct = delete-IsDistinct u.prefix e.bgp_paths v.bgp_distinct;
    traceroutes_distinct = v.traceroutes_distinct;
    targets_distinct = v.targets_distinct;
  })
  | inr here ↦ rw here (record {
    bgp_distinct = insert-IsDistinct u.prefix (stored_bgp now u) e.bgp_paths v.bgp_distinct;
    traceroutes_distinct = v.traceroutes_distinct;
    targets_distinct = v.targets_distinct;
  })
]

-- Every event keeps the engine well-formed.
step-IsValid : (now : ℕ) (e : Engine) (ev : Event) → IsValid e → IsValid (step now e ev).0
unfolding step handle_traceroute_result register_prefix
step-IsValid now e (bgp_message m) v = handle_bgp_update-IsValid now e m v
step-IsValid now e (traceroute t p a path n reached) v = record {
  bgp_distinct = v.bgp_distinct;
  traceroutes_distinct =
      insert-IsDistinct (path_key t p) _ e.traceroute_paths v.traceroutes_distinct;
  targets_distinct = v.targets_distinct;
}
step-IsValid now e (register t p) v = record {
  bgp_distinct = v.bgp_distinct;
  traceroutes_distinct = v.traceroutes_distinct;
  targets_distinct = insert-IsDistinct t p e.prefix_target_map v.targets_distinct;
}

run-IsValid : (e : Engine) (evs : List (ℕ × Event)) → IsValid e → IsValid (run e evs).0
unfolding run
run-IsValid e [] v = v
run-IsValid e ((now, ev) ∷ evs) v = run-IsValid (step now e ev).0 evs (step-IsValid now e ev v)

-- What the state shows for a key: the stored traceroute evaluated against the path that is announced
-- now for the prefix of its target, if there are all three.
abbrev pub shown : ℕ → Engine → Option TraceroutePathInfo → Option CorrelationResult
shown now e none = none
shown now e (some info) = elim (lookup info.target e.prefix_target_map) [
  | none ↦ none
  | some prefix ↦ elim (lookup prefix e.bgp_paths) [
    | none ↦ none
    | some bgp ↦ some (evaluate now bgp info)
  ]
]

-- A first entry that the loop skips, and one that it evaluates.
state_of-skip :
    (now : ℕ) (e : Engine) (key k : String) (m : List (String × TraceroutePathInfo))
    (info : TraceroutePathInfo)
    → lookup k m ≡ none
    → lookup key (state_of now e m) ≡ shown now e (lookup key m)
    → shown now e (some info) ≡ none
    → lookup key (state_of now e m) ≡ shown now e (lookup key ((k, info) ∷ m))
unfolding lookup
state_of-skip now e key k m info fresh ih skip = elim (Bool-cases (string_eq.beq k key)) [
  | inl here ↦ let same = (eq_iff k key).0 here in rw here (rw (ih, ← same, fresh, skip))
  | inr other ↦ rw other ih
]

state_of-keep :
    (now : ℕ) (e : Engine) (key k : String) (m : List (String × TraceroutePathInfo))
    (info : TraceroutePathInfo) (r : CorrelationResult)
    → lookup key (state_of now e m) ≡ shown now e (lookup key m)
    → shown now e (some info) ≡ some r
    → lookup key (insert k r (state_of now e m)) ≡ shown now e (lookup key ((k, info) ∷ m))
unfolding lookup
state_of-keep now e key k m info r ih keep = elim (Bool-cases (string_eq.beq k key)) [
  | inl here ↦ rw (lookup-insert k key r (state_of now e m)) (rw here (rw keep))
  | inr other ↦ rw (lookup-insert k key r (state_of now e m)) (rw other ih)
]

state_of-lookup :
    (now : ℕ) (e : Engine) (key : String) (m : List (String × TraceroutePathInfo))
    → IsDistinct m
    → lookup key (state_of now e m) ≡ shown now e (lookup key m)
unfolding state_of
state_of-lookup now e key [] d = unfold lookup in refl
state_of-lookup now e key ((k, info) ∷ m) d =
    let ih = state_of-lookup now e key m d.1 in
    elim (Option-cases (lookup info.target e.prefix_target_map)) [
      | inl unmapped ↦
          rw (unmapped, state_of) (state_of-skip now e key k m info d.0 ih (rw (unmapped, shown)))
      | inr (prefix, mapped) ↦ elim (Option-cases (lookup prefix e.bgp_paths)) [
        | inl withdrawn ↦
            rw (mapped, state_of)
              (rw (withdrawn, state_of)
                (state_of-skip now e key k m info d.0 ih
                  (rw (mapped, shown) (rw (withdrawn, shown)))))
        | inr (bgp, announced) ↦
            rw (mapped, state_of)
              (rw (announced, state_of)
                (state_of-keep now e key k m info (evaluate now bgp info) ih
                  (rw (mapped, shown) (rw (announced, shown)))))
      ]
    ]

-- After any events on a new engine, the correlation state holds under each key exactly the
-- correlation of the traceroute stored under it with the path that is stored for its target's prefix,
-- and nothing if one of the three is missing.
pub get_correlation_state_lem :
    (evs : List (ℕ × Event)) (now : ℕ) (key : String)
    → let e = (run new evs).0 in
      lookup key (get_correlation_state now e) ≡ shown now e (lookup key e.traceroute_paths)
unfolding get_correlation_state
get_correlation_state_lem evs now key =
    state_of-lookup now (run new evs).0 key _
      (run-IsValid new evs (record {
        bgp_distinct = tt;
        traceroutes_distinct = tt;
        targets_distinct = tt;
      })).traceroutes_distinct
