-- ===== src/Correlation/Engine/Silence.antt =====
-- An engine whose RegisterPrefix is never called: in the repository only tests call it.
use netvantage.Prelude.{ℕ, ◌≡◌, refl, inl, inr, none, some, List, [], ◌∷◌, String, All, Bool-cases}
use netvantage.Prelude.Dict.{lookup}
use netvantage.Correlation.{TraceroutePathInfo}
use netvantage.Correlation.Engine.{
  Engine, is_withdrawal, Event, bgp_message, traceroute, register, new, correlate_target,
  targets_of, correlate_targets, correlate_prefix, handle_bgp_update, handle_traceroute_result,
  step, state_of, get_correlation_state, run,
}

-- Everything but a registration.
abbrev pub IsReport : ℕ × Event → Type 0
IsReport (now, bgp_message m) = Unit
IsReport (now, traceroute t p a path n r) = Unit
IsReport (now, register t p) = ⊥

abbrev IsUnmapped : Engine → Type 0
IsUnmapped e = e.prefix_target_map ≡ []

correlate_target_unmapped :
    (now : ℕ) (e : Engine) (target pop : String)
    → IsUnmapped e
    → correlate_target now e target pop ≡ []
unfolding correlate_target lookup
correlate_target_unmapped now e target pop h = rw (h, correlate_target, lookup)

correlate_prefix_unmapped :
    (now : ℕ) (e : Engine) (prefix : String) → IsUnmapped e → correlate_prefix now e prefix ≡ []
unfolding correlate_prefix targets_of correlate_targets
correlate_prefix_unmapped now e prefix h = rw h

step-IsUnmapped :
    (now : ℕ) (e : Engine) (ev : Event)
    → IsReport (now, ev)
    → IsUnmapped e
    → IsUnmapped (step now e ev).0 × ((step now e ev).1 ≡ [])
unfolding step handle_bgp_update handle_traceroute_result
step-IsUnmapped now e (bgp_message none) r h = (h, refl)
step-IsUnmapped now e (bgp_message (some u)) r h = elim (Bool-cases (is_withdrawal u)) [
  | inl gone ↦ rw gone (h, refl)
  | inr here ↦ rw here (h, correlate_prefix_unmapped now _ u.prefix h)
]
step-IsUnmapped now e (traceroute t p a path n reached) r h =
    (h, correlate_target_unmapped now _ t p h)
step-IsUnmapped now e (register t p) r h = elim r [ ]

state_of-IsUnmapped :
    (now : ℕ) (e : Engine) (m : List (String × TraceroutePathInfo))
    → IsUnmapped e
    → state_of now e m ≡ []
unfolding state_of lookup
state_of-IsUnmapped now e [] h = refl
state_of-IsUnmapped now e ((k, tr) ∷ m) h = rw (h, state_of, lookup) (state_of-IsUnmapped now e m h)

run-IsUnmapped :
    (e : Engine) (evs : List (ℕ × Event))
    → All IsReport evs
    → IsUnmapped e
    → IsUnmapped (run e evs).0 × ((run e evs).1 ≡ [])
unfolding run
run-IsUnmapped e [] a h = (h, refl)
run-IsUnmapped e ((now, ev) ∷ evs) a h =
    let (h', quiet) = step-IsUnmapped now e ev a.0 h in
    let (h'', rest) = run-IsUnmapped (step now e ev).0 evs a.1 h' in (h'', rw (quiet, rest))

-- Unless RegisterPrefix is called, the engine never correlates: whatever BGP updates and traceroute
-- results arrive, it publishes no metric, and its correlation state stays empty.
pub unregistered-silent :
    (evs : List (ℕ × Event)) (now : ℕ)
    → All IsReport evs
    → ((run new evs).1 ≡ []) × (get_correlation_state now (run new evs).0 ≡ [])
unfolding get_correlation_state
unregistered-silent evs now a =
    let (h, quiet) = run-IsUnmapped new evs a refl in
    (quiet, state_of-IsUnmapped now (run new evs).0 _ h)
