-- ===== src/Correlation/Engine/Publish.antt =====
-- When the engine publishes a correlation, once both sides of a registered target are known.
use Prim.Native.String.{◌++◌}
use text.Mathlib.TextLemmas.{append_assoc as text_assoc}
use mathlib.Core.List.{◌++◌ as append, append_assoc}
use netvantage.Prelude.{
  ℕ, ℤ, Bool, false, ◌≡◌, refl, sym, ap, ◌∙◌, inl, inr, some, List, [], ◌∷◌, String, Bool-cases,
  eq_iff, eq_refl, string_eq,
}
use netvantage.Prelude.Dict.{lookup, insert, lookup-insert}
use netvantage.Prelude.Text.{trim_prefix, strip_prefix-append}
use netvantage.Correlation.{BgpPathInfo, TraceroutePathInfo, evaluate}
use netvantage.Correlation.Engine.{
  Engine, BgpUpdate, is_withdrawal, Metric, path_key, record_result, correlate_found,
  correlate_target, targets_of, correlate_stored, correlate_targets, correlate_prefix, stored_bgp,
  handle_bgp_update, handle_traceroute_result,
}

-- Both sides of a target are known: what correlate_target publishes for it.
correlate_target_known :
    (now : ℕ) (e : Engine) (target pop prefix : String) (bgp : BgpPathInfo)
    (tr : TraceroutePathInfo)
    → lookup target e.prefix_target_map ≡ some prefix
    → lookup prefix e.bgp_paths ≡ some bgp
    → lookup (path_key target pop) e.traceroute_paths ≡ some tr
    → correlate_target now e target pop ≡ record_result (evaluate now bgp tr)
unfolding correlate_target correlate_found
correlate_target_known now e target pop prefix bgp tr hm hb ht =
    rw (hm, correlate_target) (rw (hb, correlate_found) (rw (ht, correlate_found)))

-- A traceroute result for a registered target, whose prefix has an announced path, publishes the
-- correlation of that path with this very result, and nothing else.
pub handle_traceroute_result-correlates :
    (now : ℕ) (e : Engine) (target pop agent prefix : String) (as_path : List ℤ) (hop_count : ℤ)
    (reached : Bool) (bgp : BgpPathInfo)
    → lookup target e.prefix_target_map ≡ some prefix
    → lookup prefix e.bgp_paths ≡ some bgp
    → (handle_traceroute_result now e target pop agent as_path hop_count reached).1
      ≡ record_result (
          evaluate now bgp (record {
            target = target;
            pop_name = pop;
            agent_id = agent;
            as_path = as_path;
            hop_count = hop_count;
            reached = reached;
            updated_at = now;
          }))
unfolding handle_traceroute_result
handle_traceroute_result-correlates now e target pop agent prefix as_path hop_count reached bgp hm
      hb =
    correlate_target_known now _ target pop prefix bgp _ hm hb (rw (lookup-insert, eq_refl))

-- The calls of one correlation stand among the calls published, together and in order.
abbrev pub Publishes : List Metric → List Metric → Type 0
Publishes out block =
    (before : List Metric) × (after : List Metric) × (out ≡ append before (append block after))

Publishes-first : (block rest : List Metric) → Publishes (append block rest) block
Publishes-first block rest = ([], rest, refl)

Publishes-behind :
    (first block : List Metric) {out : List Metric}
    → Publishes out block
    → Publishes (append first out) block
Publishes-behind first block (before, after, e) =
    (append first before, after, rw e (sym (append_assoc first before (append block after))))

Publishes-front :
    (rest block : List Metric) {out : List Metric}
    → Publishes out block
    → Publishes (append out rest) block
Publishes-front rest block (before, after, e) = (
  before,
  append after rest,
  rw e (
      append_assoc before (append block after) rest
      ∙ ap (append before) (append_assoc block after rest)),
)

pop_of_key : (target pop : String) → trim_prefix (path_key target pop) (target ++ "@") ≡ pop
pop_of_key target pop =
    rw (← text_assoc target "@" pop) (rw (strip_prefix-append (target ++ "@") pop, trim_prefix))

correlate_stored-Publishes :
    (now : ℕ) (e : Engine) (target pop : String) (m : List (String × TraceroutePathInfo))
    (tr : TraceroutePathInfo)
    → lookup (path_key target pop) m ≡ some tr
    → tr.target ≡ target
    → Publishes (correlate_stored now e target m) (correlate_target now e target pop)
unfolding correlate_stored lookup
correlate_stored-Publishes now e target pop [] info h own = cc
correlate_stored-Publishes now e target pop ((key, first) ∷ m) info h own =
    elim (Bool-cases (string_eq.beq key (path_key target pop))) [
      | inl here ↦
          let same : first ≡ info = cc (rw here at h) in
          rw (same, own, eq_refl target, (eq_iff _ _).0 here, pop_of_key target pop)
            (Publishes-first (correlate_target now e target pop) (correlate_stored now e target m))
      | inr other ↦
          let later = correlate_stored-Publishes now e target pop m info (rw other at h) own in
          elim (Bool-cases (string_eq.beq first.target target)) [
            | inl mine ↦ rw mine (Publishes-behind _ (correlate_target now e target pop) later)
            | inr foreign ↦ rw foreign later
          ]
    ]

targets_of-Publishes :
    (now : ℕ) (e : Engine) (target prefix : String) (m : List (String × String))
    (block : List Metric)
    → lookup target m ≡ some prefix
    → Publishes (correlate_stored now e target e.traceroute_paths) block
    → Publishes (correlate_targets now e (targets_of prefix m)) block
unfolding targets_of correlate_targets lookup
targets_of-Publishes now e target prefix [] block h own = cc
targets_of-Publishes now e target prefix ((t, p) ∷ m) block h own =
    elim (Bool-cases (string_eq.beq t target)) [
      | inl here ↦
          let same : p ≡ prefix = cc (rw here at h) in
          rw (same, eq_refl prefix, (eq_iff _ _).0 here) (Publishes-front _ block own)
      | inr other ↦
          let later = targets_of-Publishes now e target prefix m block (rw other at h) own in
          elim (Bool-cases (string_eq.beq p prefix)) [
            | inl mine ↦ rw mine (Publishes-behind _ block later)
            | inr foreign ↦ rw foreign later
          ]
    ]

-- A BGP update that is no withdrawal publishes, for every target registered for its prefix and every
-- POP with a stored traceroute to that target, the correlation of the new path with that traceroute.
pub handle_bgp_update-correlates :
    (now : ℕ) (e : Engine) (u : BgpUpdate) (target pop : String) (tr : TraceroutePathInfo)
    → is_withdrawal u ≡ false
    → lookup target e.prefix_target_map ≡ some u.prefix
    → lookup (path_key target pop) e.traceroute_paths ≡ some tr
    → tr.target ≡ target
    → Publishes
        (handle_bgp_update now e (some u)).1
        (record_result (evaluate now (stored_bgp now u) tr))
unfolding handle_bgp_update correlate_prefix
handle_bgp_update-correlates now e u target pop info announced hm ht own =
    let e' : Engine = record e { bgp_paths = insert u.prefix (stored_bgp now u) e.bgp_paths } in
    let known =
      correlate_target_known now e' target pop u.prefix (stored_bgp now u) info hm
        (rw (lookup-insert, eq_refl)) ht in
    rw announced (
      targets_of-Publishes now e' target u.prefix e.prefix_target_map _ hm (
        rw (← known) (correlate_stored-Publishes now e' target pop e.traceroute_paths info ht own)))
