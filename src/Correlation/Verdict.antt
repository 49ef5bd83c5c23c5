-- ===== src/Correlation/Verdict.antt =====
-- What `evaluate` of internal/processor/correlation/correlation.go decides about two paths.
use netvantage.Prelude.{
  ℕ, ◌≤◌, ◌<◌, ◌≡◌, refl, ◌≢◌, ◌↔◌, ◌⊎◌, inl, inr, Bool, true, false, List, [], ◌∷◌, ℤ, pos, int_eq,
  int_beq_iff, length, arith, Bool-cases, if◌then◌else◌,
}
use netvantage.Correlation.{
  BgpPathInfo, TraceroutePathInfo, exact, partial, mismatch, insufficient, not_reached,
  empty_bgp_path, origin_differs, consistent, transit_diverges, no_transit_overlap, origin, verdict,
  evaluate,
}
use netvantage.Correlation.Path.{is_subsequence, path_overlap}
use netvantage.Correlation.Path.Laws.{
  IsSegment, is_subsequence_iff, IsIn, path_overlap-pos, last_or-IsIn,
}

-- There is something to compare: the traceroute arrived and saw two networks, BGP announces some.
pub record IsComparable (bgp tr : List ℤ) (reached : Bool) : Type 0 where
  pub arrived : reached ≡ true
  pub two_networks : 2 ≤ length tr
  pub announced : 0 < length bgp

abbrev Comparable : BgpPathInfo → TraceroutePathInfo → Type 0
Comparable bgp tr = IsComparable bgp.as_path tr.as_path tr.reached

origin-IsIn : (path : List ℤ) → 0 < length path → IsIn (origin path) path
origin-IsIn [] h = elim h [ ]
origin-IsIn (x ∷ xs) h = last_or-IsIn x xs (pos 0)

-- Paths that end in one origin share at least that origin.
same_origin-overlap :
    (bgp tr : List ℤ)
    → 0 < length bgp
    → 0 < length tr
    → origin bgp ≡ origin tr
    → 0 < path_overlap bgp tr
same_origin-overlap bgp tr hb ht e =
    path_overlap-pos bgp tr (origin tr) (rw (← e) (origin-IsIn bgp hb)) (origin-IsIn tr ht)

-- The three ways in which two paths can stand to one another.
data Shape (bgp tr : List ℤ) (reached : Bool) : Type 0 where
  incomparable : ¬ IsComparable bgp tr reached → Shape bgp tr reached
  foreign : IsComparable bgp tr reached → origin bgp ≢ origin tr → Shape bgp tr reached
  shared : IsComparable bgp tr reached → origin bgp ≡ origin tr → Shape bgp tr reached

Shape-of_comparable :
    (bgp tr : List ℤ) (reached : Bool) → IsComparable bgp tr reached → Shape bgp tr reached
Shape-of_comparable bgp tr reached c = elim (Bool-cases (int_eq.beq (origin bgp) (origin tr))) [
  | inl same ↦ shared c ((int_beq_iff _ _).0 same)
  | inr other ↦ foreign c (λ e. cc ((int_beq_iff _ _).1 e))
]

shape : (bgp tr : List ℤ) (reached : Bool) → Shape bgp tr reached
shape bgp tr false = incomparable (λ c. cc c.arrived)
shape [] tr true = incomparable (λ c. omega arith)
shape (b ∷ bgp) [] true = incomparable (λ c. omega arith)
shape (b ∷ bgp) (t ∷ []) true = incomparable (λ c. omega arith)
shape (b ∷ bgp) (t ∷ u ∷ tr) true =
    Shape-of_comparable (b ∷ bgp) (t ∷ u ∷ tr) true
      (record { arrived = refl; two_networks = omega arith; announced = omega arith })

verdict_shared :
    (bgp tr : List ℤ) (reached : Bool)
    → IsComparable bgp tr reached
    → origin bgp ≡ origin tr
    → verdict bgp tr reached ≡ (
        if is_subsequence tr bgp
        then (exact, consistent)
        else (partial, transit_diverges (origin bgp) (path_overlap bgp tr)))
unfolding verdict
verdict_shared [] tr reached c e = absurd (omega arith)
verdict_shared (b ∷ bgp) tr reached c e = ground (
  arith,
  same_origin-overlap (b ∷ bgp) tr (omega arith) (omega arith) e,
  int_beq_iff (origin (b ∷ bgp)) (origin tr),
)

verdict_foreign :
    (bgp tr : List ℤ) (reached : Bool)
    → IsComparable bgp tr reached
    → origin bgp ≢ origin tr
    → verdict bgp tr reached ≡ (mismatch, origin_differs (origin bgp) (origin tr))
unfolding verdict
verdict_foreign [] tr reached c e = absurd (omega arith)
verdict_foreign (b ∷ bgp) tr reached c e =
    ground (arith, int_beq_iff (origin (b ∷ bgp)) (origin tr))

verdict_incomparable :
    (bgp tr : List ℤ) (reached : Bool)
    → ¬ IsComparable bgp tr reached
    → ((verdict bgp tr reached).0 ≡ insufficient)
      × (((verdict bgp tr reached).1 ≡ not_reached) ⊎ ((verdict bgp tr reached).1 ≡ empty_bgp_path))
unfolding verdict
verdict_incomparable bgp tr false h = ground arith
verdict_incomparable [] tr true h = ground arith
verdict_incomparable (b ∷ bgp) [] true h = ground arith
verdict_incomparable (b ∷ bgp) (t ∷ []) true h = ground arith
verdict_incomparable (b ∷ bgp) (t ∷ u ∷ tr) true h =
    absurd (h (record { arrived = refl; two_networks = omega arith; announced = omega arith }))

module _ (bgp tr : List ℤ) (reached : Bool) (c : IsComparable bgp tr reached) where
  verdict_shared_exact :
      origin bgp ≡ origin tr → ((verdict bgp tr reached).0 ≡ exact) ↔ IsSegment tr bgp
  verdict_shared_exact e = elim (Bool-cases (is_subsequence tr bgp)) [
    | inl inside ↦ (
      λ _. (is_subsequence_iff tr bgp).0 inside,
      λ _. rw (verdict_shared bgp tr reached c e, inside),
    )
    | inr outside ↦ (
      λ h. cc (rw (verdict_shared bgp tr reached c e, outside) at h),
      λ s. cc (outside, (is_subsequence_iff tr bgp).1 s),
    )
  ]

  verdict_shared_partial :
      origin bgp ≡ origin tr → ((verdict bgp tr reached).0 ≡ partial) ↔ (¬ IsSegment tr bgp)
  verdict_shared_partial e = elim (Bool-cases (is_subsequence tr bgp)) [
    | inl inside ↦ (
      λ h. cc (rw (verdict_shared bgp tr reached c e, inside) at h),
      λ n. absurd (n ((is_subsequence_iff tr bgp).0 inside)),
    )
    | inr outside ↦ (
      λ _ s. cc (outside, (is_subsequence_iff tr bgp).1 s),
      λ _. rw (verdict_shared bgp tr reached c e, outside),
    )
  ]

  verdict_shared-ne-mismatch : origin bgp ≡ origin tr → (verdict bgp tr reached).0 ≢ mismatch
  verdict_shared-ne-mismatch e h = ground (arith, verdict_shared bgp tr reached c e)

-- A correlation is exact exactly when the traceroute reached its target over at least two networks,
-- BGP announces some path, both paths end in one origin AS, and the observed path is a contiguous
-- segment of the announced one.
pub evaluate-exact_iff :
    (now : ℕ) (bgp : BgpPathInfo) (tr : TraceroutePathInfo)
    → ((evaluate now bgp tr).match ≡ exact) ↔ (
        Comparable bgp tr
        × (origin bgp.as_path ≡ origin tr.as_path)
        × IsSegment tr.as_path bgp.as_path)
unfolding evaluate
evaluate-exact_iff now bgp tr = elim (shape bgp.as_path tr.as_path tr.reached) [
  | incomparable h ↦ (
    λ e. cc (e, (verdict_incomparable bgp.as_path tr.as_path tr.reached h).0),
    λ p. absurd (h p.0),
  )
  | foreign c ne ↦
      (λ e. cc (e, verdict_foreign bgp.as_path tr.as_path tr.reached c ne), λ p. absurd (ne p.1))
  | shared c same ↦
      let (to, from) = verdict_shared_exact bgp.as_path tr.as_path tr.reached c same in
      (λ e. (c, same, to e), λ p. from p.2)
]

-- A correlation is partial exactly when both sides are comparable and end in one origin AS, and the
-- observed path is not a contiguous segment of the announced one.
pub evaluate-partial_iff :
    (now : ℕ) (bgp : BgpPathInfo) (tr : TraceroutePathInfo)
    → ((evaluate now bgp tr).match ≡ partial) ↔ (
        Comparable bgp tr
        × (origin bgp.as_path ≡ origin tr.as_path)
        × (¬ IsSegment tr.as_path bgp.as_path))
unfolding evaluate
evaluate-partial_iff now bgp tr = elim (shape bgp.as_path tr.as_path tr.reached) [
  | incomparable h ↦ (
    λ e. cc (e, (verdict_incomparable bgp.as_path tr.as_path tr.reached h).0),
    λ p. absurd (h p.0),
  )
  | foreign c ne ↦
      (λ e. cc (e, verdict_foreign bgp.as_path tr.as_path tr.reached c ne), λ p. absurd (ne p.1))
  | shared c same ↦
      let (to, from) = verdict_shared_partial bgp.as_path tr.as_path tr.reached c same in
      (λ e. (c, same, to e), λ p. from p.2)
]

-- A correlation is a mismatch exactly when both sides are comparable and their origin ASes differ.
pub evaluate-mismatch_iff :
    (now : ℕ) (bgp : BgpPathInfo) (tr : TraceroutePathInfo)
    → ((evaluate now bgp tr).match ≡ mismatch)
      ↔ (Comparable bgp tr × (origin bgp.as_path ≢ origin tr.as_path))
unfolding evaluate
evaluate-mismatch_iff now bgp tr = elim (shape bgp.as_path tr.as_path tr.reached) [
  | incomparable h ↦ (
    λ e. cc (e, (verdict_incomparable bgp.as_path tr.as_path tr.reached h).0),
    λ p. absurd (h p.0),
  )
  | foreign c ne ↦ (λ e. (c, ne), λ p. rw (verdict_foreign bgp.as_path tr.as_path tr.reached c ne))
  | shared c same ↦ (
    λ e. absurd (verdict_shared-ne-mismatch bgp.as_path tr.as_path tr.reached c same e),
    λ p. absurd (p.1 same),
  )
]

-- The last branch of `evaluate` is dead: no two paths give the detail that the origins match and
-- the paths share nothing.
pub evaluate-details-ne :
    (now : ℕ) (bgp : BgpPathInfo) (tr : TraceroutePathInfo) (asn : ℤ)
    → (evaluate now bgp tr).details ≢ no_transit_overlap asn
unfolding evaluate
evaluate-details-ne now bgp tr asn e = elim (shape bgp.as_path tr.as_path tr.reached) [
  | incomparable h ↦ ground (arith, verdict_incomparable bgp.as_path tr.as_path tr.reached h)
  | foreign c ne ↦ cc (verdict_foreign bgp.as_path tr.as_path tr.reached c ne)
  | shared c same ↦ ground (arith, verdict_shared bgp.as_path tr.as_path tr.reached c same)
]
