-- ===== src/Correlation/Path/Laws.antt =====
-- What isSubsequence and pathOverlap decide: contiguous segments and shared members.
use netvantage.Prelude.{
  ℕ, zero, suc, ◌+◌, ◌-◌, ◌<◌, ◌≡◌, refl, ap, ◌∙◌, ◌↔◌, ◌⊎◌, inl, inr, true, List, [], ◌∷◌, ◌++◌, ℤ,
  int_eq, int_beq_iff, length, length-append, last_or, arith, Bool-cases,
}
use netvantage.Correlation.Path.{matches_at, scan, is_subsequence, contains, path_overlap}

-- `sub` stands in `full` as one contiguous segment, wherever.
abbrev pub IsSegment : List ℤ → List ℤ → Type 0
IsSegment sub full = (before : List ℤ) × (after : List ℤ) × (full ≡ before ++ (sub ++ after))

matches_at_sound :
    (sub rest : List ℤ) → matches_at sub rest ≡ true → (after : List ℤ) × (rest ≡ sub ++ after)
unfolding matches_at
matches_at_sound [] rest h = (rest, refl)
matches_at_sound (x ∷ sub) [] h = cc
matches_at_sound (x ∷ sub) (y ∷ rest) h = elim (Bool-cases (int_eq.beq y x)) [
  | inl same ↦
      let (after, e) = matches_at_sound sub rest (rw same at h) in
      (after, cc ((int_beq_iff y x).0 same))
  | inr other ↦ cc (rw other at h)
]

matches_at_complete : (sub after : List ℤ) → matches_at sub (sub ++ after) ≡ true
unfolding matches_at
matches_at_complete [] after = refl
matches_at_complete (x ∷ sub) after = rw ((int_beq_iff x x).1 refl) (matches_at_complete sub after)

scan_sound : (sub full : List ℤ) (n : ℕ) → scan sub full n ≡ true → IsSegment sub full
unfolding scan
scan_sound sub full zero h = cc
scan_sound sub [] (suc n) h = elim (Bool-cases (matches_at sub [])) [
  | inl here ↦ let (after, e) = matches_at_sound sub [] here in ([], after, e)
  | inr later ↦ scan_sound sub [] n (rw later at h)
]
scan_sound sub (y ∷ full) (suc n) h = elim (Bool-cases (matches_at sub (y ∷ full))) [
  | inl here ↦ let (after, e) = matches_at_sound sub (y ∷ full) here in ([], after, e)
  | inr later ↦
      let (before, after, e) = scan_sound sub full n (rw later at h) in
      (y ∷ before, after, ap (λ t. y ∷ t) e)
]

scan_complete :
    (sub before after : List ℤ) (n : ℕ)
    → length before < n
    → scan sub (before ++ (sub ++ after)) n ≡ true
unfolding scan
scan_complete sub before after zero h = elim h [ ]
scan_complete sub [] after (suc n) h = rw (matches_at_complete sub after)
scan_complete sub (x ∷ before) after (suc n) h = ground (arith, scan_complete sub before after n)

length-segment :
    (sub before after : List ℤ)
    → length (before ++ (sub ++ after)) ≡ length before + (length sub + length after)
length-segment sub before after =
    length-append before (sub ++ after) ∙ ap (λ n. length before + n) (length-append sub after)

segment_found :
    (x : ℤ) (sub before after : List ℤ)
    → is_subsequence (x ∷ sub) (before ++ (x ∷ sub ++ after)) ≡ true
unfolding is_subsequence
segment_found x sub before after = ground (
  arith,
  length-segment (x ∷ sub) before after,
  scan_complete (x ∷ sub) before after
      (length (before ++ (x ∷ sub ++ after)) - length (x ∷ sub) + 1),
)

-- is_subsequence answers exactly whether the first path is a contiguous segment of the second.
pub is_subsequence_iff : (sub full : List ℤ) → (is_subsequence sub full ≡ true) ↔ IsSegment sub full
unfolding is_subsequence
is_subsequence_iff [] full = (λ _. ([], full, refl), λ _. refl)
is_subsequence_iff (x ∷ sub) full = (
  λ h. scan_sound (x ∷ sub) full (length full - length (x ∷ sub) + 1) (ground arith),
  λ (before, after, e). rw e (segment_found x sub before after),
)

abbrev pub IsIn : ℤ → List ℤ → Type 0
IsIn a [] = ⊥
IsIn a (x ∷ xs) = (x ≡ a) ⊎ IsIn a xs

pub contains_iff : (xs : List ℤ) (a : ℤ) → (contains xs a ≡ true) ↔ IsIn a xs
unfolding contains
contains_iff [] a = (λ h. cc, λ h. elim h [ ])
contains_iff (x ∷ xs) a = grind (arith, contains_iff xs a, int_beq_iff x a)

-- The two paths share no member exactly if the overlap is 0.
pub path_overlap-pos : (a b : List ℤ) (x : ℤ) → IsIn x a → IsIn x b → 0 < path_overlap a b
unfolding path_overlap
path_overlap-pos a [] x ha hb = elim hb [ ]
path_overlap-pos a (y ∷ b) x ha (inl e) =
    let found : contains a y ≡ true = rw e ((contains_iff a x).1 ha) in rw found (omega arith)
path_overlap-pos a (y ∷ b) x ha (inr later) = ground (arith, path_overlap-pos a b x ha later)

pub last_or-IsIn : (x : ℤ) (xs : List ℤ) (d : ℤ) → IsIn (last_or (x ∷ xs) d) (x ∷ xs)
last_or-IsIn x [] d = inl refl
last_or-IsIn x (y ∷ xs) d = inr (last_or-IsIn y xs d)
