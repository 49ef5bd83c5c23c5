-- ===== src/Correlation/Path.antt =====
-- isSubsequence and pathOverlap of internal/processor/correlation/correlation.go.
pub mod Laws
use netvantage.Prelude.{
  ℕ, zero, suc, ◌+◌, ◌-◌, Bool, true, false, List, [], ◌∷◌, ℤ, ◌==◌, int_eq, ltb, length, is_empty,
  if◌then◌else◌,
}

-- The inner loop: does `sub` stand at the front of what is left of the full path?
matches_at : List ℤ → List ℤ → Bool
matches_at [] rest = true
matches_at (x ∷ sub) [] = false
matches_at (x ∷ sub) (y ∷ rest) = if y == x then matches_at sub rest else false

abbrev rest_of : List ℤ → List ℤ
rest_of [] = []
rest_of (x ∷ xs) = xs

-- The outer loop, with the number of starting points left; `full` is the path from the current one.
scan : List ℤ → List ℤ → ℕ → Bool
scan sub full zero = false
scan sub full (suc n) =
    let next = scan sub (rest_of full) n in if matches_at sub full then true else next

unfoldable pub is_subsequence : List ℤ → List ℤ → Bool
unfolding matches_at scan
is_subsequence sub full =
    if is_empty sub
    then true
    else if ltb (length full) (length sub)
    then false
    else scan sub full (length full - length sub + 1)

-- The `set` of path_overlap, by its membership test.
pub contains : List ℤ → ℤ → Bool
contains [] asn = false
contains (x ∷ xs) asn = if x == asn then true else contains xs asn

pub path_overlap : List ℤ → List ℤ → ℕ
path_overlap a [] = 0
path_overlap a (asn ∷ b) =
    let count = path_overlap a b in if contains a asn then suc count else count
