-- ===== src/Server/Table.antt =====
-- A table with a text as its primary key, as the list of its rows, for the SQL of
-- internal/server/repository/postgres and of migrations.
use netvantage.Prelude.{
  ap, sym, ◌∙◌, All, ◌≡◌, refl, inl, inr, Bool, true, false, Option, none, some, List, [], ◌∷◌,
  String, ◌==◌, string_eq, eq_iff, arith, Bool-cases, if◌then◌else◌,
}

-- Whether a row passes a test: `EXISTS`.
module _ {ℓ} {A : Type ℓ} where
  unfoldable pub exists : (A → Bool) → List A → Bool
  exists p [] = false
  exists p (x ∷ xs) = let rest = exists p xs in if p x then true else rest

  -- The rows that pass a test: `WHERE`.
  unfoldable pub filter : (A → Bool) → List A → List A
  filter p [] = []
  filter p (x ∷ xs) = let rest = filter p xs in if p x then x ∷ rest else rest

  pub exists-filter :
      (q p : A → Bool) (xs : List A) → exists q xs ≡ false → exists q (filter p xs) ≡ false
  unfolding exists filter
  exists-filter q p [] h = refl
  exists-filter q p (x ∷ xs) h = ground (arith, exists-filter q p xs)

module _ {ℓ κ ι} {A : Type ℓ} where
  pub All-weaken :
      {P : A → Type κ} {Q : A → Type ι} (xs : List A) → ((x : A) → P x → Q x) → All P xs → All Q xs
  All-weaken [] f h = tt
  All-weaken (x ∷ xs) f h = (f x h.0, All-weaken xs f h.1)

  pub All-filter :
      {P : A → Type κ} {Q : A → Type ι} (p : A → Bool) (xs : List A)
      → ((x : A) → p x ≡ true → P x → Q x)
      → All P xs
      → All Q (filter p xs)
  unfolding filter
  All-filter p [] f h = tt
  All-filter p (x ∷ xs) f h = elim (Bool-cases (p x)) [
    | inl kept ↦ rw kept (f x kept h.0, All-filter p xs f h.1)
    | inr dropped ↦ rw dropped (All-filter p xs f h.1)
  ]

  pub All-without :
      {P : A → Type κ} {Q : A → Type ι} (p : A → Bool) (xs : List A)
      → ((x : A) → p x ≡ false → P x → Q x)
      → exists p xs ≡ false
      → All P xs
      → All Q xs
  unfolding exists
  All-without p [] f none_passes h = tt
  All-without p (x ∷ xs) f none_passes h =
      (f x (ground arith) h.0, All-without p xs f (ground arith) h.1)

module _ {ℓ} {A : Type ℓ} (key : A → String) where
  -- SELECT ... WHERE key = $1
  unfoldable pub find : String → List A → Option A
  find k [] = none
  find k (x ∷ xs) = if key x == k then some x else find k xs

  -- DELETE ... WHERE key = $1
  unfoldable pub remove : String → List A → List A
  remove k [] = []
  remove k (x ∷ xs) = let rest = remove k xs in if key x == k then rest else x ∷ rest

  -- UPDATE ... SET ... WHERE key = $1
  unfoldable pub change : String → (A → A) → List A → List A
  change k f [] = []
  change k f (x ∷ xs) = let rest = change k f xs in if key x == k then f x ∷ rest else x ∷ rest

  -- No two rows have one key.
  abbrev pub IsKeyed : List A → Type ℓ
  IsKeyed [] = Unit
  IsKeyed (x ∷ xs) = (find (key x) xs ≡ none) × IsKeyed xs

  pub find-remove :
      (k j : String) (xs : List A) → find j (remove k xs) ≡ (if k == j then none else find j xs)
  unfolding find remove
  find-remove k j [] = ground arith
  find-remove k j (x ∷ xs) =
      ground (arith, eq_iff k j, eq_iff (key x) k, eq_iff (key x) j, find-remove k j xs)

  pub remove-IsKeyed : (k : String) (xs : List A) → IsKeyed xs → IsKeyed (remove k xs)
  unfolding remove
  remove-IsKeyed k [] h = tt
  remove-IsKeyed k (x ∷ xs) h =
      ground
        (arith, eq_iff (key x) k, eq_iff k (key x), find-remove k (key x) xs, remove-IsKeyed k xs)

  abbrev pub map_row : (A → A) → Option A → Option A
  map_row f none = none
  map_row f (some x) = some (f x)

  module _ (f : A → A) (keeps : (x : A) → key (f x) ≡ key x) where
    pub find-change :
        (k j : String) (xs : List A)
        → find j (change k f xs) ≡ (if k == j then map_row f (find j xs) else find j xs)
    unfolding find change
    find-change k j [] = ground arith
    find-change k j (x ∷ xs) =
        ground (arith, keeps x, eq_iff k j, eq_iff (key x) k, eq_iff (key x) j, find-change k j xs)

    pub find-change-none :
        (k j : String) (xs : List A) → find j xs ≡ none → find j (change k f xs) ≡ none
    find-change-none k j xs h = ground (arith, find-change k j xs)

    pub change-IsKeyed : (k : String) (xs : List A) → IsKeyed xs → IsKeyed (change k f xs)
    unfolding change
    change-IsKeyed k [] h = tt
    change-IsKeyed k (x ∷ xs) h =
        ground (arith, keeps x, find-change-none k (key x) xs h.0, change-IsKeyed k xs h.1)

  pub exists-find-none :
      (k : String) (xs : List A) → find k xs ≡ none → exists (λ x. key x == k) xs ≡ false
  unfolding exists find
  exists-find-none k [] h = refl
  exists-find-none k (x ∷ xs) h = ground (arith, exists-find-none k xs)

  pub find-key : (k : String) (y : A) (xs : List A) → find k xs ≡ some y → key y ≡ k
  unfolding find
  find-key k y [] h = cc
  find-key k y (x ∷ xs) h = elim (Bool-cases (key x == k)) [
    | inl here ↦
        let same : x ≡ y = cc (rw here at h) in ap key (sym same) ∙ (eq_iff (key x) k).0 here
    | inr elsewhere ↦ find-key k y xs (rw elsewhere at h)
  ]

  pub exists-find-some :
      (k : String) (y : A) (xs : List A) → find k xs ≡ some y → exists (λ x. key x == k) xs ≡ true
  unfolding exists find
  exists-find-some k y [] h = cc
  exists-find-some k y (x ∷ xs) h = ground (arith, exists-find-some k y xs)

  pub exists-remove :
      (k j : String) (xs : List A)
      → (k == j) ≡ false
      → exists (λ x. key x == j) xs ≡ true
      → exists (λ x. key x == j) (remove k xs) ≡ true
  unfolding exists remove
  exists-remove k j [] other h = h
  exists-remove k j (x ∷ xs) other h =
      ground (arith, eq_iff (key x) k, eq_iff (key x) j, eq_iff k j, exists-remove k j xs other)

  pub exists-change :
      (f : A → A)
      → ((x : A) → key (f x) ≡ key x)
      → (k j : String) (xs : List A) → exists (λ x. key x == j) xs ≡ true
      → exists (λ x. key x == j) (change k f xs) ≡ true
  unfolding exists change
  exists-change f keeps k j [] h = h
  exists-change f keeps k j (x ∷ xs) h = ground (arith, keeps x, exists-change f keeps k j xs)

module _ {ℓ κ} {A : Type ℓ} (P : A → Type κ) (key : A → String) (k : String) where
  pub All-remove : (xs : List A) → All P xs → All P (remove key k xs)
  unfolding remove
  All-remove [] h = tt
  All-remove (x ∷ xs) h = elim (Bool-cases (key x == k)) [
    | inl gone ↦ rw gone (All-remove xs h.1)
    | inr kept ↦ rw kept (h.0, All-remove xs h.1)
  ]

  pub All-change :
      (f : A → A) → ((x : A) → P x → P (f x)) → (xs : List A) → All P xs → All P (change key k f xs)
  unfolding change
  All-change f keeps [] h = tt
  All-change f keeps (x ∷ xs) h = elim (Bool-cases (key x == k)) [
    | inl here ↦ rw here (keeps x h.0, All-change f keeps xs h.1)
    | inr elsewhere ↦ rw elsewhere (h.0, All-change f keeps xs h.1)
  ]
