-- ===== src/Server/Database/Selection.antt =====
-- Which definitions ListByPOP of internal/server/repository/postgres/test.go selects.
use netvantage.Prelude.{
  ℕ, ◌≡◌, refl, ap, ◌∙◌, inl, inr, Bool, true, false, Option, none, some, ◌⊎◌, ◌↔◌, Option-cases,
  List, [], ◌∷◌, ◌++◌, String, ◌==◌, string_eq, eq_iff, arith, count, Bool-cases, if◌then◌else◌,
}
use netvantage.Transport.{Payload}
use netvantage.Server.Table.{find, IsKeyed, exists, filter}
use netvantage.Server.Tests.{TestDefinition}
use netvantage.Server.Database.{Assignment, Database, Violation}
use netvantage.Server.Database.Tests.{selects, copies, join, distinct, list_by_pop}

has_id : String → TestDefinition → Bool
has_id id t = t.id == id

exists-append :
    (q : TestDefinition → Bool) (xs ys : List TestDefinition)
    → exists q ys ≡ false
    → exists q xs ≡ false
    → exists q (xs ++ ys) ≡ false
unfolding exists
exists-append q [] ys hy hx = hy
exists-append q (x ∷ xs) ys hy hx = ground (arith, exists-append q xs ys hy)

exists-copies :
    (pop id : String) (t : TestDefinition) (assignments : List Assignment)
    → (t.id == id) ≡ false
    → exists (has_id id) (copies pop t assignments) ≡ false
unfolding exists copies has_id
exists-copies pop id t [] h = refl
exists-copies pop id t (a ∷ assignments) h = ground (arith, exists-copies pop id t assignments h)

-- A join holds no id that the tests do not have.
exists-join :
    (pop id : String) (tests : List TestDefinition) (assignments : List Assignment)
    → find (λ u. u.id) id tests ≡ none
    → exists (has_id id) (join pop tests assignments) ≡ false
unfolding exists join find
exists-join pop id [] assignments h = refl
exists-join pop id (t ∷ tests) assignments h = elim (Bool-cases (t.id == id)) [
  | inl same ↦ cc (rw same at h)
  | inr other ↦
      exists-append (has_id id) (copies pop t assignments) (join pop tests assignments)
        (exists-join pop id tests assignments (rw other at h))
        (exists-copies pop id t assignments other)
]

exists-distinct :
    (id : String) (tests : List TestDefinition)
    → exists (has_id id) (distinct tests) ≡ exists (has_id id) tests
unfolding exists distinct has_id
exists-distinct id [] = refl
exists-distinct id (t ∷ tests) =
    ground (arith, exists-distinct id tests, exists-distinct t.id tests, eq_iff t.id id)

-- The copies of one definition count once.
distinct-copies :
    (pop : String) (t : TestDefinition) (assignments : List Assignment) (rest : List TestDefinition)
    → exists (has_id t.id) rest ≡ false
    → distinct (copies pop t assignments ++ rest)
      ≡ (if exists (selects pop t) assignments then t ∷ distinct rest else distinct rest)
unfolding exists distinct copies has_id
distinct-copies pop t [] rest h = refl
distinct-copies pop t (a ∷ assignments) rest h = elim (Bool-cases (selects pop t a)) [
  | inr other ↦ rw other (distinct-copies pop t assignments rest h)
  | inl chosen ↦ rw chosen (
      rw (distinct-copies pop t assignments rest h, distinct)
        (ground (arith, eq_iff t.id t.id, exists-distinct t.id rest)))
]

-- Whether an enabled definition is assigned to a POP or to all.
abbrev pub is_selected : String → List Assignment → TestDefinition → Bool
is_selected pop assignments t = exists (selects pop t) assignments

abbrev pub Any {ℓ} : {A : Type ℓ} → (A → Type 0) → List A → Type 0
Any P [] = ⊥
Any P (x ∷ xs) = P x ⊎ Any P xs

-- An assignment gives a definition to a POP: it names the definition, and the POP or none.
abbrev pub Gives : String → TestDefinition → Assignment → Type 0
Gives pop t a = (a.test_id ≡ t.id) × ((a.pop_name ≡ none) ⊎ (a.pop_name ≡ some pop))

-- A definition is enabled, and an assignment gives it to the POP.
abbrev pub IsSelected : String → List Assignment → TestDefinition → Type 0
IsSelected pop assignments t = (t.enabled ≡ true) × Any (Gives pop t) assignments

selects_iff :
    (pop : String) (t : TestDefinition) (a : Assignment)
    → (selects pop t a ≡ true) ↔ ((t.enabled ≡ true) × Gives pop t a)
selects_iff pop t a = elim (Option-cases a.pop_name) [
  | inl everywhere ↦ rw everywhere (ground (arith, eq_iff t.id a.test_id))
  | inr (name, there) ↦ rw there (ground (arith, eq_iff t.id a.test_id, eq_iff name pop))
]

is_selected_iff :
    (pop : String) (assignments : List Assignment) (t : TestDefinition)
    → (is_selected pop assignments t ≡ true) ↔ IsSelected pop assignments t
unfolding exists
is_selected_iff pop [] t = ground arith
is_selected_iff pop (a ∷ assignments) t =
    ground (arith, selects_iff pop t a, is_selected_iff pop assignments t)

distinct-join :
    (pop : String) (tests : List TestDefinition) (assignments : List Assignment)
    → IsKeyed (λ u. u.id) tests
    → distinct (join pop tests assignments) ≡ filter (is_selected pop assignments) tests
unfolding join filter distinct
distinct-join pop [] assignments h = refl
distinct-join pop (t ∷ tests) assignments h =
    rw
      (distinct-copies pop t assignments (join pop tests assignments)
        (exists-join pop t.id tests assignments h.0))
      (rw (distinct-join pop tests assignments h.1) refl)

module _ {F : Type 0} (now : ℕ) (jsonb : Payload → Option Payload) (text : Violation → String)
    (sort : List TestDefinition → List TestDefinition)
    (sort-count : (q : TestDefinition → Bool) (tests : List TestDefinition)
      → count q (sort tests) ≡ count q tests) where
  pub list_by_pop-filters :
      (pop : String) (db : Database F)
      → IsKeyed (λ u. u.id) db.tests
      → (tests : List TestDefinition) × (list_by_pop now jsonb text sort pop db ≡ inr tests)
        × ((q : TestDefinition → Bool)
            → count q tests ≡ count q (filter (is_selected pop db.assignments) db.tests))
  unfolding list_by_pop
  list_by_pop-filters pop db h = (
    sort (distinct (join pop db.tests db.assignments)),
    refl,
    λ q.
        sort-count q (distinct (join pop db.tests db.assignments))
        ∙ ap (count q) (distinct-join pop db.tests db.assignments h),
  )

  -- If ORDER BY keeps the rows, each as often, and the ids of the definitions are distinct, ListByPOP
  -- returns exactly the enabled definitions that are assigned to the POP or to all POPs, each of them
  -- once, however many assignments select it: every test counts alike on its answer and on the table's
  -- rows that are chosen, which are the enabled ones that an assignment to the POP or to all names.
  pub list_by_pop-selects :
      (pop : String) (db : Database F)
      → IsKeyed (λ u. u.id) db.tests
      → (chosen : TestDefinition → Bool) × ((t : TestDefinition)
          → (chosen t ≡ true) ↔ IsSelected pop db.assignments t)
        × (tests : List TestDefinition) × (list_by_pop now jsonb text sort pop db ≡ inr tests)
        × ((q : TestDefinition → Bool) → count q tests ≡ count q (filter chosen db.tests))
  list_by_pop-selects pop db h =
      let (tests, answer, same) = list_by_pop-filters pop db h in
      (is_selected pop db.assignments, is_selected_iff pop db.assignments, tests, answer, same)
