-- ===== src/Server/Tests/Create.antt =====
-- What the Create handler accepts, and what it sends to the repository.
use netvantage.Prelude.{
  ◌<◌, ◌≡◌, ◌≢◌, ◌↔◌, ◌⊎◌, refl, inl, inr, true, false, none, List, [], ◌∷◌, String, ℤ, pos, negsuc,
  pos_part, string_eq, eq_iff, arith, Option-cases,
}
use netvantage.Server.Response.{
  ErrorKind, not_found, already_exists, invalid_input, unauthorized, forbidden, other, error_status,
}
use netvantage.Server.Tests.{
  TestDefinition, Repositories, CreateTestRequest, valid_test_types, validate_create_request,
  new_test, is_positive, assign_all, assign_pops, create,
}

abbrev pub IsTestType : String → Type 0
IsTestType t = (t ≡ "ping") ⊎ (t ≡ "dns") ⊎ (t ≡ "http") ⊎ (t ≡ "traceroute")

-- What an agent needs to run a test: an id and a name, a known type, a target, and an interval and a
-- timeout above 0.
abbrev pub IsRunnable : TestDefinition → Type 0
IsRunnable t =
    (t.id ≢ "")
    × (t.name ≢ "")
    × IsTestType t.test_type
    × (t.target ≢ "")
    × (0 < pos_part t.interval_ms)
    × (0 < pos_part t.timeout_ms)

pub valid_test_types_iff : (t : String) → (valid_test_types t ≡ true) ↔ IsTestType t
valid_test_types_iff t =
    ground (arith, eq_iff t "ping", eq_iff t "dns", eq_iff t "http", eq_iff t "traceroute")

positive_iff : (n : ℤ) → (is_positive n ≡ true) ↔ (0 < pos_part n)
positive_iff (pos n) = ground arith
positive_iff (negsuc n) = ground arith

empty_iff : (s : String) → (string_eq.beq s "" ≡ false) ↔ (s ≢ "")
empty_iff s = ground (arith, eq_iff s "")

-- The guards of Create let a request through exactly if its definition can be run.
pub validate_create_request_iff :
    (quote : String → String) (req : CreateTestRequest)
    → (validate_create_request quote req ≡ none) ↔ IsRunnable (new_test req)
unfolding validate_create_request new_test
validate_create_request_iff quote req = ground (
  arith,
  empty_iff req.id,
  empty_iff req.name,
  empty_iff req.target,
  valid_test_types_iff req.test_type,
  positive_iff req.interval_ms,
  positive_iff req.timeout_ms,
)

error_status-not_created : (k : ErrorKind) → error_status k ≢ 201
error_status-not_created not_found = omega arith
error_status-not_created already_exists = omega arith
error_status-not_created invalid_input = omega arith
error_status-not_created unauthorized = omega arith
error_status-not_created forbidden = omega arith
error_status-not_created other = omega arith

module _ {ℓ} {S : Type ℓ} (quote : String → String) (repos : Repositories S) where
  -- The Create handler answers 201 exactly if the body decodes to a request for a definition that can
  -- be run and the repository takes that definition.
  pub create-created_iff :
      (body : String ⊎ CreateTestRequest) (s : S)
      → ((create quote repos body s).1.status ≡ 201) ↔ (
          (req : CreateTestRequest) × (body ≡ inr req)
          × IsRunnable (new_test req)
          × ((repos.create_test (new_test req) s).1 ≡ none))
  unfolding create
  create-created_iff (inl text) s = (λ h. absurd (omega arith), λ (req, e, runs, taken). cc)
  create-created_iff (inr req) s = elim (Option-cases (validate_create_request quote req)) [
    | inr (err, bad) ↦ (
      λ h. absurd (error_status-not_created err.kind (rw (bad, create) at h)),
      λ (req', e, runs, taken).
          let same : req ≡ req' = cc in
          let good = (validate_create_request_iff quote req).1 (rw same runs) in cc,
    )
    | inl good ↦ elim (Option-cases (repos.create_test (new_test req) s).1) [
      | inr (err, failed) ↦ (
        λ h.
            absurd
              (error_status-not_created err.kind (rw (failed, create) at (rw (good, create) at h))),
        λ (req', e, runs, taken).
            let same : req ≡ req' = cc in
            let unfailed : (repos.create_test (new_test req) s).1 ≡ none = rw same taken in cc,
      )
      | inl taken ↦ (
        λ h. (req, refl, (validate_create_request_iff quote req).0 good, taken),
        λ h. rw (good, create) (rw (taken, create) refl),
      )
    ]
  ]

  -- The definitions that reach the repository.
  module _ {κ} (Inv : S → Type κ)
      (create_test-Inv : (t : TestDefinition) (s : S)
        → IsRunnable t
        → Inv s
        → Inv (repos.create_test t s).0)
      (assign-Inv : (id pop : String) (s : S) → Inv s → Inv (repos.assign id pop s).0) where
    assign_all-Inv :
        (id : String) (pops : List String) (s : S) → Inv s → Inv (assign_all quote repos id pops s)
    unfolding assign_all
    assign_all-Inv id [] s h = h
    assign_all-Inv id (pop ∷ pops) s h =
        assign_all-Inv id pops (repos.assign id pop s).0 (assign-Inv id pop s h)

    pub assign_pops-Inv :
        (id : String) (pops : List String) (s : S) → Inv s → Inv (assign_pops quote repos id pops s)
    unfolding assign_pops
    assign_pops-Inv id [] s h = assign-Inv id "" s h
    assign_pops-Inv id (pop ∷ pops) s h = assign_all-Inv id (pop ∷ pops) s h

    -- The Create handler keeps every property of the store that the repository keeps when it takes a
    -- definition that can be run or an assignment, whatever the body.
    pub create-Inv :
        (body : String ⊎ CreateTestRequest) (s : S) → Inv s → Inv (create quote repos body s).0
    unfolding create
    create-Inv (inl text) s h = h
    create-Inv (inr req) s h = elim (Option-cases (validate_create_request quote req)) [
      | inr (err, bad) ↦ rw (bad, create) h
      | inl good ↦
          let stored =
            create_test-Inv (new_test req) s ((validate_create_request_iff quote req).0 good) h in
          elim (Option-cases (repos.create_test (new_test req) s).1) [
            | inr (err, failed) ↦ rw (good, create) (rw (failed, create) stored)
            | inl taken ↦
                rw (good, create) (rw (taken, create) (assign_pops-Inv req.id req.pops _ stored))
          ]
    ]
