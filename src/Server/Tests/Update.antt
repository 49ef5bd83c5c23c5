-- ===== src/Server/Tests/Update.antt =====
-- What the Update handler merges, and what it lets into the store.
use netvantage.Prelude.{
  ◌<◌, ◌≡◌, ◌≢◌, inl, inr, true, Option, none, some, String, ℤ, pos_part, string_eq, eq_iff, arith,
  Bool-cases, Sum-cases,
}
use netvantage.Server.Tests.{
  TestDefinition, Repositories, UpdateTestRequest, or_default, or_keep, merge, accepts_type,
  update_existing, update,
}
use netvantage.Server.Tests.Create.{IsRunnable, valid_test_types_iff}

-- A number that a request gives is above 0.
abbrev pub IsPositiveIfGiven : Option ℤ → Type 0
IsPositiveIfGiven none = Unit
IsPositiveIfGiven (some n) = 0 < pos_part n

given_positive :
    (o : Option ℤ) (n : ℤ) → IsPositiveIfGiven o → 0 < pos_part n → 0 < pos_part (or_default o n)
given_positive none n given h = h
given_positive (some m) n given h = given

kept_filled : (new old : String) → old ≢ "" → or_keep new old ≢ ""
kept_filled new old h = ground (arith, eq_iff new "")

-- Merging an accepted request whose interval and timeout, where given, are above 0 into a definition
-- that can be run gives one that can be run.
pub merge-IsRunnable :
    (req : UpdateTestRequest) (t : TestDefinition)
    → accepts_type req ≡ true
    → IsPositiveIfGiven req.interval_ms
    → IsPositiveIfGiven req.timeout_ms
    → IsRunnable t
    → IsRunnable (merge req t)
unfolding merge
merge-IsRunnable req t accepted interval timeout h =
    let (id, name, type, target, interval', timeout') = h in
    (
      id,
      kept_filled req.name t.name name,
      ground (arith, eq_iff req.test_type "", valid_test_types_iff req.test_type),
      kept_filled req.target t.target target,
      given_positive req.interval_ms t.interval_ms interval interval',
      given_positive req.timeout_ms t.timeout_ms timeout timeout',
    )

module _ {ℓ} {S : Type ℓ} (quote : String → String) (repos : Repositories S) where
  -- If the stored definitions can all be run, and the request's interval and timeout, where given,
  -- are above 0, the Update handler keeps every property of the store that the repository keeps
  -- when it takes a definition that can be run.
  pub update-Inv {κ} :
      (Inv : S → Type κ)
      → ((t : TestDefinition) (s : S) → IsRunnable t → Inv s → Inv (repos.update_test t s).0)
      → ((id : String) (s : S) (t : TestDefinition)
          → Inv s
          → repos.get_test id s ≡ inr t
          → IsRunnable t)
      → (id : String) (req : UpdateTestRequest) (s : S) → IsPositiveIfGiven req.interval_ms
      → IsPositiveIfGiven req.timeout_ms
      → Inv s
      → Inv (update quote repos id (inr req) s).0
  unfolding update update_existing
  update-Inv Inv stores reads id req s interval timeout h = elim (Sum-cases (repos.get_test id s)) [
    | inl (err, missing) ↦ rw (missing, update) h
    | inr (t, stored) ↦
        rw (stored, update)
          (elim (Bool-cases (accepts_type req)) [
            | inr refused ↦ rw (refused, update_existing) h
            | inl accepted ↦
                rw (accepted, update_existing)
                  (stores (merge req t) s
                    (merge-IsRunnable req t accepted interval timeout (reads id s t h stored)) h)
          ])
  ]
