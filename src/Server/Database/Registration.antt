-- ===== src/Server/Database/Registration.antt =====
-- The Register handler of internal/server/api/handler/agent.go over the repositories of
-- internal/server/repository/postgres: which agents are registered.
use netvantage.Prelude.{
  ℕ, ◌≡◌, ◌≢◌, ◌↔◌, refl, inl, inr, none, some, List, String, ◌||◌, ◌==◌, string_eq, eq_iff, arith,
  Bool-cases, Option-cases, if◌then◌else◌,
}
use netvantage.Server.Table.{find, exists-find-none, exists-find-some}
use netvantage.Server.Pops.{Pop}
use netvantage.Server.Agents.{Agent, RegisterRequest, new_agent, register}
use netvantage.Server.Database.{Database, Violation}
use netvantage.Server.Database.Places.{create_agent, get_pop, pop_repository, agent_repository}
use netvantage.Server.Database.Soundness.{HasPop}

module _ {F : Type 0} (now : ℕ) (text : Violation → String)
    (sort_pops : List (Pop F) → List (Pop F)) (sort_agents : List Agent → List Agent)
    (quote : String → String) where
  -- The handler over the tables.
  abbrev pub register_over : RegisterRequest → Database F → ℕ
  register_over req db =
      (register quote (agent_repository now text sort_pops sort_agents)
        (pop_repository now text sort_pops sort_agents) now (inr req) db).1.status

  -- The handler's answers, by what it finds.
  status_lem :
      (req : RegisterRequest) (db : Database F)
      → register_over req db ≡ (
          if req.id == "" || req.pop_name == ""
          then 400
          else elim (find (λ p. p.name) req.pop_name db.pops) [
            | none ↦ 400
            | some p ↦ elim req.capabilities [
              | none ↦ 500
              | some names ↦ elim (find (λ a. a.id) req.id db.agents) [ none ↦ 201 | some a ↦ 409 ]
            ]
          ])
  unfolding register agent_repository pop_repository get_pop create_agent new_agent
  status_lem req db = elim (Bool-cases (req.id == "" || req.pop_name == "")) [
    | inl bad ↦ ground (arith, bad)
    | inr good ↦ elim (Option-cases (find (λ p. p.name) req.pop_name db.pops)) [
      | inl unknown ↦ ground (arith, good, unknown)
      | inr (p, known) ↦ elim (Option-cases req.capabilities) [
        | inl null ↦ ground (arith, good, known, null)
        | inr (names, given) ↦ elim (Option-cases (find (λ a. a.id) req.id db.agents)) [
          | inr (a, taken) ↦ ground (arith, good, known, given, taken)
          | inl free ↦ ground (
            arith,
            good,
            known,
            given,
            free,
            exists-find-some (λ p. p.name) req.pop_name p db.pops known,
          )
        ]
      ]
    ]
  ]

  -- The Register handler answers 201 exactly if the request has an id and a POP's name, that POP is in
  -- the tables, no agent of them has the id, and the request gives a list of capabilities: one that
  -- leaves it out is never registered, since the list is then NULL.
  pub register-created_iff :
      (req : RegisterRequest) (db : Database F)
      → (register_over req db ≡ 201) ↔ (
          (req.id ≢ "")
          × (req.pop_name ≢ "")
          × HasPop db.pops req.pop_name
          × (find (λ a. a.id) req.id db.agents ≡ none)
          × ((names : List String) × (req.capabilities ≡ some names)))
  register-created_iff req db =
      rw (status_lem req db) (elim (Option-cases (find (λ p. p.name) req.pop_name db.pops)) [
        | inl unknown ↦ rw unknown (
          λ e. absurd (ground arith),
          λ (id, pop, there, free, given). absurd (
              let gone = exists-find-none (λ p. p.name) req.pop_name db.pops unknown in
              ground arith),
        )
        | inr (p, known) ↦
            let there = exists-find-some (λ p. p.name) req.pop_name p db.pops known in
            elim (Option-cases req.capabilities) [
              | inl null ↦ rw known (
                  rw null (λ e. absurd (ground arith), λ (id, pop, there, free, given). cc given.1))
              | inr (names, given) ↦ elim (Option-cases (find (λ a. a.id) req.id db.agents)) [
                | inr (a, taken) ↦ rw known (
                    rw given (
                      rw taken
                        (λ e. absurd (ground arith), λ (id, pop, there, free, given). cc free)))
                | inl free ↦ rw known (
                    rw given (
                      rw free (
                        λ e. (
                          ground (arith, eq_iff req.id ""),
                          ground (arith, eq_iff req.pop_name ""),
                          there,
                          refl,
                          (names, refl),
                        ),
                        λ (id, pop, there, free, given).
                            ground (arith, eq_iff req.id "", eq_iff req.pop_name ""),
                      )))
              ]
            ]
      ])
