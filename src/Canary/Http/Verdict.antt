-- ===== src/Canary/Http/Verdict.antt =====
-- When the HTTP canary of internal/agent/canary/http gives a result, and when that is a success.
use netvantage.Prelude.{
  ℕ, suc, ◌≡◌, ◌↔◌, ◌⊎◌, refl, inl, inr, Bool, true, Option, none, some, List, [], ◌∷◌, pos_part,
  String, ◌&&◌, ◌==◌, int_eq, string_eq, eq_iff, int_beq_iff, arith, Bool-cases, Option-cases,
  Sum-cases, ap, sym, ◌∙◌,
}
use netvantage.Prelude.Text.{contains}
use netvantage.Transport.{Payload}
use netvantage.Canary.{TestDefinition, Result}
use netvantage.Canary.Float.{Float}
use netvantage.Canary.Traceroute.{Raw}
use netvantage.Canary.Http.{
  Config, Fields, Response, Certificate, TlsState, Outcome, client_do, content_matches, configured,
}
use netvantage.Canary.Http.Redirects.{client_do-ends}
use netvantage.Canary.Http.Run.{
  Metrics, World, with_certificate, with_tls, build_metrics, read_response, do_request, verdict,
  result_of, execute,
}

-- A body holds the text and matches the expression that the configuration asks for, each if it does.
abbrev pub IsExpected : (String → Option (String → Bool)) → Config → String → Type 0
IsExpected compile cfg body =
    ((cfg.content_match ≡ "") ⊎ (contains cfg.content_match body ≡ true))
    × ((cfg.content_regex ≡ "")
        ⊎ ((matches : String → Bool) × (compile cfg.content_regex ≡ some matches)
            × (matches body ≡ true)))

content_matches_iff :
    (compile : String → Option (String → Bool)) (cfg : Config) (body : String)
    → (content_matches compile cfg body ≡ true) ↔ IsExpected compile cfg body
unfolding content_matches
content_matches_iff compile cfg body =
    let text = eq_iff cfg.content_match "" in
    let regex = eq_iff cfg.content_regex "" in
    elim (Option-cases (compile cfg.content_regex)) [
      | inl invalid ↦ (
        λ h. (ground arith, inl (ground arith)),
        λ (found, matched). elim matched [
          | inl none_given ↦ ground arith
          | inr (matches, compiled, passes) ↦ cc
        ],
      )
      | inr (matches, compiled) ↦ (
        λ h. (
          ground arith,
          elim (Bool-cases (cfg.content_regex == "")) [
            | inl none_given ↦ inl (regex.0 none_given)
            | inr given ↦ inr (matches, compiled, ground arith)
          ],
        ),
        λ (found, matched). elim matched [
          | inl none_given ↦ ground arith
          | inr (matches', compiled', passes) ↦
              let same : matches ≡ matches' = cc in
              let passes' : matches body ≡ true = rw same passes in ground arith
        ],
      )
    ]

module _ {F : Type 0} (float : Float F) (world : World F) where
  -- A response with the expected status and body.
  abbrev pub IsGood : Config → Outcome → Type 0
  IsGood cfg outcome =
      (resp : Response) × (body : String) × (outcome.answer ≡ inr resp)
      × (resp.body ≡ inr body)
      × (resp.status_code ≡ cfg.expected_status)
      × IsExpected world.compile cfg body

  with_certificate-status :
      (certs : List Certificate) (m : Metrics F)
      → (with_certificate float world certs m).status_code ≡ m.status_code
  unfolding with_certificate
  with_certificate-status [] m = refl
  with_certificate-status (cert ∷ certs) m = refl

  with_tls-status :
      (state : Option TlsState) (m : Metrics F)
      → (with_tls float world state m).status_code ≡ m.status_code
  unfolding with_tls with_certificate
  with_tls-status none m = refl
  with_tls-status (some state) m = with_certificate-status state.peer_certificates _

  result_of-success :
      (marshal : Metrics F → Option Payload) (now elapsed : ℕ) (test : TestDefinition)
      (cfg : Config) (outcome : Outcome) (resp : Response) (body : String)
      → (result_of float world marshal now elapsed test cfg
          (inr (build_metrics float world cfg outcome resp body))).success
        ≡ (resp.status_code == cfg.expected_status && content_matches world.compile cfg body)
  unfolding result_of verdict build_metrics
  result_of-success marshal now elapsed test cfg outcome resp body =
      ap (λ status. status == cfg.expected_status && content_matches world.compile cfg body)
        (with_tls-status resp.tls _)

  result_of_iff :
      (marshal : Metrics F → Option Payload) (now elapsed : ℕ) (test : TestDefinition)
      (cfg : Config) (outcome : Outcome) (answer : String ⊎ Response)
      → outcome.answer ≡ answer
      → ((result_of float world marshal now elapsed test cfg
            (read_response float world cfg outcome answer)).success
          ≡ true)
        ↔ IsGood cfg outcome
  unfolding result_of read_response verdict build_metrics
  result_of_iff marshal now elapsed test cfg outcome (inl e) h =
      (λ failed. cc, λ (resp, body, answered, read, status, expected). cc)
  result_of_iff marshal now elapsed test cfg outcome (inr resp) h = elim (Sum-cases resp.body) [
    | inl (e, unread) ↦ (
      λ good. cc (rw (unread, result_of) at good),
      λ (resp', body, answered, read, status, expected).
          let same : resp ≡ resp' = cc in cc (unread, ap (λ r. r.body) same, read),
    )
    | inr (body, read) ↦
        let opened : read_response float world cfg outcome (inr resp)
            ≡ inr (build_metrics float world cfg outcome resp body) =
          simp (read, read_response) refl in
        let success =
          ap (λ m. (result_of float world marshal now elapsed test cfg m).success) opened
          ∙ result_of-success marshal now elapsed test cfg outcome resp body in
        let status = int_beq_iff resp.status_code cfg.expected_status in
        let content = content_matches_iff world.compile cfg body in
        (
          λ good.
              let both : (resp.status_code == cfg.expected_status
                    && content_matches world.compile cfg body)
                  ≡ true =
                sym success ∙ good in
              (resp, body, h, read, status.0 (ground arith), content.0 (ground arith)),
          λ (resp', body', answered, read', status', expected).
              let same : resp' ≡ resp = cc in
              let same_body : body' ≡ body = cc (read, ap (λ r. r.body) same, read') in
              let right : resp.status_code ≡ cfg.expected_status =
                sym (ap (λ r. r.status_code) same) ∙ status' in
              let right' : IsExpected world.compile cfg body = rw same_body at expected in
              success ∙ rw (status.1 right) (rw (content.1 right') refl),
        )
  ]

  -- For a configuration that decodes and a request that can be built, the canary always returns a
  -- result, never an error and never without end, and the result is a success exactly if the exchange
  -- ended with a response of the expected status whose body could be read, holds the configured text
  -- and matches the configured expression (each if there is one).
  pub execute-success_iff :
      (marshal : Metrics F → Option Payload) (now elapsed : ℕ) (test : TestDefinition)
      (raw : Raw Fields) (cfg : Config)
      → configured raw ≡ some cfg
      → world.build_error ≡ none
      → (outcome : Outcome) × (result : Result F) × (client_do world.fetch
            (suc (pos_part cfg.max_redirects))
            cfg
            test.target
            0
            []
          ≡ some outcome)
        × (execute float world marshal now elapsed test raw ≡ some (inr result))
        × ((result.success ≡ true) ↔ IsGood cfg outcome)
  unfolding execute do_request
  execute-success_iff marshal now elapsed test raw cfg decoded built =
      let (outcome, ended, bound) = client_do-ends world.fetch cfg test.target in
      (
        outcome,
        result_of float world marshal now elapsed test cfg
            (read_response float world cfg outcome outcome.answer),
        ended,
        simp (decoded, built, ended, execute, do_request) refl,
        result_of_iff marshal now elapsed test cfg outcome outcome.answer refl,
      )
