-- ===== src/Server/Router/Audited/Trail.antt =====
-- What a change of the tables leaves in the audit log.
use mathlib.Core.Path.{subst}
use netvantage.Prelude.{
  ℕ, Bool-cases, false, ◌≤◌, ◌<◌, ◌≡◌, ◌⊎◌, refl, sym, ap, inl, inr, Option, none, some, true, [],
  ◌∷◌, Option-cases, arith,
}
use netvantage.Transport.{Payload}
use netvantage.Server.Auth.{ApiKey}
use netvantage.Server.Audit.{AuditEntry, write_header, entry_of, audit}
use netvantage.Server.Audit.Recorded.{
  IsMutation, is_informational, client_status, audit-recorded_iff,
}
use netvantage.Server.AuditLog.{AuditLog, record_entry, has_texts}
use netvantage.Server.Database.{Database}
use netvantage.Server.Routes.{
  Call, register_agent, list_agents, get_agent, delete_agent, heartbeat, config_sync, create_pop,
  list_pops, get_pop, delete_pop, create_test, list_tests, get_test, update_test, delete_test,
  assign_test, list_entries, route_of, Target, healthz, api, api_miss, miss, Incoming,
}
use netvantage.Server.Router.{World, Server, dispatch, request_of, recorded, handled, routed, serve}
use netvantage.Server.Router.Guarded.{HasKey, guarded-key, serve_cases}
use netvantage.Server.Router.Audited.{
  register-Succeeds, heartbeat-Succeeds, delete_agent-Succeeds, create_pop-Succeeds,
  delete_pop-Succeeds, create_test-Succeeds, update_test-Succeeds, delete_test-Succeeds,
  assign_test-Succeeds,
}

module _ {F : Type 0} (w : World F) where
  -- A call that changes the tables is one of a mutating method, and its answer is a success.
  abbrev Shows : Database F → Call F → Database F × ℕ → Type 0
  Shows db call (db', status) =
      (db' ≡ db) ⊎ (IsMutation (route_of call).method × (200 ≤ status) × (status < 400))

  shown :
      (db : Database F) (call : Call F) (out : Database F × ℕ)
      → IsMutation (route_of call).method
      → (out.0 ≡ db) ⊎ ((200 ≤ out.1) × (out.1 < 400))
      → Shows db call out
  shown db call out m (inl e) = inl e
  shown db call out m (inr (low, high)) = inr (m, low, high)

  dispatch-Shows :
      (now : ℕ) (log : AuditLog) (call : Call F) (db : Database F)
      → Shows db call (dispatch w now log call db)
  unfolding dispatch route_of
  dispatch-Shows now log (register_agent body) db =
      shown db (register_agent body) _ (inl refl)
        (register-Succeeds now w.text w.sort_pops w.sort_agents w.quote body db)
  dispatch-Shows now log (heartbeat id body) db =
      shown db (heartbeat id body) _ (inl refl)
        (heartbeat-Succeeds now w.text w.sort_pops w.sort_agents id body db)
  dispatch-Shows now log list_agents db = inl refl
  dispatch-Shows now log (get_agent id) db = inl refl
  dispatch-Shows now log (delete_agent id) db =
      shown db (delete_agent id) _ (inr (inr (inr refl)))
        (delete_agent-Succeeds now w.text w.sort_pops w.sort_agents id db)
  dispatch-Shows now log (config_sync id pop) db = inl refl
  dispatch-Shows now log (create_pop body) db =
      shown db (create_pop body) _ (inl refl)
        (create_pop-Succeeds now w.text w.sort_pops w.sort_agents body db)
  dispatch-Shows now log list_pops db = inl refl
  dispatch-Shows now log (get_pop name) db = inl refl
  dispatch-Shows now log (delete_pop name) db =
      shown db (delete_pop name) _ (inr (inr (inr refl)))
        (delete_pop-Succeeds now w.text w.sort_pops w.sort_agents name db)
  dispatch-Shows now log (create_test body) db =
      shown db (create_test body) _ (inl refl)
        (create_test-Succeeds now w.jsonb w.text w.sort_tests w.sort_assignments w.quote body db)
  dispatch-Shows now log list_tests db = inl refl
  dispatch-Shows now log (get_test id) db = inl refl
  dispatch-Shows now log (update_test id body) db =
      shown db (update_test id body) _ (inr (inl refl))
        (update_test-Succeeds now w.jsonb w.text w.sort_tests w.sort_assignments w.quote id body db)
  dispatch-Shows now log (delete_test id) db =
      shown db (delete_test id) _ (inr (inr (inr refl)))
        (delete_test-Succeeds now w.jsonb w.text w.sort_tests w.sort_assignments w.quote id db)
  dispatch-Shows now log (assign_test id body) db =
      shown db (assign_test id body) _ (inl refl)
        (assign_test-Succeeds now w.jsonb w.text w.sort_tests w.sort_assignments w.quote id body db)
  dispatch-Shows now log (list_entries limit offset resource resource_id) db = inl refl

  -- The table of the log refuses an entry: one of its texts is none, or the body in it is no JSON.
  abbrev pub IsRefused : AuditEntry → Type 0
  IsRefused entry =
      (has_texts w.is_text entry ≡ false)
      ⊎ ((diff : Payload) × (entry.change_diff ≡ some diff) × (w.jsonb diff ≡ none))

  -- What Record makes of an entry: a row of the log, or nothing if the table refuses it.
  abbrev pub IsKept : AuditEntry → AuditLog → AuditLog → Type 0
  IsKept entry log log' =
      (record_entry w.jsonb w.is_text entry log ≡ some log') ⊎ (IsRefused entry × (log' ≡ log))

  not_json :
      (entry : AuditEntry) (log : AuditLog) (diff : Option Payload)
      → has_texts w.is_text entry ≡ true
      → entry.change_diff ≡ diff
      → record_entry w.jsonb w.is_text entry log ≡ none
      → (d : Payload) × (entry.change_diff ≡ some d) × (w.jsonb d ≡ none)
  unfolding record_entry
  not_json entry log none good e failed =
      cc (rw (e, record_entry) at (rw (good, record_entry) at failed))
  not_json entry log (some d) good e failed = elim (Option-cases (w.jsonb d)) [
    | inl refused ↦ (d, e, refused)
    | inr (stored, taken) ↦
        cc (
          rw (taken, record_entry) at (rw (e, record_entry) at (rw (good, record_entry) at failed)))
  ]

  record_entry-IsRefused :
      (entry : AuditEntry) (log : AuditLog)
      → record_entry w.jsonb w.is_text entry log ≡ none
      → IsRefused entry
  record_entry-IsRefused entry log failed = elim (Bool-cases (has_texts w.is_text entry)) [
    | inr bad ↦ inl bad
    | inl good ↦ inr (not_json entry log entry.change_diff good refl failed)
  ]

  recorded-IsKept :
      (entry : AuditEntry) (log : AuditLog)
      → IsKept entry log (recorded w.jsonb w.is_text (some entry) log)
  recorded-IsKept entry log = elim (Option-cases (record_entry w.jsonb w.is_text entry log)) [
    | inl failed ↦ inr (record_entry-IsRefused entry log failed, rw (failed, recorded) refl)
    | inr (stored, e) ↦ inl (rw (e, recorded) refl)
  ]

  -- What the tables and the log show of a request that a key has let in.
  abbrev Trailed : Server F → Incoming F → Target F → Server F → Type 0
  Trailed s r t s' =
      (s'.db ≡ s.db)
      ⊎ ((key : ApiKey) × (call : Call F) × (entry : AuditEntry) × (t ≡ api call)
          × HasKey w s r key
          × IsKept entry s.log s'.log
          × (entry ≡ entry_of r.now (request_of w r key call))
          × (entry.actor_id ≡ key.id)
          × (entry.actor_role ≡ key.role))

  handled-Trailed :
      (s : Server F) (r : Incoming F) (key : ApiKey) (call : Call F)
      → HasKey w s r key
      → Trailed s r (api call) (handled w s r key call).0
  unfolding handled
  handled-Trailed s r key call has = elim (dispatch-Shows r.now s.log call s.db) [
    | inl same ↦ inl same
    | inr (mutates, low, high) ↦
        let status = (dispatch w r.now s.log call s.db).1 in
        let final : is_informational status ≡ false = ground arith in
        let kept : audit r.now (request_of w r key call) (write_header status ∷ [])
            ≡ some (entry_of r.now (request_of w r key call)) =
          (audit-recorded_iff r.now (request_of w r key call) (write_header status ∷ [])
              (entry_of r.now (request_of w r key call)) (final, tt)).1
            (
              unfold request_of in mutates,
              unfold client_status in rw final low,
              unfold client_status in rw final high,
              refl,
            ) in
        inr (
          key,
          call,
          entry_of r.now (request_of w r key call),
          refl,
          has,
          subst
              (λ o.
                IsKept (entry_of r.now (request_of w r key call)) s.log
                  (recorded w.jsonb w.is_text o s.log))
              (sym kept) (recorded-IsKept (entry_of r.now (request_of w r key call)) s.log),
          refl,
          unfold entry_of request_of in refl,
          unfold entry_of request_of in refl,
        )
  ]

  routed-Trailed : (s : Server F) (r : Incoming F) (t : Target F) → Trailed s r t (routed w s r t).0
  unfolding routed
  routed-Trailed s r healthz = inl refl
  routed-Trailed s r (api call) = elim (guarded-key w s r (λ key. handled w s r key call)) [
    | inl denied ↦ inl (ap (λ o. o.0.db) denied)
    | inr (key, has, e) ↦
        subst (λ o. Trailed s r (api call) o.0) (sym e) (handled-Trailed s r key call has)
  ]
  routed-Trailed s r (api_miss m) = elim (guarded-key w s r _) [
    | inl denied ↦ inl (ap (λ o. o.0.db) denied)
    | inr (key, has, e) ↦ inl (ap (λ o. o.0.db) e)
  ]
  routed-Trailed s r (miss m) = inl refl

  -- If the server answers a request, then the tables stay as they are, or the request is for a route under
  -- /api/v1, presents a stored key that has not expired, and its entry, with the id and the role of that
  -- key, is one more row of the audit log; but if the table refuses the entry, since the body that it
  -- holds is no JSON or a text of it is not one in UTF-8 without a NUL, the log stays as it is.
  pub serve-audited :
      (s s' : Server F) (r : Incoming F) (status : ℕ)
      → serve w s r ≡ some (s', status)
      → (s'.db ≡ s.db)
        ⊎ ((key : ApiKey) × (call : Call F) × (entry : AuditEntry) × (r.target ≡ api call)
            × HasKey w s r key
            × IsKept entry s.log s'.log
            × (entry ≡ entry_of r.now (request_of w r key call))
            × (entry.actor_id ≡ key.id)
            × (entry.actor_role ≡ key.role))
  serve-audited s s' r status h =
      let (limiter, answered) = serve_cases w s s' r status h in
      elim answered [
        | inl e ↦
            subst (λ o. Trailed s r r.target o.0) e
              (routed-Trailed (record s { limiter = limiter }) r r.target)
        | inr e ↦ inl (sym (ap (λ o. o.0.db) e))
      ]
