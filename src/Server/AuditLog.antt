-- ===== src/Server/AuditLog.antt =====
-- internal/server/repository/postgres/audit.go and internal/server/api/handler/audit.go: the audit log, as
-- the list of its rows, and the handler that lists it. The database can be reached; `sort` is ORDER BY
-- timestamp DESC. Log lines are left out.
pub mod Pages
use netvantage.Prelude.{
  ℕ, zero, suc, Bool, true, false, Option, none, some, List, [], ◌∷◌, ℤ, pos, negsuc, String, ◌⊎◌,
  inl, inr, ◌&&◌, not, leb, ltb, length, ◌==◌, string_eq, if◌then◌else◌,
}
use netvantage.Prelude.Decimal.{atoi}
use netvantage.Transport.{Payload}
use netvantage.Server.Audit.{AuditEntry}
use netvantage.Server.Response.{Error, Response, error_response, write_json, other}
use netvantage.Server.Table.{filter}

-- An entry under the number that the sequence gave it.
pub record Row : Type 0 where
  pub id : ℕ
  pub entry : AuditEntry

pub record AuditLog : Type 0 where
  pub rows : List Row
  pub last_id : ℕ

-- The column change_diff is of type JSONB, the others are of type TEXT: `jsonb` is what PostgreSQL makes
-- of a text, if it is JSON, and `is_text` whether it is one in UTF-8 without a NUL.
abbrev pub stored_diff : (Payload → Option Payload) → Option Payload → Option (Option Payload)
stored_diff jsonb none = some none
stored_diff jsonb (some diff) = elim (jsonb diff) [ none ↦ none | some d ↦ some (some d) ]

abbrev pub has_texts : (String → Bool) → AuditEntry → Bool
has_texts is_text entry =
    is_text entry.actor_id
    && is_text entry.actor_role
    && is_text entry.action
    && is_text entry.resource
    && is_text entry.resource_id
    && is_text entry.source_ip

-- Record; `none` is its error.
unfoldable pub record_entry :
    (Payload → Option Payload) → (String → Bool) → AuditEntry → AuditLog → Option AuditLog
record_entry jsonb is_text entry log =
    if has_texts is_text entry
    then elim (stored_diff jsonb entry.change_diff) [
      | none ↦ none
      | some diff ↦
          let next = suc log.last_id in
          some (record {
            rows = record { id = next; entry = record entry { change_diff = diff } } ∷ log.rows;
            last_id = next;
          })
    ]
    else none

unfoldable pub take : ℕ → List Row → List Row
take zero rows = []
take (suc n) [] = []
take (suc n) (row ∷ rows) = row ∷ take n rows

unfoldable pub drop : ℕ → List Row → List Row
drop zero rows = rows
drop (suc n) [] = []
drop (suc n) (row ∷ rows) = drop n rows

-- The limit of a query, 50 for none.
unfoldable pub or_fifty : ℤ → ℕ
or_fifty (pos zero) = 50
or_fifty (pos (suc n)) = suc n
or_fifty (negsuc n) = 50

abbrev pub is_about : String → String → Row → Bool
is_about resource resource_id row =
    row.entry.resource == resource && row.entry.resource_id == resource_id

-- The handler's limit and offset, from the texts of the query; "" stands for a missing parameter.
abbrev pub page_limit : Option ℤ → ℤ
page_limit none = pos 50
page_limit (some (negsuc n)) = pos 50
page_limit (some (pos n)) = if ltb 0 n && leb n 1_000 then pos n else pos 50

abbrev pub page_offset : Option ℤ → ℤ
page_offset none = pos 0
page_offset (some (negsuc n)) = pos 0
page_offset (some (pos n)) = pos n

unfoldable pub limit_of : String → ℤ
limit_of v = page_limit (atoi v)

unfoldable pub offset_of : String → ℤ
offset_of v = page_offset (atoi v)

-- `refused` is the message of PostgreSQL's error for a negative offset.
module _ (sort : List Row → List Row) (refused : String) where
  unfoldable pub list : ℤ → ℤ → AuditLog → Error ⊎ List Row
  list limit (negsuc n) log = inl (record { kind = other; message = refused })
  list limit (pos offset) log = inr (take (or_fifty limit) (drop offset (sort log.rows)))

  unfoldable pub list_by_resource : String → String → ℤ → AuditLog → Error ⊎ List Row
  list_by_resource resource resource_id limit log =
      inr (take (or_fifty limit) (sort (filter (is_about resource resource_id) log.rows)))

  abbrev pub answer : Error ⊎ List Row → Response (List Row)
  answer (inl err) = error_response err
  answer (inr entries) = write_json 200 entries

  -- The parameters limit, offset, resource and resource_id of the query.
  unfoldable pub list_audit : String → String → String → String → AuditLog → Response (List Row)
  list_audit limit offset resource resource_id log =
      if not (resource == "") && not (resource_id == "")
      then answer (list_by_resource resource resource_id (limit_of limit) log)
      else answer (list (limit_of limit) (offset_of offset) log)
