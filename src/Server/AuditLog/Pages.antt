-- ===== src/Server/AuditLog/Pages.antt =====
-- The pages of the audit log that the handler of internal/server/api/handler/audit.go answers.
use netvantage.Prelude.{
  ℕ, zero, suc, ◌<◌, ◌≤◌, ◌≡◌, refl, Option, none, some, List, [], ◌∷◌, ℤ, pos, negsuc, String, inl,
  inr, ◌&&◌, not, length, ◌==◌, string_eq, arith, Bool-cases, ◌^◌,
}
use netvantage.Prelude.Decimal.{itoa, atoi}
use netvantage.Prelude.Decimal.RoundTrip.{atoi-itoa}
use netvantage.Server.Response.{Response, write_json}
use netvantage.Server.AuditLog.{
  Row, AuditLog, take, drop, or_fifty, page_limit, page_offset, limit_of, offset_of, list,
  list_by_resource, answer, list_audit,
}

length-take : (n : ℕ) (rows : List Row) → length (take n rows) ≤ n
unfolding take
length-take zero rows = omega arith
length-take (suc n) [] = omega arith
length-take (suc n) (row ∷ rows) = omega (arith, length-take n rows)

page_limit-bound : (o : Option ℤ) → or_fifty (page_limit o) ≤ 1_000
unfolding or_fifty
page_limit-bound none = omega arith
page_limit-bound (some (negsuc n)) = omega arith
page_limit-bound (some (pos zero)) = omega arith
page_limit-bound (some (pos (suc n))) = ground arith

-- A page within the limits.
abbrev pub IsPage : Response (List Row) → Type 0
IsPage answered = (rows : List Row) × (answered ≡ write_json 200 rows) × (length rows ≤ 1_000)

take-IsPage :
    (v : String) (rows : List Row) → IsPage (write_json 200 (take (or_fifty (limit_of v)) rows))
unfolding limit_of
take-IsPage v rows = (
  take (or_fifty (page_limit (atoi v))) rows,
  refl,
  omega (arith, length-take (or_fifty (page_limit (atoi v))) rows, page_limit-bound (atoi v)),
)

or_fifty-positive : (n : ℕ) → 0 < n → or_fifty (pos n) ≡ n
unfolding or_fifty
or_fifty-positive zero h = absurd (omega arith)
or_fifty-positive (suc n) h = refl

limit_of-itoa : (n : ℕ) → 0 < n → n ≤ 1_000 → limit_of (itoa (pos n)) ≡ pos n
unfolding limit_of
limit_of-itoa n low high = rw (atoi-itoa (pos n) (ground arith), limit_of) (ground arith)

offset_of-itoa : (n : ℕ) → n < 2 ^ 63 → offset_of (itoa (pos n)) ≡ pos n
unfolding offset_of
offset_of-itoa n high = rw (atoi-itoa (pos n) (ground arith), offset_of) refl

module _ (sort : List Row → List Row) (refused : String) where
  list-IsPage :
      (v : String) (o : Option ℤ) (log : AuditLog)
      → IsPage (answer sort refused (list sort refused (limit_of v) (page_offset o) log))
  unfolding list
  list-IsPage v none log = take-IsPage v _
  list-IsPage v (some (negsuc n)) log = take-IsPage v _
  list-IsPage v (some (pos n)) log = take-IsPage v _

  -- Whatever the texts of the query, the handler answers 200 with at most 1,000 entries.
  pub list_audit-IsPage :
      (limit offset resource resource_id : String) (log : AuditLog)
      → IsPage (list_audit sort refused limit offset resource resource_id log)
  unfolding list_audit
  list_audit-IsPage limit offset resource resource_id log =
      elim (Bool-cases (not (resource == "") && not (resource_id == ""))) [
        | inl named ↦ rw (named, list_audit) (unfold list_by_resource in take-IsPage limit _)
        | inr all ↦ rw (all, list_audit) (unfold offset_of in list-IsPage limit (atoi offset) log)
      ]

  -- The limit and the offset that a query gives in decimal digits are those of the page, for a limit from
  -- 1 to 1,000 and an offset that is an int64, if the query names no resource.
  pub list_audit-itoa :
      (limit offset : ℕ) (resource_id : String) (log : AuditLog)
      → 0 < limit
      → limit ≤ 1_000
      → offset < 2 ^ 63
      → list_audit sort refused (itoa (pos limit)) (itoa (pos offset)) "" resource_id log
        ≡ write_json 200 (take limit (drop offset (sort log.rows)))
  unfolding list_audit list
  list_audit-itoa limit offset resource_id log low high fits =
      rw (limit_of-itoa limit low high, list_audit)
        (rw (offset_of-itoa offset fits, list_audit) (rw (or_fifty-positive limit low) refl))
