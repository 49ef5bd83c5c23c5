-- ===== src/Server/Audit/Recorded.antt =====
-- Which requests have an entry passed to Record, and what the entry holds.
use Prim.Native.String.{◌++◌}
use netvantage.Prelude.{
  ℕ, ◌≤◌, ◌<◌, ◌≡◌, ◌↔◌, ◌⊎◌, refl, Bool, true, false, some, All, not, leb, ltb, ◌&&◌, ◌==◌, nat_eq,
  if◌then◌else◌, List, [], ◌∷◌, String, string_eq, eq_iff, arith,
}
use netvantage.Prelude.Text.{IsFreeOf, before_last-colon}
use netvantage.Server.Audit.{
  WriterCall, write_header, write, call_all, new_status_writer, is_mutation, Request, AuditEntry,
  extract_ip, entry_of, audit,
}

-- A status that net/http sends ahead of the answer: 1xx, but for 101.
abbrev pub is_informational : ℕ → Bool
is_informational code = leb 100 code && ltb code 200 && not (code == 101)

-- The status that the client gets from these calls, by the contract of http.ResponseWriter: that of
-- the first WriteHeader that is not informational, unless a Write came before it, which sends 200, as
-- does the end of a handler without either.
unfoldable pub client_status : List WriterCall → ℕ
client_status [] = 200
client_status (write_header code ∷ calls) =
    let later = client_status calls in if is_informational code then later else code
client_status (write b ∷ calls) = 200

-- A call is no WriteHeader with an informational status.
abbrev pub IsFinal : WriterCall → Type 0
IsFinal (write_header code) = is_informational code ≡ false
IsFinal (write b) = Unit

written_stays :
    (calls : List WriterCall) (status : ℕ)
    → (call_all calls (record { status = status; written = true })).status ≡ status
unfolding call_all
written_stays [] status = refl
written_stays (write_header code ∷ calls) status = written_stays calls status
written_stays (write b ∷ calls) status = written_stays calls status

-- The status writer reports the status that the client gets, if no status is informational.
call_all-status :
    (calls : List WriterCall)
    → All IsFinal calls
    → (call_all calls new_status_writer).status ≡ client_status calls
unfolding call_all client_status
call_all-status [] final = refl
call_all-status (write_header code ∷ calls) final = rw final.0 (written_stays calls code)
call_all-status (write b ∷ calls) final = written_stays calls 200

abbrev pub IsMutation : String → Type 0
IsMutation m = (m ≡ "POST") ⊎ (m ≡ "PUT") ⊎ (m ≡ "PATCH") ⊎ (m ≡ "DELETE")

is_mutation_iff : (m : String) → (is_mutation m ≡ true) ↔ IsMutation m
is_mutation_iff m =
    ground (arith, eq_iff m "POST", eq_iff m "PUT", eq_iff m "PATCH", eq_iff m "DELETE")

-- For a handler that writes no informational status, the middleware passes an entry to Record exactly if
-- the request's method is POST, PUT, PATCH or DELETE and the status that the client gets is at least 200
-- and below 400; the entry is that of the request.
pub audit-recorded_iff :
    (now : ℕ) (r : Request) (calls : List WriterCall) (entry : AuditEntry)
    → All IsFinal calls
    → (audit now r calls ≡ some entry) ↔ (
        IsMutation r.method
        × (200 ≤ client_status calls)
        × (client_status calls < 400)
        × (entry_of now r ≡ entry))
unfolding audit
audit-recorded_iff now r calls entry final =
    rw (call_all-status calls final) (ground (arith, is_mutation_iff r.method))

-- Without proxy headers the source of an entry is the peer's address less its port, which is what
-- follows the last colon.
pub entry_of-source_ip :
    (now : ℕ) (r : Request) (host port : String)
    → r.forwarded_for ≡ ""
    → r.real_ip ≡ ""
    → r.remote_addr ≡ host ++ (":" ++ port)
    → IsFreeOf b':' port
    → (entry_of now r).source_ip ≡ host
unfolding entry_of extract_ip
entry_of-source_ip now r host port xff xri addr free =
    rw (xff, xri, addr) (rw (before_last-colon host port free) refl)
