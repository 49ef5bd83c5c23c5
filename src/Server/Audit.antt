-- ===== src/Server/Audit.antt =====
-- internal/server/api/middleware/audit.go: the entry for the audit log that a request gives. The
-- handler behind the middleware is the list of the calls that it makes on its response writer. Record
-- runs on its own and its error is only logged, so the model ends with the entry passed to it.
pub mod Recorded
use Prim.Native.String.{◌++◌}
use netvantage.Prelude.{
  ℕ, ◌<◌, Bool, true, false, Option, none, some, List, [], ◌∷◌, String, ◌&&◌, ◌||◌, not, ltb, leb,
  length, last_or, ◌==◌, string_eq, if◌then◌else◌,
}
use netvantage.Prelude.Text.{trim_prefix, split_on, before_last, trim_space}
use netvantage.Transport.{Payload}

-- A call on the response writer.
pub data WriterCall : Type 0 where
  write_header : ℕ → WriterCall
  write : Payload → WriterCall

-- The fields of statusWriter, less the writer that it wraps and calls in turn.
pub record StatusWriter : Type 0 where
  pub status : ℕ
  pub written : Bool

-- WriteHeader and Write.
abbrev pub call_writer : WriterCall → StatusWriter → StatusWriter
call_writer (write_header code) w =
    if not w.written then record w { status = code; written = true } else w
call_writer (write b) w = if not w.written then record w { written = true } else w

pub call_all : List WriterCall → StatusWriter → StatusWriter
call_all [] w = w
call_all (c ∷ cs) w = call_all cs (call_writer c w)

abbrev pub new_status_writer : StatusWriter
new_status_writer = record { status = 200; written = false }

abbrev pub is_mutation : String → Bool
is_mutation method = method == "POST" || method == "PUT" || method == "PATCH" || method == "DELETE"

pub method_to_action : String → String
method_to_action method =
    if method == "POST"
    then "create"
    else if method == "PUT" || method == "PATCH"
    then "update"
    else if method == "DELETE"
    then "delete"
    else method

-- What the middleware reads of a request: the route's pattern (none without a route context), the
-- URL's parameters, headers and the address of the peer, and the context's id and role.
pub record Request : Type 0 where
  pub method : String
  pub body : Option Payload
  pub pattern : Option String
  pub url_id : String
  pub url_name : String
  pub forwarded_for : String
  pub real_ip : String
  pub remote_addr : String
  pub auth_id : Option String
  pub auth_role : Option String

pub record AuditEntry : Type 0 where
  pub timestamp : ℕ
  pub actor_id : String
  pub actor_role : String
  pub action : String
  pub resource : String
  pub resource_id : String
  pub source_ip : String
  pub change_diff : Option Payload

first_or : List String → String → String
first_or [] d = d
first_or (p ∷ ps) d = p

-- The resource's name from the parts of the pattern.
resource_name : List String → String
resource_name parts =
    let resource = first_or parts "" in
    if ltb 2 (length parts) then resource ++ ("." ++ last_or parts "") else resource

resource_id_of : Request → String
resource_id_of r = if not (r.url_id == "") then r.url_id else r.url_name

pub extract_resource : Request → String × String
unfolding resource_name resource_id_of first_or
extract_resource r = elim r.pattern [
  | none ↦ ("unknown", "")
  | some pattern ↦
      (resource_name (split_on b'/' (trim_prefix pattern "/api/v1/")), resource_id_of r)
]

abbrev or_text : Option String → String → String
or_text none d = d
or_text (some s) d = s

-- A request without a checked key has neither.
abbrev extract_actor_id : Request → String
extract_actor_id r = or_text r.auth_id "anonymous"

abbrev extract_actor_role : Request → String
extract_actor_role r = or_text r.auth_role "unknown"

unfoldable pub extract_ip : Request → String
unfolding first_or
extract_ip r =
    if not (r.forwarded_for == "")
    then trim_space (first_or (split_on b',' r.forwarded_for) "")
    else if not (r.real_ip == "")
    then r.real_ip
    else or_text (before_last b':' r.remote_addr) r.remote_addr

abbrev pub body_bytes : Request → Payload
body_bytes r = elim r.body [ none ↦ [] | some b ↦ b ]

-- The request body as the entry's diff, unless it is empty or too long.
pub change_diff_of : Request → Option Payload
change_diff_of r =
    let n = length (body_bytes r) in if ltb 0 n && ltb n 10_240 then some (body_bytes r) else none

unfoldable pub entry_of : ℕ → Request → AuditEntry
entry_of now r =
    let (resource, resource_id) = extract_resource r in
    record {
      timestamp = now;
      actor_id = extract_actor_id r;
      actor_role = extract_actor_role r;
      action = method_to_action r.method;
      resource = resource;
      resource_id = resource_id;
      source_ip = extract_ip r;
      change_diff = change_diff_of r;
    }

-- The entry that the middleware passes to Record, if it does.
pub audit : ℕ → Request → List WriterCall → Option AuditEntry
audit now r calls =
    let sw = call_all calls new_status_writer in
    if not (is_mutation r.method)
    then none
    else if leb 200 sw.status && ltb sw.status 400
    then some (entry_of now r)
    else none
