-- ===== src/Examples/Server.antt =====
-- A stored key, requests to the handlers and an audited request.
use Prim.Native.String.{◌++◌}
use netvantage.Prelude.{
  ◌≡◌, ◌≢◌, All, ◌⊎◌, refl, inl, inr, Option, none, some, List, [], ◌∷◌, pos, String, arith,
  if◌then◌else◌, ◌==◌, string_eq, eq_iff, Bool-cases,
}
use netvantage.Server.Auth.{ApiKey, authenticate, admitted as passed}
use netvantage.Server.Auth.Access.{authenticate-admitted_iff}
use netvantage.Server.Audit.{Request, write_header, write, entry_of, audit}
use netvantage.Server.Audit.Recorded.{client_status, audit-recorded_iff}
use netvantage.Server.Response.{Error, not_found}
use netvantage.Server.Tests.{
  TestDefinition, Repositories, CreateTestRequest, validate_create_request, new_test, create,
}
use netvantage.Server.Tests.Create.{
  IsRunnable, validate_create_request_iff, create-created_iff, create-Inv,
}

abbrev reader : ApiKey
reader = record {
  id = "k1";
  name = "reader";
  key_hash = "#secret";
  role = "viewer";
  scopes = [];
  created_at = 1;
  expires_at = some 100;
  last_used = none;
}

abbrev hash : String → String
hash token = "#" ++ token

abbrev stored_keys : String → Option ApiKey
stored_keys h = if h == "#secret" then some reader else none

abbrev secret : String
secret = "secret"

filled : secret ≢ ""
filled e = let empty = (eq_iff secret "").1 e in cc

authenticate-admitted_iff_example :
    authenticate hash stored_keys 50 ("admin" ∷ "viewer" ∷ []) "Bearer secret" ≡ passed reader
authenticate-admitted_iff_example =
    (authenticate-admitted_iff hash stored_keys 50 ("admin" ∷ "viewer" ∷ []) "Bearer secret"
        reader).1
      (("secret", refl, filled, refl), omega arith, inr (inl refl))

abbrev admin : String
admin = "admin"

not_admin : ¬ ((admin ≡ "viewer") ⊎ ⊥)
not_admin (inl e) = let same = (eq_iff admin "viewer").1 e in cc
not_admin (inr e) = e

abbrev post : Request
post = record {
  method = "POST";
  body = some (123 ∷ 125 ∷ []);
  pattern = some "/api/v1/tests/{id}/assign";
  url_id = "t1";
  url_name = "";
  forwarded_for = "";
  real_ip = "";
  remote_addr = "192.0.2.7:4000";
  auth_id = some "k1";
  auth_role = some "viewer";
}

audit-recorded_iff_example :
    audit 9 post (write_header 201 ∷ write [] ∷ []) ≡ some (entry_of 9 post)
audit-recorded_iff_example =
    (audit-recorded_iff 9 post (write_header 201 ∷ write [] ∷ []) (entry_of 9 post)
        (refl, (tt, tt))).1
      (inl refl, unfold client_status in omega arith, unfold client_status in omega arith, refl)

-- A store that is a list of definitions, which takes every one.
abbrev Store : Type 0
Store = List TestDefinition

abbrev find : String → Store → Error ⊎ TestDefinition
find id [] = inl (record { kind = not_found; message = "not found" })
find id (t ∷ ts) = if t.id == id then inr t else find id ts

abbrev replace : TestDefinition → Store → Store
replace t [] = []
replace t (u ∷ us) = let rest = replace t us in if u.id == t.id then t ∷ rest else u ∷ rest

abbrev repositories : Repositories Store
repositories = record {
  create_test = λ t s. (t ∷ s, none);
  get_test = find;
  list_tests = λ s. inr s;
  update_test = λ t s. (replace t s, none);
  delete_test = λ id s. (s, none);
  list_by_pop = λ pop s. inr s;
  assign = λ id pop s. (s, none);
}

abbrev quote : String → String
quote t = "\"" ++ (t ++ "\"")

abbrev ping_request : CreateTestRequest
ping_request = record {
  id = "t1";
  name = "ping";
  test_type = "ping";
  target = "192.0.2.1";
  interval_ms = pos 1_000;
  timeout_ms = pos 500;
  config = none;
  enabled = none;
  pops = "fra" ∷ [];
}

abbrev AllRunnable : Store → Type 0
AllRunnable = All IsRunnable

ping-accepted : validate_create_request quote ping_request ≡ none
unfolding validate_create_request
ping-accepted = refl

ping-IsRunnable : IsRunnable (new_test ping_request)
ping-IsRunnable = (validate_create_request_iff quote ping_request).0 ping-accepted

create-created_iff_example : (create quote repositories (inr ping_request) []).1.status ≡ 201
create-created_iff_example =
    (create-created_iff quote repositories (inr ping_request) []).1
      (ping_request, refl, ping-IsRunnable, refl)

create-Inv_example : AllRunnable (create quote repositories (inr ping_request) []).0
create-Inv_example =
    create-Inv quote repositories AllRunnable (λ t s h hs. (h, hs)) (λ id pop s h. h)
      (inr ping_request) [] tt

replace-AllRunnable :
    (t : TestDefinition) (s : Store) → IsRunnable t → AllRunnable s → AllRunnable (replace t s)
replace-AllRunnable t [] h hs = tt
replace-AllRunnable t (u ∷ us) h hs = ground (arith, replace-AllRunnable t us h hs.1)

find-IsRunnable :
    (id : String) (s : Store) (t : TestDefinition)
    → AllRunnable s
    → find id s ≡ inr t
    → IsRunnable t
find-IsRunnable id [] t hs e = cc
find-IsRunnable id (u ∷ us) t hs e = elim (Bool-cases (string_eq.beq u.id id)) [
  | inl here ↦ let same : u ≡ t = cc (rw here at e) in rw (← same) hs.0
  | inr later ↦ find-IsRunnable id us t hs.1 (rw later at e)
]
